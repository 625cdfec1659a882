-- ===== src/ScaleSet/Deletion/Requested.antt =====
-- What `DeleteInstances` of azure_scale_set.go asks Azure to delete, with the fallback of
-- `deleteInstances` in azure_force_delete_scale_set.go.
use cluster_autoscaler_provi.Base.Int.{pos}
use cluster_autoscaler_provi.Base.Text.{Text}
use cluster_autoscaler_provi.Base.{
  ◌≡◌, refl, ◌∙◌, inl, inr, Bool, true, false, Option, none, some, List, [], ◌∷◌, arith, ℕ,
  Bool-cases, length,
}
use cluster_autoscaler_provi.Errors.{ok, then_run, then_run-ends}
use cluster_autoscaler_provi.ScaleSet.Deletion.Looking.{
  Batch, batches, IsLooking, IsLooking-trans, find_group-IsLooking, select_instances-IsLooking,
  mark_deleting-IsLooking,
}
use cluster_autoscaler_provi.ScaleSet.Deletion.Selected.{
  IsOfOneGroup, IsChosen-back, select_instances-IsChosen,
}
use cluster_autoscaler_provi.ScaleSet.Deletion.{
  should_force_delete, is_denied, get_sku, find_group, begin_deletion, call_begin_delete,
  request_deletion, instance_ids, select_instances, charge, publish_deletion, leave_deletion,
  delete_selected, delete_of_group, delete_instances,
}
use cluster_autoscaler_provi.ScaleSet.{Client, World}
use cluster_autoscaler_provi.Types.{NodeGroup}

-- The requests to delete after some code, from those before it: none more, one, or a forced one and
-- then a normal one for the same instances of the same group. P is what the group and the instances
-- of a request are.
pub data Requested (P : Text → List Text → Type 0) (force : Bool) (old : List Batch)
    : List Batch → Type 0 where
  nothing : Requested P force old old
  once :
      (group : Text) (ids : List Text)
      → P group ids
      → Requested P force old ((group, (ids, force)) ∷ old)
  fallback :
      (group : Text) (ids : List Text)
      → P group ids
      → force ≡ true
      → Requested P force old ((group, (ids, false)) ∷ (group, (ids, true)) ∷ old)

module _ {C : Type 0} (client : Client C) where
  -- A request changes nothing but the state of Azure and the calls sent.
  pub record IsAsking (w w' : World C) : Type 0 where
    pub same_set : w'.set ≡ w.set
    pub same_config : w'.config ≡ w.config
    pub same_cache : w'.cache ≡ w.cache
    pub same_pending : w'.deletions ≡ w.deletions

  pub begin_deletion-IsAsking :
      (force : Bool) (ids : List Text) (group : Text) (w : World C)
      → IsAsking w (begin_deletion client force ids group w).1
  unfolding begin_deletion call_begin_delete
  begin_deletion-IsAsking force ids group w = ground arith

  module _ (P : Text → List Text → Type 0) where
    begin_deletion-Requested :
        (force : Bool) (ids : List Text) (group : Text) (w : World C)
        → P group ids
        → Requested P force
            (batches w.sent)
            (batches (begin_deletion client force ids group w).1.sent)
    unfolding begin_deletion call_begin_delete
    begin_deletion-Requested false ids group w p = once group ids p
    begin_deletion-Requested true ids group w p =
        elim (Bool-cases (is_denied (client.begin_delete_instances group ids true w.cloud).0)) [
          | inl e ↦ rw (e, begin_deletion, call_begin_delete) (fallback group ids p refl)
          | inr e ↦ rw (e, begin_deletion, call_begin_delete) (once group ids p)
        ]

    pub request_deletion-Requested :
        (sku : Text) (ids : List Text) (group : Text) (w : World C)
        → get_sku w ≡ ok sku
        → P group ids
        → Requested P
            (should_force_delete sku w.set)
            (batches w.sent)
            (batches (request_deletion client ids group w).1.sent)
    unfolding request_deletion
    request_deletion-Requested sku ids group w e p =
        rw (e, request_deletion)
          (begin_deletion-Requested (should_force_delete sku w.set) ids group w p)

  publish_deletion-batches :
      (instances ids : List Text) (unregistered : Bool) (w : World C)
      → batches (publish_deletion client instances ids unregistered w).1.sent ≡ batches w.sent
  unfolding publish_deletion charge
  publish_deletion-batches instances ids unregistered w = ground (
    arith,
    (mark_deleting-IsLooking client instances w).same_batches,
    (mark_deleting-IsLooking client instances (charge client (pos (length ids)) w)).same_batches,
  )

  leave_deletion-batches :
      (poller : Option ℕ) (ids : List Text) (w : World C)
      → batches (leave_deletion client poller ids w).sent ≡ batches w.sent
  unfolding leave_deletion
  leave_deletion-batches none ids w = refl
  leave_deletion-batches (some p) ids w = refl

  -- The updates after the request send no other.
  finish-batches :
      (instances ids : List Text) (unregistered : Bool) (poller : Option ℕ) (w : World C)
      → batches
          (then_run {0, 0, 0}
            (publish_deletion client instances ids unregistered w)
            (λ u w₃. (ok tt, leave_deletion client poller ids w₃))).1.sent
        ≡ batches w.sent
  finish-batches instances ids unregistered poller w =
      then_run-ends (λ s. batches s.sent ≡ batches w.sent)
        (publish_deletion client instances ids unregistered w) _
        (publish_deletion-batches instances ids unregistered w)
        (λ u e.
          leave_deletion-batches poller ids (publish_deletion client instances ids unregistered w).1
          ∙ publish_deletion-batches instances ids unregistered w)

  same_force_delete :
      (sku : Text) (w w₁ : World C)
      → IsLooking w w₁
      → should_force_delete sku w₁.set ≡ should_force_delete sku w.set
  unfolding should_force_delete
  same_force_delete sku w w₁ k = rw (k.same_force, k.same_host) refl

  -- Whatever the request is for, if its identifiers are those of the instances.
  module _ (P : Text → List Text → Type 0) where
    delete_selected-Requested :
        (sku common_id : Text) (unregistered : Bool) (instances : List Text) (w : World C)
        → get_sku w ≡ ok sku
        → ((ids : List Text) → instance_ids instances ≡ ok ids → P common_id ids)
        → Requested P
            (should_force_delete sku w.set)
            (batches w.sent)
            (batches (delete_selected client common_id unregistered instances w).1.sent)
    unfolding delete_selected
    delete_selected-Requested sku common_id unregistered [] w e p = nothing
    delete_selected-Requested sku common_id unregistered (i ∷ is) w e p =
        let Q : World C → Type 0 =
          λ s. Requested P (should_force_delete sku w.set) (batches w.sent) (batches s.sent) in
        then_run-ends Q (instance_ids (i ∷ is), w) _ nothing
          (λ ids e₁.
            let asked = request_deletion-Requested P sku ids common_id w e (p ids e₁) in
            then_run-ends Q (request_deletion client ids common_id w) _ asked (λ poller e₂.
              rw
                (finish-batches (i ∷ is) ids unregistered poller
                  (request_deletion client ids common_id w).1)
                asked))

    delete_group-Requested :
        (sku common_id : Text) (unregistered : Bool) (is : List Text) (w w₁ : World C)
        → get_sku w ≡ ok sku
        → IsLooking w w₁
        → ((ids : List Text) → instance_ids is ≡ ok ids → P common_id ids)
        → Requested P
            (should_force_delete sku w.set)
            (batches w.sent)
            (batches (delete_selected client common_id unregistered is w₁).1.sent)
    delete_group-Requested sku common_id unregistered is w w₁ e k p =
        rw (← k.same_batches, ← same_force_delete sku w w₁ k)
          (delete_selected-Requested sku common_id unregistered is w₁ (k.same_sku ∙ e) p)

  delete_of_group-Requested :
      (sku : Text) (found : Option NodeGroup) (is : List Text) (unregistered : Bool)
      (w w₁ : World C)
      → get_sku w ≡ ok sku
      → IsLooking w w₁
      → Requested
          (IsOfOneGroup w is)
          (should_force_delete sku w.set)
          (batches w.sent)
          (batches (delete_of_group client found is unregistered w₁).1.sent)
  unfolding delete_of_group
  delete_of_group-Requested sku none is unregistered w w₁ e k = rw k.same_batches nothing
  delete_of_group-Requested sku (some common) is unregistered w w₁ e k =
      let Q : World C → Type 0 = λ s.
        Requested (IsOfOneGroup w is) (should_force_delete sku w.set) (batches w.sent)
          (batches s.sent) in
      let r = select_instances client common.id is w₁ in
      let k' = IsLooking-trans w w₁ r.1 k (select_instances-IsLooking client common.id is w₁) in
      then_run-ends Q r _ (rw k'.same_batches nothing) (λ chosen e'.
        let all =
          IsChosen-back w w₁ common.id is is chosen (λ j m. m) k
            (select_instances-IsChosen client common.id is chosen w₁ e') in
        delete_group-Requested (IsOfOneGroup w is) sku common.id unregistered chosen w r.1 e k'
          (λ ids named. (chosen, named, all)))

  -- Whatever it ends with, DeleteInstances asks Azure for one deletion at most. The request is for
  -- identifiers of some of the given instances, each of which the cache has in the group of the
  -- request, letter case aside. It is forced exactly where shouldForceDelete says so of the SKU of
  -- the cached VMSS; only a forced request is followed by a second one, for the same instances of the
  -- same group and not forced. The cached VMSS has an SKU, or there is no cached VMSS.
  pub delete_instances-Requested :
      (sku : Text) (is : List Text) (unregistered : Bool) (w : World C)
      → get_sku w ≡ ok sku
      → Requested
          (IsOfOneGroup w is)
          (should_force_delete sku w.set)
          (batches w.sent)
          (batches (delete_instances client is unregistered w).1.sent)
  unfolding delete_instances
  delete_instances-Requested sku [] unregistered w e = nothing
  delete_instances-Requested sku (i ∷ is) unregistered w e =
      let Q : World C → Type 0 = λ s.
        Requested (IsOfOneGroup w (i ∷ is)) (should_force_delete sku w.set) (batches w.sent)
          (batches s.sent) in
      let k = find_group-IsLooking i w in
      then_run-ends Q (find_group i w) _ (rw k.same_batches nothing) (λ found e₁.
        delete_of_group-Requested sku found (i ∷ is) unregistered w (find_group i w).1 e k)
