-- ===== src/ScaleSet/Deletion/Recorded.antt =====
-- What `DeleteInstances` of azure_scale_set.go records of a deletion: the size, and the goroutine
-- that waits.
use mathlib.Core.Path.{subst}
use cluster_autoscaler_provi.Base.Int.{pos, ◌<ℤ◌}
use cluster_autoscaler_provi.Base.Text.{Text}
use cluster_autoscaler_provi.Base.{
  ◌^◌, refl, sym, ap, ◌∙◌, inl, inr, Bool, ◌||◌, Option, none, some, List, [], ◌∷◌,
}
use cluster_autoscaler_provi.Errors.{Outcome, ok, err, panic, then_run-results}
use cluster_autoscaler_provi.ScaleSet.Deletion.Charged.{
  IsSize-congr, Recorded, unrecorded, request_deletion-IsRequest, request_deletion-IsUnrecorded,
  publish_deletion-IsLooking, publish_deletion-never_fails, finish-IsRecord,
}
use cluster_autoscaler_provi.ScaleSet.Deletion.Looking.{
  IsLooking, IsLooking-refl, IsLooking-trans, find_group-IsLooking, select_instances-IsLooking,
}
use cluster_autoscaler_provi.ScaleSet.Deletion.{
  find_group, request_deletion, instance_ids, select_instances, publish_deletion, delete_selected,
  delete_of_group, delete_instances,
}
use cluster_autoscaler_provi.ScaleSet.{Client, World}
use cluster_autoscaler_provi.Types.{NodeGroup}

module _ {C : Type 0} (client : Client C) where
  delete_selected-Recorded :
      (common_id : Text) (unregistered : Bool) (is : List Text) (w : World C)
      → w.set.cur_size <ℤ pos (2 ^ 63)
      → Recorded unregistered w (delete_selected client common_id unregistered is w)
  unfolding delete_selected
  delete_selected-Recorded common_id unregistered [] w small = inl (IsLooking-refl w)
  delete_selected-Recorded common_id unregistered (i ∷ is) w small =
      let P = Recorded unregistered w in
      then_run-results P (instance_ids (i ∷ is), w) _ (λ e h. unrecorded w w (IsLooking-refl w)) tt
        (λ ids h.
          let r = request_deletion client ids common_id w in
          then_run-results P r _ (λ e h'. request_deletion-IsUnrecorded client ids common_id w) tt
            (λ poller h'.
              let p = publish_deletion client (i ∷ is) ids unregistered r.1 in
              then_run-results P p _
                (λ e h''.
                  absurd (publish_deletion-never_fails client (i ∷ is) ids unregistered r.1 e h''))
                tt
                (λ u h''. inr (
                  finish-IsRecord client unregistered ids poller w r.1 p.1 small
                    (request_deletion-IsRequest client ids common_id poller w h')
                    (publish_deletion-IsLooking client (i ∷ is) ids unregistered r.1)))))

  -- Looking first changes nothing that is recorded.
  Recorded-looking :
      (unregistered : Bool) (w w₁ : World C) (r : Outcome (Unit {0}) × World C)
      → IsLooking w w₁
      → Recorded unregistered w₁ r
      → Recorded unregistered w r
  Recorded-looking unregistered w w₁ (panic, w') k h = tt
  Recorded-looking unregistered w w₁ (err e, w') k h = record {
    same_size = h.same_size ∙ k.same_size;
    same_refresh = h.same_refresh ∙ k.same_refresh;
    same_deletions = h.same_deletions ∙ k.same_deletions;
  }
  Recorded-looking unregistered w w₁ (ok u, w') k (inl h) = inl (IsLooking-trans w w₁ w' k h)
  Recorded-looking unregistered w w₁ (ok u, w') k (inr h) = inr (record {
    size =
        IsSize-congr _ _ _ _ _ _ _ _ _ _ (ap (λ b. b || unregistered) (sym k.same_strict)) refl
          (sym k.same_size) refl refl h.size;
    waiting = rw (← k.same_deletions) h.waiting;
  })

  delete_of_group-Recorded :
      (found : Option NodeGroup) (is : List Text) (unregistered : Bool) (w : World C)
      → w.set.cur_size <ℤ pos (2 ^ 63)
      → Recorded unregistered w (delete_of_group client found is unregistered w)
  unfolding delete_of_group
  delete_of_group-Recorded none is unregistered w small = tt
  delete_of_group-Recorded (some common) is unregistered w small =
      let r = select_instances client common.id is w in
      let k = select_instances-IsLooking client common.id is w in
      then_run-results (Recorded unregistered w) r _ (λ e h. unrecorded w r.1 k) tt
        (λ chosen h. Recorded-looking unregistered w r.1 _ k (
          delete_selected-Recorded common.id unregistered chosen r.1
            (subst (λ n. n <ℤ pos (2 ^ 63)) (sym k.same_size) small)))

  -- What DeleteInstances records, from a size in memory that int64 holds. Where it succeeds it either
  -- changed neither the size nor the goroutines that wait and asked for nothing, or it asked for a
  -- deletion of k instances: then the size is k less and not negative, or it was below k, stays and
  -- is stale (under strict cache updates, and with an instance that is not registered, it just
  -- stays), and no goroutine more waits, or one for the poller and the same k instances. Where it
  -- fails, the size, the time it was read and the goroutines are as before.
  pub delete_instances-Recorded :
      (is : List Text) (unregistered : Bool) (w : World C)
      → w.set.cur_size <ℤ pos (2 ^ 63)
      → Recorded unregistered w (delete_instances client is unregistered w)
  unfolding delete_instances
  delete_instances-Recorded [] unregistered w small = inl (IsLooking-refl w)
  delete_instances-Recorded (i ∷ is) unregistered w small =
      let r = find_group i w in
      let k = find_group-IsLooking i w in
      then_run-results (Recorded unregistered w) r _ (λ e h. unrecorded w r.1 k) tt
        (λ found h. Recorded-looking unregistered w r.1 _ k (
          delete_of_group-Recorded found (i ∷ is) unregistered r.1
            (subst (λ n. n <ℤ pos (2 ^ 63)) (sym k.same_size) small)))
