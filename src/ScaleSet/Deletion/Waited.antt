-- ===== src/ScaleSet/Deletion/Waited.antt =====
-- `waitForDeleteInstances` of azure_scale_set.go where the deletion that it waits for fails.
use cluster_autoscaler_provi.Base.Text.{Text}
use cluster_autoscaler_provi.Base.{
  ℕ, ◌≡◌, refl, Bool, true, false, Option, none, some, List, [], ◌∷◌, ◌∙◌, arith, if◌then◌else◌,
  Bool-cases, inl, inr,
}
use cluster_autoscaler_provi.Errors.{
  ApiError, failure, Outcome, ok, err, panic, Outcome-cases, then_run-ends, then_run-trans,
}
use cluster_autoscaler_provi.ScaleSet.Deletion.Looking.{batches}
use cluster_autoscaler_provi.ScaleSet.Deletion.Requested.{Requested, request_deletion-Requested}
use cluster_autoscaler_provi.ScaleSet.Deletion.{
  should_force_delete, is_operation_preempted, get_sku, call_poll_delete, request_deletion,
}
use cluster_autoscaler_provi.ScaleSet.Deletion.Waiting.{
  collect_registered, nodes_of, store_maps, regenerate_world, refresh_resources, manager_of,
  refresh_world, refresh_or_invalidate, give_up, poll_retry, retry_deletion,
  wait_for_delete_instances,
}
use cluster_autoscaler_provi.ScaleSet.Size.{adopt_capacity, refresh_spot, read_size, get_cur_size}
use cluster_autoscaler_provi.ScaleSet.Instances.{nodes, list_instances}
use cluster_autoscaler_provi.ScaleSet.Deletion.Looking.{update_instance_cache-IsLooking}
use cluster_autoscaler_provi.Cache.Fetch.{fetch_azure_resources}
use cluster_autoscaler_provi.Cache.Regenerate.{InstanceMaps, add_instances}
use cluster_autoscaler_provi.Manager.{fetch_auto_node_groups}
use cluster_autoscaler_provi.ScaleSet.{
  Client, World, list_resources, call_get, get_vmss_from_cache, time_now, invalidate_instance_cache,
  invalidate_last_size_refresh, invalidate_cache,
}
use cluster_autoscaler_provi.Types.{Vmss, Instance, NodeGroup}

-- A request for the same instances of the scale set.
abbrev pub IsExactly : Text → List Text → Text → List Text → Type 0
IsExactly name ids group ids' = (group ≡ name) × (ids' ≡ ids)

module _ {C : Type 0} where
  -- No deletion is asked for between two states.
  abbrev pub IsQuiet : World C → World C → Type 0
  IsQuiet w w' = batches w'.sent ≡ batches w.sent

  IsQuiet-trans : (w w' w'' : World C) → IsQuiet w w' → IsQuiet w' w'' → IsQuiet w w''
  IsQuiet-trans w w' w'' h k = k ∙ h

module _ {C : Type 0} (client : Client C) where
  -- Reading the size and the instances asks for no deletion.
  adopt_capacity-batches :
      (v : Vmss) (w : World C) → batches (adopt_capacity client v w).1.sent ≡ batches w.sent
  unfolding adopt_capacity invalidate_instance_cache
  adopt_capacity-batches v w = ground arith

  refresh_spot-batches : (w : World C) → batches (refresh_spot client w).1.sent ≡ batches w.sent
  unfolding refresh_spot call_get adopt_capacity invalidate_instance_cache
  refresh_spot-batches w = ground arith

  get_cur_size-batches : (w : World C) → batches (get_cur_size client w).1.sent ≡ batches w.sent
  unfolding get_cur_size read_size
  get_cur_size-batches w = elim (Outcome-cases (get_vmss_from_cache w)) [
    | inl (p, e) ↦ ground (arith, refresh_spot-batches w, adopt_capacity-batches (w.cache.heap p) w)
    | inr e ↦ ground arith
  ]

  nodes-batches : (w : World C) → batches (nodes client w).1.sent ≡ batches w.sent
  unfolding nodes list_instances
  nodes-batches w =
      let w' = (get_cur_size client w).1 in
      ground
        (arith, get_cur_size-batches w, (update_instance_cache-IsLooking client w').same_batches)

module _ {C : Type 0} (client : Client C) (group_nodes : NodeGroup → Outcome (List Instance)) where
  collect_registered-batches :
      (gs : List NodeGroup) (maps : InstanceMaps) (w : World C)
      → batches (collect_registered client group_nodes gs maps w).1.sent ≡ batches w.sent
  unfolding collect_registered nodes_of
  collect_registered-batches [] maps w = refl
  collect_registered-batches (g ∷ gs) maps w =
      then_run-trans IsQuiet w (nodes_of client group_nodes g w) _ IsQuiet-trans
        (ground (arith, nodes-batches client w))
        (λ is. collect_registered-batches gs (add_instances g is maps) _)

  refresh_resources-batches :
      (w : World C) → batches (refresh_resources client group_nodes w).1.sent ≡ batches w.sent
  unfolding refresh_resources regenerate_world store_maps
  refresh_resources-batches w =
      let listed = client.listing w.cloud in
      let w₁ = record w { cloud = listed.1; sent = list_resources ∷ w.sent } in
      let r = fetch_azure_resources listed.0 w.cache in
      let w₂ = record w₁ { cache = r.1 } in
      then_run-trans IsQuiet w (regenerate_world client group_nodes listed.0 w₁) _ IsQuiet-trans
        (then_run-trans IsQuiet w (r.0, w₂) _ IsQuiet-trans refl
          (λ u.
            then_run-trans IsQuiet w₂
              (collect_registered client group_nodes w₂.cache.registered_node_groups ([], []) w₂) _
              IsQuiet-trans (collect_registered-batches w₂.cache.registered_node_groups ([], []) w₂)
              (λ maps. refl)))
        (λ u. refl)

  refresh_world-batches :
      (w : World C) → batches (refresh_world client group_nodes w).1.sent ≡ batches w.sent
  unfolding refresh_world
  refresh_world-batches w = ground (
    arith,
    refresh_resources-batches (record w {
      cache =
          (fetch_auto_node_groups (time_now client w) (manager_of client group_nodes w)).1.cache;
      last_refresh =
          (fetch_auto_node_groups (time_now client w)
            (manager_of client group_nodes w)).1.last_refresh;
    }),
  )

  give_up-batches : (w : World C) → batches (give_up client group_nodes w).1.sent ≡ batches w.sent
  unfolding give_up refresh_or_invalidate invalidate_cache invalidate_last_size_refresh
      invalidate_instance_cache
  give_up-batches w = ground (
    arith,
    refresh_world-batches
        (invalidate_last_size_refresh client (invalidate_instance_cache client w)),
  )

  poll_retry-batches :
      (m : Outcome (Option ℕ)) (w : World C)
      → batches (poll_retry client group_nodes m w).1.sent ≡ batches w.sent
  unfolding poll_retry call_poll_delete
  poll_retry-batches (ok none) w = refl
  poll_retry-batches (ok (some poller)) w = ground arith
  poll_retry-batches (err e) w = refl
  poll_retry-batches panic w = refl

  -- The request of the retry, and the poll that follows it.
  retry-Requested :
      (sku : Text) (ids : List Text) (w : World C)
      → get_sku w ≡ ok sku
      → let r = request_deletion client ids w.set.name w in
        Requested
          (IsExactly w.set.name ids)
          (should_force_delete sku w.set)
          (batches w.sent)
          (batches (poll_retry client group_nodes r.0 r.1).1.sent)
  retry-Requested sku ids w e =
      let r = request_deletion client ids w.set.name w in
      rw (poll_retry-batches r.0 r.1) (
        request_deletion-Requested client (IsExactly w.set.name ids) sku ids w.set.name w e
          (refl, refl))

  -- The end of the retry asks for nothing.
  conclude-batches :
      (b : Bool) (w : World C)
      → batches (
          (if b
            then (ok tt, invalidate_instance_cache client w)
            else give_up client group_nodes w).1.sent)
        ≡ batches w.sent
  unfolding invalidate_instance_cache
  conclude-batches true w = refl
  conclude-batches false w = give_up-batches w

  retry_deletion-Requested :
      (sku : Text) (ids : List Text) (w : World C)
      → get_sku w ≡ ok sku
      → Requested
          (IsExactly w.set.name ids)
          (should_force_delete sku w.set)
          (batches w.sent)
          (batches (retry_deletion client group_nodes ids w).1.sent)
  unfolding retry_deletion
  retry_deletion-Requested sku ids w e =
      let r = request_deletion client ids w.set.name w in
      let polled = poll_retry client group_nodes r.0 r.1 in
      then_run-ends
        (λ s.
          Requested (IsExactly w.set.name ids) (should_force_delete sku w.set) (batches w.sent)
            (batches s.sent))
        polled _ (retry-Requested sku ids w e)
        (λ b h. rw (conclude-batches b polled.1) (retry-Requested sku ids w e))

  -- Where the deletion that waitForDeleteInstances waits for fails, at most one more is asked for, and
  -- only if the failure is an OperationPreempted: of the same instances of the scale set, forced
  -- exactly where shouldForceDelete says so of the cached VMSS's SKU, and after a forced request
  -- perhaps once more, not forced. The cached VMSS has an SKU, or there is no cached VMSS.
  pub wait_for_delete_instances-Requested :
      (sku : Text) (poller : ℕ) (ids : List Text) (e : ApiError) (c : C) (w : World C)
      → get_sku w ≡ ok sku
      → client.poll_deleted poller w.cloud ≡ (failure e, c)
      → let after = batches (wait_for_delete_instances client group_nodes poller ids w).1.sent in
        if is_operation_preempted e
        then Requested
            (IsExactly w.set.name ids)
            (should_force_delete sku w.set)
            (batches w.sent)
            after
        else after ≡ batches w.sent
  unfolding wait_for_delete_instances call_poll_delete get_sku get_vmss_from_cache
  wait_for_delete_instances-Requested sku poller ids e c w known h =
      elim (Bool-cases (is_operation_preempted e)) [
        | inl b ↦
            rw (h, b, wait_for_delete_instances, call_poll_delete)
              (retry_deletion-Requested sku ids (call_poll_delete client poller w).1 known)
        | inr b ↦ rw (h, b, wait_for_delete_instances, call_poll_delete) (give_up-batches _)
      ]
