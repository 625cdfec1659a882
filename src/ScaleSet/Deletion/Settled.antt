-- ===== src/ScaleSet/Deletion/Settled.antt =====
-- The instance cache after a failed deletion: `waitForDeleteInstances` of azure_scale_set.go.
use cluster_autoscaler_provi.Base.Text.{Text}
use cluster_autoscaler_provi.Base.{
  ℕ, ◌<◌, ◌≡◌, ◌⊎◌, inl, inr, refl, ◌∙◌, Bool, true, false, Option, none, some, List, [], ◌∷◌,
  arith, if◌then◌else◌, Bool-cases,
}
use cluster_autoscaler_provi.Cache.Fetch.{fetch_azure_resources}
use cluster_autoscaler_provi.Cache.Regenerate.{InstanceMaps, add_instances}
use cluster_autoscaler_provi.Errors.{
  ApiError, Reply, answer, failure, Outcome, ok, err, panic, then_run, then_run-trans,
}
use cluster_autoscaler_provi.Manager.{fetch_auto_node_groups}
use cluster_autoscaler_provi.ScaleSet.Deletion.Waiting.{
  collect_registered, nodes_of, store_maps, regenerate_world, refresh_resources, manager_of,
  refresh_world, refresh_or_invalidate, give_up, poll_retry, retry_deletion,
  wait_for_delete_instances,
}
use cluster_autoscaler_provi.ScaleSet.Deletion.{
  get_sku, is_operation_preempted, call_poll_delete, request_deletion, begin_deletion,
  call_begin_delete,
}
use cluster_autoscaler_provi.ScaleSet.Instances.{nodes}
use cluster_autoscaler_provi.ScaleSet.{
  list_resources, Client, World, time_now, invalidate_instance_cache, invalidate_last_size_refresh,
  invalidate_cache,
}
use cluster_autoscaler_provi.Types.{Instance, NodeGroup}
use cluster_autoscaler_provi.ScaleSet.Deletion.Renewed.{
  lists, IsForward, in_use, IsRenewing, IsRenewing-refl, IsRenewing-trans, either, nodes-IsRenewing,
}

module _ {C : Type 0} (client : Client C) where
  -- After n lists of VMs: the instances are not in use, or the VMs were listed once more. A panic ends
  -- the program.
  abbrev pub Settled : ℕ → Outcome (Unit {0}) × World C → Type 0
  Settled n (ok u, w) = (in_use client w ≡ false) ⊎ (n < lists w.sent)
  Settled n (err e, w) = ⊥
  Settled n (panic, w) = Unit

module _ {C : Type 0} (client : Client C) (forward : IsForward client)
    (group_nodes : NodeGroup → Outcome (List Instance)) where
  nodes_of-IsRenewing :
      (g : NodeGroup) (w : World C) → IsRenewing client w (nodes_of client group_nodes g w).1
  unfolding nodes_of
  nodes_of-IsRenewing g w =
      either client _ (nodes client w) (group_nodes g, w) w (nodes-IsRenewing client forward w)
        (IsRenewing-refl client w)

  collect_registered-IsRenewing :
      (gs : List NodeGroup) (maps : InstanceMaps) (w : World C)
      → IsRenewing client w (collect_registered client group_nodes gs maps w).1
  unfolding collect_registered
  collect_registered-IsRenewing [] maps w = IsRenewing-refl client w
  collect_registered-IsRenewing (g ∷ gs) maps w =
      then_run-trans (IsRenewing client) w (nodes_of client group_nodes g w) _
        (IsRenewing-trans client) (nodes_of-IsRenewing g w)
        (λ is. collect_registered-IsRenewing gs (add_instances g is maps) _)

  refresh_resources-IsRenewing :
      (w : World C) → IsRenewing client w (refresh_resources client group_nodes w).1
  unfolding refresh_resources regenerate_world store_maps
  refresh_resources-IsRenewing w =
      let listed = client.listing w.cloud in
      let w₁ = record w { cloud = listed.1; sent = list_resources ∷ w.sent } in
      let r = fetch_azure_resources listed.0 w.cache in
      let w₂ = record w₁ { cache = r.1 } in
      let begun : IsRenewing client w w₂ = ground (arith, forward.in_listing w.cloud) in
      then_run-trans (IsRenewing client) w (regenerate_world client group_nodes listed.0 w₁) _
        (IsRenewing-trans client)
        (then_run-trans (IsRenewing client) w (r.0, w₂) _ (IsRenewing-trans client) begun
          (λ u.
            then_run-trans (IsRenewing client) w₂
              (collect_registered client group_nodes w₂.cache.registered_node_groups ([], []) w₂) _
              (IsRenewing-trans client)
              (collect_registered-IsRenewing w₂.cache.registered_node_groups ([], []) w₂)
              (λ maps. ground (arith, IsRenewing-refl client w₂))))
        (λ u. ground (arith, IsRenewing-refl client w₂))

  refresh_world-IsRenewing :
      (w : World C) → IsRenewing client w (refresh_world client group_nodes w).1
  unfolding refresh_world
  refresh_world-IsRenewing w =
      let r = fetch_auto_node_groups (time_now client w) (manager_of client group_nodes w) in
      let w' = record w { cache = r.1.cache; last_refresh = r.1.last_refresh } in
      let found : IsRenewing client w w' = ground arith in resumed r.0 w' found
    where
      resumed :
          (m : Outcome (Unit {0})) (w' : World C)
          → IsRenewing client w w'
          → IsRenewing client w
              (elim m as (λ x. Outcome (Unit {0}) × World C) [
                | ok u ↦ refresh_resources client group_nodes w'
                | err e ↦ refresh_resources client group_nodes w'
                | panic ↦ (panic, w)
              ]).1
      resumed (ok u) w' k = IsRenewing-trans client w w' _ k (refresh_resources-IsRenewing w')
      resumed (err e) w' k = IsRenewing-trans client w w' _ k (refresh_resources-IsRenewing w')
      resumed panic w' k = IsRenewing-refl client w

  refresh_or_invalidate-Settled :
      (w : World C)
      → in_use client w ≡ false
      → Settled client (lists w.sent) (refresh_or_invalidate client group_nodes w)
  unfolding refresh_or_invalidate invalidate_cache
  refresh_or_invalidate-Settled w h =
      ended (refresh_world client group_nodes w).0 (refresh_world client group_nodes w).1
        (refresh_world-IsRenewing w)
    where
      ended :
          (m : Outcome (Unit {0})) (w' : World C)
          → IsRenewing client w w'
          → Settled client (lists w.sent) (elim m as (λ x. Outcome (Unit {0}) × World C) [
            | ok u ↦ (ok tt, w')
            | err e ↦ (ok tt, invalidate_cache client w')
            | panic ↦ (panic, w')
          ])
      ended (ok u) w' k = ground (arith, k.kept, h)
      ended (err e) w' k = ground (arith, k.kept, h)
      ended panic w' k = tt

  invalidate-in_use : (w : World C) → in_use client (invalidate_instance_cache client w) ≡ false
  unfolding invalidate_instance_cache
  invalidate-in_use w = ground arith

  give_up-Settled : (w : World C) → Settled client (lists w.sent) (give_up client group_nodes w)
  unfolding give_up invalidate_instance_cache invalidate_last_size_refresh
  give_up-Settled w =
      refresh_or_invalidate-Settled
        (invalidate_last_size_refresh client (invalidate_instance_cache client w))
        (invalidate-in_use w)

  -- The requests and the polls of the retry list no VMs.
  request_deletion-lists :
      (ids : List Text) (group : Text) (w : World C)
      → lists (request_deletion client ids group w).1.sent ≡ lists w.sent
  unfolding request_deletion begin_deletion call_begin_delete get_sku
  request_deletion-lists ids group w = ground arith

  poll_retry-lists :
      (m : Outcome (Option ℕ)) (w : World C)
      → lists (poll_retry client group_nodes m w).1.sent ≡ lists w.sent
  unfolding poll_retry call_poll_delete
  poll_retry-lists (ok none) w = refl
  poll_retry-lists (ok (some poller)) w = ground arith
  poll_retry-lists (err e) w = refl
  poll_retry-lists panic w = refl

  concluded :
      (n : ℕ) (m : Outcome Bool) (w : World C)
      → lists w.sent ≡ n
      → (m ≡ panic) ⊎ ((b : Bool) × (m ≡ ok b))
      → Settled client n (
          then_run
            (m, w)
            (λ succeeded w'.
              if succeeded
              then (ok tt, invalidate_instance_cache client w')
              else give_up client group_nodes w'))
  concluded n m w e (inl h) = rw h tt
  concluded n m w e (inr (true, h)) = rw h (inl (invalidate-in_use w))
  concluded n m w e (inr (false, h)) = rw (h, ← e) (give_up-Settled w)

  poll_retry-results :
      (m : Outcome (Option ℕ)) (w : World C)
      → ((poll_retry client group_nodes m w).0 ≡ panic)
        ⊎ ((b : Bool) × ((poll_retry client group_nodes m w).0 ≡ ok b))
  unfolding poll_retry
  poll_retry-results (ok none) w = inr (true, refl)
  poll_retry-results (ok (some poller)) w =
      polled (call_poll_delete client poller w).0 (call_poll_delete client poller w).1
    where
      polled :
          (m : Reply (Unit {0})) (w' : World C)
          → let r = elim m as (λ x. Outcome Bool × World C) [
            | answer u ↦ (ok true, w')
            | failure e ↦ (ok false, w')
          ] in
            (r.0 ≡ panic) ⊎ ((b : Bool) × (r.0 ≡ ok b))
      polled (answer u) w' = inr (true, refl)
      polled (failure e) w' = inr (false, refl)
  poll_retry-results (err e) w = inr (false, refl)
  poll_retry-results panic w = inl refl

  retry_deletion-Settled :
      (ids : List Text) (w : World C)
      → Settled client (lists w.sent) (retry_deletion client group_nodes ids w)
  unfolding retry_deletion
  retry_deletion-Settled ids w =
      let r = request_deletion client ids w.set.name w in
      let p = poll_retry client group_nodes r.0 r.1 in
      concluded (lists w.sent) p.0 p.1
        (poll_retry-lists r.0 r.1 ∙ request_deletion-lists ids w.set.name w)
        (poll_retry-results r.0 r.1)

  -- Where the deletion that waitForDeleteInstances waits for fails, whether it was preempted or
  -- not and however the retry and the refresh of the cache end, it returns, unless it panics,
  -- with the instance cache stale or after a list of the VMs that it sent. The clock does not go
  -- back while Azure reads.
  pub wait_for_delete_instances-Settled :
      (poller : ℕ) (ids : List Text) (e : ApiError) (c : C) (w : World C)
      → client.poll_deleted poller w.cloud ≡ (failure e, c)
      → Settled client (lists w.sent) (wait_for_delete_instances client group_nodes poller ids w)
  unfolding wait_for_delete_instances call_poll_delete
  wait_for_delete_instances-Settled poller ids e c w h =
      elim (Bool-cases (is_operation_preempted e)) [
        | inl b ↦
            rw (h, b, wait_for_delete_instances, call_poll_delete) (retry_deletion-Settled ids _)
        | inr b ↦ rw (h, b, wait_for_delete_instances, call_poll_delete) (give_up-Settled _)
      ]
