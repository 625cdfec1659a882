-- ===== src/ScaleSet/Deletion/Waiting.antt =====
-- `waitForDeleteInstances` of azure_scale_set.go, with the refresh of the manager that it runs.
use cluster_autoscaler_provi.Base.Int.{eqb_ℤ}
use cluster_autoscaler_provi.Base.Text.{Text, eq_fold}
use cluster_autoscaler_provi.Base.{
  ℕ, Bool, true, false, ◌&&◌, Option, none, some, List, [], ◌∷◌, if◌then◌else◌,
}
use cluster_autoscaler_provi.Cache.Fetch.{Listing, fetch_azure_resources}
use cluster_autoscaler_provi.Cache.Regenerate.{InstanceMaps, add_instances, collect_options}
use cluster_autoscaler_provi.Errors.{answer, failure, Outcome, ok, err, panic, then_run}
use cluster_autoscaler_provi.Manager.{Manager, fetch_auto_node_groups}
use cluster_autoscaler_provi.ScaleSet.Deletion.{
  is_operation_preempted, call_poll_delete, request_deletion,
}
use cluster_autoscaler_provi.ScaleSet.Instances.{nodes}
use cluster_autoscaler_provi.ScaleSet.{
  ScaleSet, Client, World, list_resources, time_now, invalidate_instance_cache,
  invalidate_last_size_refresh, invalidate_cache,
}
use cluster_autoscaler_provi.Types.{Instance, NodeGroup, is_scale_set}

-- Whether a registered group is the scale set itself: `Register` keeps an object while its Id and its
-- sizes stay.
abbrev pub is_own : ScaleSet → NodeGroup → Bool
is_own s g =
    is_scale_set g.kind
    && eq_fold g.id s.name
    && eqb_ℤ g.min_size s.min_size
    && eqb_ℤ g.max_size s.max_size

-- What `Nodes` of every other group answers is `group_nodes`.
module _ {C : Type 0} (client : Client C) (group_nodes : NodeGroup → Outcome (List Instance)) where
  unfoldable pub nodes_of : NodeGroup → World C → Outcome (List Instance) × World C
  nodes_of g w = if is_own w.set g then nodes client w else (group_nodes g, w)

  -- The loop of `regenerate` over the groups; the scale set's own `Nodes` may refresh its size and
  -- its instances.
  unfoldable pub collect_registered :
      List NodeGroup → InstanceMaps → World C → Outcome InstanceMaps × World C
  collect_registered [] maps w = (ok maps, w)
  collect_registered (g ∷ gs) maps w =
      then_run (nodes_of g w) (λ is w'. collect_registered gs (add_instances g is maps) w')

  -- The end of `regenerate`.
  unfoldable pub store_maps : InstanceMaps → World C → World C
  store_maps maps w = record w {
    cache = record w.cache {
      instance_to_node_group = maps.0;
      instance_states = maps.1;
      autoscaling_options = collect_options w.cache.heap w.cache.scale_sets [];
      unowned_instances = [];
    };
  }

  unfoldable pub regenerate_world : Listing → World C → Outcome (Unit {0}) × World C
  regenerate_world l w =
      let r = fetch_azure_resources l w.cache in
      then_run (r.0, record w { cache = r.1 })
        (λ _ w₁.
          then_run (collect_registered w₁.cache.registered_node_groups ([], []) w₁)
            (λ maps w₂. (ok tt, store_maps maps w₂)))

  abbrev pub manager_of : World C → Manager
  manager_of w = record {
    vm_type = w.config.vm_type;
    cache = w.cache;
    last_refresh = w.last_refresh;
    auto_discovery_specs = w.auto_discovery_specs;
    explicitly_configured = w.explicitly_configured;
  }

  -- `forceRefresh` after its discovery of groups, whose error is only logged.
  unfoldable pub refresh_resources : World C → Outcome (Unit {0}) × World C
  refresh_resources w =
      let listed = client.listing w.cloud in
      then_run
        (regenerate_world listed.0 (record w { cloud = listed.1; sent = list_resources ∷ w.sent }))
        (λ _ w'. (ok tt, record w' { last_refresh = time_now client w' }))

  -- `forceRefresh` of the manager.
  unfoldable pub refresh_world : World C → Outcome (Unit {0}) × World C
  refresh_world w =
      let r = fetch_auto_node_groups (time_now client w) (manager_of w) in
      let w' = record w { cache = r.1.cache; last_refresh = r.1.last_refresh } in
      elim r.0 [ ok u ↦ refresh_resources w' | err e ↦ refresh_resources w' | panic ↦ (panic, w) ]

  -- A refresh that fails leaves the cache as stale.
  unfoldable pub refresh_or_invalidate : World C → Outcome (Unit {0}) × World C
  refresh_or_invalidate w =
      let r = refresh_world w in
      elim r.0 [
        | ok u ↦ (ok tt, r.1)
        | err e ↦ (ok tt, invalidate_cache client r.1)
        | panic ↦ (panic, r.1)
      ]

  -- The end of `waitForDeleteInstances` where the deletion failed.
  unfoldable pub give_up : World C → Outcome (Unit {0}) × World C
  give_up w =
      refresh_or_invalidate
        (invalidate_last_size_refresh client (invalidate_instance_cache client w))

  -- The one that follows the retry: whether it succeeded.
  unfoldable pub poll_retry : Outcome (Option ℕ) → World C → Outcome Bool × World C
  poll_retry (ok none) w = (ok true, w)
  poll_retry (ok (some poller)) w =
      let r = call_poll_delete client poller w in
      elim r.0 [ answer u ↦ (ok true, r.1) | failure e ↦ (ok false, r.1) ]
  poll_retry (err e) w = (ok false, w)
  poll_retry panic w = (panic, w)

  unfoldable pub retry_deletion : List Text → World C → Outcome (Unit {0}) × World C
  retry_deletion ids w =
      let r = request_deletion client ids w.set.name w in
      then_run (poll_retry r.0 r.1) (λ succeeded w'.
        if succeeded then (ok tt, invalidate_instance_cache client w') else give_up w')

  -- `waitForDeleteInstances`.
  unfoldable pub wait_for_delete_instances : ℕ → List Text → World C → Outcome (Unit {0}) × World C
  wait_for_delete_instances poller ids w =
      let r = call_poll_delete client poller w in
      elim r.0 [
        | answer u ↦
            if r.1.config.strict_cache_updates
            then then_run (refresh_or_invalidate r.1)
                (λ _ w'. (ok tt, invalidate_instance_cache client w'))
            else (ok tt, r.1)
        | failure e ↦ if is_operation_preempted e then retry_deletion ids r.1 else give_up r.1
      ]
