-- ===== src/VmPool/Requests.antt =====
-- The methods of a VMPool that ask Azure: `getCurSize`, `IncreaseSize`, `DecreaseTargetSize` and
-- `DeleteNodes` of azure_vms_pool.go.
use cluster_autoscaler_provi.Base.Int.{ℤ, pos, ◌-ℤ◌, ◌+ℤ◌, ltb_ℤ, leb_ℤ, add64, int32}
use cluster_autoscaler_provi.Base.Maps.{insert}
use cluster_autoscaler_provi.Base.Text.{Text, eq_fold}
use cluster_autoscaler_provi.Base.{
  ℕ, Bool, true, false, ◌||◌, Option, none, some, List, [], ◌∷◌, if◌then◌else◌, length, is_empty,
}
use cluster_autoscaler_provi.Cache.{
  AzureCache, find_for_instance, set_instance_state_by_provider_id,
}
use cluster_autoscaler_provi.Errors.{
  api, Reply, on_reply, Outcome, ok, err, panic, ◌>>=◌, then_run, size_not_positive, size_too_large,
  spot_size_missing, min_size_reached, unknown_group, different_group,
}
use cluster_autoscaler_provi.ResourceId.{resource_name}
use cluster_autoscaler_provi.Types.{AksPool, AgentPoolProperties, SizeCount, deleting}
use cluster_autoscaler_provi.VmPool.{
  SkipOption, Body, Headers, get_pool, put_pool, poll_pool, delete_machines, Client, World,
  is_spot_agent_pool, size_in_status, is_hosted_system, build_request_body_for_scale_up,
  get_vms_from_cache, get_agentpool_from_cache,
}

abbrev pub status_of : Option AgentPoolProperties → List (Option SizeCount)
status_of none = []
status_of (some props) = props.nodes_status

abbrev pub spot_size : Text → Option ℤ → Outcome ℤ
spot_size name none = err (spot_size_missing name)
spot_size name (some n) = ok n

-- The body of the PUT: an empty one, unless the pool has manual scale profiles.
abbrev pub body_of : AgentPoolProperties → ℤ → Text → Option Body
body_of props count sku =
    if is_empty props.manual then none else some (build_request_body_for_scale_up props count sku)

-- The headers of the PUT, for autoscale profiles and for HostedSystem pools.
abbrev pub headers_of : AgentPoolProperties → ℤ → Text → Option Headers
headers_of props count sku =
    if props.autoscale || is_hosted_system props.mode
    then some (record { target_count = count; header_sku = sku })
    else none

-- The profiles are shared with the cached agent pool, so that the new count is in the cache, too.
abbrev pub profiles_after : Option Body → List (Option SizeCount) → List (Option SizeCount)
profiles_after none manual = manual
profiles_after (some body) manual = elim body.manual [ none ↦ manual | some profiles ↦ profiles ]

module _ {C : Type 0} where
  unfoldable pub remember_profiles : AksPool → AgentPoolProperties → Option Body → World C → World C
  remember_profiles ap props body w =
      let ap' : AksPool = record ap {
        properties = some (record props { manual = profiles_after body props.manual });
      } in
      record w {
        cache = record w.cache {
          vms_pool_map = insert w.pool.agent_pool_name ap' w.cache.vms_pool_map;
        };
      }

  -- `Belongs`, on a provider identifier.
  unfoldable pub belongs : Text → World C → Outcome Bool × World C
  belongs provider_id w =
      let r = find_for_instance provider_id w.vm_type w.cache in
      let w' = record w { cache = r.1 } in
      then_run (r.0, w')
        (λ found w₁. elim found [
          | none ↦ (err (unknown_group provider_id), w₁)
          | some group ↦ (ok (eq_fold group.id w₁.pool.name), w₁)
        ])

  -- `getProviderIDsForNodes`: all of the nodes, or an error.
  unfoldable pub get_provider_ids_for_nodes : List Text → World C → Outcome (List Text) × World C
  get_provider_ids_for_nodes [] w = (ok [], w)
  get_provider_ids_for_nodes (node ∷ nodes) w = then_run (belongs node w) (λ b w₁.
      if b
      then then_run (get_provider_ids_for_nodes nodes w₁) (λ ids w₂. (ok (node ∷ ids), w₂))
      else (err (different_group node), w₁))

abbrev pub mark_deleting : List Text → AzureCache → AzureCache
mark_deleting [] c = c
mark_deleting (id ∷ ids) c = mark_deleting ids (set_instance_state_by_provider_id id deleting c)

abbrev pub machine_names : List Text → Outcome (List Text)
machine_names [] = ok []
machine_names (id ∷ ids) =
    resource_name id >>= (λ name. machine_names ids >>= (λ names. ok (name ∷ names)))

module _ {C : Type 0} (client : Client C) where
  unfoldable pub invalidate_cache : World C → World C
  invalidate_cache w = record w {
    manager_last_refresh = client.now w.cloud -ℤ w.cache.refresh_interval;
  }

  unfoldable pub call_get : World C → Reply AksPool × World C
  call_get w =
      let r = client.get w.pool.agent_pool_name w.cloud in
      (r.0, record w { cloud = r.1; sent = get_pool ∷ w.sent })

  unfoldable pub call_put : Option Body → Option Headers → World C → Reply ℕ × World C
  call_put body headers w =
      let r = client.begin_create_or_update w.pool.agent_pool_name body headers w.cloud in
      (r.0, record w { cloud = r.1; sent = put_pool body headers ∷ w.sent })

  unfoldable pub call_delete : List Text → World C → Reply ℕ × World C
  call_delete names w =
      let r = client.begin_delete_machines w.pool.agent_pool_name names w.cloud in
      (r.0, record w { cloud = r.1; sent = delete_machines names ∷ w.sent })

  unfoldable pub call_poll : ℕ → World C → Reply (Unit {0}) × World C
  call_poll poller w =
      let r = client.poll_until_done poller w.cloud in
      (r.0, record w { cloud = r.1; sent = poll_pool poller ∷ w.sent })

  -- `getSpotPoolSize`, which asks Azure.
  unfoldable pub get_spot_pool_size : World C → Outcome ℤ × World C
  get_spot_pool_size w =
      on_reply (call_get w)
        (λ ap w'. (
          spot_size w'.pool.agent_pool_name (size_in_status w'.pool.sku (status_of ap.properties)),
          w',
        ))
        (λ e w'. (err (api e), w'))

  unfoldable pub get_cur_size : SkipOption → World C → Outcome ℤ × World C
  get_cur_size op w = elim (get_agentpool_from_cache w) [
    | err e ↦ (err e, w)
    | panic ↦ (panic, w)
    | ok ap ↦
        if is_spot_agent_pool ap
        then get_spot_pool_size w
        else (ok (int32 (pos (length (get_vms_from_cache op w)))), w)
  ]

  -- `TargetSize`: the VMs that are being deleted do not count.
  unfoldable pub target_size : World C → Outcome ℤ × World C
  target_size = get_cur_size (record { skip_deleting = true; skip_failed = false })

  -- A PUT or a deletion, to its end; the cache is invalidated in every case.
  unfoldable pub wait : Reply ℕ × World C → Outcome (Unit {0}) × World C
  wait r =
      on_reply r
        (λ poller w.
          on_reply (call_poll poller w) (λ _ w'. (ok tt, invalidate_cache w'))
            (λ e w'. (err (api e), invalidate_cache w')))
        (λ e w. (err (api e), invalidate_cache w))

  -- `IncreaseSize` once the agent pool is found.
  unfoldable pub scale_up : ℤ → ℤ → AksPool → World C → Outcome (Unit {0}) × World C
  scale_up size delta ap w = elim ap.properties [
    | none ↦ (panic, w)
    | some props ↦
        let count = int32 (size +ℤ int32 delta) in
        let body = body_of props count w.pool.sku in
        wait (call_put body (headers_of props count w.pool.sku) (remember_profiles ap props body w))
  ]

  unfoldable pub increase_size : ℤ → World C → Outcome (Unit {0}) × World C
  increase_size delta w =
      if leb_ℤ delta (pos 0)
      then (err size_not_positive, w)
      else then_run (get_cur_size (record { skip_deleting = true; skip_failed = true }) w)
          (λ size w₁.
            if ltb_ℤ w₁.pool.max_size (add64 size delta)
            then (err (size_too_large (add64 size delta) w₁.pool.max_size), w₁)
            else then_run (get_agentpool_from_cache w₁, w₁) (λ ap w₂. scale_up size delta ap w₂))

  -- `DecreaseTargetSize`.
  unfoldable pub decrease_target_size : ℤ → World C → Outcome (Unit {0}) × World C
  decrease_target_size delta w = (ok tt, invalidate_cache w)

  -- `DeleteNodes` for the identifiers of nodes that belong to the pool.
  unfoldable pub delete_ids : List Text → World C → Outcome (Unit {0}) × World C
  delete_ids [] w = (ok tt, w)
  delete_ids (id ∷ ids) w =
      let w' =
        if w.strict_cache_updates
        then w
        else record w { cache = mark_deleting (id ∷ ids) w.cache } in
      then_run (machine_names (id ∷ ids), w') (λ names w₁. wait (call_delete names w₁))

  unfoldable pub delete_nodes : List Text → World C → Outcome (Unit {0}) × World C
  delete_nodes provider_ids w =
      then_run (get_cur_size (record { skip_deleting = true; skip_failed = false }) w) (λ size w₁.
        if leb_ℤ size w₁.pool.min_size
        then (err min_size_reached, w₁)
        else then_run (get_provider_ids_for_nodes provider_ids w₁) delete_ids)
