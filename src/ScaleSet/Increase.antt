-- ===== src/ScaleSet/Increase.antt =====
-- Growing a scale set: `IncreaseSize`, `AtomicIncreaseSize` and what they call in
-- azure_scale_set.go, down to the PUT with the cached ETag and its one retry.
use cluster_autoscaler_provi.Base.Int.{ℤ, pos, ltb_ℤ, leb_ℤ, add64}
use cluster_autoscaler_provi.Base.Text.{Text}
use cluster_autoscaler_provi.Base.{
  ℕ, Bool, false, ◌&&◌, Option, none, some, ◌∷◌, if◌then◌else◌, ◌==◌,
}
use cluster_autoscaler_provi.Cache.{set_scale_set}
use cluster_autoscaler_provi.Errors.{
  ApiError, response, other_error, api, Reply, answer, failure, on_reply, Outcome, ok, err, panic,
  then_run,
}
use cluster_autoscaler_provi.ScaleSet.Size.{can_increase_size}
use cluster_autoscaler_provi.ScaleSet.{
  PutRequest, Client, World, get_vmss_from_cache, write_vmss, time_now, call_get, call_put,
  call_poll, invalidate_instance_cache, invalidate_last_size_refresh, invalidate_cache, capacity_of,
  with_capacity,
}
use cluster_autoscaler_provi.Types.{Vmss}

-- `isPreconditionFailedError`: HTTP status 412.
unfoldable pub is_precondition_failed_error : ApiError → Bool
is_precondition_failed_error (response status code retry_after) = status == 412
is_precondition_failed_error (other_error message) = false

-- `buildScaleSetCapacityUpdate`, with the If-Match of the options; none where the SKU is nil, which
-- is a nil dereference.
unfoldable pub build_scale_set_capacity_update : Vmss → ℤ → Option Text → Option PutRequest
build_scale_set_capacity_update v new_size if_match = elim v.sku [
  | none ↦ none
  | some s ↦ some (record {
    location = v.location;
    sku_name = s.sku_name;
    tier = s.tier;
    capacity = new_size;
    extended_location = v.extended_location;
    if_match = if_match;
  })
]

-- `fresh.SKU != nil && fresh.SKU.Capacity != nil && *fresh.SKU.Capacity >= newSize`.
unfoldable pub meets_target : Vmss → ℤ → Bool
meets_target v n = elim (capacity_of v) [ none ↦ false | some m ↦ leb_ℤ n m ]

-- The new ETag that a finished PUT brings, where ETags are in use.
abbrev pub with_etag : Bool → Option Text → Vmss → Vmss
with_etag enabled none v = v
with_etag enabled (some e) v = if enabled then record v { etag = some e } else v

module _ {C : Type 0} (client : Client C) where
  -- `invalidateForPreconditionFailure`.
  unfoldable pub invalidate_for_precondition_failure : World C → World C
  invalidate_for_precondition_failure w =
      invalidate_cache client
        (invalidate_last_size_refresh client (invalidate_instance_cache client w))

  -- The second PUT of `retryCreateOrUpdateWithFreshETag`, for the fresh object at an address.
  unfoldable pub retry_put : Vmss → ℕ → ℤ → World C → Outcome (ℕ × Option ℕ) × World C
  retry_put fresh q new_size w = elim (build_scale_set_capacity_update fresh new_size fresh.etag) [
    | none ↦ (panic, w)
    | some op ↦
        on_reply (call_put client w.set.name op w) (λ poller w'. (ok (q, poller), w'))
          (λ e w'. (err (api e), invalidate_for_precondition_failure w'))
  ]

  -- The fresh object goes into the cache, and the instance cache is invalidated.
  unfoldable pub store_fresh : Vmss → World C → World C
  store_fresh fresh w =
      invalidate_instance_cache client (record w { cache = set_scale_set w.set.name fresh w.cache })

  -- `retryCreateOrUpdateWithFreshETag` once the GET has answered: no PUT where the target is met.
  unfoldable pub retry_with : ℤ → Vmss → World C → Outcome (ℕ × Option ℕ) × World C
  retry_with new_size fresh w =
      let q = w.cache.next in
      let w' = store_fresh fresh w in
      if meets_target fresh new_size then (ok (q, none), w') else retry_put fresh q new_size w'

  unfoldable pub retry_create_or_update_with_fresh_etag :
      ℤ → World C → Outcome (ℕ × Option ℕ) × World C
  retry_create_or_update_with_fresh_etag new_size w =
      on_reply (call_get client w.set.name w) (λ fresh w'. retry_with new_size fresh w')
        (λ e w'. (err (api e), invalidate_for_precondition_failure w'))

  -- `initCreateOrUpdate` once the PUT has answered: an ETag that did not match is tried again.
  unfoldable pub settle_put : ℕ → ℤ → Reply (Option ℕ) × World C → Outcome (ℕ × Option ℕ) × World C
  settle_put p new_size (answer poller, w) = (ok (p, poller), w)
  settle_put p new_size (failure e, w) =
      if w.config.enable_vmss_etag && is_precondition_failed_error e
      then retry_create_or_update_with_fresh_etag new_size w
      else (err (api e), w)

  -- The If-Match of the options: the cached ETag, where ETags are in use.
  abbrev pub if_match_of : World C → Vmss → Option Text
  if_match_of w v = if w.config.enable_vmss_etag then v.etag else none

  -- `initCreateOrUpdate`: the address of the object to track, and the poller.
  unfoldable pub init_create_or_update : ℕ → ℤ → World C → Outcome (ℕ × Option ℕ) × World C
  init_create_or_update p new_size w =
      let v = w.cache.heap p in
      elim (build_scale_set_capacity_update v new_size (if_match_of w v)) [
        | none ↦ (panic, w)
        | some op ↦ settle_put p new_size (call_put client w.set.name op w)
      ]

  -- `scaleSet.curSize = n` and `scaleSet.lastSizeRefresh = time.Now()`.
  unfoldable pub publish_size : ℤ → World C → World C
  publish_size n w = record w {
    set = record w.set { cur_size = n; last_size_refresh = time_now client w };
  }

  -- The part of `createOrUpdateInstances` after the PUT was accepted. With no poller and another
  -- object than the caller's the capacity of that object is published, and is dereferenced.
  unfoldable pub publish_update : ℕ → ℤ → ℕ → Option ℕ → World C → Outcome (Unit {0}) × World C
  publish_update p new_size q (some poller) w =
      let w₁ = write_vmss q (with_capacity (some new_size) (w.cache.heap q)) w in
      let w₂ = publish_size new_size w₁ in (ok tt, record w₂ { pending = (poller, q) ∷ w₂.pending })
  publish_update p new_size q none w =
      if q == p then (ok tt, publish_size new_size w) else elim (capacity_of (w.cache.heap q)) [
        | none ↦ (panic, w)
        | some n ↦ (ok tt, publish_size n w)
      ]

  -- `vmssInfo.SKU.Capacity = previousSize` after an error.
  unfoldable pub roll_back : ℕ → Option ℤ → World C → World C
  roll_back p previous w = write_vmss p (with_capacity previous (w.cache.heap p)) w

  -- The results of `initCreateOrUpdate` in `createOrUpdateInstances`.
  unfoldable pub finish_update :
      ℕ → Option ℤ → ℤ → Outcome (ℕ × Option ℕ) × World C → Outcome (Unit {0}) × World C
  finish_update p previous new_size (ok (q, poller), w) = publish_update p new_size q poller w
  finish_update p previous new_size (err e, w) = (err e, roll_back p previous w)
  finish_update p previous new_size (panic, w) = (panic, w)

  -- `createOrUpdateInstances`. The nil SKU is the panic of `vmssInfo.SKU.Capacity`.
  unfoldable pub create_or_update_instances : ℕ → ℤ → World C → Outcome (Unit {0}) × World C
  create_or_update_instances p new_size w = elim (w.cache.heap p).sku [
    | none ↦ (panic, w)
    | some s ↦ finish_update p s.capacity new_size (
        init_create_or_update p new_size
          (write_vmss p (with_capacity (some new_size) (w.cache.heap p)) w))
  ]

  unfoldable pub set_scale_set_size : ℤ → ℤ → World C → Outcome (Unit {0}) × World C
  set_scale_set_size size delta w = elim (get_vmss_from_cache w) [
    | err e ↦ (err e, w)
    | panic ↦ (panic, w)
    | ok p ↦ if ltb_ℤ (pos 0) delta then create_or_update_instances p size w else (ok tt, w)
  ]

  unfoldable pub increase_size : ℤ → World C → Outcome (Unit {0}) × World C
  increase_size delta w =
      then_run (can_increase_size client delta w)
        (λ size w'. set_scale_set_size (add64 size delta) delta w')

  -- The end of `AtomicIncreaseSize`, where the update has completed.
  unfoldable pub finish_atomic : ℤ → ℕ → Option Text → World C → Outcome (Unit {0}) × World C
  finish_atomic new_size q etag w =
      let v =
        with_etag w.config.enable_vmss_etag etag (with_capacity (some new_size) (w.cache.heap q)) in
      (ok tt, publish_size new_size (write_vmss q v w))

  -- `AtomicIncreaseSize` after the PUT was accepted: it waits for the poller, if there is one.
  unfoldable pub wait_atomic : ℕ → ℤ → ℕ → Option ℕ → World C → Outcome (Unit {0}) × World C
  wait_atomic p new_size q (some poller) w =
      on_reply (call_poll client poller w)
        (λ etag w'. finish_atomic new_size q etag (invalidate_instance_cache client w'))
        (λ e w'. (
          err (api e),
          invalidate_cache client
              (invalidate_last_size_refresh client (invalidate_instance_cache client w')),
        ))
  wait_atomic p new_size q none w =
      if q == p then finish_atomic new_size q none w else elim (capacity_of (w.cache.heap q)) [
        | none ↦ (panic, w)
        | some n ↦ (ok tt, publish_size n w)
      ]

  unfoldable pub atomic_increase_size : ℤ → World C → Outcome (Unit {0}) × World C
  atomic_increase_size delta w = then_run (can_increase_size client delta w) λ size w₁.
      then_run (get_vmss_from_cache w₁, w₁)
        λ p w₂.
          then_run (init_create_or_update p (add64 size delta) w₂)
            λ r w₃. wait_atomic p (add64 size delta) r.0 r.1 w₃

  -- `waitForCreateOrUpdateInstances`: the end of a pending update.
  unfoldable pub wait_for_create_or_update_instances : ℕ → ℕ → World C → World C
  wait_for_create_or_update_instances poller q w =
      on_reply (call_poll client poller w)
        (λ etag w'.
          let w₁ = invalidate_instance_cache client w' in
          if w₁.config.enable_vmss_etag
          then elim etag [
            | some e ↦ write_vmss q (record (w₁.cache.heap q) { etag = some e }) w₁
            | none ↦ invalidate_cache client (invalidate_last_size_refresh client w₁)
          ]
          else w₁)
        (λ e w'.
          invalidate_cache client
            (invalidate_last_size_refresh client (invalidate_instance_cache client w')))
