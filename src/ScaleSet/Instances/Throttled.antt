-- ===== src/ScaleSet/Instances/Throttled.antt =====
-- A refresh of the instance cache that Azure throttles: `buildScaleSetCacheForUniform` of
-- azure_scale_set.go, and what `validateInstanceCache` does after it.
use cluster_autoscaler_provi.Base.Int.{ℤ, pos, ◌<ℤ◌, ◌+ℤ◌, ltb_ℤ, moved}
use cluster_autoscaler_provi.Base.Text.{Text}
use cluster_autoscaler_provi.Base.{◌≡◌, true, false, inl, inr, Bool-cases, ◌∷◌, arith}
use cluster_autoscaler_provi.Errors.{response, ok, failure}
use cluster_autoscaler_provi.ScaleSet.Instances.{
  throttled_refresh, call_list_vms, get_scale_set_vms, store_instances, splayed_now,
  build_scale_set_cache_for_uniform, validate_instance_cache,
}
use cluster_autoscaler_provi.ScaleSet.{Client, World, list_vms}
use cluster_autoscaler_provi.Throttling.{is_azure_requests_throttled, parse_retry_after_header}

ltb-chain : (t x y : ℤ) → t <ℤ x → ltb_ℤ y x ≡ false → ltb_ℤ t y ≡ true
ltb-chain t x y h k = ground arith

ltb_true : (a b : ℤ) → a <ℤ b → ltb_ℤ a b ≡ true
ltb_true a b h = ground arith

-- Until the delay has passed the instance cache counts as fresh.
throttled_refresh_fresh :
    (period now retry_after last t : ℤ)
    → ltb_ℤ (pos 0) retry_after ≡ true
    → t <ℤ now +ℤ retry_after
    → ltb_ℤ t (throttled_refresh period now retry_after last +ℤ period) ≡ true
unfolding throttled_refresh
throttled_refresh_fresh period now retry_after last t positive early =
    elim (Bool-cases (ltb_ℤ (last +ℤ period) (now +ℤ retry_after))) [
      | inl e ↦
          rw (positive, e, moved last period (now +ℤ retry_after))
            (ltb_true t (now +ℤ retry_after) early)
      | inr e ↦ rw (positive, e) (ltb-chain t (now +ℤ retry_after) (last +ℤ period) early e)
    ]

module _ {C : Type 0} (client : Client C) where
  -- When the list of a uniform scale set's VMs is answered with status 429 and a Retry-After that
  -- asks for a positive delay, the refresh succeeds and keeps the instances; and until that delay
  -- has passed, validateInstanceCache does nothing and sends nothing to Azure.
  pub build_scale_set_cache_for_uniform_throttled :
      (last : ℤ) (code header : Text) (c later : C) (w : World C)
      → splayed_now client w ≡ ok last
      → client.list_instance_views w.set.name w.cloud ≡ (failure (response 429 code header), c)
      → ltb_ℤ (pos 0) (parse_retry_after_header client.parse_time (client.now c) header) ≡ true
      → client.now later
        <ℤ client.now c +ℤ parse_retry_after_header client.parse_time (client.now c) header
      → let r = build_scale_set_cache_for_uniform client w in
        let w' = record r.1 { cloud = later } in
        (r.0 ≡ ok tt)
        × (r.1.set.instance_cache ≡ w.set.instance_cache)
        × (r.1.sent ≡ list_vms w.set.name ∷ w.sent)
        × (validate_instance_cache client w' ≡ (ok tt, w'))
  unfolding build_scale_set_cache_for_uniform get_scale_set_vms call_list_vms store_instances
      is_azure_requests_throttled validate_instance_cache
  build_scale_set_cache_for_uniform_throttled last code header c later w e h positive early =
      ground (
        arith,
        e,
        h,
        throttled_refresh_fresh w.set.instances_refresh_period (client.now c)
            (parse_retry_after_header client.parse_time (client.now c) header) last
            (client.now later) positive early,
      )
