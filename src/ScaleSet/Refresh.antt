-- ===== src/ScaleSet/Refresh.antt =====
-- When a scale set reads its size again: `invalidateLastSizeRefresh` and `getCurSize`, and what
-- `DecreaseTargetSize` does.
use cluster_autoscaler_provi.Base.Int.{ℤ, ◌<ℤ◌, ◌+ℤ◌, ◌-ℤ◌, ltb_ℤ}
use cluster_autoscaler_provi.Base.{ℕ, ◌≡◌, true, false, some, arith, All}
use cluster_autoscaler_provi.Errors.{ok}
use cluster_autoscaler_provi.ScaleSet.Reading.{IsWithin, IsReading, get_scale_set_size-IsReading}
use cluster_autoscaler_provi.ScaleSet.Size.{
  adopt_capacity, refresh_period, read_size, get_cur_size, decrease_target_size,
}
use cluster_autoscaler_provi.ScaleSet.{
  Client, World, get_vmss_from_cache, time_now, invalidate_instance_cache,
  invalidate_last_size_refresh, capacity_of, is_spot,
}

-- A time that was set back by a period is not fresh any more.
past_stale : (t period : ℤ) → ltb_ℤ t (t -ℤ period +ℤ period) ≡ false
past_stale t period = ground arith

-- It is still fresh for a longer period.
past_fresh : (t short long : ℤ) → short <ℤ long → ltb_ℤ t (t -ℤ short +ℤ long) ≡ true
past_fresh t short long h = ground arith

module _ {C : Type 0} (client : Client C) where
  -- After invalidateLastSizeRefresh the next getCurSize of a scale set that is not Spot gives the
  -- capacity of the cached VMSS, sends nothing to Azure, and keeps that capacity as the current
  -- size, when the cache has the VMSS with a capacity.
  pub get_cur_size-invalidated :
      (w : World C) (p : ℕ) (n : ℤ)
      → get_vmss_from_cache w ≡ ok p
      → is_spot (w.cache.heap p) ≡ false
      → capacity_of (w.cache.heap p) ≡ some n
      → let r = get_cur_size client (invalidate_last_size_refresh client w) in
        (r.0 ≡ ok n) × (r.1.set.cur_size ≡ n) × (r.1.sent ≡ w.sent)
  unfolding get_cur_size read_size refresh_period adopt_capacity invalidate_last_size_refresh
      invalidate_instance_cache get_vmss_from_cache
  get_cur_size-invalidated w p n found regular e =
      ground (arith, past_stale (time_now client w) w.set.size_refresh_period)

  -- After invalidateLastSizeRefresh, and with the clock unmoved, getCurSize of a Spot scale set whose
  -- period for Spot sizes is longer than its ordinary period still answers the size in memory:
  -- nothing is read anew, whatever the capacity of the cached VMSS.
  pub get_cur_size-invalidated_spot :
      (w : World C) (p : ℕ)
      → get_vmss_from_cache w ≡ ok p
      → is_spot (w.cache.heap p) ≡ true
      → w.set.size_refresh_period <ℤ w.set.get_vmss_size_refresh_period
      → let w' = invalidate_last_size_refresh client w in
        get_cur_size client w' ≡ (ok w.set.cur_size, w')
  unfolding get_cur_size read_size refresh_period invalidate_last_size_refresh get_vmss_from_cache
  get_cur_size-invalidated_spot w p found spot h = ground (
    arith,
    past_fresh (time_now client w) w.set.size_refresh_period w.set.get_vmss_size_refresh_period h,
  )

  -- DecreaseTargetSize by any delta sends no PUT and leaves the name and the maximum size alone.
  pub decrease_target_size-IsReading :
      (delta : ℤ) (w : World C)
      → All (IsWithin w.set.max_size) w.sent
      → IsReading w.set.max_size w (decrease_target_size client delta w).1
  unfolding decrease_target_size invalidate_instance_cache
  decrease_target_size-IsReading delta w a =
      let r =
        get_scale_set_size-IsReading client w.set.max_size (invalidate_instance_cache client w) a in
      record {
        no_put = r.no_put;
        within = r.within;
        same_max = r.same_max;
        same_name = r.same_name;
      }
