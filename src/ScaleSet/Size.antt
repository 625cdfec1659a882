-- ===== src/ScaleSet/Size.antt =====
-- The size of a scale set: `getCurSize`, `getScaleSetSize`, `TargetSize`, `canIncreaseSize` and
-- `DecreaseTargetSize` of azure_scale_set.go.
use cluster_autoscaler_provi.Base.Int.{ℤ, pos, negsuc, ◌+ℤ◌, ltb_ℤ, leb_ℤ, eqb_ℤ, add64}
use cluster_autoscaler_provi.Base.{ℕ, Bool, true, none, some, if◌then◌else◌}
use cluster_autoscaler_provi.Cache.{set_scale_set}
use cluster_autoscaler_provi.Errors.{
  Error, api, on_reply, Outcome, ok, err, panic, then_run, vmss_failed, size_not_positive,
  size_cached_negative, size_uninitialized, size_too_large,
}
use cluster_autoscaler_provi.ScaleSet.{
  Client, World, get_vmss_from_cache, time_now, call_get, invalidate_instance_cache, capacity_of,
  is_spot,
}
use cluster_autoscaler_provi.Types.{Vmss}

-- The cause of a GetVMSSFailedError.
abbrev pub cause : Error → Error
cause (vmss_failed not_found e) = e
cause e = e

-- A size of -1 is an error.
abbrev pub checked_size : Outcome ℤ → Outcome ℤ
checked_size (ok n) = if eqb_ℤ n (negsuc 0) then err size_cached_negative else ok n
checked_size (err e) = err (cause e)
checked_size panic = panic

-- The tests of `canIncreaseSize` on the size.
unfoldable pub check_increase : ℤ → ℤ → ℤ → Outcome ℤ
check_increase delta max size =
    if eqb_ℤ size (negsuc 0)
    then err size_uninitialized
    else if ltb_ℤ max (add64 size delta)
    then err (size_too_large (add64 size delta) max)
    else ok size

abbrev pub drop_value : Outcome ℤ → Outcome (Unit {0})
drop_value (ok n) = ok tt
drop_value (err e) = err e
drop_value panic = panic

module _ {C : Type 0} (client : Client C) where
  -- Whether a value read at a time is still fresh: `t.Add(period).After(time.Now())`.
  abbrev pub is_fresh : ℤ → ℤ → World C → Bool
  is_fresh t period w = ltb_ℤ (time_now client w) (t +ℤ period)

  -- The last part of `getCurSize`: the capacity of an object becomes the size.
  unfoldable pub adopt_capacity : Vmss → World C → Outcome ℤ × World C
  adopt_capacity v w = elim (capacity_of v) [
    | none ↦ (panic, w)
    | some n ↦
        let w' = if eqb_ℤ w.set.cur_size n then w else invalidate_instance_cache client w in
        (
          ok n,
          record w' {
            set = record w'.set { cur_size = n; last_size_refresh = time_now client w' };
          },
        )
  ]

  -- The GET that a Spot scale set makes: the cache gets the fresh object.
  unfoldable pub refresh_spot : World C → Outcome ℤ × World C
  refresh_spot w =
      on_reply (call_get client w.set.name w)
        (λ v w'. adopt_capacity v (record w' { cache = set_scale_set w'.set.name v w'.cache }))
        (λ e w'. (err (vmss_failed (client.is_not_found e) (api e)), w'))

  unfoldable pub refresh_period : Vmss → World C → ℤ
  refresh_period v w =
      if is_spot v then w.set.get_vmss_size_refresh_period else w.set.size_refresh_period

  -- `getCurSize` once the cached object is found, at its address.
  unfoldable pub read_size : ℕ → World C → Outcome ℤ × World C
  read_size p w =
      let v = w.cache.heap p in
      if is_fresh w.set.last_size_refresh (refresh_period v w) w
      then (ok w.set.cur_size, w)
      else if is_spot v
      then refresh_spot w
      else adopt_capacity v w

  unfoldable pub get_cur_size : World C → Outcome ℤ × World C
  get_cur_size w = elim (get_vmss_from_cache w) [
    | err e ↦ (err (vmss_failed true e), w)
    | panic ↦ (panic, w)
    | ok p ↦ read_size p w
  ]

  -- `getScaleSetSize`, and `TargetSize`, which converts to `int` and back.
  unfoldable pub get_scale_set_size : World C → Outcome ℤ × World C
  get_scale_set_size w = let r = get_cur_size w in (checked_size r.0, r.1)

  unfoldable pub can_increase_size : ℤ → World C → Outcome ℤ × World C
  can_increase_size delta w =
      if leb_ℤ delta (pos 0)
      then (err size_not_positive, w)
      else then_run (get_scale_set_size w)
          (λ size w'. (check_increase delta w'.set.max_size size, w'))

  -- `DecreaseTargetSize`: the size is read anew, and nothing is decreased.
  unfoldable pub decrease_target_size : ℤ → World C → Outcome (Unit {0}) × World C
  decrease_target_size delta w =
      let r = get_scale_set_size (invalidate_instance_cache client w) in (drop_value r.0, r.1)
