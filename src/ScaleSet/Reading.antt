-- ===== src/ScaleSet/Reading.antt =====
-- The calls of `getCurSize` and `getScaleSetSize` of azure_scale_set.go.
use cluster_autoscaler_provi.Base.Int.{ℤ, ◌≤ℤ◌}
use cluster_autoscaler_provi.Base.{ℕ, suc, ◌≡◌, inl, inr, List, [], ◌∷◌, arith, All}
use cluster_autoscaler_provi.Errors.{Outcome-cases}
use cluster_autoscaler_provi.ScaleSet.Size.{
  adopt_capacity, refresh_spot, read_size, get_cur_size, get_scale_set_size,
}
use cluster_autoscaler_provi.ScaleSet.{
  Call, get_vmss, put, poll_put, list_flex_vms, list_vms, begin_delete, poll_delete, list_resources,
  Client, World, call_get, get_vmss_from_cache, invalidate_instance_cache,
}
use cluster_autoscaler_provi.Types.{Vmss}

-- A call that is a PUT asks for no more than the maximum.
abbrev pub IsWithin : ℤ → Call → Type 0
IsWithin max (get_vmss name) = Unit
IsWithin max (put name r) = r.capacity ≤ℤ max
IsWithin max (poll_put poller) = Unit
IsWithin max (list_flex_vms id) = Unit
IsWithin max (list_vms name) = Unit
IsWithin max (begin_delete group ids force) = Unit
IsWithin max (poll_delete poller) = Unit
IsWithin max list_resources = Unit

abbrev pub puts : List Call → ℕ
puts [] = 0
puts (get_vmss name ∷ calls) = puts calls
puts (put name r ∷ calls) = suc (puts calls)
puts (poll_put poller ∷ calls) = puts calls
puts (list_flex_vms id ∷ calls) = puts calls
puts (list_vms name ∷ calls) = puts calls
puts (begin_delete group ids force ∷ calls) = puts calls
puts (poll_delete poller ∷ calls) = puts calls
puts (list_resources ∷ calls) = puts calls

module _ {C : Type 0} where
  -- A reading of the size sends no PUT, and keeps the maximum and the name.
  pub record IsReading (max : ℤ) (w w' : World C) : Type 0 where
    pub no_put : puts w'.sent ≡ puts w.sent
    pub within : All (IsWithin max) w'.sent
    pub same_max : w'.set.max_size ≡ w.set.max_size
    pub same_name : w'.set.name ≡ w.set.name

module _ {C : Type 0} (client : Client C) where
  adopt_capacity-IsReading :
      (max : ℤ) (v : Vmss) (w : World C)
      → All (IsWithin max) w.sent
      → IsReading max w (adopt_capacity client v w).1
  unfolding adopt_capacity invalidate_instance_cache
  adopt_capacity-IsReading max v w a = ground arith

  refresh_spot-IsReading :
      (max : ℤ) (w : World C)
      → All (IsWithin max) w.sent
      → IsReading max w (refresh_spot client w).1
  unfolding refresh_spot call_get adopt_capacity invalidate_instance_cache
  refresh_spot-IsReading max w a = ground arith

  read_size-IsReading :
      (max : ℤ) (p : ℕ) (w : World C)
      → All (IsWithin max) w.sent
      → IsReading max w (read_size client p w).1
  unfolding read_size
  read_size-IsReading max p w a =
      ground
        (arith, refresh_spot-IsReading max w a, adopt_capacity-IsReading max (w.cache.heap p) w a)

  pub get_scale_set_size-IsReading :
      (max : ℤ) (w : World C)
      → All (IsWithin max) w.sent
      → IsReading max w (get_scale_set_size client w).1
  unfolding get_scale_set_size get_cur_size
  get_scale_set_size-IsReading max w a = elim (Outcome-cases (get_vmss_from_cache w)) [
    | inl (p, e) ↦ ground (arith, read_size-IsReading max p w a)
    | inr e ↦ ground arith
  ]
