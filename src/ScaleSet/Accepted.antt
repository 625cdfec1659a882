-- ===== src/ScaleSet/Accepted.antt =====
-- An `IncreaseSize` of azure_scale_set.go that Azure accepts.
use cluster_autoscaler_provi.Base.Int.{ℤ, pos, negsuc, ◌≤ℤ◌, ltb_ℤ, leb_ℤ, eqb_ℤ, add64}
use cluster_autoscaler_provi.Base.{ℕ, ◌≡◌, refl, true, false, some, ◌∷◌, arith}
use cluster_autoscaler_provi.Cache.{update}
use cluster_autoscaler_provi.Errors.{answer, ok}
use cluster_autoscaler_provi.ScaleSet.Increase.{
  build_scale_set_capacity_update, settle_put, if_match_of, init_create_or_update, publish_size,
  publish_update, finish_update, create_or_update_instances, set_scale_set_size, increase_size,
}
use cluster_autoscaler_provi.ScaleSet.Size.{
  check_increase, is_fresh, refresh_period, read_size, get_cur_size, get_scale_set_size,
  can_increase_size,
}
use cluster_autoscaler_provi.ScaleSet.{
  PutRequest, put, Client, World, get_vmss_from_cache, write_vmss, call_put, capacity_of,
  with_capacity,
}
use cluster_autoscaler_provi.Types.{Vmss, Sku}

ltb-from_≤ : (a b : ℤ) → a ≤ℤ b → ltb_ℤ b a ≡ false
ltb-from_≤ a b h = ground arith

ltb-from_leb : (a : ℤ) → leb_ℤ a (pos 0) ≡ false → ltb_ℤ (pos 0) a ≡ true
ltb-from_leb a h = ground arith

check_increase_ok :
    (delta max size : ℤ)
    → eqb_ℤ size (negsuc 0) ≡ false
    → add64 size delta ≤ℤ max
    → check_increase delta max size ≡ ok size
unfolding check_increase
check_increase_ok delta max size known h =
    rw (known, ltb-from_≤ (add64 size delta) max h, check_increase) refl

-- The cached VMSS while the update runs: it has the new capacity.
abbrev pub grown : ℕ → ℤ → {C : Type 0} → World C → Vmss
grown p n w = with_capacity (some n) (w.cache.heap p)

module _ {C : Type 0} (client : Client C) where
  can_increase_size_ok :
      (delta : ℤ) (p : ℕ) (w : World C)
      → get_vmss_from_cache w ≡ ok p
      → is_fresh client w.set.last_size_refresh (refresh_period client (w.cache.heap p) w) w ≡ true
      → eqb_ℤ w.set.cur_size (negsuc 0) ≡ false
      → leb_ℤ delta (pos 0) ≡ false
      → add64 w.set.cur_size delta ≤ℤ w.set.max_size
      → can_increase_size client delta w ≡ (ok w.set.cur_size, w)
  unfolding can_increase_size get_scale_set_size get_cur_size read_size
  can_increase_size_ok delta p w cached fresh known up h =
      rw (up, cached, fresh, known, can_increase_size, get_scale_set_size, get_cur_size, read_size)
        (rw (check_increase_ok delta w.set.max_size w.set.cur_size known h) refl)

  create_or_update_instances_ok :
      (p : ℕ) (n : ℤ) (s : Sku) (op : PutRequest) (poller : ℕ) (c : C) (w : World C)
      → (w.cache.heap p).sku ≡ some s
      → build_scale_set_capacity_update (grown p n w) n (if_match_of client w (w.cache.heap p))
        ≡ some op
      → client.begin_create_or_update w.set.name op w.cloud ≡ (answer (some poller), c)
      → let r = create_or_update_instances client p n w in
        (r.0 ≡ ok tt)
        × (r.1.set.cur_size ≡ n)
        × (r.1.sent ≡ put w.set.name op ∷ w.sent)
        × (r.1.pending ≡ (poller, p) ∷ w.pending)
        × (capacity_of (r.1.cache.heap p) ≡ some n)
  unfolding create_or_update_instances init_create_or_update settle_put call_put finish_update
      publish_update publish_size write_vmss update
  create_or_update_instances_ok p n s op poller c w has built accepted =
      ground (arith, has, built, accepted)

  -- An IncreaseSize by a positive delta succeeds when the size in memory is known and fresh, the
  -- cache has the VMSS with an SKU, the new size is at most the maximum and Azure accepts the PUT of
  -- the new size: that PUT is the one call that it sends, the size in memory and the capacity of
  -- the cached VMSS become the new size, and the update is left pending for its poller.
  pub increase_size_accepted :
      (delta : ℤ) (p : ℕ) (s : Sku) (op : PutRequest) (poller : ℕ) (c : C) (w : World C)
      → get_vmss_from_cache w ≡ ok p
      → (w.cache.heap p).sku ≡ some s
      → is_fresh client w.set.last_size_refresh (refresh_period client (w.cache.heap p) w) w ≡ true
      → eqb_ℤ w.set.cur_size (negsuc 0) ≡ false
      → leb_ℤ delta (pos 0) ≡ false
      → add64 w.set.cur_size delta ≤ℤ w.set.max_size
      → build_scale_set_capacity_update
          (grown p (add64 w.set.cur_size delta) w)
          (add64 w.set.cur_size delta)
          (if_match_of client w (w.cache.heap p))
        ≡ some op
      → client.begin_create_or_update w.set.name op w.cloud ≡ (answer (some poller), c)
      → let n = add64 w.set.cur_size delta in
        let r = increase_size client delta w in
        (r.0 ≡ ok tt)
        × (r.1.set.cur_size ≡ n)
        × (r.1.sent ≡ put w.set.name op ∷ w.sent)
        × (r.1.pending ≡ (poller, p) ∷ w.pending)
        × (capacity_of (r.1.cache.heap p) ≡ some n)
  unfolding increase_size set_scale_set_size
  increase_size_accepted delta p s op poller c w cached has fresh known up h built accepted =
      rw
        (
          can_increase_size_ok delta p w cached fresh known up h,
          cached,
          ltb-from_leb delta up,
          increase_size,
          set_scale_set_size,
        )
        (create_or_update_instances_ok p (add64 w.set.cur_size delta) s op poller c w has built
          accepted)
