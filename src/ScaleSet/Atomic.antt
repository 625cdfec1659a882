-- ===== src/ScaleSet/Atomic.antt =====
-- The PUTs of `AtomicIncreaseSize` of azure_scale_set.go.
use cluster_autoscaler_provi.Base.Int.{ℤ, pos, negsuc, ◌≤ℤ◌, ltb_ℤ, leb_ℤ, eqb_ℤ, add64}
use cluster_autoscaler_provi.Base.Text.{Text}
use cluster_autoscaler_provi.Base.{ℕ, inl, inr, Option, none, some, All, arith, Bool-cases}
use cluster_autoscaler_provi.Errors.{
  api, Reply, answer, failure, on_reply, Outcome, ok, err, panic, then_run,
}
use cluster_autoscaler_provi.ScaleSet.Bounds.{
  Sends, Sends-self, Sends-from, reading-Sends, init-Sends, leb-from_ltb,
}
use cluster_autoscaler_provi.ScaleSet.Increase.{
  init_create_or_update, publish_size, finish_atomic, wait_atomic, atomic_increase_size,
}
use cluster_autoscaler_provi.ScaleSet.Reading.{IsWithin, IsReading, get_scale_set_size-IsReading}
use cluster_autoscaler_provi.ScaleSet.Size.{get_scale_set_size, can_increase_size, check_increase}
use cluster_autoscaler_provi.ScaleSet.{
  Client, World, get_vmss_from_cache, write_vmss, call_poll, invalidate_instance_cache,
  invalidate_last_size_refresh, invalidate_cache,
}

module _ {C : Type 0} (client : Client C) where
  -- The end of an update sends no PUT.
  wait_polled-Sends :
      (max : ℤ) (w : World C) (n : ℤ) (q : ℕ) (r : Reply (Option Text) × World C)
      → Sends max 2 w r.1
      → Sends max 2 w
          (on_reply r
            (λ etag w'. finish_atomic client n q etag (invalidate_instance_cache client w'))
            (λ e w'. (
              err (api e),
              invalidate_cache client
                  (invalidate_last_size_refresh client (invalidate_instance_cache client w')),
            ))).1
  unfolding finish_atomic publish_size write_vmss invalidate_instance_cache
      invalidate_last_size_refresh invalidate_cache
  wait_polled-Sends max w n q (answer etag, w') h = record { within = h.within; few = h.few }
  wait_polled-Sends max w n q (failure e, w') h = record { within = h.within; few = h.few }

  wait_atomic-Sends :
      (max : ℤ) (w w' : World C) (p : ℕ) (n : ℤ) (q : ℕ) (poller : Option ℕ)
      → Sends max 2 w w'
      → Sends max 2 w (wait_atomic client p n q poller w').1
  unfolding wait_atomic call_poll finish_atomic publish_size write_vmss
  wait_atomic-Sends max w w' p n q (some poller) h =
      wait_polled-Sends max w n q (call_poll client poller w')
        (record { within = (tt, h.within); few = h.few })
  wait_atomic-Sends max w w' p n q none h = ground (arith, h)

  wait_init-Sends :
      (max : ℤ) (w : World C) (p : ℕ) (n : ℤ) (r : Outcome (ℕ × Option ℕ) × World C)
      → Sends max 2 w r.1
      → Sends max 2 w (then_run r (λ r' w₃. wait_atomic client p n r'.0 r'.1 w₃)).1
  wait_init-Sends max w p n (ok (q, poller), w') h = wait_atomic-Sends max w w' p n q poller h
  wait_init-Sends max w p n (err e, w') h = h
  wait_init-Sends max w p n (panic, w') h = h

  -- The update of the object that the cache has, or none.
  start_atomic-Sends :
      (max n : ℤ) (w : World C) (found : Outcome ℕ)
      → n ≤ℤ max
      → All (IsWithin max) w.sent
      → Sends max 2 w
          (then_run
            (found, w)
            (λ p w₂.
              then_run
                (init_create_or_update client p n w₂)
                (λ r w₃. wait_atomic client p n r.0 r.1 w₃))).1
  start_atomic-Sends max n w (ok p) h a =
      wait_init-Sends max w p n (init_create_or_update client p n w)
        (init-Sends client max n p w h a)
  start_atomic-Sends max n w (err e) h a = Sends-self client max 2 w a
  start_atomic-Sends max n w panic h a = Sends-self client max 2 w a

  atomic_by-Sends :
      (delta size : ℤ) (w w' : World C)
      → IsReading w.set.max_size w w'
      → Sends w.set.max_size 2 w
          (then_run
            (check_increase delta w'.set.max_size size, w')
            (λ size w₁.
              then_run
                (get_vmss_from_cache w₁, w₁)
                (λ p w₂.
                  then_run
                    (init_create_or_update client p (add64 size delta) w₂)
                    (λ r w₃. wait_atomic client p (add64 size delta) r.0 r.1 w₃)))).1
  unfolding check_increase
  atomic_by-Sends delta size w w' h =
      let max = w.set.max_size in
      elim (Bool-cases (eqb_ℤ size (negsuc 0))) [
        | inl e ↦ rw (e, check_increase) (reading-Sends client max w w' h)
        | inr e ↦ elim (Bool-cases (ltb_ℤ w'.set.max_size (add64 size delta))) [
          | inl f ↦ rw (e, f, check_increase) (reading-Sends client max w w' h)
          | inr f ↦
              rw (e, f, check_increase)
                (Sends-from client max 2 w w' _ h.no_put (
                  start_atomic-Sends max (add64 size delta) w' (get_vmss_from_cache w')
                    (rw (← h.same_max) (leb-from_ltb w'.set.max_size (add64 size delta) f))
                    h.within))
        ]
      ]

  atomic_from-Sends :
      (delta : ℤ) (w : World C) (r : Outcome ℤ × World C)
      → IsReading w.set.max_size w r.1
      → Sends w.set.max_size 2 w
          (then_run
            (then_run r (λ size w'. (check_increase delta w'.set.max_size size, w')))
            (λ size w₁.
              then_run
                (get_vmss_from_cache w₁, w₁)
                (λ p w₂.
                  then_run
                    (init_create_or_update client p (add64 size delta) w₂)
                    (λ r w₃. wait_atomic client p (add64 size delta) r.0 r.1 w₃)))).1
  atomic_from-Sends delta w (ok size, w') h = atomic_by-Sends delta size w w' h
  atomic_from-Sends delta w (err e, w') h = reading-Sends client w.set.max_size w w' h
  atomic_from-Sends delta w (panic, w') h = reading-Sends client w.set.max_size w w' h

  -- Where no PUT sent so far asks for more than the maximum size of the scale set, none does after
  -- an AtomicIncreaseSize by any delta either, whatever Azure answers, to the polls too, and
  -- whatever the result; and the AtomicIncreaseSize sends two PUTs at most.
  pub atomic_increase_size-Sends :
      (delta : ℤ) (w : World C)
      → All (IsWithin w.set.max_size) w.sent
      → Sends w.set.max_size 2 w (atomic_increase_size client delta w).1
  unfolding atomic_increase_size can_increase_size
  atomic_increase_size-Sends delta w a =
      let max = w.set.max_size in
      elim (Bool-cases (leb_ℤ delta (pos 0))) [
        | inl e ↦ rw (e, atomic_increase_size, can_increase_size) (Sends-self client max 2 w a)
        | inr e ↦
            rw (e, atomic_increase_size, can_increase_size)
              (atomic_from-Sends delta w (get_scale_set_size client w)
                (get_scale_set_size-IsReading client max w a))
      ]
