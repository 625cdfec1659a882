-- ===== src/ScaleSet/Bounds.antt =====
-- The PUTs that `IncreaseSize` of azure_scale_set.go sends.
use cluster_autoscaler_provi.ScaleSet.Reading.{
  IsWithin, puts, IsReading, get_scale_set_size-IsReading,
}
use cluster_autoscaler_provi.Base.Int.{ℤ, pos, negsuc, ◌≤ℤ◌, ltb_ℤ, leb_ℤ, eqb_ℤ, add64}
use cluster_autoscaler_provi.Base.Text.{Text}
use cluster_autoscaler_provi.Base.{
  ℕ, ◌+◌, ◌≤◌, ◌≡◌, refl, inl, inr, false, Option, none, some, arith, All, Bool-cases, Option-cases,
}
use cluster_autoscaler_provi.Errors.{
  api, Reply, answer, failure, on_reply, Outcome, ok, err, panic, then_run, Outcome-cases,
}
use cluster_autoscaler_provi.ScaleSet.Increase.{
  build_scale_set_capacity_update, invalidate_for_precondition_failure, store_fresh, retry_put,
  retry_with, settle_put, retry_create_or_update_with_fresh_etag, init_create_or_update,
  publish_size, publish_update, roll_back, finish_update, if_match_of, create_or_update_instances,
  set_scale_set_size, increase_size,
}
use cluster_autoscaler_provi.ScaleSet.Size.{get_scale_set_size, can_increase_size, check_increase}
use cluster_autoscaler_provi.ScaleSet.{
  PutRequest, Client, World, write_vmss, with_capacity, call_get, call_put, get_vmss_from_cache,
  invalidate_instance_cache, invalidate_last_size_refresh, invalidate_cache,
}
use cluster_autoscaler_provi.Types.{Vmss}

pub leb-from_ltb : (a b : ℤ) → ltb_ℤ a b ≡ false → b ≤ℤ a
leb-from_ltb a b h = ground arith

module _ {C : Type 0} where
  -- The PUTs of a part of the code: none above the maximum, and few.
  pub record Sends (max : ℤ) (k : ℕ) (w w' : World C) : Type 0 where
    pub within : All (IsWithin max) w'.sent
    pub few : puts w'.sent ≤ puts w.sent + k

module _ {C : Type 0} (client : Client C) where
  retry_put-Sends :
      (max : ℤ) (fresh : Vmss) (q : ℕ) (n : ℤ) (w : World C)
      → n ≤ℤ max
      → All (IsWithin max) w.sent
      → Sends max 1 w (retry_put client fresh q n w).1
  unfolding retry_put build_scale_set_capacity_update call_put invalidate_for_precondition_failure
      invalidate_instance_cache invalidate_last_size_refresh invalidate_cache
  retry_put-Sends max fresh q n w h a = ground arith

  pub Sends-self : (max : ℤ) (k : ℕ) (w : World C) → All (IsWithin max) w.sent → Sends max k w w
  Sends-self max k w a = record { within = a; few = omega arith }

  build-capacity :
      (v : Vmss) (op : PutRequest) (n : ℤ) (m : Option Text)
      → build_scale_set_capacity_update v n m ≡ some op
      → op.capacity ≡ n
  unfolding build_scale_set_capacity_update
  build-capacity v op n m e = ground arith

  call_put-IsWithin :
      (max : ℤ) (op : PutRequest) {n : ℤ} (w : World C)
      → op.capacity ≡ n
      → n ≤ℤ max
      → All (IsWithin max) w.sent
      → All (IsWithin max) (call_put client w.set.name op w).1.sent
  unfolding call_put
  call_put-IsWithin max op w e h a = (rw e h, a)

  call_put-puts :
      (op : PutRequest) (w : World C)
      → puts (call_put client w.set.name op w).1.sent ≡ puts w.sent + 1
  unfolding call_put
  call_put-puts op w = omega arith

  invalidate_for_precondition_failure-sent :
      (w : World C) → (invalidate_for_precondition_failure client w).sent ≡ w.sent
  unfolding invalidate_for_precondition_failure invalidate_instance_cache
      invalidate_last_size_refresh invalidate_cache
  invalidate_for_precondition_failure-sent w = refl

  store_fresh-sent : (fresh : Vmss) (w : World C) → (store_fresh client fresh w).sent ≡ w.sent
  unfolding store_fresh invalidate_instance_cache
  store_fresh-sent fresh w = refl

  retry_with-Sends :
      (max n : ℤ) (fresh : Vmss) (w : World C)
      → n ≤ℤ max
      → All (IsWithin max) w.sent
      → Sends max 1 w (retry_with client n fresh w).1
  unfolding retry_with
  retry_with-Sends max n fresh w h a =
      let w' = store_fresh client fresh w in
      let same = store_fresh-sent fresh w in
      let a' : All (IsWithin max) w'.sent = rw same a in
      ground (arith, a', same, retry_put-Sends max fresh w.cache.next n w' h a')

  retry-Sends :
      (max n : ℤ) (w : World C)
      → n ≤ℤ max
      → All (IsWithin max) w.sent
      → Sends max 1 w (retry_create_or_update_with_fresh_etag client n w).1
  unfolding retry_create_or_update_with_fresh_etag call_get
  retry-Sends max n w h a = go (call_get client w.set.name w) (tt, a) refl
    where
      go :
          (r : Reply Vmss × World C)
          → All (IsWithin max) r.1.sent
          → puts r.1.sent ≡ puts w.sent
          → Sends max 1 w
              (on_reply r
                (λ fresh w'. retry_with client n fresh w')
                (λ e w'. (err (api e), invalidate_for_precondition_failure client w'))).1
      go (answer fresh, w') a' same = ground (arith, retry_with-Sends max n fresh w' h a')
      go (failure e, w') a' same = ground (arith, invalidate_for_precondition_failure-sent w')

  -- The two ways on from the first PUT.
  init_from-Sends :
      (max n : ℤ) (p : ℕ) (w : World C) (r : Reply (Option ℕ) × World C)
      → n ≤ℤ max
      → All (IsWithin max) r.1.sent
      → puts r.1.sent ≡ puts w.sent + 1
      → Sends max 2 w (settle_put client p n r).1
  unfolding settle_put
  init_from-Sends max n p w (answer poller, w') h a few = ground arith
  init_from-Sends max n p w (failure e, w') h a few = ground (arith, retry-Sends max n w' h a)

  pub init-Sends :
      (max n : ℤ) (p : ℕ) (w : World C)
      → n ≤ℤ max
      → All (IsWithin max) w.sent
      → Sends max 2 w (init_create_or_update client p n w).1
  unfolding init_create_or_update
  init-Sends max n p w h a =
      let v = w.cache.heap p in
      elim (Option-cases (build_scale_set_capacity_update v n (if_match_of client w v))) [
        | inl e ↦ rw (e, init_create_or_update) (Sends-self max 2 w a)
        | inr (op, e) ↦
            rw (e, init_create_or_update)
              (init_from-Sends max n p w (call_put client w.set.name op w) h
                (call_put-IsWithin max op w (build-capacity v op n _ e) h a) (call_put-puts op w))
      ]

  finish_update-Sends :
      (max : ℤ) (k : ℕ) (w : World C) (p : ℕ) (previous : Option ℤ) (n : ℤ)
      (r : Outcome (ℕ × Option ℕ) × World C)
      → Sends max k w r.1
      → Sends max k w (finish_update client p previous n r).1
  unfolding finish_update publish_update publish_size roll_back write_vmss
  finish_update-Sends max k w p previous n (ok (q, none), w') h = ground arith
  finish_update-Sends max k w p previous n (ok (q, some poller), w') h = ground arith
  finish_update-Sends max k w p previous n (err e, w') h = ground arith
  finish_update-Sends max k w p previous n (panic, w') h = h

  pub Sends-from :
      (max : ℤ) (k : ℕ) (w w₁ w' : World C)
      → puts w₁.sent ≡ puts w.sent
      → Sends max k w₁ w'
      → Sends max k w w'
  Sends-from max k w w₁ w' e h = record { within = h.within; few = rw (← e) h.few }

  create_or_update-Sends :
      (max n : ℤ) (p : ℕ) (w : World C)
      → n ≤ℤ max
      → All (IsWithin max) w.sent
      → Sends max 2 w (create_or_update_instances client p n w).1
  unfolding create_or_update_instances write_vmss
  create_or_update-Sends max n p w h a = elim (Option-cases (w.cache.heap p).sku) [
    | inl e ↦ rw (e, create_or_update_instances) (Sends-self max 2 w a)
    | inr (s, e) ↦
        let w₁ = write_vmss p (with_capacity (some n) (w.cache.heap p)) w in
        rw (e, create_or_update_instances)
          (finish_update-Sends max 2 w p s.capacity n (init_create_or_update client p n w₁)
            (Sends-from max 2 w w₁ _ refl (init-Sends max n p w₁ h a)))
  ]

  set_scale_set_size-Sends :
      (max n delta : ℤ) (w : World C)
      → n ≤ℤ max
      → All (IsWithin max) w.sent
      → Sends max 2 w (set_scale_set_size client n delta w).1
  unfolding set_scale_set_size
  set_scale_set_size-Sends max n delta w h a = elim (Outcome-cases (get_vmss_from_cache w)) [
    | inl (p, e) ↦ ground (arith, create_or_update-Sends max n p w h a, Sends-self max 2 w a)
    | inr e ↦ ground (arith, Sends-self max 2 w a)
  ]

  pub reading-Sends : (max : ℤ) (w w' : World C) → IsReading max w w' → Sends max 2 w w'
  reading-Sends max w w' h = record { within = h.within; few = omega (arith, h.no_put) }

  -- The checks of the new size, then the update.
  increase_by-Sends :
      (delta size : ℤ) (w w' : World C)
      → IsReading w.set.max_size w w'
      → Sends w.set.max_size 2 w
          (then_run
            (check_increase delta w'.set.max_size size, w')
            (λ size w'. set_scale_set_size client (add64 size delta) delta w')).1
  unfolding check_increase
  increase_by-Sends delta size w w' h =
      let max = w.set.max_size in
      elim (Bool-cases (eqb_ℤ size (negsuc 0))) [
        | inl e ↦ rw (e, check_increase) (reading-Sends max w w' h)
        | inr e ↦ elim (Bool-cases (ltb_ℤ w'.set.max_size (add64 size delta))) [
          | inl f ↦ rw (e, f, check_increase) (reading-Sends max w w' h)
          | inr f ↦
              rw (e, f, check_increase)
                (Sends-from max 2 w w' _ h.no_put (
                  set_scale_set_size-Sends max (add64 size delta) delta w'
                    (rw (← h.same_max) (leb-from_ltb w'.set.max_size (add64 size delta) f))
                    h.within))
        ]
      ]

  increase_from-Sends :
      (delta : ℤ) (w : World C) (r : Outcome ℤ × World C)
      → IsReading w.set.max_size w r.1
      → Sends w.set.max_size 2 w
          (then_run
            (then_run r (λ size w'. (check_increase delta w'.set.max_size size, w')))
            (λ size w'. set_scale_set_size client (add64 size delta) delta w')).1
  increase_from-Sends delta w (ok size, w') h = increase_by-Sends delta size w w' h
  increase_from-Sends delta w (err e, w') h = reading-Sends w.set.max_size w w' h
  increase_from-Sends delta w (panic, w') h = reading-Sends w.set.max_size w w' h

  -- Where no PUT sent so far asks for more than the maximum size of the scale set, none does after
  -- an IncreaseSize by any delta either, whatever Azure answers and whatever the result; and the
  -- IncreaseSize sends two PUTs at most.
  pub increase_size-Sends :
      (delta : ℤ) (w : World C)
      → All (IsWithin w.set.max_size) w.sent
      → Sends w.set.max_size 2 w (increase_size client delta w).1
  unfolding increase_size can_increase_size
  increase_size-Sends delta w a =
      let max = w.set.max_size in
      elim (Bool-cases (leb_ℤ delta (pos 0))) [
        | inl e ↦ rw (e, increase_size, can_increase_size) (Sends-self max 2 w a)
        | inr e ↦
            rw (e, increase_size, can_increase_size)
              (increase_from-Sends delta w (get_scale_set_size client w)
                (get_scale_set_size-IsReading client max w a))
      ]
