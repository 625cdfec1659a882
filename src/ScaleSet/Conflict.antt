-- ===== src/ScaleSet/Conflict.antt =====
-- An update that Azure refuses, and an ETag that went stale: `createOrUpdateInstances` and
-- `retryCreateOrUpdateWithFreshETag` of azure_scale_set.go.
use cluster_autoscaler_provi.Base.Int.{ℤ}
use cluster_autoscaler_provi.Base.Text.{Text}
use cluster_autoscaler_provi.Base.{
  ℕ, ◌<◌, ◌≡◌, refl, ◌∙◌, ap, inl, inr, Option, none, some, arith, Option-cases,
}
use cluster_autoscaler_provi.Cache.{update, set_scale_set}
use cluster_autoscaler_provi.Errors.{
  Error, api, Reply, answer, failure, on_reply, Outcome, ok, err, panic,
}
use cluster_autoscaler_provi.ScaleSet.Increase.{
  build_scale_set_capacity_update, invalidate_for_precondition_failure, retry_put, store_fresh,
  retry_with, retry_create_or_update_with_fresh_etag, settle_put, if_match_of,
  init_create_or_update, publish_update, roll_back, finish_update, create_or_update_instances,
}
use cluster_autoscaler_provi.ScaleSet.{
  PutRequest, Client, World, write_vmss, call_get, call_put, invalidate_instance_cache,
  invalidate_last_size_refresh, invalidate_cache, with_capacity,
}
use cluster_autoscaler_provi.Types.{Vmss, Sku}

update_self : (h : ℕ → Vmss) (p : ℕ) (v : Vmss) → update h p v p ≡ v
unfolding update
update_self h p v = ground arith

with_capacity_back :
    (v : Vmss) (s : Sku) (n : Option ℤ)
    → v.sku ≡ some s
    → with_capacity s.capacity (with_capacity n v) ≡ v
with_capacity_back v s n e = ground arith

module _ {C : Type 0} where
  -- What a failing update leaves alone: the size in memory, and the object at an address.
  pub record Kept (p : ℕ) (w w' : World C) : Type 0 where
    pub same_size : w'.set.cur_size ≡ w.set.cur_size
    pub same_object : w'.cache.heap p ≡ w.cache.heap p

module _ {C : Type 0} (client : Client C) where
  invalidate_for_precondition_failure-Kept :
      (p : ℕ) (w w' : World C)
      → Kept p w w'
      → Kept p w (invalidate_for_precondition_failure client w')
  unfolding invalidate_for_precondition_failure invalidate_instance_cache
      invalidate_last_size_refresh invalidate_cache
  invalidate_for_precondition_failure-Kept p w w' h = record {
    same_size = h.same_size;
    same_object = h.same_object;
  }

  store_fresh-Kept :
      (p : ℕ) (fresh : Vmss) (w : World C)
      → p < w.cache.next
      → Kept p w (store_fresh client fresh w)
  unfolding store_fresh invalidate_instance_cache set_scale_set update
  store_fresh-Kept p fresh w h = ground arith

  call_put-Kept :
      (p : ℕ) (name : Text) (op : PutRequest) (w : World C) → Kept p w (call_put client name op w).1
  unfolding call_put
  call_put-Kept p name op w = record { same_size = refl; same_object = refl }

  retry_put-Kept :
      (p : ℕ) (fresh : Vmss) (q : ℕ) (n : ℤ) (w w' : World C)
      → Kept p w w'
      → Kept p w (retry_put client fresh q n w').1
  unfolding retry_put call_put invalidate_for_precondition_failure invalidate_instance_cache
      invalidate_last_size_refresh invalidate_cache
  retry_put-Kept p fresh q n w w' h = ground (arith, h)

  retry_with-Kept :
      (p : ℕ) (n : ℤ) (fresh : Vmss) (w : World C)
      → p < w.cache.next
      → Kept p w (retry_with client n fresh w).1
  unfolding retry_with
  retry_with-Kept p n fresh w h =
      let k = store_fresh-Kept p fresh w h in
      ground (arith, k, retry_put-Kept p fresh w.cache.next n w (store_fresh client fresh w) k)

  -- What keeps the world before a call keeps the one after it.
  Kept-from : (p : ℕ) (w w₁ w' : World C) → Kept p w w₁ → Kept p w₁ w' → Kept p w w'
  Kept-from p w w₁ w' h k = record {
    same_size = k.same_size ∙ h.same_size;
    same_object = k.same_object ∙ h.same_object;
  }

  retry-Kept :
      (p : ℕ) (n : ℤ) (w : World C)
      → p < w.cache.next
      → Kept p w (retry_create_or_update_with_fresh_etag client n w).1
  unfolding retry_create_or_update_with_fresh_etag call_get
  retry-Kept p n w h =
      go (call_get client w.set.name w) (record { same_size = refl; same_object = refl }) h
    where
      go :
          (r : Reply Vmss × World C)
          → Kept p w r.1
          → p < r.1.cache.next
          → Kept p w
              (on_reply r
                (λ fresh w'. retry_with client n fresh w')
                (λ e w'. (err (api e), invalidate_for_precondition_failure client w'))).1
      go (answer fresh, w') k l = Kept-from p w w' _ k (retry_with-Kept p n fresh w' l)
      go (failure e, w') k l = invalidate_for_precondition_failure-Kept p w w' k

  settle_put-Kept :
      (p q : ℕ) (n : ℤ) (w : World C) (r : Reply (Option ℕ) × World C)
      → Kept p w r.1
      → p < r.1.cache.next
      → Kept p w (settle_put client q n r).1
  unfolding settle_put
  settle_put-Kept p q n w (answer poller, w') k l = k
  settle_put-Kept p q n w (failure e, w') k l =
      ground (arith, k, Kept-from p w w' _ k (retry-Kept p n w' l))

  init-Kept :
      (p q : ℕ) (n : ℤ) (w : World C)
      → p < w.cache.next
      → Kept p w (init_create_or_update client q n w).1
  unfolding init_create_or_update call_put
  init-Kept p q n w l =
      let v = w.cache.heap q in
      elim (Option-cases (build_scale_set_capacity_update v n (if_match_of client w v))) [
        | inl e ↦ rw (e, init_create_or_update) (record { same_size = refl; same_object = refl })
        | inr (op, e) ↦
            rw (e, init_create_or_update)
              (settle_put-Kept p q n w (call_put client w.set.name op w)
                (call_put-Kept p w.set.name op w) l)
      ]

  -- The end of a failed update: the capacity of the object is what it was.
  finish_update_failed :
      (p : ℕ) (s : Sku) (n : ℤ) (w : World C) (e : Error) (r : Outcome (ℕ × Option ℕ) × World C)
      → (w.cache.heap p).sku ≡ some s
      → Kept p (write_vmss p (with_capacity (some n) (w.cache.heap p)) w) r.1
      → (finish_update client p s.capacity n r).0 ≡ err e
      → Kept p w (finish_update client p s.capacity n r).1
  unfolding finish_update publish_update roll_back write_vmss
  finish_update_failed p s n w e (ok (q, none), w') has k h = ground arith
  finish_update_failed p s n w e (ok (q, some poller), w') has k h = cc
  finish_update_failed p s n w e (err e', w') has k h =
      let h₀ = w.cache.heap in
      let same : w'.cache.heap p ≡ with_capacity (some n) (h₀ p) =
        k.same_object ∙ update_self h₀ p (with_capacity (some n) (h₀ p)) in
      record {
        same_size = k.same_size;
        same_object =
            update_self w'.cache.heap p (with_capacity s.capacity (w'.cache.heap p))
            ∙ ap (with_capacity s.capacity) same
            ∙ with_capacity_back (h₀ p) s (some n) has;
      }
  finish_update_failed p s n w e (panic, w') has k h = cc

  -- When createOrUpdateInstances for the object at an address below the next free one fails, with
  -- whatever error and after whatever retry, the size in memory and that object, its capacity
  -- included, are what they were before the call.
  pub create_or_update_instances_failed :
      (p : ℕ) (n : ℤ) (w : World C) (e : Error)
      → p < w.cache.next
      → (create_or_update_instances client p n w).0 ≡ err e
      → Kept p w (create_or_update_instances client p n w).1
  unfolding create_or_update_instances write_vmss
  create_or_update_instances_failed p n w e l = elim (Option-cases (w.cache.heap p).sku) [
    | inl h ↦ rw (h, create_or_update_instances) (λ f. cc)
    | inr (s, h) ↦
        let w₁ = write_vmss p (with_capacity (some n) (w.cache.heap p)) w in
        rw (h, create_or_update_instances)
          (finish_update_failed p s n w e (init_create_or_update client p n w₁) h
            (init-Kept p p n w₁ l))
  ]
