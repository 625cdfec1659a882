-- ===== src/ScaleSet/Stale.antt =====
-- A PUT that Azure refuses since its ETag is stale: the fresh read and the one retry of
-- `retryCreateOrUpdateWithFreshETag` in azure_scale_set.go.
use cluster_autoscaler_provi.Base.Int.{ℤ, ◌≤ℤ◌, leb_ℤ}
use cluster_autoscaler_provi.Base.{ℕ, ◌≡◌, ◌≢◌, true, false, Option, some, ◌∷◌, arith, ==_iff}
use cluster_autoscaler_provi.Cache.{set_scale_set, update}
use cluster_autoscaler_provi.Errors.{ApiError, answer, failure, ok}
use cluster_autoscaler_provi.ScaleSet.Increase.{
  is_precondition_failed_error, build_scale_set_capacity_update, meets_target,
  invalidate_for_precondition_failure, retry_put, store_fresh, retry_with,
  retry_create_or_update_with_fresh_etag, settle_put, publish_size, publish_update, finish_update,
}
use cluster_autoscaler_provi.ScaleSet.{
  PutRequest, get_vmss, put, Client, World, call_get, call_put, invalidate_instance_cache,
  invalidate_last_size_refresh, invalidate_cache, capacity_of,
}
use cluster_autoscaler_provi.Types.{Vmss}

leb-from_≤ : (a b : ℤ) → a ≤ℤ b → leb_ℤ a b ≡ true
leb-from_≤ a b h = ground arith

module _ {C : Type 0} (client : Client C) where
  -- With ETags in use, when the PUT fails with status 412, the GET that follows answers a VMSS whose
  -- capacity already is the wanted size or more, and the object of the update is not at the next
  -- free address, createOrUpdateInstances succeeds: nothing but the GET is sent after the PUT, and
  -- the capacity that Azure reported becomes the size in memory.
  pub stale_etag-met :
      (p : ℕ) (previous : Option ℤ) (n m : ℤ) (e : ApiError) (fresh : Vmss) (c : C) (w : World C)
      → w.config.enable_vmss_etag ≡ true
      → is_precondition_failed_error e ≡ true
      → client.get w.set.name w.cloud ≡ (answer fresh, c)
      → capacity_of fresh ≡ some m
      → n ≤ℤ m
      → w.cache.next ≢ p
      → let r = finish_update client p previous n (settle_put client p n (failure e, w)) in
        (r.0 ≡ ok tt) × (r.1.set.cur_size ≡ m) × (r.1.sent ≡ get_vmss w.set.name ∷ w.sent)
  unfolding finish_update settle_put retry_create_or_update_with_fresh_etag call_get retry_with
      meets_target store_fresh invalidate_instance_cache set_scale_set update publish_update
      publish_size
  stale_etag-met p previous n m e fresh c w etags stale got cap met apart =
      ground (arith, leb-from_≤ n m met, ==_iff w.cache.next p)

  -- With ETags in use, when the PUT fails with status 412 and the GET that follows answers a VMSS
  -- with an SKU whose capacity is missing or below the wanted size, one more PUT is sent and no other: its body is built from
  -- the fresh VMSS for the same wanted size, with the fresh ETag as its If-Match.
  pub stale_etag-retried :
      (p : ℕ) (n : ℤ) (e : ApiError) (fresh : Vmss) (c : C) (op : PutRequest) (w : World C)
      → w.config.enable_vmss_etag ≡ true
      → is_precondition_failed_error e ≡ true
      → client.get w.set.name w.cloud ≡ (answer fresh, c)
      → build_scale_set_capacity_update fresh n fresh.etag ≡ some op
      → meets_target fresh n ≡ false
      → ((settle_put client p n (failure e, w)).1.sent
          ≡ put w.set.name op ∷ get_vmss w.set.name ∷ w.sent)
        × (op.if_match ≡ fresh.etag)
        × (op.capacity ≡ n)
  unfolding settle_put retry_create_or_update_with_fresh_etag call_get retry_with retry_put call_put
      store_fresh invalidate_instance_cache set_scale_set invalidate_for_precondition_failure
      invalidate_last_size_refresh invalidate_cache build_scale_set_capacity_update
  stale_etag-retried p n e fresh c op w etags stale got built below = ground arith
