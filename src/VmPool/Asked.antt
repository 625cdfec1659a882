-- ===== src/VmPool/Asked.antt =====
-- The PUT that `IncreaseSize` of azure_vms_pool.go sends.
use cluster_autoscaler_provi.Base.Int.{ℤ, pos, ltb_ℤ, leb_ℤ, add64, add64_exact, ◌+ℤ◌, int32}
use cluster_autoscaler_provi.Base.Text.{Text}
use cluster_autoscaler_provi.Base.{
  ℕ, suc, ◌+◌, ◌^◌, ◌<◌, ◌≡◌, refl, ◌∙◌, ap, any, if◌then◌else◌, true, false, Option, none, some,
  List, [], ◌∷◌, arith, length, is_empty, ltb, ◌||◌, Bool-cases, inl, inr,
}
use cluster_autoscaler_provi.Errors.{Reply, answer, failure, ok}
use cluster_autoscaler_provi.Types.{AksPool, AgentPoolProperties, SizeCount}
use cluster_autoscaler_provi.VmPool.Bounds.{is_of_sku, update_first, set_count-update_first}
use cluster_autoscaler_provi.VmPool.Requests.{
  increase_size, scale_up, wait, call_put, call_poll, get_cur_size, invalidate_cache,
  remember_profiles, body_of, headers_of,
}
use cluster_autoscaler_provi.VmPool.{
  Call, get_pool, put_pool, poll_pool, delete_machines, Client, World, Body, Headers,
  is_spot_agent_pool, build_request_body_for_scale_up, is_system, is_hosted_system,
  get_vms_from_cache, get_agentpool_from_cache,
}

-- The PUTs among the calls.
abbrev pub puts : List Call → List (Option Body × Option Headers)
puts [] = []
puts (get_pool ∷ calls) = puts calls
puts (put_pool body headers ∷ calls) = (body, headers) ∷ puts calls
puts (poll_pool poller ∷ calls) = puts calls
puts (delete_machines names ∷ calls) = puts calls

-- The profiles that a PUT asks for: those of the pool, the first of the SKU with the count, and none
-- where no profile is of the SKU.
abbrev pub profiles_with : List (Option SizeCount) → ℤ → Text → Option (List (Option SizeCount))
profiles_with profiles count sku =
    if any (is_of_sku sku) profiles
    then some (update_first sku (λ p. record p { count = some count }) profiles)
    else none

-- The PUT for a count.
abbrev pub put_for : AgentPoolProperties → ℤ → Text → Option Body × Option Headers
put_for props count sku = (
  if is_empty props.manual
      then none
      else some (record {
        pool_type = props.pool_type;
        system_mode = is_system props.mode;
        manual = profiles_with props.manual count sku;
      }),
  if props.autoscale || is_hosted_system props.mode
      then some (record { target_count = count; header_sku = sku })
      else none,
)

build_request_body-profiles_with :
    (props : AgentPoolProperties) (count : ℤ) (sku : Text)
    → build_request_body_for_scale_up props count sku ≡ record {
      pool_type = props.pool_type;
      system_mode = is_system props.mode;
      manual = profiles_with props.manual count sku;
    }
unfolding build_request_body_for_scale_up
build_request_body-profiles_with props count sku =
    rw (set_count-update_first sku count props.manual) refl

int32_exact : (n : ℕ) → n < 2 ^ 31 → int32 (pos n) ≡ pos n
int32_exact n h = ground arith

-- The count of the PUT, as the code computes it.
count_exact :
    (size delta : ℕ)
    → size + delta < 2 ^ 31
    → int32 (pos size +ℤ int32 (pos delta)) ≡ pos (size + delta)
count_exact size delta h =
    let sum : pos size +ℤ pos delta ≡ pos (size + delta) = ground arith in
    rw (int32_exact delta (omega arith), sum) (int32_exact (size + delta) h)

over_max :
    (n delta max : ℕ) (bound : ℤ)
    → bound ≡ pos max
    → n + delta < 2 ^ 63
    → ltb_ℤ bound (add64 (pos n) (pos delta)) ≡ ltb max (n + delta)
over_max n delta max bound e l = rw (e, add64_exact n delta l) (ground arith)

body_of-put_for :
    (props : AgentPoolProperties) (count : ℤ) (sku : Text)
    → body_of props count sku ≡ (put_for props count sku).0
body_of-put_for props count sku = rw (build_request_body-profiles_with props count sku) refl

module _ {C : Type 0} (client : Client C) where
  wait-puts : (r : Reply ℕ × World C) → puts (wait client r).1.sent ≡ puts r.1.sent
  unfolding wait call_poll invalidate_cache
  wait-puts (answer p, w) = ground arith
  wait-puts (failure e, w) = refl

  scale_up-puts :
      (size delta : ℕ) (pool : AksPool) (props : AgentPoolProperties) (w : World C)
      → pool.properties ≡ some props
      → size + delta < 2 ^ 31
      → puts (scale_up client (pos size) (pos delta) pool w).1.sent
        ≡ put_for props (pos (size + delta)) w.pool.sku ∷ puts w.sent
  unfolding scale_up call_put remember_profiles
  scale_up-puts size delta pool props w e h =
      let count = pos (size + delta) in
      rw (e, count_exact size delta h, scale_up)
        (wait-puts _
          ∙ ap (λ b. (b, headers_of props count w.pool.sku) ∷ puts w.sent)
              (body_of-put_for props count w.pool.sku))

  -- Where the cache has the agent pool, with its properties, and it is no Spot pool, an IncreaseSize
  -- by a positive delta sends no PUT if the number of the pool's VMs that neither failed nor are
  -- being deleted, with delta, is over the maximum, and else exactly one. Where the pool has manual
  -- profiles, that PUT has them with the sum as the count of the first one of the pool's SKU and
  -- every other as it was, or has none where none is of the SKU; where the pool has autoscale
  -- profiles or is a HostedSystem one, its headers have the sum and the SKU. The maximum and the
  -- number of VMs fit int32, and the sum int64.
  pub increase_size-puts :
      (delta max : ℕ) (pool : AksPool) (props : AgentPoolProperties) (w : World C)
      → get_agentpool_from_cache w ≡ ok pool
      → pool.properties ≡ some props
      → is_spot_agent_pool pool ≡ false
      → w.pool.max_size ≡ pos max
      → max < 2 ^ 31
      → let n =
          length (get_vms_from_cache (record { skip_deleting = true; skip_failed = true }) w) in
        n < 2 ^ 31
        → n + suc delta < 2 ^ 63
        → puts (increase_size client (pos (suc delta)) w).1.sent ≡ (
            if ltb max (n + suc delta)
            then puts w.sent
            else put_for props (pos (n + suc delta)) w.pool.sku ∷ puts w.sent)
  unfolding increase_size get_cur_size
  increase_size-puts delta max pool props w e e₁ e₂ e₃ h k l =
      let n = length (get_vms_from_cache (record { skip_deleting = true; skip_failed = true }) w) in
      let positive : leb_ℤ (pos (suc delta)) (pos 0) ≡ false = ground arith in
      elim (Bool-cases (ltb max (n + suc delta))) [
        | inl b ↦
            rw
              (
                positive,
                e,
                e₂,
                int32_exact n k,
                over_max n (suc delta) max w.pool.max_size e₃ l,
                b,
                increase_size,
                get_cur_size,
              )
              refl
        | inr b ↦
            rw
              (
                positive,
                e,
                e₂,
                int32_exact n k,
                over_max n (suc delta) max w.pool.max_size e₃ l,
                b,
                e,
                increase_size,
                get_cur_size,
              )
              (scale_up-puts n (suc delta) pool props w e₁ (ground (arith, b, h)))
      ]
