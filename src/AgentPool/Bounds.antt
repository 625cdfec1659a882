-- ===== src/AgentPool/Bounds.antt =====
-- What the size of an agent pool is after `IncreaseSize` and `DecreaseTargetSize` of
-- azure_agent_pool.go, and what is deployed.
use cluster_autoscaler_provi.AgentPool.Growing.{decrease_target_size}
use cluster_autoscaler_provi.AgentPool.{
  Deployment, Client, World, get_vms_from_cache, call_list, call_delete, own_deployments,
  settled_deployments, get_all_succeeded_and_failed_deployments, slice_from, delete_deployments,
  delete_outdated, delete_outdated_deployments, newer,
}
use cluster_autoscaler_provi.Base.Int.{ℤ, pos, ◌≤ℤ◌, ltb_ℤ, leb_ℤ, add64}
use cluster_autoscaler_provi.Base.{
  ◌≡◌, refl, ◌∙◌, inl, inr, false, List, [], ◌∷◌, arith, Bool-cases, Option-cases, length,
}
use cluster_autoscaler_provi.Errors.{
  api, Reply, answer, failure, on_reply, Outcome, ok, err, panic, then_run, Outcome-cases,
}
use cluster_autoscaler_provi.Types.{Vm}

pub leb-from_ltb : (a b : ℤ) → ltb_ℤ a b ≡ false → b ≤ℤ a
leb-from_ltb a b h = ground arith

module _ {C : Type 0} where
  -- The cleanup of deployments changes neither the pool nor the cache.
  pub record Same (w w' : World C) : Type 0 where
    pub same_pool : w'.pool ≡ w.pool
    pub same_cache : w'.cache ≡ w.cache

  Same-refl : (w : World C) → Same w w
  Same-refl w = record { same_pool = refl; same_cache = refl }

  Same-from : (w w₁ w' : World C) → Same w w₁ → Same w₁ w' → Same w w'
  Same-from w w₁ w' h k = record {
    same_pool = k.same_pool ∙ h.same_pool;
    same_cache = k.same_cache ∙ h.same_cache;
  }

  -- When DecreaseTargetSize succeeds, the new size in memory is the old one plus delta, in 64-bit
  -- arithmetic, and it is not below the number of the pool's VMs in the cache.
  pub decrease_target_size_ok :
      (client : Client C) (delta : ℤ) (w : World C)
      → (decrease_target_size client delta w).0 ≡ ok tt
      → let n = (decrease_target_size client delta w).1.pool.cur_size in
        (n ≡ add64 w.pool.cur_size delta)
        × ((vms : List Vm) × (get_vms_from_cache w ≡ ok vms) × (pos (length vms) ≤ℤ n))
  unfolding decrease_target_size
  decrease_target_size_ok client delta w = go (get_vms_from_cache w) refl
    where
      go :
          (r : Outcome (List Vm))
          → get_vms_from_cache w ≡ r
          → (decrease_target_size client delta w).0 ≡ ok tt
          → let n = (decrease_target_size client delta w).1.pool.cur_size in
            (n ≡ add64 w.pool.cur_size delta)
            × ((vms : List Vm) × (get_vms_from_cache w ≡ ok vms) × (pos (length vms) ≤ℤ n))
      go (ok vms) e h = elim (Bool-cases (ltb_ℤ (add64 w.pool.cur_size delta) (pos (length vms)))) [
        | inl f ↦ absurd (ground (arith, e, f, h))
        | inr f ↦ (
          (ground (arith, e, f)),
          (
            vms,
            e,
            rw (e, f, decrease_target_size)
                (leb-from_ltb (add64 w.pool.cur_size delta) (pos (length vms)) f),
          ),
        )
      ]
      go (err x) e h = absurd (ground (arith, e, h))
      go panic e h = absurd (ground (arith, e, h))

module _ {C : Type 0} (client : Client C) where
  then_run-Same :
      {A B : Type 0} (w : World C) (f : A → Outcome B) (r : Outcome A × World C)
      → Same w r.1
      → Same w (then_run r (λ a w'. (f a, w'))).1
  then_run-Same w f (ok a, w') h = h
  then_run-Same w f (err e, w') h = h
  then_run-Same w f (panic, w') h = h

  delete_next-Same :
      (w : World C) (ds : List Deployment) (r : Reply (Unit {0}) × World C)
      → Same w r.1
      → ((w' : World C) → Same w' (delete_deployments client ds w').1)
      → Same w
          (on_reply r
            (λ _ w'. delete_deployments client ds w')
            (λ e w'. then_run (delete_deployments client ds w') (λ es w''. (ok (e ∷ es), w'')))).1
  delete_next-Same w ds (answer u, w') h rest = Same-from w w' _ h (rest w')
  delete_next-Same w ds (failure e, w') h rest =
      then_run-Same w (λ es. ok (e ∷ es)) (delete_deployments client ds w')
        (Same-from w w' _ h (rest w'))

  delete_deployments-Same :
      (ds : List Deployment) (w : World C) → Same w (delete_deployments client ds w).1
  unfolding delete_deployments call_delete
  delete_deployments-Same [] w = Same-refl w
  delete_deployments-Same (d ∷ ds) w = elim (Option-cases d.name) [
    | inl e ↦ rw (e, delete_deployments) (Same-refl w)
    | inr (name, e) ↦
        rw (e, delete_deployments)
          (delete_next-Same w ds (call_delete client name w)
            (record { same_pool = refl; same_cache = refl }) (delete_deployments-Same ds))
  ]

  delete_outdated-Same :
      (ds : List Deployment) (w : World C) → Same w (delete_outdated client ds w).1
  unfolding delete_outdated
  delete_outdated-Same ds w = elim (Outcome-cases (own_deployments ds)) [
    | inr e ↦ ground (arith, e, Same-refl w)
    | inl (own, e) ↦ elim (Bool-cases (leb_ℤ (pos (length own)) w.max_deployments_count)) [
      | inl f ↦ rw (e, f, delete_outdated) (Same-refl w)
      | inr f ↦
          elim (Option-cases (slice_from w.max_deployments_count (client.sort_slice newer own))) [
            | inl g ↦ rw (e, f, g, delete_outdated) (Same-refl w)
            | inr (outdated, g) ↦ rw (e, f, g, delete_outdated) (delete_deployments-Same outdated w)
          ]
    ]
  ]

  -- What the cleanup does to the listed deployments, or to none.
  run_delete-Same :
      (w : World C) (r : Outcome (List Deployment) × World C)
      → Same w r.1
      → Same w (then_run r (delete_outdated client)).1
  run_delete-Same w (ok ds, w') h = Same-from w w' _ h (delete_outdated-Same ds w')
  run_delete-Same w (err e, w') h = h
  run_delete-Same w (panic, w') h = h

  pub delete_outdated_deployments-Same :
      (w : World C) → Same w (delete_outdated_deployments client w).1
  unfolding delete_outdated_deployments get_all_succeeded_and_failed_deployments call_list
  delete_outdated_deployments-Same w =
      run_delete-Same w (get_all_succeeded_and_failed_deployments client w)
        (listed (call_list client w) (record { same_pool = refl; same_cache = refl }))
    where
      listed :
          (r : Reply (List Deployment) × World C)
          → Same w r.1
          → Same w
              (on_reply {R = Outcome (List Deployment) × World C} r
                (λ ds w'. (ok (settled_deployments ds), w'))
                (λ e w'. (err (api e), w'))).1
      listed (answer ds, w') h = h
      listed (failure e, w') h = h
