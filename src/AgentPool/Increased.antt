-- ===== src/AgentPool/Increased.antt =====
-- What `IncreaseSize` of azure_agent_pool.go does when it succeeds.
use cluster_autoscaler_provi.AgentPool.Bounds.{Same, delete_outdated_deployments-Same, leb-from_ltb}
use cluster_autoscaler_provi.AgentPool.Growing.{
  highest_index, count_for_template, scale_parameters, publish, deploy, grow, after_cleanup,
  increase_size,
}
use cluster_autoscaler_provi.AgentPool.{
  Call, put_deployment, Client, World, get_vms_from_cache, get_vm_indexes, invalidate_cache,
  call_put, delete_outdated_deployments,
}
use cluster_autoscaler_provi.Base.Int.{ℤ, pos, negsuc, ◌≤ℤ◌, ltb_ℤ, leb_ℤ, eqb_ℤ, add64}
use cluster_autoscaler_provi.Base.Text.{Text, codes}
use cluster_autoscaler_provi.Base.{
  ◌≡◌, refl, inl, inr, some, List, ◌∷◌, ◌++◌, arith, Bool-cases, Option-cases, length,
}
use cluster_autoscaler_provi.Errors.{
  ApiError, api, Reply, answer, failure, on_reply, Outcome, ok, err, panic,
}

module _ {C : Type 0} where
  -- What IncreaseSize has done when it succeeds: the size in memory is the number of the pool's
  -- indexed VMs plus delta, at most the maximum, and the deployment's parameters are built from it.
  pub record Grown (delta : ℤ) (w w' : World C) : Type 0 where
    pub indexes : List ℤ × List (ℤ × Text)
    pub highest : ℤ
    pub indexed : get_vm_indexes w ≡ ok indexes
    pub top : highest_index indexes.0 ≡ some highest
    pub size : w'.pool.cur_size ≡ add64 (pos (length indexes.0)) delta
    pub within : w'.pool.cur_size ≤ℤ w.pool.max_size
    pub deployed :
        w'.pool.parameters
        ≡ scale_parameters w.pool.name
            (count_for_template
              (add64 (pos (length indexes.0)) delta)
              highest
              (pos (length indexes.0)))
            (add64 highest (pos 1))
            w.pool.parameters
    pub sent :
        (name : Text) × (before : List Call) × (w'.sent
          ≡ put_deployment name w'.pool.parameters ∷ before)

  get_vm_indexes-Same : (w w' : World C) → Same w w' → get_vm_indexes w' ≡ get_vm_indexes w
  unfolding get_vm_indexes get_vms_from_cache
  get_vm_indexes-Same w w' h = rw (h.same_pool, h.same_cache) refl

  -- What is grown from a world with the same pool and cache is grown.
  Grown-from : (delta : ℤ) (w w₁ w' : World C) → Same w w₁ → Grown delta w₁ w' → Grown delta w w'
  Grown-from delta w w₁ w' h g = record {
    indexes = g.indexes;
    highest = g.highest;
    indexed = rw (← get_vm_indexes-Same w w₁ h) g.indexed;
    top = g.top;
    size = g.size;
    within = rw (← h.same_pool) g.within;
    deployed = rw (← h.same_pool) g.deployed;
    sent = g.sent;
  }

module _ {C : Type 0} (client : Client C) where
  -- The end of a deployment of the pool's new parameters.
  finish_deploy-Grown :
      (delta highest : ℤ) (indexes : List ℤ × List (ℤ × Text)) (name : Text) (w w' : World C)
      (r : Reply (Unit {0}) × World C)
      → get_vm_indexes w ≡ ok indexes
      → highest_index indexes.0 ≡ some highest
      → add64 (pos (length indexes.0)) delta ≤ℤ w.pool.max_size
      → w'.pool.parameters
        ≡ scale_parameters w.pool.name
            (count_for_template
              (add64 (pos (length indexes.0)) delta)
              highest
              (pos (length indexes.0)))
            (add64 highest (pos 1))
            w.pool.parameters
      → r.1.pool ≡ w'.pool
      → r.1.sent ≡ put_deployment name w'.pool.parameters ∷ w'.sent
      → let n = add64 (pos (length indexes.0)) delta in
        let r' =
          on_reply {R = Outcome (Unit {0}) × World C} r
            (λ _ w₁. (ok tt, publish client n w₁))
            (λ e w₁. (err (api e), w₁)) in
        r'.0 ≡ ok tt → Grown delta w r'.1
  unfolding publish invalidate_cache
  finish_deploy-Grown delta highest indexes name w w' (answer u, w₁) e t b p q s h = record {
    indexes = indexes;
    highest = highest;
    indexed = e;
    top = t;
    size = refl;
    within = b;
    deployed = rw q p;
    sent = (name, w'.sent, rw q s);
  }
  finish_deploy-Grown delta highest indexes name w w' (failure x, w₁) e t b p q s h = absurd (cc)

  deploy-Grown :
      (delta highest : ℤ) (indexes : List ℤ × List (ℤ × Text)) (w : World C)
      → get_vm_indexes w ≡ ok indexes
      → highest_index indexes.0 ≡ some highest
      → add64 (pos (length indexes.0)) delta ≤ℤ w.pool.max_size
      → let n = pos (length indexes.0) in
        (deploy client highest n (add64 n delta) w).0 ≡ ok tt
        → Grown delta w (deploy client highest n (add64 n delta) w).1
  unfolding deploy call_put
  deploy-Grown delta highest indexes w e t b =
      let size = pos (length indexes.0) in
      let parameters =
        scale_parameters w.pool.name (count_for_template (add64 size delta) highest size)
          (add64 highest (pos 1)) w.pool.parameters in
      let w' : World C = record w { pool = record w.pool { parameters = parameters } } in
      let name = codes "cluster-autoscaler-" ++ client.random_name w.cloud in
      finish_deploy-Grown delta highest indexes name w w' (call_put client name parameters w') e t b
        refl refl refl

  grow-Grown :
      (delta : ℤ) (w : World C)
      → (grow client delta w).0 ≡ ok tt
      → Grown delta w (grow client delta w).1
  unfolding grow
  grow-Grown delta w = go (get_vm_indexes w) refl
    where
      go :
          (r : Outcome (List ℤ × List (ℤ × Text)))
          → get_vm_indexes w ≡ r
          → (grow client delta w).0 ≡ ok tt
          → Grown delta w (grow client delta w).1
      go (err x) e = λ h. absurd (ground (arith, e, h))
      go panic e = λ h. absurd (ground (arith, e, h))
      go (ok indexes) e =
          let n = add64 (pos (length indexes.0)) delta in
          elim (Bool-cases (ltb_ℤ w.pool.max_size n)) [
            | inl f ↦ rw (e, f, grow) (λ h. absurd (cc))
            | inr f ↦ elim (Option-cases (highest_index indexes.0)) [
              | inl t ↦ rw (e, f, t, grow) (λ h. absurd (cc))
              | inr (highest, t) ↦
                  rw (e, f, t, grow)
                    (deploy-Grown delta highest indexes w e t (leb-from_ltb w.pool.max_size n f))
            ]
          ]

  after_cleanup-Grown :
      (delta : ℤ) (w : World C) (r : Outcome (List ApiError) × World C)
      → Same w r.1
      → (after_cleanup client delta r).0 ≡ ok tt
      → Grown delta w (after_cleanup client delta r).1
  unfolding after_cleanup invalidate_cache
  after_cleanup-Grown delta w (panic, w') s h = absurd (cc)
  after_cleanup-Grown delta w (ok es, w') s h =
      Grown-from delta w _ _ (record { same_pool = s.same_pool; same_cache = s.same_cache })
        (grow-Grown delta (invalidate_cache client w') h)
  after_cleanup-Grown delta w (err e, w') s h =
      Grown-from delta w _ _ (record { same_pool = s.same_pool; same_cache = s.same_cache })
        (grow-Grown delta (invalidate_cache client w') h)

  -- When IncreaseSize succeeds, after any cleanup of deployments, the pool has at least one VM with
  -- an index; the size in memory is the number of those VMs plus delta and is at most the maximum
  -- size; and the last call to Azure deploys the pool's parameters, with the count that the
  -- template needs and the offset one above the last of the sorted indexes.
  pub increase_size-Grown :
      (delta : ℤ) (w : World C)
      → (increase_size client delta w).0 ≡ ok tt
      → Grown delta w (increase_size client delta w).1
  unfolding increase_size
  increase_size-Grown delta w = elim (Bool-cases (eqb_ℤ w.pool.cur_size (negsuc 0))) [
    | inl e ↦ rw (e, increase_size) (λ h. absurd (cc))
    | inr e ↦ elim (Bool-cases (leb_ℤ delta (pos 0))) [
      | inl f ↦ rw (e, f, increase_size) (λ h. absurd (cc))
      | inr f ↦
          rw (e, f, increase_size)
            (after_cleanup-Grown delta w (delete_outdated_deployments client w)
              (delete_outdated_deployments-Same client w))
    ]
  ]
