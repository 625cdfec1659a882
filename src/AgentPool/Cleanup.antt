-- ===== src/AgentPool/Cleanup.antt =====
-- What `deleteOutdatedDeployments` of azure_agent_pool.go deletes.
use cluster_autoscaler_provi.AgentPool.{
  Deployment, Call, delete_deployment, Client, World, call_delete, deployment_prefix,
  own_deployments, drop, slice_from, newer, delete_deployments, delete_outdated,
}
use cluster_autoscaler_provi.Base.Int.{ℤ, pos, negsuc, leb_ℤ}
use cluster_autoscaler_provi.Base.Text.{Text, has_prefix}
use cluster_autoscaler_provi.Base.{
  ℕ, zero, suc, ◌≡◌, refl, if◌then◌else◌, inl, inr, true, none, some, List, [], ◌∷◌, arith, All,
  Bool-cases, Option-cases, length,
}
use cluster_autoscaler_provi.Errors.{
  ApiError, Reply, answer, failure, on_reply, Outcome, ok, err, panic, then_run, Outcome-cases,
  ◌>>=◌,
}
use mathlib.Core.List.{Permᴰ}

-- A deployment of the autoscaler's own.
abbrev pub IsOwn : Deployment → Type 0
IsOwn d = (name : Text) × (d.name ≡ some name) × (has_prefix name deployment_prefix ≡ true)

-- The calls after some code, from those before it: none more, but deletions of deployments whose
-- names begin with the autoscaler's prefix.
pub data Deleted (old : List Call) : List Call → Type 0 where
  nothing : Deleted old old
  another :
      (name : Text) (sent : List Call)
      → has_prefix name deployment_prefix ≡ true
      → Deleted old sent
      → Deleted old (delete_deployment name ∷ sent)

All-Perm : (P : Deployment → Type 0) {ds es : List Deployment} → Permᴰ ds es → All P ds → All P es
All-Perm P Permᴰ.nil a = tt
All-Perm P (Permᴰ.cons e p) a = (rw (← e) a.0, All-Perm P p a.1)
All-Perm P (Permᴰ.swap e f) a = (rw (← f) a.1.0, (rw (← e) a.0, a.1.1))
All-Perm P (Permᴰ.trans p q) a = All-Perm P q (All-Perm P p a)

-- One round of the loop that keeps the autoscaler's own deployments.
select-IsOwn :
    (d : Deployment) (rest : Outcome (List Deployment)) (own : List Deployment)
    → ((es : List Deployment) → rest ≡ ok es → All IsOwn es)
    → (rest >>= (λ es. elim d.name [
      | none ↦ panic
      | some name ↦ ok (if has_prefix name deployment_prefix then d ∷ es else es)
    ]))
      ≡ ok own
    → All IsOwn own
select-IsOwn d (ok es) own f h = elim (Option-cases d.name) [
  | inl e ↦ absurd (ground (arith, e, h))
  | inr (name, e) ↦ elim (Bool-cases (has_prefix name deployment_prefix)) [
    | inl g ↦
        let same : d ∷ es ≡ own = ground (arith, e, g, h) in rw (← same) ((name, e, g), f es refl)
    | inr g ↦ let same : es ≡ own = ground (arith, e, g, h) in rw (← same) (f es refl)
  ]
]
select-IsOwn d (err x) own f h = absurd (cc)
select-IsOwn d panic own f h = absurd (cc)

own_deployments-IsOwn : (ds own : List Deployment) → own_deployments ds ≡ ok own → All IsOwn own
unfolding own_deployments
own_deployments-IsOwn [] [] h = tt
own_deployments-IsOwn [] (d ∷ own) h = absurd (ground (arith, h))
own_deployments-IsOwn (d ∷ ds) own h =
    select-IsOwn d (own_deployments ds) own (own_deployments-IsOwn ds) h

drop-IsOwn : (n : ℕ) (ds es : List Deployment) → All IsOwn ds → drop n ds ≡ some es → All IsOwn es
unfolding drop
drop-IsOwn zero ds es a h = let same : ds ≡ es = cc in rw (← same) a
drop-IsOwn (suc n) [] es a h = absurd (cc)
drop-IsOwn (suc n) (d ∷ ds) es a h = drop-IsOwn n ds es a.1 h

slice_from-IsOwn :
    (n : ℤ) (ds es : List Deployment) → All IsOwn ds → slice_from n ds ≡ some es → All IsOwn es
slice_from-IsOwn (pos n) ds es a h = drop-IsOwn n ds es a h
slice_from-IsOwn (negsuc n) ds es a h = absurd (cc)

module _ {C : Type 0} (client : Client C) (old : List Call) where
  -- The deletions that follow one that was answered.
  delete_next-IsOwn :
      (ds : List Deployment) (r : Reply (Unit {0}) × World C)
      → ((w' : World C)
          → Deleted old w'.sent
          → Deleted old (delete_deployments client ds w').1.sent)
      → Deleted old r.1.sent
      → Deleted old
          (on_reply r
            (λ _ w'. delete_deployments client ds w')
            (λ e w'.
              then_run (delete_deployments client ds w') (λ es w''. (ok (e ∷ es), w'')))).1.sent
  delete_next-IsOwn ds (answer u, w') rest a = rest w' a
  delete_next-IsOwn ds (failure e, w') rest a =
      collected (delete_deployments client ds w') (rest w' a)
    where
      collected :
          (r : Outcome (List ApiError) × World C)
          → Deleted old r.1.sent
          → Deleted old (then_run r (λ es w''. (ok (e ∷ es), w''))).1.sent
      collected (ok es, w'') b = b
      collected (err x, w'') b = b
      collected (panic, w'') b = b

  delete_deployments-IsOwn :
      (ds : List Deployment) (w : World C)
      → All IsOwn ds
      → Deleted old w.sent
      → Deleted old (delete_deployments client ds w).1.sent
  unfolding delete_deployments call_delete
  delete_deployments-IsOwn [] w o a = a
  delete_deployments-IsOwn (d ∷ ds) w o a =
      let named = o.0 in
      rw (named.1, delete_deployments)
        (delete_next-IsOwn ds (call_delete client named.0 w)
          (λ w'. delete_deployments-IsOwn ds w' o.1) (another named.0 w.sent named.2 a))

module _ {C : Type 0} (client : Client C) where
  -- Where sort.Slice gives a permutation of the deployments, deleteOutdatedDeployments sends nothing
  -- but deletions of deployments whose names begin with the autoscaler's prefix,
  -- whatever deployments are listed, and whether the deletions fail or not.
  pub delete_outdated-IsOwn :
      ((ds : List Deployment) → Permᴰ ds (client.sort_slice newer ds))
      → (ds : List Deployment) (w : World C) → Deleted w.sent (delete_outdated client ds w).1.sent
  unfolding delete_outdated
  delete_outdated-IsOwn permutes ds w = elim (Outcome-cases (own_deployments ds)) [
    | inr e ↦ let same : (delete_outdated client ds w).1 ≡ w = ground (arith, e) in rw same nothing
    | inl (own, e) ↦ elim (Bool-cases (leb_ℤ (pos (length own)) w.max_deployments_count)) [
      | inl f ↦ rw (e, f, delete_outdated) nothing
      | inr f ↦
          let sorted = client.sort_slice newer own in
          let sorted_own = All-Perm IsOwn (permutes own) (own_deployments-IsOwn ds own e) in
          elim (Option-cases (slice_from w.max_deployments_count sorted)) [
            | inl g ↦ rw (e, f, g, delete_outdated) nothing
            | inr (outdated, g) ↦
                rw (e, f, g, delete_outdated)
                  (delete_deployments-IsOwn client w.sent outdated w
                    (slice_from-IsOwn w.max_deployments_count sorted outdated sorted_own g) nothing)
          ]
    ]
  ]
