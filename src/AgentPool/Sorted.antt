-- ===== src/AgentPool/Sorted.antt =====
-- The sorted indexes of an agent pool's VMs, and the offset of the next ones: `GetVMIndexes` and
-- `IncreaseSize` of azure_agent_pool.go.
use cluster_autoscaler_provi.AgentPool.Growing.{highest_index}
use cluster_autoscaler_provi.AgentPool.{insert_sorted, sort_ints}
use cluster_autoscaler_provi.Base.Int.{ℤ, ◌≤ℤ◌, leb_ℤ}
use cluster_autoscaler_provi.Base.{
  ◌≡◌, inl, inr, true, false, some, List, [], ◌∷◌, arith, All, All-map, Bool-cases,
}

abbrev pub IsSorted : List ℤ → Type 0
IsSorted [] = Unit
IsSorted (n ∷ ns) = All (λ m. n ≤ℤ m) ns × IsSorted ns

leb_sound : (a b : ℤ) → leb_ℤ a b ≡ true → a ≤ℤ b
leb_sound a b h = ground arith

leb_total : (a b : ℤ) → leb_ℤ a b ≡ false → b ≤ℤ a
leb_total a b h = ground arith

≤ℤ-trans : (a b c : ℤ) → a ≤ℤ b → b ≤ℤ c → a ≤ℤ c
≤ℤ-trans a b c h k = ground arith

insert_sorted-All :
    (P : ℤ → Type 0) (n : ℤ) (ns : List ℤ) → P n → All P ns → All P (insert_sorted n ns)
unfolding insert_sorted
insert_sorted-All P n [] p a = (p, tt)
insert_sorted-All P n (m ∷ ms) p a = elim (Bool-cases (leb_ℤ n m)) [
  | inl e ↦ rw (e, insert_sorted) (p, a)
  | inr e ↦ rw (e, insert_sorted) (a.0, insert_sorted-All P n ms p a.1)
]

All-insert_sorted :
    (P : ℤ → Type 0) (n : ℤ) (ns : List ℤ) → All P (insert_sorted n ns) → P n × All P ns
unfolding insert_sorted
All-insert_sorted P n [] = λ a. a
All-insert_sorted P n (m ∷ ms) = elim (Bool-cases (leb_ℤ n m)) [
  | inl e ↦ rw (e, insert_sorted) (λ a. a)
  | inr e ↦ rw (e, insert_sorted) (λ a. let r = All-insert_sorted P n ms a.1 in (r.0, (a.0, r.1)))
]

insert_sorted-IsSorted : (n : ℤ) (ns : List ℤ) → IsSorted ns → IsSorted (insert_sorted n ns)
unfolding insert_sorted
insert_sorted-IsSorted n [] s = (tt, tt)
insert_sorted-IsSorted n (m ∷ ms) s = elim (Bool-cases (leb_ℤ n m)) [
  | inl e ↦
      let l = leb_sound n m e in
      rw (e, insert_sorted) ((l, All-map _ _ (λ k h. ≤ℤ-trans n m k l h) ms s.0), s)
  | inr e ↦
      rw (e, insert_sorted)
        (
          insert_sorted-All (λ k. m ≤ℤ k) n ms (leb_total n m e) s.0,
          insert_sorted-IsSorted n ms s.1,
        )
]

sort_ints-IsSorted : (ns : List ℤ) → IsSorted (sort_ints ns)
unfolding sort_ints
sort_ints-IsSorted [] = tt
sort_ints-IsSorted (n ∷ ns) = insert_sorted-IsSorted n (sort_ints ns) (sort_ints-IsSorted ns)

All-sort_ints : (P : ℤ → Type 0) (ns : List ℤ) → All P (sort_ints ns) → All P ns
unfolding sort_ints
All-sort_ints P [] a = tt
All-sort_ints P (n ∷ ns) a =
    let r = All-insert_sorted P n (sort_ints ns) a in (r.0, All-sort_ints P ns r.1)

≤ℤ-refl : (a : ℤ) → a ≤ℤ a
≤ℤ-refl a = ground arith

highest_index-IsSorted :
    (ns : List ℤ) (h : ℤ) → IsSorted ns → highest_index ns ≡ some h → All (λ n. n ≤ℤ h) ns
highest_index-IsSorted [] h s e = tt
highest_index-IsSorted (n ∷ []) h s e = (ground (arith, ≤ℤ-refl n), tt)
highest_index-IsSorted (n ∷ m ∷ ms) h s e =
    let rest = highest_index-IsSorted (m ∷ ms) h s.1 e in (≤ℤ-trans n m h s.0.0 rest.0, rest)

-- The last of the sorted indexes is not below any of the indexes as they were collected, so that
-- the offset of a deployment, one above it, is above the index of every VM of the pool.
pub highest_index-sort_ints :
    (ns : List ℤ) (h : ℤ) → highest_index (sort_ints ns) ≡ some h → All (λ n. n ≤ℤ h) ns
highest_index-sort_ints ns h e =
    All-sort_ints (λ n. n ≤ℤ h) ns
      (highest_index-IsSorted (sort_ints ns) h (sort_ints-IsSorted ns) e)
