-- ===== src/Autodiscovery/Parsed.antt =====
-- What holds of every configuration that a spec parses to.
use cluster_autoscaler_provi.Autodiscovery.{
  LabelAutoDiscoveryConfig, empty_config, parse_size, set_pair, parse_pair, parse_pairs,
  check_sizes, parse_tokens, parse_label_auto_discovery_spec,
}
use cluster_autoscaler_provi.Base.Int.{ℤ, pos, ◌≤ℤ◌}
use cluster_autoscaler_provi.Base.Maps.{insert}
use cluster_autoscaler_provi.Base.Text.{Text, codes, split, text_eq}
use cluster_autoscaler_provi.Base.{
  ◌≡◌, false, Option, none, some, List, [], ◌∷◌, arith, All, is_empty, inl, inr, Bool-cases, ◌||◌,
}
use cluster_autoscaler_provi.Errors.{min_invalid, max_invalid, Error, ok, Outcome-cases}

abbrev pub IsNonneg : Option ℤ → Type 0
IsNonneg none = Unit
IsNonneg (some n) = pos 0 ≤ℤ n

-- A pair of a selector: neither side is empty, and the key is not one of the size keys.
pub record IsSelectorPair (p : Text × Text) : Type 0 where
  pub key : is_empty p.0 ≡ false
  pub value : is_empty p.1 ≡ false
  pub not_min : text_eq p.0 (codes "min") ≡ false
  pub not_max : text_eq p.0 (codes "max") ≡ false

pub record IsParsed (c : LabelAutoDiscoveryConfig) : Type 0 where
  pub min_nonneg : IsNonneg c.min_size
  pub max_nonneg : IsNonneg c.max_size
  pub pairs : All IsSelectorPair c.selector

abbrev pub IsOrdered : Option ℤ → Option ℤ → Type 0
IsOrdered (some lo) (some hi) = lo ≤ℤ hi
IsOrdered lo hi = Unit

insert-pairs :
    (k v : Text) (m : List (Text × Text))
    → IsSelectorPair (k, v)
    → All IsSelectorPair m
    → All IsSelectorPair (insert k v m)
unfolding insert
insert-pairs k v [] p a = (p, tt)
insert-pairs k v ((j, w) ∷ m) p a = ground (arith, insert-pairs k v m p a.1)

parse_size_nonneg : (v : Text) (e : Error) (n : ℤ) → parse_size v e ≡ ok n → pos 0 ≤ℤ n
unfolding parse_size
parse_size_nonneg v e n h = ground arith

set_pair-IsParsed :
    (k v : Text) (c d : LabelAutoDiscoveryConfig)
    → is_empty k ≡ false
    → is_empty v ≡ false
    → IsParsed c
    → set_pair k v c ≡ ok d
    → IsParsed d
unfolding set_pair
set_pair-IsParsed k v c d hk hv p h = elim (Bool-cases (text_eq k (codes "min"))) [
  | inl e ↦ elim (Outcome-cases (parse_size v (min_invalid v))) [
    | inr f ↦ absurd (ground arith)
    | inl (n, f) ↦
        let nonneg = parse_size_nonneg v (min_invalid v) n f in
        let d' : d ≡ record c { min_size = some n } = ground arith in
        rw d' (record { min_nonneg = nonneg; max_nonneg = p.max_nonneg; pairs = p.pairs })
  ]
  | inr e ↦ elim (Bool-cases (text_eq k (codes "max"))) [
    | inl f ↦ elim (Outcome-cases (parse_size v (max_invalid v))) [
      | inr g ↦ absurd (ground arith)
      | inl (n, g) ↦
          let nonneg = parse_size_nonneg v (max_invalid v) n g in
          let d' : d ≡ record c { max_size = some n } = ground arith in
          rw d' (record { min_nonneg = p.min_nonneg; max_nonneg = nonneg; pairs = p.pairs })
    ]
    | inr f ↦
        let pair : IsSelectorPair (k, v) = record {
          key = hk;
          value = hv;
          not_min = e;
          not_max = f;
        } in
        let d' : d ≡ record c { selector = insert k v c.selector } = ground arith in
        rw d' (record {
          min_nonneg = p.min_nonneg;
          max_nonneg = p.max_nonneg;
          pairs = insert-pairs k v c.selector pair p.pairs;
        })
  ]
]

parse_pair-IsParsed :
    (kv : List Text) (c d : LabelAutoDiscoveryConfig)
    → IsParsed c
    → parse_pair kv c ≡ ok d
    → IsParsed d
unfolding parse_pair
parse_pair-IsParsed [] c d p h = absurd (cc)
parse_pair-IsParsed (k ∷ []) c d p h = absurd (cc)
parse_pair-IsParsed (k ∷ v ∷ w ∷ ws) c d p h = absurd (cc)
parse_pair-IsParsed (k ∷ v ∷ []) c d p h = elim (Bool-cases (is_empty k || is_empty v)) [
  | inl e ↦ absurd (ground arith)
  | inr e ↦ set_pair-IsParsed k v c d (ground arith) (ground arith) p (ground arith)
]

parse_pairs-IsParsed :
    (args : List Text) (c d : LabelAutoDiscoveryConfig)
    → IsParsed c
    → parse_pairs args c ≡ ok d
    → IsParsed d
unfolding parse_pairs
parse_pairs-IsParsed [] c d p h = let e : d ≡ c = ground arith in rw e p
parse_pairs-IsParsed (arg ∷ args) c d p h = elim (Outcome-cases (parse_pair (split b'=' arg) c)) [
  | inr e ↦ absurd (ground arith)
  | inl (c', e) ↦
      parse_pairs-IsParsed args c' d (parse_pair-IsParsed (split b'=' arg) c c' p e) (ground arith)
]

check_sizes-IsOrdered :
    (c d : LabelAutoDiscoveryConfig)
    → check_sizes c ≡ ok d
    → (d ≡ c) × IsOrdered d.min_size d.max_size
unfolding check_sizes
check_sizes-IsOrdered c d h = ground arith

parse_tokens-IsParsed :
    (spec : Text) (tokens : List Text) (d : LabelAutoDiscoveryConfig)
    → parse_tokens spec tokens ≡ ok d
    → IsParsed d × IsOrdered d.min_size d.max_size
unfolding parse_tokens
parse_tokens-IsParsed spec [] d h = absurd (cc)
parse_tokens-IsParsed spec (t ∷ []) d h = absurd (cc)
parse_tokens-IsParsed spec (t ∷ u ∷ v ∷ vs) d h = absurd (cc)
parse_tokens-IsParsed spec (t ∷ args ∷ []) d h = elim (Bool-cases (text_eq t (codes "label"))) [
  | inr e ↦ absurd (ground arith)
  | inl e ↦ elim (Outcome-cases (parse_pairs (split b',' args) empty_config)) [
    | inr f ↦ absurd (ground arith)
    | inl (c, f) ↦
        let (same, ordered) = check_sizes-IsOrdered c d (ground arith) in
        let start : IsParsed empty_config = record {
          min_nonneg = tt;
          max_nonneg = tt;
          pairs = tt;
        } in
        (rw same (parse_pairs-IsParsed (split b',' args) empty_config c start f), ordered)
  ]
]

-- A spec that parses gives sizes that are not negative, a maximum that is not below the minimum
-- where both are given, and a selector of pairs with neither side empty and no size key.
pub parse_label_auto_discovery_spec-IsParsed :
    (spec : Text) (d : LabelAutoDiscoveryConfig)
    → parse_label_auto_discovery_spec spec ≡ ok d
    → IsParsed d × IsOrdered d.min_size d.max_size
unfolding parse_label_auto_discovery_spec
parse_label_auto_discovery_spec-IsParsed spec d h = parse_tokens-IsParsed spec (split b':' spec) d h
