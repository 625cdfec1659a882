-- ===== src/Autodiscovery/Matched.antt =====
-- When the tags of a scale set match a list of configurations, and which sizes they give it.
use cluster_autoscaler_provi.Autodiscovery.{
  LabelAutoDiscoveryConfig, AutoDiscoveryConfigSizes, matches_selector, raise_min, lower_max,
  match_configs, match_discovery_config,
}
use cluster_autoscaler_provi.Autodiscovery.Parsed.{IsNonneg}
use cluster_autoscaler_provi.Base.Int.{ℤ, pos, negsuc, ◌≤ℤ◌}
use cluster_autoscaler_provi.Base.{
  ◌≡◌, refl, ◌⊎◌, inl, inr, Bool, not, ◌&&◌, Option, none, some, List, [], ◌∷◌, arith, All, all,
  is_empty, is_some, Option-cases,
}
use cluster_autoscaler_provi.Types.{Tags}

-- A configuration selects a scale set by its tags.
abbrev pub selects : Tags → LabelAutoDiscoveryConfig → Bool
selects labels c = not (is_empty c.selector) && matches_selector labels c.selector

-- A lower and an upper bound, where the number is given.
abbrev pub IsAtMost : Option ℤ → ℤ → Type 0
IsAtMost none b = Unit
IsAtMost (some n) b = n ≤ℤ b

abbrev pub IsAtLeast : Option ℤ → ℤ → Type 0
IsAtLeast none b = Unit
IsAtLeast (some n) b = b ≤ℤ n

-- The number is one of those that the configurations give.
abbrev pub OneOf : ℤ → List (Option ℤ) → Type 0
OneOf n [] = ⊥
OneOf n (m ∷ ms) = (m ≡ some n) ⊎ OneOf n ms

abbrev pub mins : List LabelAutoDiscoveryConfig → List (Option ℤ)
mins [] = []
mins (c ∷ cs) = c.min_size ∷ mins cs

abbrev pub maxes : List LabelAutoDiscoveryConfig → List (Option ℤ)
maxes [] = []
maxes (c ∷ cs) = c.max_size ∷ maxes cs

match_configs-selects :
    (labels : Tags) (cs : List LabelAutoDiscoveryConfig) (s : AutoDiscoveryConfigSizes)
    → is_some (match_configs labels cs s) ≡ all (selects labels) cs
unfolding match_configs
match_configs-selects labels [] s = refl
match_configs-selects labels (c ∷ cs) s = ground (
  arith,
  match_configs-selects labels cs
      (record { min = raise_min s.min c.min_size; max = lower_max s.max c.max_size }),
)

-- The greatest of the minima: above each and the start, and one of them or the start.
abbrev pub IsGreatest : ℤ → ℤ → List (Option ℤ) → Type 0
IsGreatest start n ms = (start ≤ℤ n) × All (λ m. IsAtMost m n) ms × ((n ≡ start) ⊎ OneOf n ms)

-- The least of the maxima and of a start that is not negative.
abbrev pub IsLeast : ℤ → ℤ → List (Option ℤ) → Type 0
IsLeast start n ms =
    (pos 0 ≤ℤ n) × (n ≤ℤ start) × All (λ m. IsAtLeast m n) ms × ((n ≡ start) ⊎ OneOf n ms)

-- The least of the maxima, or -1 where no configuration gives one.
abbrev pub IsLeastOrNone : ℤ → List (Option ℤ) → Type 0
IsLeastOrNone n ms =
    ((n ≡ negsuc 0) × All (λ m. m ≡ none) ms) ⊎ (OneOf n ms × All (λ m. IsAtLeast m n) ms)

match_configs-min :
    (labels : Tags) (cs : List LabelAutoDiscoveryConfig) (s t : AutoDiscoveryConfigSizes)
    → match_configs labels cs s ≡ some t
    → IsGreatest s.min t.min (mins cs)
unfolding match_configs
match_configs-min labels [] s t h = ground arith
match_configs-min labels (c ∷ cs) s t h = ground (
  arith,
  match_configs-min labels cs
      (record { min = raise_min s.min c.min_size; max = lower_max s.max c.max_size }) t,
)

match_configs-max :
    (labels : Tags) (cs : List LabelAutoDiscoveryConfig) (s t : AutoDiscoveryConfigSizes)
    → pos 0 ≤ℤ s.max
    → All IsNonneg (maxes cs)
    → match_configs labels cs s ≡ some t
    → IsLeast s.max t.max (maxes cs)
unfolding match_configs
match_configs-max labels [] s t p a h = ground arith
match_configs-max labels (c ∷ cs) s t p a h = ground (
  arith,
  match_configs-max labels cs
      (record { min = raise_min s.min c.min_size; max = lower_max s.max c.max_size }) t,
)

match_configs-max_none :
    (labels : Tags) (cs : List LabelAutoDiscoveryConfig) (lo : ℤ) (t : AutoDiscoveryConfigSizes)
    → All IsNonneg (maxes cs)
    → match_configs labels cs (record { min = lo; max = negsuc 0 }) ≡ some t
    → IsLeastOrNone t.max (maxes cs)
unfolding match_configs
match_configs-max_none labels [] lo t a h = ground arith
match_configs-max_none labels (c ∷ cs) lo t a h = elim (Option-cases c.max_size) [
  | inl e ↦ ground (arith, match_configs-max_none labels cs (raise_min lo c.min_size) t a.1)
  | inr (m, e) ↦
      let nonneg : pos 0 ≤ℤ m = ground (arith, a.0) in
      ground (
        arith,
        match_configs-max labels cs (record { min = raise_min lo c.min_size; max = m }) t nonneg
            a.1,
      )
]

-- Tags match a list of configurations exactly when there is one and each has a selector that the
-- tags satisfy.
pub match_discovery_config-selects :
    (labels : Tags) (cs : List LabelAutoDiscoveryConfig)
    → is_some (match_discovery_config labels cs) ≡ (not (is_empty cs) && all (selects labels) cs)
unfolding match_discovery_config
match_discovery_config-selects labels [] = refl
match_discovery_config-selects labels (c ∷ cs) =
    match_configs-selects labels (c ∷ cs) (record { min = negsuc 0; max = negsuc 0 })

-- The sizes of a match are the highest of the minima and the lowest of the maxima, where the
-- maxima are not negative, and -1 for the one or the other that no configuration gives.
pub match_discovery_config-sizes :
    (labels : Tags) (cs : List LabelAutoDiscoveryConfig) (t : AutoDiscoveryConfigSizes)
    → All IsNonneg (maxes cs)
    → match_discovery_config labels cs ≡ some t
    → IsGreatest (negsuc 0) t.min (mins cs) × IsLeastOrNone t.max (maxes cs)
unfolding match_discovery_config
match_discovery_config-sizes labels [] t a h = absurd (cc)
match_discovery_config-sizes labels (c ∷ cs) t a h = (
  match_configs-min labels (c ∷ cs) (record { min = negsuc 0; max = negsuc 0 }) t h,
  match_configs-max_none labels (c ∷ cs) (negsuc 0) t a h,
)
