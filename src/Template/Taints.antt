-- ===== src/Template/Taints.antt =====
-- The taints that `constructTaintFromString` of azure_template.go reads.
use cluster_autoscaler_provi.Base.Text.{Text, codes, split, contains, has_prefix, strip_prefix}
use cluster_autoscaler_provi.Base.{ℕ, ◌≡◌, refl, true, false, ◌==◌, some, [], ◌∷◌, ◌++◌, arith, All}
use cluster_autoscaler_provi.Template.{
  Taint, has_effect, split_colon, taint_of_parts, construct_taint_from_string,
}

-- A text with none of a byte.
abbrev pub IsWithout : ℕ → Text → Type 0
IsWithout b s = All (λ c. (c == b) ≡ false) s

split_first_part :
    (sep : ℕ) (s t : Text) → IsWithout sep s → split sep (s ++ (sep ∷ t)) ≡ s ∷ split sep t
unfolding split
split_first_part sep [] t h = ground arith
split_first_part sep (c ∷ s) t h = rw (h.0, split_first_part sep s t h.1, split) refl

split_whole : (sep : ℕ) (s : Text) → IsWithout sep s → split sep s ≡ s ∷ []
unfolding split
split_whole sep [] h = refl
split_whole sep (c ∷ s) h = rw (h.0, split_whole sep s h.1, split) refl

split_colon_first : (s t : Text) → IsWithout b':' s → split_colon (s ++ (b':' ∷ t)) ≡ (s, t)
unfolding split_colon
split_colon_first [] t h = refl
split_colon_first (c ∷ s) t h = rw (h.0, split_colon_first s t h.1, split_colon) refl

contains_after : (s t p : Text) → contains t p ≡ true → contains (s ++ t) p ≡ true
unfolding contains
contains_after [] t p h = h
contains_after (c ∷ s) t p h = ground (arith, contains_after s t p h)

-- The effects of Kubernetes.
pub data IsEffect : Text → Type 0 where
  no_schedule : IsEffect (codes "NoSchedule")
  no_execute : IsEffect (codes "NoExecute")
  prefer_no_schedule : IsEffect (codes "PreferNoSchedule")

effect_found : (s e : Text) → IsEffect e → has_effect (s ++ (b':' ∷ e)) ≡ true
unfolding has_effect contains has_prefix strip_prefix
effect_found s e no_schedule =
    rw (contains_after s (codes ":NoSchedule") (codes ":NoSchedule") refl) refl
effect_found s e no_execute =
    ground (arith, contains_after s (codes ":NoExecute") (codes ":NoExecute") refl)
effect_found s e prefer_no_schedule =
    ground (arith, contains_after s (codes ":PreferNoSchedule") (codes ":PreferNoSchedule") refl)

-- The text of a taint.
abbrev pub print_taint : Taint → Text
print_taint t = t.key ++ (b'=' ∷ (t.value ++ (b':' ∷ t.effect)))

IsWithout-append :
    (b c : ℕ) (s t : Text)
    → IsWithout b s
    → (c == b) ≡ false
    → IsWithout b t
    → IsWithout b (s ++ (c ∷ t))
IsWithout-append b c [] t h k l = (k, l)
IsWithout-append b c (d ∷ s) t h k l = (h.0, IsWithout-append b c s t h.1 k l)

effect-IsWithout : (e : Text) → IsEffect e → IsWithout b'=' e
effect-IsWithout e no_schedule = ground arith
effect-IsWithout e no_execute = ground arith
effect-IsWithout e prefer_no_schedule = ground arith

-- A taint whose key and value have no equality sign, whose value has no colon and whose effect is one
-- of the three of Kubernetes is read back from its text, key=value:effect.
pub construct_taint-print_taint :
    (t : Taint)
    → IsWithout b'=' t.key
    → IsWithout b'=' t.value
    → IsWithout b':' t.value
    → IsEffect t.effect
    → construct_taint_from_string (print_taint t) ≡ some t
unfolding construct_taint_from_string taint_of_parts
construct_taint-print_taint t k v c e =
    rw
      (
        split_first_part b'=' t.key (t.value ++ (b':' ∷ t.effect)) k,
        split_whole b'=' (t.value ++ (b':' ∷ t.effect))
            (IsWithout-append b'=' b':' t.value t.effect v refl (effect-IsWithout t.effect e)),
        effect_found t.value t.effect e,
        split_colon_first t.value t.effect c,
        construct_taint_from_string,
        taint_of_parts,
      )
      refl
