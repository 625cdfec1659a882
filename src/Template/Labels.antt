-- ===== src/Template/Labels.antt =====
-- The names of labels, taints and resources in tags, as azure_template.go reads them.
use cluster_autoscaler_provi.Base.Text.{Text}
use cluster_autoscaler_provi.Base.{
  ℕ, ◌≡◌, refl, false, ◌==◌, [], ◌∷◌, arith, if◌then◌else◌, All, inl, inr, Bool-cases,
}
use cluster_autoscaler_provi.Template.{underscores_to_slashes, replace_tilde, unescape}

-- How a name is written in a tag, as the README of the provider tells it: an underscore for a slash,
-- and ~2 for an underscore.
abbrev pub escape : Text → Text
escape [] = []
escape (c ∷ s) =
    let rest = escape s in
    if c == b'_' then b'~' ∷ b'2' ∷ rest else if c == b'/' then b'_' ∷ rest else c ∷ rest

replace_tilde_other :
    (new c : ℕ) (s : Text)
    → (c == b'~') ≡ false
    → replace_tilde new (c ∷ s) ≡ c ∷ replace_tilde new s
unfolding replace_tilde
replace_tilde_other new c [] h = refl
replace_tilde_other new c (d ∷ s) h = rw (h, replace_tilde) refl

-- Text by text, the escape of a byte is read back.
unescape_next :
    (c : ℕ) (s : Text)
    → (c == b'~') ≡ false
    → unescape (escape s) ≡ s
    → unescape (escape (c ∷ s)) ≡ c ∷ s
unfolding unescape underscores_to_slashes replace_tilde
unescape_next c s h ih = elim (Bool-cases (c == b'_')) [
  | inl e ↦ ground (arith, e, ih)
  | inr e ↦ elim (Bool-cases (c == b'/')) [
    | inl e' ↦
        ground
          (arith, e, e', ih, replace_tilde_other b'_' b'/' (underscores_to_slashes (escape s)) refl)
    | inr e' ↦
        ground (arith, e, e', ih, replace_tilde_other b'_' c (underscores_to_slashes (escape s)) h)
  ]
]

-- A name with no tilde that is written in a tag as the README tells it is read back as it was, by
-- the code that reads the names of labels and of taints.
pub unescape-escape : (s : Text) → All (λ c. (c == b'~') ≡ false) s → unescape (escape s) ≡ s
unfolding unescape underscores_to_slashes replace_tilde
unescape-escape [] h = refl
unescape-escape (c ∷ s) h = unescape_next c s h.0 (unescape-escape s h.1)
