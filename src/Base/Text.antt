-- ===== src/Base/Text.antt =====
-- What the Go code uses of `strings` and `regexp`, over the bytes of a text. Case is folded on
-- ASCII letters only, so it is `strings.ToLower` and `strings.EqualFold` on ASCII texts, which
-- Azure's resource identifiers are.
use Prim.Native.Char.{code}
use Prim.Native.Nat.{ℕ, ◌+◌}
use Prim.Native.String.{String}
use mathlib.Core.Bool.{Bool, true, false, ◌&&◌, ◌||◌}
use mathlib.Core.List.{List, [], ◌∷◌, ◌++◌}
use mathlib.Core.Logic.{◌↔◌}
use mathlib.Core.Option.{Option, none, some}
use mathlib.Core.Path.{◌≡◌, refl}
use native.Mathlib.Omega.{arith}
use cluster_autoscaler_provi.Base.Tests.{leb, ◌==◌, if◌then◌else◌}

abbrev pub Text : Type 0
Text = List ℕ

-- The bytes of an ASCII literal.
abbrev pub codes : String → Text
codes String.[] = []
codes (String.◌∷◌ c s) = code c ∷ codes s

-- `a == b` on strings.
unfoldable pub text_eq : Text → Text → Bool
text_eq [] [] = true
text_eq (a ∷ s) (b ∷ t) = a == b && text_eq s t
text_eq s t = false

pub text_eq_sound : (s t : Text) → text_eq s t ≡ true → s ≡ t
unfolding text_eq
text_eq_sound [] [] h = refl
text_eq_sound [] (b ∷ t) h = cc
text_eq_sound (a ∷ s) [] h = cc
text_eq_sound (a ∷ s) (b ∷ t) h = ground (arith, text_eq_sound s t)

pub text_eq_self : (s : Text) → text_eq s s ≡ true
unfolding text_eq
text_eq_self [] = refl
text_eq_self (a ∷ s) = ground (arith, text_eq_self s)

pub text_eq_iff : (s t : Text) → (text_eq s t ≡ true) ↔ (s ≡ t)
text_eq_iff s t = (text_eq_sound s t, λ e. rw e (text_eq_self t))

-- `strings.ToLower` on one byte.
unfoldable pub lower : ℕ → ℕ
lower c = if leb b'A' c && leb c b'Z' then c + 32 else c

abbrev pub to_lower : Text → Text
to_lower [] = []
to_lower (c ∷ s) = lower c ∷ to_lower s

pub lower-lower : (c : ℕ) → lower (lower c) ≡ lower c
unfolding lower
lower-lower c = ground arith

pub to_lower-to_lower : (s : Text) → to_lower (to_lower s) ≡ to_lower s
to_lower-to_lower [] = refl
to_lower-to_lower (c ∷ s) = rw (lower-lower, to_lower-to_lower s)

pub to_lower-append : (s t : Text) → to_lower (s ++ t) ≡ to_lower s ++ to_lower t
to_lower-append [] t = refl
to_lower-append (c ∷ s) t = rw (to_lower-append s t)

-- `strings.EqualFold`.
unfoldable pub eq_fold : Text → Text → Bool
eq_fold s t = text_eq (to_lower s) (to_lower t)

pub eq_fold_iff : (s t : Text) → (eq_fold s t ≡ true) ↔ (to_lower s ≡ to_lower t)
unfolding eq_fold
eq_fold_iff s t = text_eq_iff (to_lower s) (to_lower t)

-- Texts that fold to the same text are interchangeable under `EqualFold`.
pub eq_fold_congr : (s s' t : Text) → to_lower s ≡ to_lower s' → eq_fold s t ≡ eq_fold s' t
unfolding eq_fold
eq_fold_congr s s' t h = rw h

pub eq_fold_congr_right : (s t t' : Text) → to_lower t ≡ to_lower t' → eq_fold s t ≡ eq_fold s t'
unfolding eq_fold
eq_fold_congr_right s t t' h = rw h

-- `EqualFold` is symmetric and transitive.
pub eq_fold_trans : (s t u : Text) → eq_fold s t ≡ true → eq_fold u t ≡ eq_fold u s
eq_fold_trans s t u h = ground (arith, eq_fold_iff s t, eq_fold_iff u t, eq_fold_iff u s)

pub eq_fold_sym : (s t : Text) → eq_fold s t ≡ false → eq_fold t s ≡ false
eq_fold_sym s t h = ground (arith, eq_fold_iff s t, eq_fold_iff t s)

-- `strings.TrimPrefix`'s test: what follows the prefix, if the text has it.
unfoldable pub strip_prefix : Text → Text → Option Text
strip_prefix [] s = some s
strip_prefix (p ∷ ps) [] = none
strip_prefix (p ∷ ps) (c ∷ s) = if p == c then strip_prefix ps s else none

abbrev is_found : Option Text → Bool
is_found none = false
is_found (some _) = true

-- `strings.HasPrefix s p`.
unfoldable pub has_prefix : Text → Text → Bool
unfolding strip_prefix
has_prefix s p = is_found (strip_prefix p s)

-- `strings.Contains s p`.
unfoldable pub contains : Text → Text → Bool
unfolding has_prefix
contains [] p = has_prefix [] p
contains (c ∷ s) p = has_prefix (c ∷ s) p || contains s p

-- A byte put in front of the first part.
abbrev push_first : ℕ → List Text → List Text
push_first c [] = (c ∷ []) ∷ []
push_first c (p ∷ ps) = (c ∷ p) ∷ ps

-- `strings.Split s sep` at a separator of one byte. The result has at least one part.
unfoldable pub split : ℕ → Text → List Text
split sep [] = [] ∷ []
split sep (c ∷ s) = let rest = split sep s in if c == sep then [] ∷ rest else push_first c rest

-- `parts[len(parts) - 1]`.
abbrev pub last_part : List Text → Text
last_part [] = []
last_part (p ∷ []) = p
last_part (p ∷ q ∷ ps) = last_part (q ∷ ps)

-- `strings.Replace s old new 1` for an `old` that is not empty.
unfoldable pub replace_first : Text → Text → Text → Text
unfolding strip_prefix
replace_first [] old new = []
replace_first (c ∷ s) old new = elim (strip_prefix old (c ∷ s)) [
  | some rest ↦ new ++ rest
  | none ↦ c ∷ replace_first s old new
]

pub strip_prefix-append : (p s rest : Text) → strip_prefix p s ≡ some rest → s ≡ p ++ rest
unfolding strip_prefix
strip_prefix-append [] s rest h = ground arith
strip_prefix-append (p ∷ ps) [] rest h = cc
strip_prefix-append (p ∷ ps) (c ∷ s) rest h = ground (arith, strip_prefix-append ps s rest)

-- The text after a match that a pattern finds at the start: a pattern takes the text, and gives
-- what it captures.
module _ {ℓ} {B : Type ℓ} where
  -- `.*` before a pattern: as many bytes as can be, none of them a newline, so that it matches.
  unfoldable pub greedy : (Text → Option B) → Text → Option B
  greedy k [] = k []
  greedy k (c ∷ s) =
      let rest = greedy k s in
      elim (if c == 10 then none else rest) [ some b ↦ some b | none ↦ k (c ∷ s) ]

  -- `(.*)` before a pattern, with the text that it captures.
  unfoldable pub greedy_capture : (Text → Option B) → Text → Option (Text × B)
  greedy_capture k [] = elim (k []) [ none ↦ none | some b ↦ some ([], b) ]
  greedy_capture k (c ∷ s) =
      let rest = greedy_capture k s in
      elim (if c == 10 then none else rest) [
        | some found ↦ some (c ∷ found.0, found.1)
        | none ↦ elim (k (c ∷ s)) [ none ↦ none | some b ↦ some ([], b) ]
      ]

  -- `(.+)` before a pattern.
  unfoldable pub greedy_capture_some : (Text → Option B) → Text → Option (Text × B)
  unfolding greedy_capture
  greedy_capture_some k [] = none
  greedy_capture_some k (c ∷ s) =
      if c == 10
      then none
      else elim (greedy_capture k s) [ none ↦ none | some found ↦ some (c ∷ found.0, found.1) ]

  -- A literal before a pattern.
  unfoldable pub literal : Text → (Text → Option B) → Text → Option B
  unfolding strip_prefix
  literal p k s = elim (strip_prefix p s) [ none ↦ none | some rest ↦ k rest ]

  -- A search that is not anchored: the leftmost match.
  unfoldable pub search_match : (Text → Option B) → Text → Option B
  search_match m [] = m []
  search_match m (c ∷ s) =
      let rest = search_match m s in elim (m (c ∷ s)) [ some b ↦ some b | none ↦ rest ]
