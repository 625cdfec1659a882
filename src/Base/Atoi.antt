-- ===== src/Base/Atoi.antt =====
-- `strconv.Atoi`.
use cluster_autoscaler_provi.Base.Int.{ℤ, pos, sub_ℕ}
use cluster_autoscaler_provi.Base.Tests.{leb, ◌==◌, if◌then◌else◌}
use cluster_autoscaler_provi.Base.Text.{Text}
use Prim.Native.Nat.{ℕ, ◌+◌, ◌-◌, ◌*◌, ◌^◌}
use mathlib.Core.Bool.{Bool, ◌&&◌}
use mathlib.Core.List.{[], ◌∷◌}
use mathlib.Core.Option.{Option, none, some}

abbrev pub is_digit : ℕ → Bool
is_digit c = leb b'0' c && leb c b'9'

-- The value of decimal digits after those read so far; none at any other byte.
unfoldable pub digits_value : ℕ → Text → Option ℕ
digits_value n [] = some n
digits_value n (c ∷ s) =
    let rest = digits_value (n * 10 + (c - b'0')) s in if is_digit c then rest else none

-- At least one digit, and a value within a bound.
unfoldable pub unsigned : ℕ → Text → Option ℕ
unfolding digits_value
unsigned bound [] = none
unsigned bound (c ∷ s) = elim (digits_value 0 (c ∷ s)) [
  | none ↦ none
  | some n ↦ if leb n bound then some n else none
]

abbrev positive : Option ℕ → Option ℤ
positive none = none
positive (some n) = some (pos n)

abbrev negative : Option ℕ → Option ℤ
negative none = none
negative (some n) = some (sub_ℕ 0 n)

-- A sign or none, then digits; none where `Atoi` fails, on a syntax error or out of range.
unfoldable pub atoi : Text → Option ℤ
unfolding unsigned
atoi [] = none
atoi (c ∷ s) =
    if c == b'-'
    then negative (unsigned (2 ^ 63) s)
    else if c == b'+'
    then positive (unsigned (2 ^ 63 - 1) s)
    else positive (unsigned (2 ^ 63 - 1) (c ∷ s))
