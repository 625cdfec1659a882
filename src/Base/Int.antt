-- ===== src/Base/Int.antt =====
-- Signed integers over the native numbers, under the library's names, and Go's 64- and 32-bit
-- addition, which wraps round.
use Prim.Native.Nat.{ℕ, suc, ◌+◌, ◌-◌, ◌*◌, ◌%◌, ◌^◌, ◌≤◌, ◌<◌}
use mathlib.Core.Path.{◌≡◌, ap, ◌∙◌}
use mathlib.Core.Bool.{Bool}
use native.Mathlib.Omega.{arith}
use cluster_autoscaler_provi.Base.Tests.{ltb, leb, ◌==◌, if◌then◌else◌}

-- `negsuc n` is -(n + 1).
pub data ℤ : Type 0 where
  pos : ℕ → ℤ
  negsuc : ℕ → ℤ

abbrev pub pos_part : ℤ → ℕ
pos_part (pos n) = n
pos_part (negsuc n) = 0

abbrev pub neg_part : ℤ → ℕ
neg_part (pos n) = 0
neg_part (negsuc n) = suc n

-- a - b, as an integer.
abbrev pub sub_ℕ : ℕ → ℕ → ℤ
sub_ℕ a b = if leb b a then pos (a - b) else negsuc (b - a - 1)

infixl 65 ◌+ℤ◌ ◌-ℤ◌
infix 50 ◌≤ℤ◌ ◌<ℤ◌
abbrev pub ◌+ℤ◌ : ℤ → ℤ → ℤ
a +ℤ b = sub_ℕ (pos_part a + pos_part b) (neg_part a + neg_part b)

abbrev pub ◌-ℤ◌ : ℤ → ℤ → ℤ
a -ℤ b = sub_ℕ (pos_part a + neg_part b) (neg_part a + pos_part b)

abbrev pub ◌≤ℤ◌ : ℤ → ℤ → Type 0
a ≤ℤ b = pos_part a + neg_part b ≤ pos_part b + neg_part a

abbrev pub ◌<ℤ◌ : ℤ → ℤ → Type 0
a <ℤ b = pos_part a + neg_part b < pos_part b + neg_part a

abbrev pub ltb_ℤ : ℤ → ℤ → Bool
ltb_ℤ a b = ltb (pos_part a + neg_part b) (pos_part b + neg_part a)

abbrev pub leb_ℤ : ℤ → ℤ → Bool
leb_ℤ a b = leb (pos_part a + neg_part b) (pos_part b + neg_part a)

abbrev pub eqb_ℤ : ℤ → ℤ → Bool
eqb_ℤ a b = (pos_part a + neg_part b) == (pos_part b + neg_part a)

-- The residue of an integer modulo m.
abbrev pub residue : ℕ → ℤ → ℕ
residue m (pos n) = n % m
residue m (negsuc n) = m - 1 - n % m

-- Two's complement: a residue modulo 2 * h as a signed integer of that width.
abbrev pub to_signed : ℕ → ℕ → ℤ
to_signed h r = if ltb r h then pos r else negsuc (2 * h - 1 - r)

-- The conversion to `int64`, and to `int` on a 64-bit machine.
abbrev pub int64 : ℤ → ℤ
int64 a = to_signed (2 ^ 63) (residue (2 ^ 64) a)

-- The conversion to `int32`.
abbrev pub int32 : ℤ → ℤ
int32 a = to_signed (2 ^ 31) (residue (2 ^ 32) a)

-- `a + b` on `int64`.
abbrev pub add64 : ℤ → ℤ → ℤ
add64 a b = int64 (a +ℤ b)

-- `a - b` on `int64`.
abbrev pub sub64 : ℤ → ℤ → ℤ
sub64 a b = int64 (a -ℤ b)

-- A sum that fits does not wrap.
pub add64_exact : (m n : ℕ) → m + n < 2 ^ 63 → add64 (pos m) (pos n) ≡ pos (m + n)
add64_exact m n h = ground arith

sub_ℕ_parts : (a b : ℕ) → pos_part (sub_ℕ a b) + b ≡ neg_part (sub_ℕ a b) + a
sub_ℕ_parts a b = ground arith

sub_ℕ_congr : (a b c d : ℕ) → a + d ≡ c + b → sub_ℕ a b ≡ sub_ℕ c d
sub_ℕ_congr a b c d h = ground arith

add-sub_ℕ : (p : ℤ) (a b : ℕ) → p +ℤ sub_ℕ a b ≡ sub_ℕ (pos_part p + a) (neg_part p + b)
add-sub_ℕ p a b = sub_ℕ_congr _ _ _ _ (omega (arith, sub_ℕ_parts a b))

sub_ℕ-add : (a b : ℕ) (p : ℤ) → sub_ℕ a b +ℤ p ≡ sub_ℕ (a + pos_part p) (b + neg_part p)
sub_ℕ-add a b p = sub_ℕ_congr _ _ _ _ (omega (arith, sub_ℕ_parts a b))

sub-sub_ℕ : (p : ℤ) (a b : ℕ) → p -ℤ sub_ℕ a b ≡ sub_ℕ (pos_part p + b) (neg_part p + a)
sub-sub_ℕ p a b = sub_ℕ_congr _ _ _ _ (omega (arith, sub_ℕ_parts a b))

sub_ℕ_self : (x : ℤ) → sub_ℕ (pos_part x) (neg_part x) ≡ x
sub_ℕ_self (pos n) = ground arith
sub_ℕ_self (negsuc n) = ground arith

-- A time moved by what it lacks of another, and by the period that was counted.
pub moved : (last period x : ℤ) → last +ℤ (x -ℤ (last +ℤ period)) +ℤ period ≡ x
moved last period x =
    ap (λ z. last +ℤ z +ℤ period) (sub-sub_ℕ x _ _)
    ∙ ap (λ z. z +ℤ period) (add-sub_ℕ last _ _)
    ∙ sub_ℕ-add _ _ period
    ∙ sub_ℕ_congr _ _ _ _ (omega arith)
    ∙ sub_ℕ_self x
