-- ===== src/Prelude/Int.antt =====
-- Signed integers over the native numbers, and the C types `int` and `long` as their ranges.
use Prim.Native.Nat.{ℕ, suc, ◌+◌, ◌-◌, ◌*◌, ◌^◌, ◌%◌, ◌≤◌, ◌<◌}
use mathlib.Core.Path.{◌≡◌, ap}
use mathlib.Core.Logic.{◌↔◌}
use mathlib.Core.Bool.{Bool, true, ◌&&◌}
use native.Mathlib.Omega.{arith}
use xr.Prelude.Tests.{ltb, leb, ◌==◌, if◌then◌else◌}
use xr.Prelude.Outcome.{Run, ok, abort}

-- `negsuc n` is -(n + 1).
pub data ℤ : Type 0 where
  pos : ℕ → ℤ
  negsuc : ℕ → ℤ

abbrev pub pos_part : ℤ → ℕ
pos_part (pos n) = n
pos_part (negsuc n) = 0

abbrev pub neg_part : ℤ → ℕ
neg_part (pos n) = 0
neg_part (negsuc n) = suc n

-- a - b, as an integer.
abbrev pub sub_ℕ : ℕ → ℕ → ℤ
sub_ℕ a b = if leb b a then pos (a - b) else negsuc (b - a - 1)

infixl 65 ◌+ℤ◌ ◌-ℤ◌
infixl 70 ◌*ℤ◌
infix 50 ◌≤ℤ◌ ◌<ℤ◌
unfoldable pub ◌+ℤ◌ : ℤ → ℤ → ℤ
a +ℤ b = sub_ℕ (pos_part a + pos_part b) (neg_part a + neg_part b)

unfoldable pub ◌-ℤ◌ : ℤ → ℤ → ℤ
a -ℤ b = sub_ℕ (pos_part a + neg_part b) (neg_part a + pos_part b)

unfoldable pub ◌*ℤ◌ : ℤ → ℤ → ℤ
a *ℤ b =
    sub_ℕ (pos_part a * pos_part b + neg_part a * neg_part b)
      (pos_part a * neg_part b + neg_part a * pos_part b)

unfoldable pub neg : ℤ → ℤ
neg a = sub_ℕ (neg_part a) (pos_part a)

abbrev pub ◌≤ℤ◌ : ℤ → ℤ → Type 0
a ≤ℤ b = pos_part a + neg_part b ≤ pos_part b + neg_part a

abbrev pub ◌<ℤ◌ : ℤ → ℤ → Type 0
a <ℤ b = pos_part a + neg_part b < pos_part b + neg_part a

abbrev pub leb_ℤ : ℤ → ℤ → Bool
leb_ℤ a b = leb (pos_part a + neg_part b) (pos_part b + neg_part a)

abbrev pub ltb_ℤ : ℤ → ℤ → Bool
ltb_ℤ a b = ltb (pos_part a + neg_part b) (pos_part b + neg_part a)

abbrev pub eqb_ℤ : ℤ → ℤ → Bool
eqb_ℤ a b = (pos_part a + neg_part b) == (pos_part b + neg_part a)

pub +ℤ_parts :
    (a b : ℤ)
    → pos_part (a +ℤ b) + neg_part a + neg_part b ≡ neg_part (a +ℤ b) + pos_part a + pos_part b
unfolding ◌+ℤ◌
+ℤ_parts a b = ground arith

pub -ℤ_parts :
    (a b : ℤ)
    → pos_part (a -ℤ b) + neg_part a + pos_part b ≡ neg_part (a -ℤ b) + pos_part a + neg_part b
unfolding ◌-ℤ◌
-ℤ_parts a b = ground arith

pub neg_parts : (a : ℤ) → pos_part (neg a) + pos_part a ≡ neg_part (neg a) + neg_part a
unfolding neg
neg_parts a = ground arith

pub *ℤ_parts :
    (a b : ℤ)
    → pos_part (a *ℤ b) + (pos_part a * neg_part b + neg_part a * pos_part b)
      ≡ neg_part (a *ℤ b) + (pos_part a * pos_part b + neg_part a * neg_part b)
unfolding ◌*ℤ◌
*ℤ_parts a b = ground arith

pub eq_of_parts : (a b : ℤ) → pos_part a + neg_part b ≡ pos_part b + neg_part a → a ≡ b
eq_of_parts a b h = ground arith

pub ruleset int_laws = (arith, +ℤ_parts, -ℤ_parts, neg_parts, eq_of_parts)

pub +ℤ_comm : (a b : ℤ) → a +ℤ b ≡ b +ℤ a
+ℤ_comm a b = omega int_laws

pub +ℤ_assoc : (a b c : ℤ) → a +ℤ b +ℤ c ≡ a +ℤ (b +ℤ c)
+ℤ_assoc a b c = omega int_laws

pub +ℤ_right_distrib : (a b c : ℤ) → (a +ℤ b) *ℤ c ≡ a *ℤ c +ℤ b *ℤ c
+ℤ_right_distrib a b c = omega (
  int_laws,
  *ℤ_parts (a +ℤ b) c,
  *ℤ_parts a c,
  *ℤ_parts b c,
  ap (λ (t : ℕ). t * pos_part c) (+ℤ_parts a b),
  ap (λ (t : ℕ). t * neg_part c) (+ℤ_parts a b),
)

pub neg-*ℤ : (a c : ℤ) → neg a *ℤ c ≡ neg (a *ℤ c)
neg-*ℤ a c = omega (
  int_laws,
  *ℤ_parts (neg a) c,
  *ℤ_parts a c,
  ap (λ (t : ℕ). t * pos_part c) (neg_parts a),
  ap (λ (t : ℕ). t * neg_part c) (neg_parts a),
)

pub leb_ℤ_iff : (a b : ℤ) → (leb_ℤ a b ≡ true) ↔ (a ≤ℤ b)
leb_ℤ_iff a b = ground arith

pub eqb_ℤ_iff : (a b : ℤ) → (eqb_ℤ a b ≡ true) ↔ (a ≡ b)
eqb_ℤ_iff a b = ground arith

-- What an `int` and a `long` hold.
abbrev pub fits : ℕ → ℤ → Bool
fits w a = ltb (pos_part a) (2 ^ (w - 1)) && leb (neg_part a) (2 ^ (w - 1))

-- The result of a signed operation at `int`; C leaves any other undefined.
unfoldable pub as_int : ℤ → Run ℤ
as_int a = if fits 32 a then ok a else abort

-- The same at `long`.
unfoldable pub as_long : ℤ → Run ℤ
as_long a = if fits 64 a then ok a else abort

-- The conversion of an integer to `int`: modulo 2^32, into the range of `int`.
unfoldable pub to_int : ℤ → ℤ
to_int (pos n) = let r = n % 2 ^ 32 in if ltb r (2 ^ 31) then pos r else negsuc (2 ^ 32 - r - 1)
to_int (negsuc n) = let r = n % 2 ^ 32 in if ltb r (2 ^ 31) then negsuc r else pos (2 ^ 32 - r - 1)

pub as_int-eq_ok : (a b : ℤ) → as_int a ≡ ok b → a ≡ b
unfolding as_int
as_int-eq_ok a b h = ground arith

pub as_long-eq_ok : (a b : ℤ) → as_long a ≡ ok b → a ≡ b
unfolding as_long
as_long-eq_ok a b h = ground arith

pub to_int-fits : (a : ℤ) → fits 32 (to_int a) ≡ true
unfolding to_int
to_int-fits (pos n) = ground arith
to_int-fits (negsuc n) = ground arith

pub to_int_id : (a : ℤ) → fits 32 a ≡ true → to_int a ≡ a
unfolding to_int
to_int_id (pos n) h = ground arith
to_int_id (negsuc n) h = ground arith

pub as_int_small : (a : ℤ) → pos_part a + neg_part a < 2 ^ 31 → as_int a ≡ ok a
unfolding as_int
as_int_small a h = ground arith

pub as_long_small : (a : ℤ) → pos_part a + neg_part a < 2 ^ 31 → as_long a ≡ ok a
unfolding as_long
as_long_small a h = ground arith

pub to_int_small : (a : ℤ) → pos_part a + neg_part a < 2 ^ 31 → to_int a ≡ a
to_int_small a h = to_int_id a (ground arith)

pub zero-*ℤ : (c : ℤ) → pos 0 *ℤ c ≡ pos 0
unfolding ◌*ℤ◌
zero-*ℤ c = ground arith

pub one-*ℤ : (c : ℤ) → pos 1 *ℤ c ≡ c
unfolding ◌*ℤ◌
one-*ℤ c = ground arith

-- A sum has at most the absolute values together, a negation the same one.
pub abs-+ℤ :
    (a b : ℤ)
    → pos_part (a +ℤ b) + neg_part (a +ℤ b) ≤ (pos_part a + neg_part a) + (pos_part b + neg_part b)
unfolding ◌+ℤ◌
abs-+ℤ a b = ground arith

pub abs-neg : (a : ℤ) → pos_part (neg a) + neg_part (neg a) ≡ pos_part a + neg_part a
unfolding neg
abs-neg a = ground arith

pub *ℤ_zero : (c : ℤ) → c *ℤ pos 0 ≡ pos 0
unfolding ◌*ℤ◌
*ℤ_zero c = ground arith
