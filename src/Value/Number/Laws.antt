-- ===== src/Value/Number/Laws.antt =====
-- The numbers that src/value/value.c makes, and its tests of them, against the integers that they
-- stand for.
use xr.Prelude.{
  ◌+◌, ◌<◌, ◌^◌, ◌≡◌, ◌≢◌, refl, ◌⊎◌, inl, inr, ◌↔◌, Bool, true, false, [], ◌∷◌, arith, pair_of_and,
  if◌then◌else◌, ok,
}
use xr.Prelude.Int.{
  ℤ, pos, negsuc, pos_part, neg_part, ◌+ℤ◌, ◌-ℤ◌, ◌≤ℤ◌, ◌<ℤ◌, leb_ℤ, eqb_ℤ, as_int, as_int_small,
  leb_ℤ_iff,
}
use xr.Value.Number.{
  NumberValue, constant, limit, NumberRange, RangeArr, ranges, number_range_create,
  number_range_arr_single_create, number_range_arr_ne_create, number_single_create,
  number_ne_create, number_value_equal, number_range_canbe, number_value_le_constant,
  constant_le_number_value, number_range_arr_canbe,
}
use xr.Value.Number.Sets.{AtLeast, Below, InRange, InRanges, IsModest, Ordered}

abbrev pub Modest : ℤ → Type 0
Modest a = pos_part a + neg_part a < 2 ^ 30

next_lem : (a : ℤ) → Modest a → as_int (a +ℤ pos 1) ≡ ok (a +ℤ pos 1)
unfolding ◌+ℤ◌
next_lem a h = as_int_small (a +ℤ pos 1) (ground arith)

last_lem : (a : ℤ) → Modest a → as_int (a -ℤ pos 1) ≡ ok (a -ℤ pos 1)
unfolding ◌-ℤ◌
last_lem a h = as_int_small (a -ℤ pos 1) (ground arith)

pub difference_lem : (a b : ℤ) → Modest a → Modest b → as_int (a -ℤ b) ≡ ok (a -ℤ b)
unfolding ◌-ℤ◌
difference_lem a b h k = as_int_small (a -ℤ b) (ground arith)

between : (a z : ℤ) → (a ≤ℤ z) × (z <ℤ a +ℤ pos 1) ↔ (z ≡ a)
unfolding ◌+ℤ◌
between a z = (λ h. ground arith, λ h. ground arith)

outside : (a z : ℤ) → ((z <ℤ a) ⊎ (a +ℤ pos 1 ≤ℤ z)) ↔ (z ≢ a)
unfolding ◌+ℤ◌
outside a z = (λ h. ground arith, λ h. ground arith)

pub single_arr :
    (a : ℤ)
    → pos_part a + neg_part a < 2 ^ 30
    → (rs : RangeArr) × (number_range_arr_single_create a ≡ ok rs)
      × ((z : ℤ) → InRanges z rs ↔ (z ≡ a))
unfolding number_range_arr_single_create
single_arr a h = (
  number_range_create (constant a) (constant (a +ℤ pos 1)) ∷ [],
  rw (next_lem a h),
  λ z. (elim [ inl b ↦ (between a z).0 b | inr n ↦ absurd n ], λ e. inl ((between a z).1 e)),
)

-- [MIN:a) and [a+1:MAX)
abbrev around : ℤ → RangeArr
around a =
    number_range_create (limit false) (constant a)
    ∷ number_range_create (constant (a +ℤ pos 1)) (limit true)
    ∷ []

InRanges-around : (a z : ℤ) → InRanges z (around a) ↔ (z ≢ a)
unfolding number_range_create
InRanges-around a z = (to, from)
  where
    to : InRanges z (around a) → z ≢ a
    to (inl b) = (outside a z).0 (inl b.1)
    to (inr (inl b)) = (outside a z).0 (inr b.0)
    to (inr (inr n)) = absurd n

    from : z ≢ a → InRanges z (around a)
    from ne = elim ((outside a z).1 ne) [ inl b ↦ inl (tt, b) | inr b ↦ inr (inl (b, tt)) ]

pub ne_arr :
    (a : ℤ)
    → pos_part a + neg_part a < 2 ^ 30
    → (rs : RangeArr) × (number_range_arr_ne_create a ≡ ok rs) × ((z : ℤ) → InRanges z rs ↔ (z ≢ a))
unfolding number_range_arr_ne_create
ne_arr a h = (around a, rw (next_lem a h), InRanges-around a)

-- At a constant that is far from the ends of `int`, `number_single_create` makes the number that
-- stands for the constant alone, and `number_ne_create` the one that stands for all other integers.
pub single-ne-InRanges :
    (a : ℤ)
    → pos_part a + neg_part a < 2 ^ 30
    → (rs : RangeArr) × (ss : RangeArr) × (number_single_create a ≡ ok (ranges rs))
      × (number_ne_create a ≡ ok (ranges ss))
      × ((z : ℤ) → (InRanges z rs ↔ (z ≡ a)) × (InRanges z ss ↔ (z ≢ a)))
unfolding number_single_create number_ne_create
single-ne-InRanges a h =
    let (rs, runs, means) = single_arr a h in
    let (ss, runs', means') = ne_arr a h in (rs, ss, rw runs, rw runs', λ z. (means z, means' z))

le_constant_lem : (v : NumberValue) (k : ℤ) → (number_value_le_constant v k ≡ true) ↔ AtLeast v k
unfolding number_value_le_constant
le_constant_lem (constant a) k = leb_ℤ_iff a k
le_constant_lem (limit true) k = (λ h. cc, λ n. absurd n)
le_constant_lem (limit false) k = (λ h. tt, λ t. refl)

constant_le_lem : (v : NumberValue) → (constant_le_number_value (pos 1) v ≡ true) ↔ Below (pos 0) v
unfolding constant_le_number_value
constant_le_lem (constant a) = (λ h. ground arith, λ h. ground arith)
constant_le_lem (limit true) = (λ h. tt, λ t. refl)
constant_le_lem (limit false) = (λ h. cc, λ n. absurd n)

canbe_false_lem :
    (r : NumberRange)
    → (b : Bool) × (number_range_canbe r false ≡ ok b) × ((b ≡ true) ↔ InRange (pos 0) r)
unfolding number_range_canbe
canbe_false_lem r = (
  _,
  refl,
  (
    (λ h.
        let (h1, h2) =
          pair_of_and (number_value_le_constant r.lower (pos 0))
            (constant_le_number_value (pos 1) r.upper) h in
        ((le_constant_lem r.lower (pos 0)).0 h1, (constant_le_lem r.upper).0 h2)),
    λ i. rw ((le_constant_lem r.lower (pos 0)).1 i.0, (constant_le_lem r.upper).1 i.1),
  ),
)

-- `number_range_arr_canbe` with `false` answers whether 0 lies in one of the ranges.
pub arr_canbe_false :
    (rs : RangeArr)
    → (b : Bool) × (number_range_arr_canbe rs false ≡ ok b) × ((b ≡ true) ↔ InRanges (pos 0) rs)
unfolding number_range_arr_canbe
arr_canbe_false [] = (false, refl, ((λ h. cc), λ n. absurd n))
arr_canbe_false (r ∷ rs) =
    let (x, p, m) = canbe_false_lem r in let (y, q, n) = arr_canbe_false rs in join x y p q m n
  where
    join :
        (x y : Bool)
        → number_range_canbe r false ≡ ok x
        → number_range_arr_canbe rs false ≡ ok y
        → ((x ≡ true) ↔ InRange (pos 0) r)
        → ((y ≡ true) ↔ InRanges (pos 0) rs)
        → (b : Bool) × (number_range_arr_canbe (r ∷ rs) false ≡ ok b)
          × ((b ≡ true) ↔ InRanges (pos 0) (r ∷ rs))
    join true y p q m n = (true, rw p, ((λ h. inl (m.0 refl)), λ i. refl))
    join false y p q m n =
        (y, rw (p, q), ((λ h. inr (n.0 h)), elim [ inl i ↦ impossible (m.1 i) | inr i ↦ n.1 i ]))
      where
        impossible : false ≡ true → y ≡ true
        impossible h = cc

-- A range as the code makes them: MAX is no lower and MIN no upper bound, and the lower bound is
-- not above the upper.
abbrev pub IsProper : NumberRange → Type 0
IsProper r = IsModest r.lower × IsModest r.upper × Ordered r.lower r.upper

abbrev nonzero_test : ℤ → ℤ → Bool
nonzero_test a b =
    if eqb_ℤ (a -ℤ b) (pos 0) then false else if leb_ℤ a (negsuc 0) then true else leb_ℤ (pos 1) a

nonzero_test_lem : (a b : ℤ) → a ≤ℤ b → nonzero_test a b ≡ true → (a ≢ pos 0) × (a <ℤ b)
unfolding ◌-ℤ◌
nonzero_test_lem a b o h = ground arith

canbe_true_sound :
    (lw up : NumberValue)
    → IsModest lw
    → IsModest up
    → Ordered lw up
    → (b : Bool) × (number_range_canbe (number_range_create lw up) true ≡ ok b)
      × (b ≡ true → (z : ℤ) × (z ≢ pos 0) × InRange z (number_range_create lw up))
unfolding number_range_canbe number_range_create number_value_equal
canbe_true_sound (constant a) (constant b) m n o = (
  nonzero_test a b,
  rw (difference_lem a b m n),
  λ h. (a, (nonzero_test_lem a b o h).0, (omega arith, (nonzero_test_lem a b o h).1)),
)
canbe_true_sound (constant a) (limit true) m n o =
    (_, refl, λ h. (a, ground arith, (omega arith, tt)))
canbe_true_sound (constant a) (limit false) m n o = absurd o
canbe_true_sound (limit false) (constant b) m n o =
    (_, refl, λ h. (negsuc (neg_part b), ground arith, (tt, ground arith)))
canbe_true_sound (limit false) (limit true) m n o =
    (_, refl, λ h. (negsuc 0, ground arith, (tt, tt)))
canbe_true_sound (limit false) (limit false) m n o = absurd o
canbe_true_sound (limit true) up m n o = absurd o

abbrev pub AllProper : RangeArr → Type 0
AllProper [] = Unit
AllProper (r ∷ rs) = IsProper r × AllProper rs

-- When `number_range_arr_canbe` with `true` answers true of proper ranges, an integer other than 0
-- lies in one of them.
pub arr_canbe_true :
    (rs : RangeArr)
    → AllProper rs
    → (b : Bool) × (number_range_arr_canbe rs true ≡ ok b)
      × (b ≡ true → (z : ℤ) × (z ≢ pos 0) × InRanges z rs)
unfolding number_range_arr_canbe number_range_create
arr_canbe_true [] p = (false, refl, λ h. cc)
arr_canbe_true (r ∷ rs) ((m, n, o), ps) =
    let (x, runs, sound) = canbe_true_sound r.lower r.upper m n o in
    let (y, rest, sound') = arr_canbe_true rs ps in join x y runs rest sound sound'
  where
    join :
        (x y : Bool)
        → number_range_canbe r true ≡ ok x
        → number_range_arr_canbe rs true ≡ ok y
        → (x ≡ true → (z : ℤ) × (z ≢ pos 0) × InRange z r)
        → (y ≡ true → (z : ℤ) × (z ≢ pos 0) × InRanges z rs)
        → (b : Bool) × (number_range_arr_canbe (r ∷ rs) true ≡ ok b)
          × (b ≡ true → (z : ℤ) × (z ≢ pos 0) × InRanges z (r ∷ rs))
    join true y p q f g = (true, rw p, λ h. let (z, ne, i) = f refl in (z, ne, inl i))
    join false y p q f g = (y, rw (p, q), λ h. let (z, ne, i) = g h in (z, ne, inr i))
