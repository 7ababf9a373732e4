-- ===== src/Value/Number/Sets.antt =====
-- The integers that the numbers of src/value/value.c stand for.
use xr.Prelude.{◌+◌, ◌<◌, ◌^◌, ◌⊎◌, true, false, [], ◌∷◌}
use xr.Prelude.Int.{ℤ, pos_part, neg_part, ◌≤ℤ◌, ◌<ℤ◌}
use xr.Value.Number.{NumberValue, constant, limit, NumberRange, RangeArr}

-- A lower bound; MIN bounds every integer from below.
abbrev pub AtLeast : NumberValue → ℤ → Type 0
AtLeast (constant a) z = a ≤ℤ z
AtLeast (limit false) z = Unit
AtLeast (limit true) z = ⊥

-- An excluded upper bound; MAX bounds every integer from above.
abbrev pub Below : ℤ → NumberValue → Type 0
Below z (constant a) = z <ℤ a
Below z (limit false) = ⊥
Below z (limit true) = Unit

abbrev pub InRange : ℤ → NumberRange → Type 0
InRange z r = AtLeast r.lower z × Below z r.upper

-- The union of the ranges.
abbrev pub InRanges : ℤ → RangeArr → Type 0
InRanges z [] = ⊥
InRanges z (r ∷ rs) = InRange z r ⊎ InRanges z rs

-- Constants far enough from the ends of `int`.
abbrev pub IsModest : NumberValue → Type 0
IsModest (constant a) = pos_part a + neg_part a < 2 ^ 30
IsModest (limit max) = Unit

-- A lower bound that is not above the upper bound.
abbrev pub Ordered : NumberValue → NumberValue → Type 0
Ordered (constant a) (constant b) = a ≤ℤ b
Ordered (constant a) (limit false) = ⊥
Ordered (constant a) (limit true) = Unit
Ordered (limit false) (constant b) = Unit
Ordered (limit false) (limit false) = ⊥
Ordered (limit false) (limit true) = Unit
Ordered (limit true) up = ⊥
