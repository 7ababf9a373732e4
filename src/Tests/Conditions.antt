-- ===== src/Tests/Conditions.antt =====
-- src/props/props.c and the numbers of src/value/value.c at concrete inputs.
use xr.Prelude.{◌≡◌, ◌≢◌, refl, ◌↔◌, Bool, true, false, [], ◌∷◌, arith, ok}
use xr.Prelude.Int.{ℤ, pos}
use xr.Prelude.Str.{codes}
use xr.Ast.Expr.{Expr, identifier, binary, op_eq}
use xr.Ast.Expr.Copy.{is_copyable}
use xr.Ast.Expr.Equal.{is_comparable}
use xr.Props.{props_contradicts}
use xr.Props.Laws.{IsUsable, Verdict, props_contradicts-Verdict}
use xr.Value.Number.{RangeArr, ranges, limit, number_assume, number_with_range_create}
use xr.Value.Number.Sets.{InRanges}
use xr.Value.Number.Assume.{number_assume-false, number_assume-true, number_assume-true-misses}

-- p and x == 0
abbrev p : Expr
p = identifier (codes "p")

abbrev q : Expr
q = binary (identifier (codes "x")) op_eq (Expr.constant (pos 0) false)

p-IsUsable : IsUsable p
unfolding is_comparable is_copyable
p-IsUsable = record { comparable = refl; copyable = refl }

q-IsUsable : IsUsable q
unfolding is_comparable is_copyable
q-IsUsable = record { comparable = refl; copyable = refl }

props_contradicts-Verdict_example :
    (b : Bool) × (props_contradicts (p ∷ []) q ≡ ok b) × Verdict (p ∷ []) q b
props_contradicts-Verdict_example = props_contradicts-Verdict (p ∷ []) q (p-IsUsable, tt) q-IsUsable

-- [MIN:MAX)
abbrev anything : RangeArr
anything = record { lower = limit false; upper = limit true } ∷ []

number_assume-false_example :
    (rs' : RangeArr) × (b : Bool) × (number_assume (ranges anything) false
      ≡ ok (record { number = ranges rs'; possible = b }))
    × ((b ≡ true) ↔ InRanges (pos 0) anything)
    × (b ≡ true → (z : ℤ) → InRanges z rs' ↔ (InRanges z anything × (z ≡ pos 0)))
    × (b ≡ false → rs' ≡ anything)
number_assume-false_example = number_assume-false anything

number_assume-true_example :
    (rs' : RangeArr) × (b : Bool) × (number_assume (ranges anything) true
      ≡ ok (record { number = ranges rs'; possible = b }))
    × (b ≡ true → (z : ℤ) × (z ≢ pos 0) × InRanges z anything)
    × (b ≡ true → (z : ℤ) → InRanges z rs' ↔ (z ≢ pos 0))
    × (b ≡ false → rs' ≡ anything)
number_assume-true_example = number_assume-true anything ((tt, tt, tt), tt)

number_assume-true-misses_example :
    (rs : RangeArr) × (number_with_range_create (pos 0) (pos 10) ≡ ranges rs)
    × InRanges (pos 1) rs
    × (number_assume (ranges rs) true ≡ ok (record { number = ranges rs; possible = false }))
number_assume-true-misses_example = number_assume-true-misses (pos 10) (omega arith) (omega arith)
