-- ===== src/Math.antt =====
-- The arithmetic kernel of src/math/math.c: sums of naturals and variables, their tallies, and the
-- comparisons by which the verifier decides bounds of memory ranges. A `long` count that the code
-- keeps in a map's pointer reads as 0 where the key is missing.
pub mod Meaning
pub mod TallyLoops
pub mod Tallies
pub mod Simplify
pub mod Compare
use xr.Prelude.{
  ℕ, zero, suc, ◌-◌, Bool, true, false, not, ◌&&◌, Option, none, some, List, [], ◌∷◌, if◌then◌else◌,
  length, ◌==◌, Run, ok, abort, ◌>>=◌, ◌>>◌, assert,
}
use xr.Prelude.Int.{
  ℤ, pos, negsuc, pos_part, neg_part, ◌+ℤ◌, neg, leb_ℤ, ltb_ℤ, eqb_ℤ, as_int, as_long, to_int,
}
use xr.Prelude.Str.{Str}
use xr.Util.Map.{Entry, Map, map_create, map_get, map_set}

pub data MathAtom : Type 0 where
  nat : ℕ → MathAtom
  variable : Str → MathAtom

pub data MathExpr : Type 0 where
  atom : MathAtom → MathExpr
  sum : MathExpr → MathExpr → MathExpr
  negated : MathExpr → MathExpr

-- There is no case for a negation.
unfoldable pub math_expr_copy : MathExpr → Run MathExpr
math_expr_copy (atom a) = ok (atom a)
math_expr_copy (sum e1 e2) = do ok (sum (← math_expr_copy e1) (← math_expr_copy e2))
math_expr_copy (negated e) = abort

pub record Tally : Type 0 where
  pub map : Map ℤ
  pub num : ℤ

abbrev pub tally_of : Map ℤ → ℤ → Tally
tally_of m n = record { map = m; num = n }

-- `(long) map_get(m, key)`
unfoldable pub count : Map ℤ → Str → ℤ
count m k = elim (map_get m k) [ none ↦ pos 0 | some v ↦ v ]

unfoldable pub map_fromvar : Str → Map ℤ
map_fromvar id = map_set map_create id (pos 1)

unfoldable pub atom_tally : MathAtom → Tally
unfolding map_fromvar
atom_tally (nat i) = tally_of map_create (to_int (pos i))
atom_tally (variable v) = tally_of (map_fromvar v) (pos 0)

-- The first loop of `map_sum`.
unfoldable pub copy_each : Map ℤ → Map ℤ → Map ℤ
copy_each m [] = m
copy_each m (e ∷ es) = copy_each (map_set m e.key e.value) es

-- The second loop of `map_sum`.
unfoldable pub add_each : Map ℤ → Map ℤ → Run (Map ℤ)
unfolding count
add_each m [] = ok m
add_each m (e ∷ es) = do v ← as_long (count m e.key +ℤ e.value); add_each (map_set m e.key v) es

unfoldable pub map_sum : Map ℤ → Map ℤ → Run (Map ℤ)
unfolding copy_each add_each
map_sum m1 m2 = add_each (copy_each map_create m1) m2

-- The loop of `neg_tally`, over the entries that are left.
unfoldable pub neg_each : Map ℤ → Map ℤ → Run (Map ℤ)
unfolding count
neg_each m [] = ok m
neg_each m (e ∷ es) = do v ← as_long (neg (count m e.key)); neg_each (map_set m e.key v) es

unfoldable pub sum_tally : Tally → Tally → Run Tally
sum_tally r1 r2 = do m ← map_sum r1.map r2.map; n ← as_int (r1.num +ℤ r2.num); ok (tally_of m n)

unfoldable pub neg_tally : Tally → Run Tally
neg_tally r = do m ← neg_each r.map r.map; n ← as_int (neg r.num); ok (tally_of m n)

unfoldable pub tally : MathExpr → Run Tally
tally (atom a) = ok (atom_tally a)
tally (sum e1 e2) = do sum_tally (← tally e1) (← tally e2)
tally (negated e) = do neg_tally (← tally e)

-- The loop of `variable_tally_eq`, which sets `res` to false at a difference.
unfoldable pub same_counts_loop : Map ℤ → Map ℤ → Map ℤ → Bool → Bool
unfolding count
same_counts_loop [] m1 m2 res = res
same_counts_loop (e ∷ es) m1 m2 res =
    same_counts_loop es m1 m2 (if eqb_ℤ (count m1 e.key) (count m2 e.key) then res else false)

-- `res = ...` after the loop: the old value is dropped.
abbrev pub overwrite : Bool → Bool → Bool
overwrite old new = new

unfoldable pub variable_tally_eq : Map ℤ → Map ℤ → Bool
variable_tally_eq m1 m2 = overwrite (same_counts_loop m1 m1 m2 false) (length m1 == length m2)

unfoldable pub math_le : MathExpr → MathExpr → Run Bool
unfolding variable_tally_eq
math_le e1 e2 = do
  d1 ← tally e1
  d2 ← tally e2
  ok (variable_tally_eq d1.map d2.map && leb_ℤ d1.num d2.num)

-- C's `&&`: the right side runs only if the left side is true.
abbrev pub and_run : Run Bool → Run Bool → Run Bool
and_run a b = a >>= λ x. if x then b else ok false

unfoldable pub math_eq : MathExpr → MathExpr → Run Bool
math_eq e1 e2 = and_run (math_le e1 e2) (math_le e2 e1)

unfoldable pub math_lt : MathExpr → MathExpr → Run Bool
math_lt e1 e2 = and_run (math_le e1 e2) (math_eq e1 e2 >>= λ x. ok (not x))

unfoldable pub math_gt : MathExpr → MathExpr → Run Bool
math_gt e1 e2 = math_lt e2 e1

unfoldable pub math_ge : MathExpr → MathExpr → Run Bool
math_ge e1 e2 = math_le e2 e1

-- The recursive call on `-i` is at a positive number.
unfoldable pub math_expr_fromint : ℤ → Run MathExpr
math_expr_fromint i =
    if ltb_ℤ i (pos 0)
    then (do j ← as_int (neg i); ok (negated (atom (nat (pos_part j)))))
    else ok (atom (nat (pos_part i)))

-- The loop of `math_expr_fromvartally`: `rounds` further occurrences of the variable.
unfoldable pub add_occurrences : ℕ → MathExpr → Str → MathExpr
add_occurrences zero e id = e
add_occurrences (suc rounds) e id = add_occurrences rounds (sum e (atom (variable id))) id

-- At a positive count.
unfoldable pub occurrences : Str → ℕ → MathExpr
occurrences id num = add_occurrences (num - 1) (atom (variable id)) id

unfoldable pub math_expr_fromvartally : Str → ℤ → Run MathExpr
unfolding add_occurrences occurrences
math_expr_fromvartally id num = do
  assert (not (eqb_ℤ num (pos 0)))
  if ltb_ℤ num (pos 0)
      then (do j ← as_int (neg num); ok (negated (occurrences id (pos_part j))))
      else ok (occurrences id (pos_part num))

unfoldable pub math_expr_nullablesum : Option MathExpr → Option MathExpr → Run MathExpr
math_expr_nullablesum none none = math_expr_fromint (pos 0)
math_expr_nullablesum none (some e2) = ok e2
math_expr_nullablesum (some e1) none = ok e1
math_expr_nullablesum (some e1) (some e2) = ok (sum e1 e2)

-- The loop of `math_expr_simplify`. The count is converted to the `int` of `math_expr_fromvartally`.
unfoldable pub simplify_each : Map ℤ → Option MathExpr → Run (Option MathExpr)
simplify_each [] expr = ok expr
simplify_each (e ∷ m) expr = if eqb_ℤ e.value (pos 0) then simplify_each m expr else do
  v ← math_expr_fromvartally e.key (to_int e.value)
  s ← math_expr_nullablesum expr (some v)
  simplify_each m (some s)

unfoldable pub math_expr_simplify : MathExpr → Run MathExpr
unfolding simplify_each
math_expr_simplify raw = do
  t ← tally raw
  expr ← simplify_each t.map none
  num ← (if eqb_ℤ t.num (pos 0) then ok none else math_expr_fromint t.num >>= λ e. ok (some e))
  math_expr_nullablesum expr num
