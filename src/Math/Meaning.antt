-- ===== src/Math/Meaning.antt =====
-- What the expressions and tallies of src/math/math.c stand for, at values of the variables.
use xr.Prelude.{ℕ, ◌+◌, ◌≤◌, ◌<◌, ◌^◌, ◌≡◌, [], ◌∷◌, ◌++◌, if◌then◌else◌}
use xr.Prelude.Int.{ℤ, pos, pos_part, neg_part, ◌+ℤ◌, ◌*ℤ◌, neg}
use xr.Prelude.Str.{Str}
use xr.Util.Map.{Map}
use xr.Util.Map.Laws.{HasDistinctKeys}
use xr.Util.StringArr.{StringArr, string_arr_contains}
use xr.Math.{nat, variable, MathExpr, atom, sum, negated, Tally}

-- Values of the variables.
abbrev pub Env : Type 0
Env = Str → ℤ

unfoldable pub eval : Env → MathExpr → ℤ
eval ρ (atom (nat n)) = pos n
eval ρ (atom (variable x)) = ρ x
eval ρ (sum e1 e2) = eval ρ e1 +ℤ eval ρ e2
eval ρ (negated e) = neg (eval ρ e)

-- The sum of the counts times the values.
unfoldable pub total : Env → Map ℤ → ℤ
total ρ [] = pos 0
total ρ (e ∷ m) = e.value *ℤ ρ e.key +ℤ total ρ m

-- How many variables an expression has, and the sum of its naturals.
unfoldable pub occurrence_count : MathExpr → ℕ
occurrence_count (atom (nat n)) = 0
occurrence_count (atom (variable x)) = 1
occurrence_count (sum e1 e2) = occurrence_count e1 + occurrence_count e2
occurrence_count (negated e) = occurrence_count e

unfoldable pub magnitude : MathExpr → ℕ
magnitude (atom (nat n)) = n
magnitude (atom (variable x)) = 0
magnitude (sum e1 e2) = magnitude e1 + magnitude e2
magnitude (negated e) = magnitude e

abbrev pub abs : ℤ → ℕ
abs a = pos_part a + neg_part a

unfoldable pub weight : Map ℤ → ℕ
weight [] = 0
weight (e ∷ m) = abs e.value + weight m

-- The strings in the order of their first occurrence, each once.
unfoldable pub add_key : StringArr → Str → StringArr
add_key ks k = if string_arr_contains ks k then ks else ks ++ k ∷ []

unfoldable pub add_keys : StringArr → StringArr → StringArr
unfolding add_key
add_keys ks [] = ks
add_keys ks (j ∷ js) = add_keys (add_key ks j) js

-- The different variables of an expression.
unfoldable pub variables : MathExpr → StringArr
unfolding add_keys
variables (atom (nat n)) = []
variables (atom (variable x)) = x ∷ []
variables (sum e1 e2) = add_keys (variables e1) (variables e2)
variables (negated e) = variables e

abbrev pub map_keys : Map ℤ → StringArr
map_keys [] = []
map_keys (e ∷ m) = e.key ∷ map_keys m

-- The expressions on which no `int` or `long` of the code overflows.
pub record IsSmall (e : MathExpr) : Type 0 where
  pub few : occurrence_count e < 2 ^ 31
  pub light : magnitude e < 2 ^ 31

-- `t` stands for what `e` stands for, within the bounds that `e` gives.
pub record TallyOf (e : MathExpr) (t : Tally) : Type 0 where
  pub meaning : (ρ : Env) → total ρ t.map +ℤ t.num ≡ eval ρ e
  pub distinct : HasDistinctKeys t.map
  pub counts : weight t.map ≤ occurrence_count e
  pub keys : map_keys t.map ≡ variables e
  pub number : abs t.num ≤ magnitude e
