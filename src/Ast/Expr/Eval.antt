-- ===== src/Ast/Expr/Eval.antt =====
-- What `ast_expr_matheval` of src/ast/expr/expr.c decides: comparisons of sums and differences.
use xr.Prelude.{
  ℕ, suc, ◌+◌, ◌<◌, ◌^◌, ◌≡◌, refl, ap, ◌∙◌, Bool, true, false, not, [], ◌∷◌, arith, ◌==◌, length,
  ok,
}
use xr.Prelude.Int.{
  ℤ, pos, negsuc, pos_part, neg_part, ◌+ℤ◌, ◌-ℤ◌, leb_ℤ, ltb_ℤ, eqb_ℤ, int_laws, as_int_small,
}
use xr.Util.StringArr.{StringArr}
use xr.Math
use xr.Math.{MathExpr, math_le, math_lt, math_eq, math_gt, math_ge}
use xr.Math.Meaning.{Env, eval, variables, add_keys, occurrence_count, magnitude, IsSmall}
use xr.Math.Compare.{origin, same_number, math_le_lem, math_lt_lem, math_eq_lem}
use xr.Math.Simplify.{neg-negsuc, neg-pos}
use xr.Ast.Expr.{
  BinaryOp, op_eq, op_ne, op_lt, op_gt, op_le, op_ge, op_addition, op_subtraction, Expr, identifier,
  constant, binary, math_expr, eval_prop, ast_expr_matheval,
}

-- Sums and differences of identifiers and constants.
abbrev pub IsArithmetic : Expr → Type 0
IsArithmetic (identifier s) = Unit
IsArithmetic (constant k c) = pos_part k + neg_part k < 2 ^ 31
IsArithmetic (binary e1 op_addition e2) = IsArithmetic e1 × IsArithmetic e2
IsArithmetic (binary e1 op_subtraction e2) = IsArithmetic e1 × IsArithmetic e2
IsArithmetic _ = ⊥

-- The integer that such an expression stands for.
unfoldable pub value : Env → Expr → ℤ
value ρ (identifier s) = ρ s
value ρ (constant k c) = k
value ρ (binary e1 op_addition e2) = value ρ e1 +ℤ value ρ e2
value ρ (binary e1 op_subtraction e2) = value ρ e1 -ℤ value ρ e2
value ρ _ = pos 0

unfoldable pub identifiers : Expr → StringArr
identifiers (identifier s) = s ∷ []
identifiers (binary e1 op e2) = add_keys (identifiers e1) (identifiers e2)
identifiers _ = []

-- The number of identifiers, and the sum of the constants' absolute values.
unfoldable pub identifier_count : Expr → ℕ
identifier_count (identifier s) = 1
identifier_count (binary e1 op e2) = identifier_count e1 + identifier_count e2
identifier_count _ = 0

unfoldable pub constant_sum : Expr → ℕ
constant_sum (constant k c) = pos_part k + neg_part k
constant_sum (binary e1 op e2) = constant_sum e1 + constant_sum e2
constant_sum _ = 0

-- An arithmetic expression on which no `int` of the code overflows.
pub record IsBounded (e : Expr) : Type 0 where
  pub arithmetic : IsArithmetic e
  pub few : identifier_count e < 2 ^ 31
  pub light : constant_sum e < 2 ^ 31

pub record Translated (e : Expr) (m : MathExpr) : Type 0 where
  pub means : (ρ : Env) → eval ρ m ≡ value ρ e
  pub names : variables m ≡ identifiers e
  pub number : occurrence_count m ≡ identifier_count e
  pub sum : magnitude m ≡ constant_sum e

pub math_expr_lem :
    (e : Expr) → IsArithmetic e → (m : MathExpr) × (math_expr e ≡ ok m) × Translated e m
unfolding math_expr eval value variables identifiers occurrence_count identifier_count magnitude
    constant_sum
math_expr_lem (identifier s) h =
    (_, refl, record { means = λ ρ. refl; names = refl; number = refl; sum = refl })
math_expr_lem (constant (pos n) c) h =
    let below : ltb_ℤ (pos n) (pos 0) ≡ false = ground arith in
    (
      Math.atom (Math.nat n),
      rw below,
      record { means = λ ρ. refl; names = refl; number = refl; sum = omega arith },
    )
math_expr_lem (constant (negsuc n) c) h =
    let below : ltb_ℤ (negsuc n) (pos 0) ≡ true = ground arith in
    (
      Math.negated (Math.atom (Math.nat (suc n))),
      rw (below, neg-negsuc n, as_int_small (pos (suc n)) (omega arith)),
      record { means = λ ρ. neg-pos n; names = refl; number = refl; sum = omega arith },
    )
math_expr_lem (binary e1 op_addition e2) (h1, h2) =
    let (m1, runs1, t1) = math_expr_lem e1 h1 in
    let (m2, runs2, t2) = math_expr_lem e2 h2 in
    (
      Math.sum m1 m2,
      rw (runs1, runs2),
      record {
        means = λ ρ. rw (t1.means ρ, t2.means ρ);
        names = rw (t1.names, t2.names);
        number = omega (arith, t1.number, t2.number);
        sum = omega (arith, t1.sum, t2.sum);
      },
    )
math_expr_lem (binary e1 op_subtraction e2) (h1, h2) =
    let (m1, runs1, t1) = math_expr_lem e1 h1 in
    let (m2, runs2, t2) = math_expr_lem e2 h2 in
    (
      Math.sum m1 (Math.negated m2),
      rw (runs1, runs2),
      record {
        means = λ ρ. rw (t1.means ρ, t2.means ρ) (omega int_laws);
        names = rw (t1.names, t2.names);
        number = omega (arith, t1.number, t2.number);
        sum = omega (arith, t1.sum, t2.sum);
      },
    )
math_expr_lem _ h = elim h [ ]

IsSmall-of_IsBounded : (e : Expr) (m : MathExpr) → IsBounded e → Translated e m → IsSmall m
IsSmall-of_IsBounded e m b t = record {
  few = omega (arith, t.number, b.few);
  light = omega (arith, t.sum, b.light);
}

-- What the six comparisons say of two integers.
unfoldable pub holds : BinaryOp → ℤ → ℤ → Bool
holds op_eq a b = eqb_ℤ a b
holds op_ne a b = not (eqb_ℤ a b)
holds op_lt a b = ltb_ℤ a b
holds op_gt a b = ltb_ℤ b a
holds op_le a b = leb_ℤ a b
holds op_ge a b = leb_ℤ b a
holds _ a b = false

abbrev pub IsComparison : BinaryOp → Type 0
IsComparison op_addition = ⊥
IsComparison op_subtraction = ⊥
IsComparison _ = Unit

-- The two sides name as many different identifiers.
abbrev pub same_identifiers : Expr → Expr → Bool
same_identifiers e1 e2 = length (identifiers e1) == length (identifiers e2)

module _ (m1 m2 : MathExpr) (s1 : IsSmall m1) (s2 : IsSmall m2)
    (same : same_number m1 m2 ≡ true) where
  eval_prop_lem :
      (op : BinaryOp)
      → IsComparison op
      → eval_prop m1 op m2 ≡ ok (holds op (eval origin m1) (eval origin m2))
  unfolding eval_prop holds math_gt math_ge
  eval_prop_lem op_eq c = rw (math_eq_lem m1 m2 s1 s2, same)
  eval_prop_lem op_ne c = rw (math_eq_lem m1 m2 s1 s2, same)
  eval_prop_lem op_lt c = rw (math_lt_lem m1 m2 s1 s2, same)
  eval_prop_lem op_gt c = rw (math_lt_lem m2 m1 s2 s1) (ground arith)
  eval_prop_lem op_le c = rw (math_le_lem m1 m2 s1 s2, same)
  eval_prop_lem op_ge c = rw (math_le_lem m2 m1 s2 s1) (ground arith)
  eval_prop_lem op_addition c = elim c [ ]
  eval_prop_lem op_subtraction c = elim c [ ]

-- Two pairs with the same difference.
same_gap :
    (a b c d x : ℤ)
    → a +ℤ x ≡ b
    → c +ℤ x ≡ d
    → pos_part a + neg_part b + neg_part c + pos_part d
      ≡ neg_part a + pos_part b + pos_part c + neg_part d
same_gap a b c d x h k =
    omega (int_laws, ap pos_part h, ap neg_part h, ap pos_part k, ap neg_part k)

holds_shift :
    (op : BinaryOp) (a b c d x : ℤ) → a +ℤ x ≡ b → c +ℤ x ≡ d → holds op a b ≡ holds op c d
unfolding holds
holds_shift op_eq a b c d x h k = ground (arith, same_gap a b c d x h k)
holds_shift op_ne a b c d x h k = ground (arith, same_gap a b c d x h k)
holds_shift op_lt a b c d x h k = ground (arith, same_gap a b c d x h k)
holds_shift op_gt a b c d x h k = ground (arith, same_gap a b c d x h k)
holds_shift op_le a b c d x h k = ground (arith, same_gap a b c d x h k)
holds_shift op_ge a b c d x h k = ground (arith, same_gap a b c d x h k)
holds_shift _ a b c d x h k = refl

-- For two bounded arithmetic expressions with as many different identifiers, whose difference is a
-- number that does not depend on the identifiers, each of the six comparisons is answered, and
-- the answer is the truth of the comparison under every assignment of integers.
pub matheval-holds :
    (e1 e2 : Expr) (op : BinaryOp) (d : ℤ)
    → IsBounded e1
    → IsBounded e2
    → IsComparison op
    → same_identifiers e1 e2 ≡ true
    → ((ρ : Env) → value ρ e1 +ℤ d ≡ value ρ e2)
    → (ρ : Env) → ast_expr_matheval (binary e1 op e2) ≡ ok (holds op (value ρ e1) (value ρ e2))
unfolding ast_expr_matheval
matheval-holds e1 e2 op d b1 b2 c same apart ρ =
    let (m1, runs1, t1) = math_expr_lem e1 b1.arithmetic in
    let (m2, runs2, t2) = math_expr_lem e2 b2.arithmetic in
    let s1 = IsSmall-of_IsBounded e1 m1 b1 t1 in
    let s2 = IsSmall-of_IsBounded e2 m2 b2 t2 in
    let same' : same_number m1 m2 ≡ true = rw (t1.names, t2.names) same in
    rw (runs1, runs2)
      (eval_prop_lem m1 m2 s1 s2 same' op c
        ∙ rw (t1.means origin, t2.means origin)
            (ap ok (holds_shift op _ _ _ _ d (apart origin) (apart ρ))))
