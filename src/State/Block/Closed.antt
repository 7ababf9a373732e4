-- ===== src/State/Block/Closed.antt =====
-- Offsets without identifiers, on which the comparisons of src/object/object.c are those of integers.
use xr.Prelude.{◌<◌, ◌^◌, ◌≡◌, refl, ap₂, Bool, true, false, not, ◌&&◌, [], arith, pair_of_and, ok}
use xr.Prelude.Int.{ℤ, ◌+ℤ◌, ◌-ℤ◌, int_laws}
use xr.Math.Meaning.{Env, add_keys}
use xr.Math.Compare.{origin}
use xr.Ast.Expr.{
  Expr, BinaryOp, constant, binary, op_addition, op_subtraction, ast_expr_copy, ast_expr_matheval,
}
use xr.Ast.Expr.Copy.{is_copyable, copy_lem}
use xr.Ast.Expr.Eval.{
  IsArithmetic, IsBounded, IsComparison, value, identifiers, identifier_count, constant_sum, holds,
  matheval-holds,
}

-- A sum or difference of integer constants.
unfoldable pub is_closed : Expr → Bool
is_closed (constant k is_char) = not is_char
is_closed (binary e1 op_addition e2) = is_closed e1 && is_closed e2
is_closed (binary e1 op_subtraction e2) = is_closed e1 && is_closed e2
is_closed _ = false

-- The integer that it stands for.
unfoldable pub offset_value : Expr → ℤ
unfolding value
offset_value e = value origin e

-- What a closed expression is to the code.
record Known (e : Expr) : Type 0 where
  copyable : is_copyable e ≡ true
  nameless : identifiers e ≡ []
  countless : identifier_count e ≡ 0
  arithmetic : constant_sum e < 2 ^ 31 → IsArithmetic e
  constant : (ρ : Env) → value ρ e ≡ value origin e

known : (e : Expr) → is_closed e ≡ true → Known e
unfolding is_closed is_copyable identifiers identifier_count constant_sum value add_keys
known (constant k false) h = record {
  copyable = refl;
  nameless = refl;
  countless = refl;
  arithmetic = λ small. small;
  constant = λ ρ. refl;
}
known (constant k true) h = cc
known (binary e1 op_addition e2) h =
    let (h1, h2) = pair_of_and (is_closed e1) (is_closed e2) h in
    let k1 = known e1 h1 in
    let k2 = known e2 h2 in
    record {
      copyable = rw (k1.copyable, k2.copyable);
      nameless = rw (k1.nameless, k2.nameless);
      countless = omega (arith, k1.countless, k2.countless);
      arithmetic =
          λ small. (k1.arithmetic (omega (arith, small)), k2.arithmetic (omega (arith, small)));
      constant = λ ρ. ap₂ (λ a b. a +ℤ b) (k1.constant ρ) (k2.constant ρ);
    }
known (binary e1 op_subtraction e2) h =
    let (h1, h2) = pair_of_and (is_closed e1) (is_closed e2) h in
    let k1 = known e1 h1 in
    let k2 = known e2 h2 in
    record {
      copyable = rw (k1.copyable, k2.copyable);
      nameless = rw (k1.nameless, k2.nameless);
      countless = omega (arith, k1.countless, k2.countless);
      arithmetic =
          λ small. (k1.arithmetic (omega (arith, small)), k2.arithmetic (omega (arith, small)));
      constant = λ ρ. ap₂ (λ a b. a -ℤ b) (k1.constant ρ) (k2.constant ρ);
    }
known _ h = cc

pub closed_copy : (e : Expr) → is_closed e ≡ true → ast_expr_copy e ≡ ok e
closed_copy e h = copy_lem e (known e h).copyable

bounded : (e : Expr) → Known e → constant_sum e < 2 ^ 31 → IsBounded e
bounded e k small = record {
  arithmetic = k.arithmetic small;
  few = omega (arith, k.countless);
  light = small;
}

pub gap : (a b : ℤ) → a +ℤ (b -ℤ a) ≡ b
gap a b = omega int_laws

-- A comparison of two closed expressions is that of the integers.
pub closed_compare :
    (e1 e2 : Expr) (op : BinaryOp)
    → is_closed e1 ≡ true
    → is_closed e2 ≡ true
    → constant_sum e1 < 2 ^ 31
    → constant_sum e2 < 2 ^ 31
    → IsComparison op
    → ast_expr_matheval (binary e1 op e2) ≡ ok (holds op (offset_value e1) (offset_value e2))
unfolding offset_value
closed_compare e1 e2 op h1 h2 s1 s2 c =
    let k1 = known e1 h1 in
    let k2 = known e2 h2 in
    matheval-holds e1 e2 op (value origin e2 -ℤ value origin e1) (bounded e1 k1 s1)
      (bounded e2 k2 s2) c (rw (k1.nameless, k2.nameless))
      (λ ρ. rw (k1.constant ρ, k2.constant ρ) (gap (value origin e1) (value origin e2))) origin
