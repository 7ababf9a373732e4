-- ===== src/Ast/Expr/Equal.antt =====
-- `ast_expr_equal` of src/ast/expr/expr.c as a decision of equality.
use xr.Prelude.{
  ◌≡◌, refl, ap, ap₂, ◌↔◌, Bool, true, false, ◌&&◌, arith, Run, ok, abort, pair_of_and,
}
use xr.Prelude.Int.{ℤ, eqb_ℤ, eqb_ℤ_iff}
use xr.Prelude.Str.{str_eq, str_eq_iff, str_eq_refl}
use xr.Math.{and_run}
use xr.Ast.Expr.{
  UnaryOp, BinaryOp, Expr, Args, identifier, constant, string_literal, bracketed, iteration, call,
  incdec, structmember, unary, binary, assignment, isdeallocand, isdereferencable, arbarg,
  allocation, no_args, arg, unary_op_eq, binary_op_eq, same_nargs, ast_expr_equal, args_equal,
}

-- The expression with every constant an `int`: what `ast_expr_equal` sees of it.
unfoldable mutual
  pub plain : Expr → Expr
  plain (constant k c) = constant k false
  plain (call e es) = call (plain e) (plain_args es)
  plain (structmember e x) = structmember (plain e) x
  plain (unary o e) = unary o (plain e)
  plain (binary e o f) = binary (plain e) o (plain f)
  plain (assignment e f) = assignment (plain e) (plain f)
  plain e = e

  pub plain_args : Args → Args
  plain_args no_args = no_args
  plain_args (arg e es) = arg (plain e) (plain_args es)

-- Of the kinds that `ast_expr_equal` compares, throughout.
unfoldable mutual
  pub is_comparable : Expr → Bool
  is_comparable (identifier s) = true
  is_comparable (constant k c) = true
  is_comparable (string_literal s) = true
  is_comparable (call e es) = is_comparable e && are_comparable es
  is_comparable (structmember e x) = is_comparable e
  is_comparable (unary o e) = is_comparable e
  is_comparable (binary e o f) = is_comparable e && is_comparable f
  is_comparable (assignment e f) = is_comparable e && is_comparable f
  is_comparable _ = false

  pub are_comparable : Args → Bool
  are_comparable no_args = true
  are_comparable (arg e es) = is_comparable e && are_comparable es

and_run-true : (a b : Run Bool) → and_run a b ≡ ok true → (a ≡ ok true) × (b ≡ ok true)
and_run-true (ok true) b h = (refl, h)
and_run-true (ok false) b h = (cc, cc)
and_run-true abort b h = (cc, cc)

ok-true : (b : Bool) → ok b ≡ ok true → b ≡ true
ok-true b h = cc

unary_op_eq_sound : (o p : UnaryOp) → unary_op_eq o p ≡ true → o ≡ p
unfolding unary_op_eq
unary_op_eq_sound o p h = ground arith

binary_op_eq_sound : (o p : BinaryOp) → binary_op_eq o p ≡ true → o ≡ p
unfolding binary_op_eq
binary_op_eq_sound o p h = ground arith

mutual
  unfolding ast_expr_equal plain same_nargs

  equal_sound : (e f : Expr) → ast_expr_equal e f ≡ ok true → plain e ≡ plain f
  equal_sound (identifier s) (identifier t) h = ap identifier ((str_eq_iff s t).0 (ok-true _ h))
  equal_sound (constant k c) (constant l d) h =
      ap (λ n. constant n false) ((eqb_ℤ_iff k l).0 (ok-true _ h))
  equal_sound (string_literal s) (string_literal t) h =
      ap string_literal ((str_eq_iff s t).0 (ok-true _ h))
  equal_sound (assignment e v) (assignment f w) h =
      let (h1, h2) = and_run-true (ast_expr_equal e f) (ast_expr_equal v w) h in
      ap₂ assignment (equal_sound e f h1) (equal_sound v w h2)
  equal_sound (unary o e) (unary p f) h =
      let (h1, h2) = and_run-true (ok (unary_op_eq o p)) (ast_expr_equal e f) h in
      ap₂ unary (unary_op_eq_sound o p (ok-true _ h1)) (equal_sound e f h2)
  equal_sound (binary a o b) (binary c p d) h =
      let (h1, h2) = and_run-true (ok (binary_op_eq o p)) _ h in
      let (h3, h4) = and_run-true (ast_expr_equal a c) (ast_expr_equal b d) h2 in
      rw (binary_op_eq_sound o p (ok-true _ h1), equal_sound a c h3, equal_sound b d h4)
  equal_sound (call e es) (call f fs) h =
      let (h1, h2) = and_run-true (ok (same_nargs es fs)) _ h in
      let (h3, h4) = and_run-true (args_equal es fs) (ast_expr_equal e f) h2 in
      ap₂ call (equal_sound e f h4) (args_equal_sound es fs (ok-true _ h1) h3)
  equal_sound (structmember e x) (structmember f y) h =
      let (h1, h2) = and_run-true (ast_expr_equal e f) (ok (str_eq x y)) h in
      ap₂ structmember (equal_sound e f h1) ((str_eq_iff x y).0 (ok-true _ h2))
  equal_sound (bracketed e) f h = ground arith
  equal_sound iteration f h = ground arith
  equal_sound (incdec e i p) f h = ground arith
  equal_sound (isdeallocand e) f h = ground arith
  equal_sound (isdereferencable e) f h = ground arith
  equal_sound arbarg f h = ground arith
  equal_sound (allocation k e) f h = ground arith
  equal_sound _ _ h = cc

  args_equal_sound :
      (es fs : Args)
      → same_nargs es fs ≡ true
      → args_equal es fs ≡ ok true
      → plain_args es ≡ plain_args fs
  args_equal_sound no_args no_args n h = refl
  args_equal_sound no_args (arg f fs) n h = cc
  args_equal_sound (arg e es) no_args n h = cc
  args_equal_sound (arg e es) (arg f fs) n h =
      let (h1, h2) = and_run-true (ast_expr_equal e f) (args_equal es fs) h in
      ap₂ arg (equal_sound e f h1) (args_equal_sound es fs n h2)

unary_op_eq_refl : (o : UnaryOp) → unary_op_eq o o ≡ true
unfolding unary_op_eq
unary_op_eq_refl o = ground arith

binary_op_eq_refl : (o : BinaryOp) → binary_op_eq o o ≡ true
unfolding binary_op_eq
binary_op_eq_refl o = ground arith

eqb_ℤ_refl : (k : ℤ) → eqb_ℤ k k ≡ true
eqb_ℤ_refl k = (eqb_ℤ_iff k k).1 refl

-- Equal plain forms, seen from a comparable left side.
mutual
  unfolding ast_expr_equal plain same_nargs is_comparable

  equal_complete :
      (e f : Expr) → is_comparable e ≡ true → plain e ≡ plain f → ast_expr_equal e f ≡ ok true
  equal_complete (identifier s) (identifier t) c h =
      let same : s ≡ t = cc in ap ok ((str_eq_iff s t).1 same)
  equal_complete (constant k x) (constant l y) c h =
      let same : k ≡ l = cc in ap ok ((eqb_ℤ_iff k l).1 same)
  equal_complete (string_literal s) (string_literal t) c h =
      let same : s ≡ t = cc in ap ok ((str_eq_iff s t).1 same)
  equal_complete (assignment e v) (assignment f w) c h =
      let (c1, c2) = pair_of_and (is_comparable e) (is_comparable v) c in
      rw (equal_complete e f c1 (cc), equal_complete v w c2 (cc))
  equal_complete (unary o e) (unary p f) c h =
      let same : o ≡ p = cc in rw (same, unary_op_eq_refl p, equal_complete e f c (cc))
  equal_complete (binary a o b) (binary a' p b') c h =
      let (c1, c2) = pair_of_and (is_comparable a) (is_comparable b) c in
      let same : o ≡ p = cc in
      rw (same, binary_op_eq_refl p, equal_complete a a' c1 (cc), equal_complete b b' c2 (cc))
  equal_complete (call e es) (call f fs) c h =
      let (c1, c2) = pair_of_and (is_comparable e) (are_comparable es) c in
      let (n, l) = args_complete es fs c2 (cc) in rw (n, l, equal_complete e f c1 (cc))
  equal_complete (structmember e x) (structmember f y) c h =
      let same : x ≡ y = cc in rw (equal_complete e f c (cc), same, str_eq_refl y)
  equal_complete _ _ c h = cc

  args_complete :
      (es fs : Args)
      → are_comparable es ≡ true
      → plain_args es ≡ plain_args fs
      → (same_nargs es fs ≡ true) × (args_equal es fs ≡ ok true)
  args_complete no_args no_args c h = (refl, refl)
  args_complete no_args (arg f fs) c h = (cc, cc)
  args_complete (arg e es) no_args c h = (cc, cc)
  args_complete (arg e es) (arg f fs) c h =
      let (c1, c2) = pair_of_and (is_comparable e) (are_comparable es) c in
      let (n, l) = args_complete es fs c2 (cc) in (n, rw (equal_complete e f c1 (cc)) l)

-- The comparison of a comparable expression with any other answers.
and_run-ok :
    (a b : Run Bool)
    → (x : Bool) × (a ≡ ok x)
    → (y : Bool) × (b ≡ ok y)
    → (z : Bool) × (and_run a b ≡ ok z)
and_run-ok a b (true, p) (y, q) = (y, rw p q)
and_run-ok a b (false, p) (y, q) = (false, rw p)

mutual
  unfolding ast_expr_equal is_comparable

  equal_answers : (e f : Expr) → is_comparable e ≡ true → (b : Bool) × (ast_expr_equal e f ≡ ok b)
  equal_answers (identifier s) (identifier t) c = (_, refl)
  equal_answers (constant k x) (constant l y) c = (_, refl)
  equal_answers (string_literal s) (string_literal t) c = (_, refl)
  equal_answers (assignment e v) (assignment f w) c =
      let (c1, c2) = pair_of_and (is_comparable e) (is_comparable v) c in
      and_run-ok _ _ (equal_answers e f c1) (equal_answers v w c2)
  equal_answers (unary o e) (unary p f) c = and_run-ok _ _ (_, refl) (equal_answers e f c)
  equal_answers (binary a o b) (binary a' p b') c =
      let (c1, c2) = pair_of_and (is_comparable a) (is_comparable b) c in
      and_run-ok _ _ (_, refl) (and_run-ok _ _ (equal_answers a a' c1) (equal_answers b b' c2))
  equal_answers (call e es) (call f fs) c =
      let (c1, c2) = pair_of_and (is_comparable e) (are_comparable es) c in
      and_run-ok _ _ (_, refl) (and_run-ok _ _ (args_answer es fs c2) (equal_answers e f c1))
  equal_answers (structmember e x) (structmember f y) c =
      and_run-ok _ _ (equal_answers e f c) (_, refl)
  equal_answers (bracketed e) f c = cc
  equal_answers iteration f c = cc
  equal_answers (incdec e i p) f c = cc
  equal_answers (isdeallocand e) f c = cc
  equal_answers (isdereferencable e) f c = cc
  equal_answers arbarg f c = cc
  equal_answers (allocation k e) f c = cc
  equal_answers _ _ c = (_, refl)

  args_answer : (es fs : Args) → are_comparable es ≡ true → (b : Bool) × (args_equal es fs ≡ ok b)
  args_answer no_args fs c = (_, refl)
  args_answer (arg e es) no_args c = (_, refl)
  args_answer (arg e es) (arg f fs) c =
      let (c1, c2) = pair_of_and (is_comparable e) (are_comparable es) c in
      and_run-ok _ _ (equal_answers e f c1) (args_answer es fs c2)

-- On an expression of the kinds that `ast_expr_equal` compares, the comparison with any expression
-- answers, and the answer is true exactly when the two are the same up to the difference between
-- character and integer constants.
pub equal-decides :
    (e f : Expr)
    → is_comparable e ≡ true
    → (b : Bool) × (ast_expr_equal e f ≡ ok b) × ((b ≡ true) ↔ (plain e ≡ plain f))
equal-decides e f c =
    let (b, answers) = equal_answers e f c in
    (
      b,
      answers,
      (
        (λ h. equal_sound e f (rw (answers, h))),
        λ same. ok_inj (rw answers at (equal_complete e f c same)),
      ),
    )
  where
    ok_inj : {x : Bool} → ok x ≡ ok true → x ≡ true
    ok_inj h = cc
