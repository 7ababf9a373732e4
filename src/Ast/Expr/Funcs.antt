-- ===== src/Ast/Expr/Funcs.antt =====
-- `ast_expr_getfuncs` of src/ast/expr/expr.c collects the names of the functions that are called.
use xr.Prelude.{
  ◌≡◌, refl, ◌∙◌, Bool, true, false, ◌||◌, ◌&&◌, pair_of_and, [], ◌∷◌, arith, ok, ◌>>=◌, Run, sym,
}
use xr.Prelude.Str.{Str, str_eq}
use xr.Util.StringArr.{
  StringArr, string_arr_create, string_arr_append, string_arr_concat, string_arr_contains,
}
use xr.Util.StringArr.Laws.{string_arr_concat_lem, contains-append}
use xr.Ast.Expr.{
  Expr, Args, identifier, bracketed, iteration, call, incdec, structmember, isdeallocand,
  isdereferencable, unary, binary, assignment, allocation, no_args, arg, ast_expr_getfuncs,
  args_getfuncs,
}

-- A call of `g` by name stands in the expression.
unfoldable mutual
  pub is_called : Str → Expr → Bool
  is_called g (call (identifier f) es) = str_eq g f || is_called_in g es
  is_called g (bracketed e) = is_called g e
  is_called g (unary o e) = is_called g e
  is_called g (incdec e i p) = is_called g e
  is_called g (assignment e v) = is_called g e || is_called g v
  is_called g (binary e o f) = is_called g e || is_called g f
  is_called g (structmember e field) = is_called g e
  is_called g (isdeallocand e) = is_called g e
  is_called g (isdereferencable e) = is_called g e
  is_called g (allocation k e) = is_called g e
  is_called g (call e es) = is_called g e || is_called_in g es
  is_called g _ = false

  pub is_called_in : Str → Args → Bool
  is_called_in g no_args = false
  is_called_in g (arg e es) = is_called g e || is_called_in g es

-- No call stands in the expression.
unfoldable mutual
  pub is_call_free : Expr → Bool
  is_call_free (call e es) = false
  is_call_free (bracketed e) = is_call_free e
  is_call_free (unary o e) = is_call_free e
  is_call_free (incdec e i p) = is_call_free e
  is_call_free (assignment e v) = is_call_free e && is_call_free v
  is_call_free (binary e o f) = is_call_free e && is_call_free f
  is_call_free (structmember e field) = is_call_free e
  is_call_free (isdeallocand e) = is_call_free e
  is_call_free (isdereferencable e) = is_call_free e
  is_call_free (allocation k e) = is_call_free e
  is_call_free _ = true

contains-concat :
    (g : Str) (xs ys : StringArr) {x y : Bool}
    → string_arr_contains xs g ≡ x
    → string_arr_contains ys g ≡ y
    → string_arr_contains (string_arr_concat xs ys) g ≡ (x || y)
contains-concat g xs ys p q = rw (string_arr_concat_lem xs ys, contains-append xs ys g, p, q)

-- No loop variable, no allocation, no call of anything but a name, and no call in a member's structure
-- or in an assertion.
unfoldable mutual
  pub is_traversable : Expr → Bool
  is_traversable (call (identifier f) es) = are_traversable es
  is_traversable (call e es) = false
  is_traversable (bracketed e) = is_traversable e
  is_traversable (unary o e) = is_traversable e
  is_traversable (incdec e i p) = is_traversable e
  is_traversable (assignment e v) = is_traversable e && is_traversable v
  is_traversable (binary e o f) = is_traversable e && is_traversable f
  is_traversable iteration = false
  is_traversable (allocation k e) = false
  is_traversable (structmember e field) = is_call_free e
  is_traversable (isdeallocand e) = is_call_free e
  is_traversable (isdereferencable e) = is_call_free e
  is_traversable _ = true

  pub are_traversable : Args → Bool
  are_traversable no_args = true
  are_traversable (arg e es) = is_traversable e && are_traversable es

or_assoc : (a b c : Bool) → ((a || b) || c) ≡ (a || (b || c))
or_assoc true b c = refl
or_assoc false b c = refl

or_none : {a b : Bool} → a ≡ false → b ≡ false → (a || b) ≡ false
or_none p q = rw (p, q)

not_called : (g : Str) (e : Expr) → is_call_free e ≡ true → is_called g e ≡ false
unfolding is_called is_call_free
not_called g (call e es) h = cc
not_called g (bracketed e) h = not_called g e h
not_called g (unary o e) h = not_called g e h
not_called g (incdec e i p) h = not_called g e h
not_called g (assignment e v) h =
    let (h1, h2) = pair_of_and (is_call_free e) (is_call_free v) h in
    or_none (not_called g e h1) (not_called g v h2)
not_called g (binary e o v) h =
    let (h1, h2) = pair_of_and (is_call_free e) (is_call_free v) h in
    or_none (not_called g e h1) (not_called g v h2)
not_called g (structmember e field) h = not_called g e h
not_called g (isdeallocand e) h = not_called g e h
not_called g (isdereferencable e) h = not_called g e h
not_called g (allocation k e) h = not_called g e h
not_called g _ h = refl

-- The collection answers with an array in which exactly the names that `calls` accepts stand.
abbrev pub Collects : (Str → Bool) → Run StringArr → Type 0
Collects calls r = (fs : StringArr) × (r ≡ ok fs) × ((g : Str) → string_arr_contains fs g ≡ calls g)

passed_over :
    (e : Expr) → is_call_free e ≡ true → Collects (λ g. is_called g e) (ok string_arr_create)
unfolding string_arr_create string_arr_contains
passed_over e h = ([], refl, λ g. sym (not_called g e h))

two_funcs :
    {p q : Str → Bool} {a b : Run StringArr}
    → Collects p a
    → Collects q b
    → Collects (λ g. p g || q g) (do xs ← a; ys ← b; ok (string_arr_concat xs ys))
two_funcs (xs, x, x_in) (ys, y, y_in) =
    (string_arr_concat xs ys, rw (x, y), λ g. contains-concat g xs ys (x_in g) (y_in g))

mutual
  unfolding ast_expr_getfuncs is_called is_traversable string_arr_create string_arr_append
      string_arr_contains

  collects :
      (e : Expr) → is_traversable e ≡ true → Collects (λ g. is_called g e) (ast_expr_getfuncs e)
  collects (call (identifier f) es) h =
      let (fs, answers, fs_in) = args_collect es (f ∷ []) h in
      (fs, answers, λ g. fs_in g ∙ ground arith)
  collects (call e es) h = cc
  collects (bracketed e) h = collects e h
  collects (unary o e) h = collects e h
  collects (incdec e i p) h = collects e h
  collects (assignment e v) h =
      let (h1, h2) = pair_of_and (is_traversable e) (is_traversable v) h in
      two_funcs (collects e h1) (collects v h2)
  collects (binary e o v) h =
      let (h1, h2) = pair_of_and (is_traversable e) (is_traversable v) h in
      two_funcs (collects e h1) (collects v h2)
  collects iteration h = cc
  collects (allocation k e) h = cc
  collects (structmember e field) h = passed_over e h
  collects (isdeallocand e) h = passed_over e h
  collects (isdereferencable e) h = passed_over e h
  collects _ h = ([], refl, λ g. refl)

  args_collect :
      (es : Args) (res : StringArr)
      → are_traversable es ≡ true
      → Collects (λ g. string_arr_contains res g || is_called_in g es) (args_getfuncs res es)
  args_collect no_args res h = (res, refl, λ g. ground arith)
  args_collect (arg e es) res h =
      let (h1, h2) = pair_of_and (is_traversable e) (are_traversable es) h in
      let (ys, q, q_in) = collects e h1 in
      let (fs, f, f_in) = args_collect es (string_arr_concat res ys) h2 in
      (
        fs,
        rw q f,
        λ g.
            f_in g
            ∙ rw (contains-concat g res ys refl (q_in g))
                (or_assoc (string_arr_contains res g) (is_called g e) (is_called_in g es)),
      )

-- On an expression without loop variables, allocations, calls of anything but a name, and calls in
-- the structure of a member or in an assertion, `ast_expr_getfuncs` answers, and a name is in the
-- answer exactly when a call of it stands in the expression.
pub getfuncs-is_called :
    (e : Expr) → is_traversable e ≡ true → Collects (λ g. is_called g e) (ast_expr_getfuncs e)
getfuncs-is_called e h = collects e h
