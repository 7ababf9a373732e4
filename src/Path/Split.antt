-- ===== src/Path/Split.antt =====
-- A path of src/path/path.c that splits on a comparison: in each of the two paths it is decided.
use xr.Prelude.{
  ◌≡◌, refl, sym, ap, ◌∙◌, Bool, true, false, not, Option, none, some, ok, assert, bind-eq-ok,
  ok_injective, ok_pair_injective, if◌then◌else◌,
}
use mathlib.Core.Path.{subst}
use xr.Prelude.Str.{Str}
use xr.Ast.Expr.{BinaryOp, Expr, binary, unary, op_bang, ast_expr_inverted_copy}
use xr.Ast.Expr.Copy.{is_copyable, copy_lem}
use xr.Ast.Functions.{AstFunction}
use xr.Props.Laws.{IsUsable, AllUsable}
use xr.Value.Objects.{Value}
use xr.Value.Objects.Print.{value_to_expr}
use xr.State.Machine.{State}
use xr.State.Machine.Values.{state_copywithname}
use xr.Verify.Results.{Preresult, preresult_iserror, preresult_iscontradiction, value_result}
use xr.Verify.Reduce.{ast_expr_pf_reduce}
use xr.Verify.Reduce.Decide.{sel_decide}
use xr.Verify.Assume.{reduce_assume, ast_expr_assume}
use xr.Verify.Assume.Decided.{sel_decide-reduce_assume}
use xr.Path.{
  ExecutionPath, uninit, abstract, halfway, actual, audit, split, atend, path_function,
  state_assume, copied_function, path_copywithcond, path_split,
}

-- The state that a path takes steps of.
abbrev pub executing : ExecutionPath → Option State
executing (abstract f a) = some a
executing (actual f a c) = some c
executing _ = none

-- In the state of the path the condition is decided; or the path is at its end, with a state that is
-- left by an assumption that was a contradiction.
abbrev pub IsDecided : Expr → Bool → ExecutionPath → Type 0
IsDecided e value (abstract f t) = sel_decide e t ≡ ok (t, record { decision = value; err = none })
IsDecided e value (actual f a t) = sel_decide e t ≡ ok (t, record { decision = value; err = none })
IsDecided e value (atend f t none) =
    (s : State) × (r : Preresult) × (reduce_assume e value s ≡ ok (t, r))
    × (r.iscontradiction ≡ true)
IsDecided e value (atend f a (some t)) =
    (s : State) × (r : Preresult) × (reduce_assume e value s ≡ ok (t, r))
    × (r.iscontradiction ≡ true)
IsDecided e value _ = ⊥

-- The operands reduce without a change of the state to the values, and its conditions are of the kinds
-- that the code copies and compares.
abbrev pub Reduces : Expr → Expr → Value → Value → State → Type 0
Reduces e1 e2 v1 v2 s =
    (ast_expr_pf_reduce e1 s ≡ ok (s, value_result (some v1)))
    × (ast_expr_pf_reduce e2 s ≡ ok (s, value_result (some v2)))
    × AllUsable s.props

assume-inv :
    (s t : State) (cond : Expr) (held : Bool)
    → state_assume s cond ≡ ok (t, held)
    → (r : Preresult) × (ast_expr_assume cond s ≡ ok (t, r)) × (not r.iscontradiction ≡ held)
unfolding state_assume preresult_iscontradiction
assume-inv s t cond held h =
    let ((t', r), runs, next) = bind-eq-ok (ast_expr_assume cond s) _ h in
    let (u, asserted, last) = bind-eq-ok (assert (not (preresult_iserror r))) _ next in
    let (same, is_held) = ok_pair_injective last in (r, runs ∙ ap (λ y. ok (y, r)) same, is_held)

module _ (e1 e2 f1 f2 : Expr) (op : BinaryOp) (v1 v2 : Value) (t1 : value_to_expr v1 ≡ ok f1)
    (t2 : value_to_expr v2 ≡ ok f2) (u : IsUsable (binary f1 op f2)) (value : Bool) (cond : Expr)
    (assumes : (s : State) → ast_expr_assume cond s ≡ reduce_assume (binary e1 op e2) value s) where
  abstract-IsDecided :
      (f : AstFunction) (s t : State) (held : Bool)
      → Reduces e1 e2 v1 v2 s
      → state_assume s cond ≡ ok (t, held)
      → IsDecided (binary e1 op e2) value (if held then abstract f t else atend f t none)
  abstract-IsDecided f s t true (r1, r2, a) h =
      let (r, runs, free) = assume-inv s t cond true h in
      sel_decide-reduce_assume e1 e2 f1 f2 op v1 v2 s t value r r1 r2 t1 t2 u a
        (sym (assumes s) ∙ runs) (negated r.iscontradiction free)
    where
      negated : (b : Bool) → not b ≡ true → b ≡ false
      negated true e = cc
      negated false e = refl
  abstract-IsDecided f s t false _ h =
      let (r, runs, contradicted) = assume-inv s t cond false h in
      (s, r, sym (assumes s) ∙ runs, negated r.iscontradiction contradicted)
    where
      negated : (b : Bool) → not b ≡ false → b ≡ true
      negated true e = refl
      negated false e = cc

  actual-IsDecided :
      (f : AstFunction) (a s t : State) (held : Bool)
      → Reduces e1 e2 v1 v2 s
      → state_assume s cond ≡ ok (t, held)
      → IsDecided (binary e1 op e2) value (if held then actual f a t else atend f a (some t))
  actual-IsDecided f a s t true r h = abstract-IsDecided f s t true r h
  actual-IsDecided f a s t false r h = abstract-IsDecided f s t false r h

  copy-IsDecided :
      (p q : ExecutionPath) (x : State)
      → executing p ≡ some x
      → ((name : Str) (s : State) → state_copywithname x name ≡ ok s → Reduces e1 e2 v1 v2 s)
      → path_copywithcond p cond ≡ ok q
      → IsDecided (binary e1 op e2) value q
  unfolding path_copywithcond
  copy-IsDecided (abstract old a) q x running reduces h =
      let (f, copied, h1) = bind-eq-ok (copied_function old cond) _ h in
      let (s, named, h2) = bind-eq-ok (state_copywithname a f.name) _ h1 in
      let ((t, held), assumed, h3) = bind-eq-ok (state_assume s cond) _ h2 in
      subst (IsDecided (binary e1 op e2) value) (ok_injective h3) (
        abstract-IsDecided f s t held
          (reduces f.name s (ap (λ y. state_copywithname y f.name) (sym (same running)) ∙ named))
          assumed)
    where
      same : some a ≡ some x → a ≡ x
      same e = cc
  copy-IsDecided (actual old a c) q x running reduces h =
      let (f, copied, h1) = bind-eq-ok (copied_function old cond) _ h in
      let (a', named, h2) = bind-eq-ok (state_copywithname a f.name) _ h1 in
      let (s, named', h3) = bind-eq-ok (state_copywithname c f.name) _ h2 in
      let ((t, held), assumed, h4) = bind-eq-ok (state_assume s cond) _ h3 in
      subst (IsDecided (binary e1 op e2) value) (ok_injective h4) (
        actual-IsDecided f a' s t held
          (reduces f.name s (ap (λ y. state_copywithname y f.name) (sym (same running)) ∙ named'))
          assumed)
    where
      same : some c ≡ some x → c ≡ x
      same e = cc
  copy-IsDecided (uninit f) q x running reduces h = cc
  copy-IsDecided (halfway f a) q x running reduces h = cc
  copy-IsDecided (audit f a c) q x running reduces h = cc
  copy-IsDecided (split f p_true p_false) q x running reduces h = cc
  copy-IsDecided (atend f a c) q x running reduces h = cc

true_assumes :
    (e1 e2 : Expr) (op : BinaryOp) (s : State)
    → ast_expr_assume (binary e1 op e2) s ≡ reduce_assume (binary e1 op e2) true s
unfolding ast_expr_assume
true_assumes e1 e2 op s = refl

false_assumes :
    (e1 e2 : Expr) (op : BinaryOp) (s : State)
    → ast_expr_assume (unary op_bang (binary e1 op e2)) s ≡ reduce_assume (binary e1 op e2) false s
unfolding ast_expr_assume reduce_assume
false_assumes e1 e2 op s = refl

inverted-inv :
    (e c : Expr) → is_copyable e ≡ true → ast_expr_inverted_copy e true ≡ ok c → unary op_bang e ≡ c
unfolding ast_expr_inverted_copy
inverted-inv e c u h = ok_injective (rw (copy_lem e u) at h)

-- Let a path split on a comparison whose operands reduce, in each copy of the state it executes and
-- without a change of it, to values that are written as expressions, so that the comparison of these
-- and the conditions of the copies are of the kinds that the code copies and compares. Then it becomes
-- a split of two paths: in the state of the first the comparison is decided as true and in that of the
-- second as false, unless the path is at its end because assuming this was a contradiction.
pub path_split-IsDecided :
    (p q : ExecutionPath) (x : State) (e1 e2 f1 f2 : Expr) (op : BinaryOp) (v1 v2 : Value)
    → executing p ≡ some x
    → value_to_expr v1 ≡ ok f1
    → value_to_expr v2 ≡ ok f2
    → IsUsable (binary f1 op f2)
    → is_copyable (binary e1 op e2) ≡ true
    → ((name : Str) (s : State) → state_copywithname x name ≡ ok s → Reduces e1 e2 v1 v2 s)
    → path_split p (binary e1 op e2) ≡ ok q
    → (p_true : ExecutionPath) × (p_false : ExecutionPath) × (q
        ≡ split (path_function p) p_true p_false)
      × IsDecided (binary e1 op e2) true p_true
      × IsDecided (binary e1 op e2) false p_false
unfolding path_split
path_split-IsDecided p q x e1 e2 f1 f2 op v1 v2 running t1 t2 u copyable reduces h =
    let cond = binary e1 op e2 in
    let (p_true, first, h1) = bind-eq-ok (path_copywithcond p cond) _ h in
    let (inverted, inverts, h2) = bind-eq-ok (ast_expr_inverted_copy cond true) _ h1 in
    let (p_false, second, h3) = bind-eq-ok (path_copywithcond p inverted) _ h2 in
    let is_inverted = inverted-inv cond inverted copyable inverts in
    (
      p_true,
      p_false,
      sym (ok_injective h3),
      copy-IsDecided e1 e2 f1 f2 op v1 v2 t1 t2 u true cond (true_assumes e1 e2 op) p p_true x
          running reduces first,
      copy-IsDecided e1 e2 f1 f2 op v1 v2 t1 t2 u false (unary op_bang cond)
          (false_assumes e1 e2 op) p p_false x running reduces
          (ap (path_copywithcond p) is_inverted ∙ second),
    )
