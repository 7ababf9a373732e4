-- ===== src/Verify/Assume/Decided.antt =====
-- Conditions that `ast_expr_assume` of src/ast/expr/verify.c has assumed are decided so by
-- `sel_decide` of src/ast/stmt/verify.c.
use xr.Prelude.{
  ◌≡◌, ◌≢◌, ◌⊎◌, refl, sym, ap, ◌∙◌, inl, inr, Bool, true, false, none, some, [], ◌∷◌, ◌++◌, ok,
  ok_injective, ok_pair_injective, bind-eq-ok, if◌then◌else◌,
}
use mathlib.Core.Bool.{false≢true}
use xr.Ast.Expr.{BinaryOp, Expr, binary, unary, op_bang, ast_expr_isnot, ast_expr_inverted_copy}
use xr.Ast.Expr.Copy.{copy_lem}
use xr.Ast.Expr.Equal.{plain, equal-decides}
use xr.Props.{Props, props_contradicts, props_install, props_find, props_get}
use xr.Props.Laws.{
  IsUsable, AllUsable, Among, here, there, Opposes, not-IsUsable, props_contradicts-Verdict,
  Among-append, AllUsable-append, plain_not, not-Opposes-self,
}
use xr.Props.Install.{Among-inv, props_install_lem}
use xr.Value.Objects.{Value, value_sync_create, value_issync, value_as_sync}
use xr.Value.Objects.Print.{value_to_expr}
use xr.State.Machine.{State}
use xr.Verify.Results.{Preresult}
use xr.Verify.Results.{Decision, value_result, result_as_value, result_value_create}
use xr.Verify.Reduce.{
  ast_expr_pf_reduce, sync_result, operand, binary_second, on_value, binary_value,
}
use xr.Verify.Reduce.Decide.{decided, decide_by_props, decide_value, decide_result, sel_decide}
use xr.Verify.Reduce.Props.{with_props}
use xr.Verify.Reduce.Framed.{reduce_lem}
use xr.Verify.Assume.{
  assume_unless, irreducible_assume, irreducible_assume_actual, binary_assume, reduce_assume,
}

-- A condition is not found where nothing is equal to it.
find_absent :
    (p : Props) (e : Expr)
    → AllUsable p
    → IsUsable e
    → ((f : Expr) → Among f p → plain e ≢ plain f)
    → props_find p e ≡ ok false
unfolding props_find
find_absent [] e u v h = refl
find_absent (f ∷ p) e u v h =
    let (b, runs, means) = equal-decides e f v.comparable in
    rw (runs, find_absent p e u.1 v λ g m. h g (there m)) (apart b means.0)
  where
    apart :
        (b : Bool) → (b ≡ true → plain e ≡ plain f) → (if b then ok true else ok false) ≡ ok false
    apart true same = absurd (h f here (same refl))
    apart false same = refl

-- What an assumption without a contradiction does.
installs :
    (prop : Expr)
    → IsUsable prop
    → (s s' : State) (r : Preresult) → AllUsable s.props
    → irreducible_assume_actual prop s ≡ ok (s', r)
    → r.iscontradiction ≡ false
    → (q : Props) × (s' ≡ with_props q s)
      × (props_contradicts s.props prop ≡ ok false)
      × (props_install s.props prop ≡ ok q)
unfolding irreducible_assume_actual assume_unless
installs prop u s s' r a assumes free =
    let (b, runs, verdict) = props_contradicts-Verdict s.props prop a u in
    split b runs (rw runs at assumes)
  where
    split :
        (b : Bool)
        → props_contradicts s.props prop ≡ ok b
        → assume_unless b prop s ≡ ok (s', r)
        → (q : Props) × (s' ≡ with_props q s)
          × (props_contradicts s.props prop ≡ ok false)
          × (props_install s.props prop ≡ ok q)
    split true runs h =
        let no_way : true ≡ false = ap (λ x. x.iscontradiction) (ok_pair_injective h).1 ∙ free in
        absurd (false≢true (sym no_way))
    split false runs h =
        let (q, installed, ends) =
          bind-eq-ok (props_install s.props prop) _ (rw (copy_lem prop u.copyable) at h) in
        (q, sym (ok_pair_injective ends).0, runs, installed)

not_found :
    (q : Props) (e : Expr)
    → ast_expr_isnot e ≡ false
    → props_find q e ≡ ok false
    → props_get q e ≡ ok false
unfolding props_get
not_found q e plain_one h = rw plain_one h

module _ (e : Expr) (s : State) (u : IsUsable e) (a : AllUsable s.props)
    (positive : ast_expr_isnot e ≡ false) where
  -- The negation, when it has been installed after nothing contradicted it.
  negation_lem :
      (q : Props)
      → props_contradicts s.props (unary op_bang e) ≡ ok false
      → props_install s.props (unary op_bang e) ≡ ok q
      → (props_find q e ≡ ok false) × (props_contradicts q e ≡ ok true)
  negation_lem q free installed =
      let not_e = not-IsUsable e u in
      let (last, found, unfound, keeps) =
        props_install_lem s.props q (unary op_bang e) a not_e installed in
      let (b, runs, verdict) = props_contradicts-Verdict s.props (unary op_bang e) a not_e in
      let all = AllUsable-append s.props (unary op_bang e) a not_e in
      let (c, runs', verdict') =
        props_contradicts-Verdict (s.props ++ unary op_bang e ∷ []) e all u in
      rw last (
        find_absent (s.props ++ unary op_bang e ∷ []) e all u (λ f m same.
            apart f same (verdict.complete f) (sym runs ∙ free)
              (Among-inv s.props (unary op_bang e) f m)),
        runs'
            ∙ ap ok (
                verdict'.complete (unary op_bang e) (Among-append s.props (unary op_bang e))
                  (inr (sym (plain_not e)))),
      )
    where
      apart :
          {b : Bool} (f : Expr)
          → plain e ≡ plain f
          → (Among f s.props → Opposes (unary op_bang e) f → b ≡ true)
          → ok b ≡ ok false
          → Among f s.props ⊎ (f ≡ unary op_bang e)
          → ⊥
      apart f same complete none_there (inl m) =
          let no_way : false ≡ true =
            sym (ok_injective none_there)
            ∙ complete m (inl (plain_not e ∙ ap (unary op_bang) same)) in
          absurd (false≢true no_way)
      apart f same complete none_there (inr h) =
          not-Opposes-self e (inl (same ∙ ap plain h ∙ plain_not e))

  -- After an assumption without a contradiction, the value that the condition reduces to decides.
  decides :
      (value : Bool) (s' : State) (r : Preresult)
      → irreducible_assume e value s ≡ ok (s', r)
      → r.iscontradiction ≡ false
      → (q : Props) × (s' ≡ with_props q s)
        × (decide_value (value_sync_create e) s' ≡ ok (decided value))
  unfolding irreducible_assume ast_expr_inverted_copy decide_value decide_by_props value_issync
      value_as_sync value_sync_create
  decides true s' r assumes free =
      let (q, same, uncontradicted, installed) =
        installs e u s s' r a (rw (copy_lem e u.copyable) at assumes) free in
      let (last, found, unfound, keeps) = props_install_lem s.props q e a u installed in
      (q, same, rw same (holds q found))
    where
      holds :
          (q : Props)
          → props_get q e ≡ ok true
          → decide_value (value_sync_create e) (with_props q s) ≡ ok (decided true)
      holds q found = rw found refl
  decides false s' r assumes free =
      let (q, same, uncontradicted, installed) =
        installs (unary op_bang e) (not-IsUsable e u) s s' r a
          (rw (copy_lem e u.copyable) at assumes) free in
      let (unfound, contradicted) = negation_lem q uncontradicted installed in
      (q, same, rw same (rw (not_found q e positive unfound, contradicted) refl))

module _ (e1 e2 f1 f2 : Expr) (op : BinaryOp) (v1 v2 : Value) (s : State)
    (r1 : ast_expr_pf_reduce e1 s ≡ ok (s, value_result (some v1)))
    (r2 : ast_expr_pf_reduce e2 s ≡ ok (s, value_result (some v2))) (t1 : value_to_expr v1 ≡ ok f1)
    (t2 : value_to_expr v2 ≡ ok f2) where
  -- The condition reduces to the comparison of what its operands reduce to.
  reduced_lem : ast_expr_pf_reduce (binary e1 op e2) s ≡ ok (s, sync_result (binary f1 op f2))
  unfolding ast_expr_pf_reduce operand binary_second on_value binary_value result_as_value
  reduced_lem = rw (r1, r2, t1, t2) refl

  assumed_lem :
      (value : Bool)
      → reduce_assume (binary e1 op e2) value s ≡ irreducible_assume (binary f1 op f2) value s
  unfolding reduce_assume binary_assume result_as_value
  assumed_lem value = rw (r1, r2, t1, t2) refl

  sel_lem :
      (q : Props) (d : Decision)
      → decide_value (value_sync_create (binary f1 op f2)) (with_props q s) ≡ ok d
      → sel_decide (binary e1 op e2) (with_props q s) ≡ ok (with_props q s, d)
  unfolding sel_decide decide_result result_as_value result_value_create
  sel_lem q d h = rw (reduce_lem q (binary e1 op e2) s, reduced_lem, h) refl

-- Let a comparison be given whose operands reduce, without a change of the state, to values that are
-- written as expressions, so that the comparison of these and the conditions of the state are of the
-- kinds that the code copies and compares. If the comparison, or its negation, is assumed and nothing
-- contradicts it, then in the state afterwards the comparison is decided: as true, or as false.
pub sel_decide-reduce_assume :
    (e1 e2 f1 f2 : Expr) (op : BinaryOp) (v1 v2 : Value) (s s' : State) (value : Bool)
    (r : Preresult)
    → ast_expr_pf_reduce e1 s ≡ ok (s, value_result (some v1))
    → ast_expr_pf_reduce e2 s ≡ ok (s, value_result (some v2))
    → value_to_expr v1 ≡ ok f1
    → value_to_expr v2 ≡ ok f2
    → IsUsable (binary f1 op f2)
    → AllUsable s.props
    → reduce_assume (binary e1 op e2) value s ≡ ok (s', r)
    → r.iscontradiction ≡ false
    → sel_decide (binary e1 op e2) s' ≡ ok (s', record { decision = value; err = none })
unfolding ast_expr_isnot
sel_decide-reduce_assume e1 e2 f1 f2 op v1 v2 s s' value r r1 r2 t1 t2 u a assumes free =
    let assumed = assumed_lem e1 e2 f1 f2 op v1 v2 s r1 r2 t1 t2 value in
    let (q, same, decision) =
      decides (binary f1 op f2) s u a refl value s' r (sym assumed ∙ assumes) free in
    rw same (sel_lem e1 e2 f1 f2 op v1 v2 s r1 r2 t1 t2 q (decided value) (rw same at decision))
