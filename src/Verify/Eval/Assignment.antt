-- ===== src/Verify/Eval/Assignment.antt =====
-- Assignments to variables, of src/ast/expr/verify.c.
use xr.Prelude.{
  ℕ, ◌≡◌, refl, ap, ◌∙◌, true, false, Option, none, some, List, [], ◌∷◌, Run, ok, get_elem?, set,
}
use xr.Prelude.Str.{Str, str_eq, codes}
use xr.Util.Map.{map_get}
use xr.Ast.Expr.{Expr, identifier}
use xr.Ast.Stmts.{AstStmt}
use xr.Value.Objects.{Value, value_copy, object_assign, object_value_create}
use xr.State.Stack.{Frame, Stack, Variable, stack_getvariable}
use xr.State.Stack.Frames.{at_address}
use xr.State.Machine.{State, state_getblock, put_block, put_at, put_in_frame}
use xr.State.Machine.Access.{Place, state_getobject, state_get}
use xr.State.Machine.Values.{state_getobjecttype}
use xr.State.Machine.Objects.{variable_object, with_frame, get_own, own_block, ==_refl}
use xr.Verify.Results.{Err}
use xr.Verify.Results.{
  Result, value_result, spot_of, read_object, write_object, block_object, member_in, put_member,
  assign_object, lvalue_object, result_as_value, result_value_create,
}
use xr.Verify.Lvalue.{ast_expr_lvalue, expr_identifier_lvalue, typed, spot_if, lvalue_create}
use xr.Verify.Reduce.{is_builtin, has_prefix, held_value, variable_value, expr_identifier_eval}
use xr.Verify.Abstract.{assign_lvalue, assign_result}
use xr.Verify.Eval.{expr_assign_eval, not_an_lvalue}

-- The variable's own object.
abbrev own_place : Frame → ℕ → Place
own_place f address = record { loc = at_address f.id address; index = 0 }

overwrites :
    (v : Option Value) (w : Value)
    → object_assign (variable_object v) (some w) ≡ ok (variable_object (some w))
unfolding object_assign object_value_create
overwrites none w = refl
overwrites (some v) w = refl

set_there {ℓ} :
    {A : Type ℓ} (xs : List A) (i : ℕ) (x y : A)
    → get_elem? xs i ≡ some x
    → get_elem? (set xs i y) i ≡ some y
set_there [] i x y e = cc
set_there (z ∷ xs) ℕ.zero x y e = refl
set_there (z ∷ xs) (ℕ.suc i) x y e = set_there xs i x y e

module _ (s : State) (f : Frame) (prev : Stack) (id : Str) (var : Variable) (address : ℕ)
    (v : Option Value) (named : map_get f.varmap id ≡ some var)
    (at : var.loc ≡ at_address f.id address)
    (own : get_elem? f.frame address ≡ some (variable_object v ∷ []))
    (ordinary : str_eq id (codes "return") ≡ false) where
  looked_up :
      state_getobject (with_frame s f prev address v own) id
      ≡ ok (
        with_frame s f prev address v own,
        record { obj = some (own_place f address); err = none },
      )
  unfolding state_getobject stack_getvariable
  looked_up =
      rw (ordinary, named)
        (ap (λ l. state_get (with_frame s f prev address v own) l true) at
          ∙ get_own s f prev address v own)

  read_lem :
      read_object (with_frame s f prev address v own) (spot_of (own_place f address))
      ≡ ok (variable_object v)
  unfolding read_object state_getblock block_object member_in spot_of
  read_lem = rw (own_block s f prev address v own) refl

  lvalue_lem :
      ast_expr_lvalue (identifier id) (with_frame s f prev address v own)
      ≡ ok (
        with_frame s f prev address v own,
        lvalue_create var.type (some (spot_of (own_place f address))),
      )
  unfolding ast_expr_lvalue expr_identifier_lvalue typed spot_if state_getobjecttype
      stack_getvariable
  lvalue_lem = rw (looked_up, ordinary, named) refl

  -- The frame after the assignment.
  abbrev frame_with : Value → Frame
  frame_with w = record f { frame = set f.frame address (variable_object (some w) ∷ []) }

  write_lem :
      (w : Value)
      → write_object
          (with_frame s f prev address v own)
          (spot_of (own_place f address))
          (variable_object (some w))
        ≡ ok (record s { stack = frame_with w ∷ prev })
  unfolding write_object state_getblock block_object put_member put_block put_at put_in_frame
      spot_of
  write_lem w = rw (own_block s f prev address v own, ==_refl f.id) refl

  assign_lem :
      (w : Value)
      → assign_object (with_frame s f prev address v own) (spot_of (own_place f address)) (some w)
        ≡ ok (record s { stack = frame_with w ∷ prev })
  unfolding assign_object
  assign_lem w = rw (read_lem, overwrites v w, write_lem w) refl

  assigns :
      (undefined : Run Err) (x w : Value)
      → value_copy x ≡ ok w
      → assign_lvalue undefined (identifier id) (with_frame s f prev address v own) x
        ≡ ok (record s { stack = frame_with w ∷ prev }, value_result (some x))
  unfolding assign_lvalue lvalue_object result_value_create
  assigns undefined x w c = rw (lvalue_lem, c, assign_lem w) refl

  -- The value of the variable, where it has one.
  evaluates :
      (w w' : Value)
      → v ≡ some w
      → value_copy w ≡ ok w'
      → is_builtin id s ≡ false
      → has_prefix (codes "#") id ≡ false
      → expr_identifier_eval id (with_frame s f prev address v own)
        ≡ ok (with_frame s f prev address v own, value_result (some w'))
  unfolding expr_identifier_eval variable_value held_value is_builtin result_value_create
  evaluates w w' holds c free plain =
      rw (free, plain, looked_up, read_lem, ap variable_object holds, c) refl

-- In a state let a name stand for a variable of the newest frame whose block holds one object at the
-- offset 0, with a value or without, and let the name be none of those with a meaning of their own
-- (`return`, a virtual constant, or one that begins with `#` or `ptr:`). If the right side of an
-- assignment to it evaluates to a value in that state, and that value and its copy can be copied, then
-- the assignment gives the value, and in the state afterwards the variable evaluates to a copy of the
-- copy.
pub expr_identifier_eval-expr_assign_eval :
    (eval : Expr → State → Run (State × Result)) (position : AstStmt → Option Str) (depth : ℕ)
    (rval : Expr) (s0 s : State) (f : Frame) (prev : Stack) (id : Str) (var : Variable)
    (address : ℕ) (old : Option Value) (v w w' : Value)
    → eval rval s0 ≡ ok (s, value_result (some v))
    → s.stack ≡ f ∷ prev
    → map_get f.varmap id ≡ some var
    → var.loc ≡ at_address f.id address
    → get_elem? f.frame address ≡ some (variable_object old ∷ [])
    → str_eq id (codes "return") ≡ false
    → is_builtin id s ≡ false
    → has_prefix (codes "#") id ≡ false
    → value_copy v ≡ ok w
    → value_copy w ≡ ok w'
    → (s' : State) × (expr_assign_eval eval position depth (identifier id) rval s0
        ≡ ok (s', value_result (some v)))
      × (expr_identifier_eval id s' ≡ ok (s', value_result (some w')))
unfolding expr_assign_eval assign_result result_as_value
expr_identifier_eval-expr_assign_eval eval position depth rval s0 s f prev id var address old v w w'
      runs e named at own ordinary free plain c1 c2 =
    let same : s ≡ record s { stack = f ∷ prev } = ap (λ st. record s { stack = st }) e in
    let undefined = not_an_lvalue (identifier id) in
    (
      record s { stack = frame_with s f prev id var address old named at own ordinary w ∷ prev },
      rw runs (
          ap (λ t. assign_lvalue undefined (identifier id) t v) same
          ∙ assigns s f prev id var address old named at own ordinary undefined v w c1),
      evaluates s (frame_with s f prev id var address old named at own ordinary w) prev id var
          address (some w) named at
          (set_there f.frame address (variable_object old ∷ []) (variable_object (some w) ∷ []) own)
          ordinary w w' refl c2 free plain,
    )
