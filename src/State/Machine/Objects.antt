-- ===== src/State/Machine/Objects.antt =====
-- Variables and string literals as objects of the state of src/state/state.c.
use xr.Prelude.{
  ℕ, zero, suc, ◌<◌, ◌^◌, ◌≡◌, refl, ap, ◌∙◌, sym, Bool, true, false, Option, none, some, List, [],
  ◌∷◌, ok, arith, ◌==◌, length, get_elem?, set, lt→ltb,
}
use xr.Prelude.Int.{ℤ, pos, eqb_ℤ}
use xr.Prelude.Str.{str_eq, str_eq_refl, codes}
use xr.Util.Map.{map_get}
use xr.Ast.Expr.{ast_expr_constant_create}
use xr.Ast.Expr.Eval.{constant_sum}
use xr.Ast.Types.{AstVariable}
use xr.Ast.Types.Copy.{is_copyable}
use xr.Value.Objects.{Object, Value, unassigned, assigned, object_isvalue}
use xr.Value.Objects.Extents.{object_lower}
use xr.Value.Objects.Arrays.{object_arr_index, index_from}
use xr.State.Heap.{Heap}
use xr.State.Block.{Block, block_observe}
use xr.State.Block.Closed.{is_closed, offset_value}
use xr.State.Block.Coverage.{contains_lem, size_expr, has_size}
use xr.State.Block.Split.{value_covers}
use xr.State.Block.Observe.{at_lem, unassigned_covers}
use xr.State.Stack.{Frame, Stack, Variable, stack_getvariable, stack_getframe, stack_getblock}
use xr.State.Stack.Frames.{new_block, at_address}
use xr.State.Stack.Variables.{stack_declare_lem}
use xr.State.Machine.{
  State, location_auto_getblock, location_getblock, getblock_at, has_frame, put_block, put_at,
  put_in_frame, state_declare,
}
use xr.State.Machine.Access.{place_of, observe_in, state_get, state_getobject}

zero_closed : is_closed (ast_expr_constant_create (pos 0)) ≡ true
unfolding is_closed ast_expr_constant_create
zero_closed = refl

zero_small : constant_sum (ast_expr_constant_create (pos 0)) < 2 ^ 31
unfolding constant_sum ast_expr_constant_create
zero_small = omega arith

-- The object of a variable's block: at the offset 0, with a value or without.
abbrev pub variable_object : Option Value → Object
variable_object none = unassigned (ast_expr_constant_create (pos 0))
variable_object (some v) = assigned (ast_expr_constant_create (pos 0)) v

there :
    (v : Option Value)
    → object_arr_index (variable_object v ∷ []) (ast_expr_constant_create (pos 0)) ≡ ok (some 0)
unfolding object_arr_index index_from is_closed object_lower size_expr has_size constant_sum
    ast_expr_constant_create
there none =
    rw
      (
        contains_lem (ast_expr_constant_create (pos 0)) zero_closed zero_small
            (unassigned (ast_expr_constant_create (pos 0))) (refl, refl, refl, omega arith),
        unassigned_covers (ast_expr_constant_create (pos 0))
            (offset_value (ast_expr_constant_create (pos 0))),
        eqb_ℤ_refl (offset_value (ast_expr_constant_create (pos 0))),
      )
      refl
  where
    eqb_ℤ_refl : (a : ℤ) → eqb_ℤ a a ≡ true
    eqb_ℤ_refl a = ground arith
there (some v) =
    rw
      (
        contains_lem (ast_expr_constant_create (pos 0)) zero_closed zero_small
            (assigned (ast_expr_constant_create (pos 0)) v) (refl, refl, refl, omega arith),
        value_covers (ast_expr_constant_create (pos 0)) v
            (offset_value (ast_expr_constant_create (pos 0))),
        eqb_ℤ_refl (offset_value (ast_expr_constant_create (pos 0))),
      )
      refl
  where
    eqb_ℤ_refl : (a : ℤ) → eqb_ℤ a a ≡ true
    eqb_ℤ_refl a = ground arith

observe_own :
    (v : Option Value) (h : Heap Block)
    → block_observe (variable_object v ∷ []) (ast_expr_constant_create (pos 0)) h true
      ≡ ok (variable_object v ∷ [], h, some 0)
unfolding object_isvalue
observe_own none h =
    at_lem (ast_expr_constant_create (pos 0)) h (variable_object none ∷ []) 0 (variable_object none)
      (there none) refl
observe_own (some v) h =
    at_lem (ast_expr_constant_create (pos 0)) h (variable_object (some v) ∷ []) 0
      (variable_object (some v)) (there (some v)) refl

pub set_same {ℓ} :
    {A : Type ℓ} (xs : List A) (i : ℕ) (v : A) → get_elem? xs i ≡ some v → set xs i v ≡ xs
set_same [] i v e = refl
set_same (x ∷ xs) zero v e = ap (λ y. y ∷ xs) (sym (some_injective e))
  where
    some_injective : some x ≡ some v → x ≡ v
    some_injective e = cc
set_same (x ∷ xs) (suc i) v e = ap (λ l. x ∷ l) (set_same xs i v e)

pub inside {ℓ} :
    {A : Type ℓ} (xs : List A) (i : ℕ) (v : A) → get_elem? xs i ≡ some v → i < length xs
inside [] i v e = cc
inside (x ∷ xs) zero v e = omega arith
inside (x ∷ xs) (suc i) v e = omega (arith, inside xs i v e)

pub ==_refl : (n : ℕ) → (n == n) ≡ true
==_refl n = ground arith

newest_frame : (f : Frame) (prev : Stack) → stack_getframe (f ∷ prev) f.id ≡ ok (some f)
unfolding stack_getframe
newest_frame f [] = rw (==_refl f.id) refl
newest_frame f (p ∷ prev) = rw (==_refl f.id) refl

module _ (s : State) (f : Frame) (prev : Stack) (address : ℕ) (v : Option Value)
    (own : get_elem? f.frame address ≡ some (variable_object v ∷ [])) where
  abbrev pub with_frame : State
  with_frame = record s { stack = f ∷ prev }

  frame_block : stack_getblock f address ≡ ok (some (variable_object v ∷ []))
  unfolding stack_getblock
  frame_block =
      rw
        (lt→ltb address (length f.frame) (inside f.frame address (variable_object v ∷ []) own), own)
        refl

  auto_block :
      location_auto_getblock (some f.id) address (f ∷ prev)
      ≡ ok (record { b = some (variable_object v ∷ []); err = none })
  unfolding location_auto_getblock
  auto_block = rw (newest_frame f prev, frame_block) refl

  pub own_block :
      location_getblock (at_address f.id address) with_frame
      ≡ ok (record { b = some (variable_object v ∷ []); err = none })
  unfolding location_getblock getblock_at has_frame
  own_block = auto_block

  put_back : put_block with_frame (at_address f.id address) (variable_object v ∷ []) ≡ with_frame
  unfolding put_block put_at put_in_frame
  put_back = rw (==_refl f.id, set_same f.frame address (variable_object v ∷ []) own) refl

  -- The object of a variable's own block.
  pub get_own :
      state_get with_frame (at_address f.id address) true
      ≡ ok (
        with_frame,
        record { obj = some (record { loc = at_address f.id address; index = 0 }); err = none },
      )
  unfolding state_get observe_in place_of
  get_own = rw (own_block, observe_own v s.heap, put_back) refl

-- After a declaration in the newest frame of a variable that it does not have, of a type that can be
-- copied, and whose name is not `return`, the variable's own block holds one object, at the offset 0
-- and without a value, the name leads to it, and looking it up does not change the state.
pub state_getobject-state_declare :
    (s : State) (f : Frame) (prev : Stack) (var : AstVariable) (isparam : Bool)
    → s.stack ≡ f ∷ prev
    → map_get f.varmap var.name ≡ none
    → is_copyable var.type ≡ true
    → str_eq var.name (codes "return") ≡ false
    → (s' : State) × (state_declare s var isparam ≡ ok s')
      × (location_getblock (at_address f.id (length f.frame)) s'
          ≡ ok (record { b = some (variable_object none ∷ []); err = none }))
      × (state_getobject s' var.name
          ≡ ok (
            s',
            record {
              obj = some (record { loc = at_address f.id (length f.frame); index = 0 });
              err = none;
            },
          ))
unfolding state_declare state_getobject stack_getvariable
state_getobject-state_declare s f prev var isparam e new c name =
    let (f', v, declares, same_id, v_loc, v_type, v_param, names, blocks) =
      stack_declare_lem f prev var isparam var.name (length f.frame) new c in
    (
      record s { stack = f' ∷ prev },
      rw (e, declares) refl,
      ap (λ i. location_getblock (at_address i (length f.frame)) (record s { stack = f' ∷ prev }))
            (sym same_id)
          ∙ own_block s f' prev (length f.frame) none (blocks ∙ rw (==_refl (length f.frame)) refl),
      looked_up f' v (names ∙ rw (str_eq_refl var.name) refl)
          (v_loc ∙ ap (λ i. at_address i (length f.frame)) (sym same_id))
          (blocks ∙ rw (==_refl (length f.frame)) refl) same_id,
    )
  where
    looked_up :
        (f' : Frame) (v : Variable)
        → map_get f'.varmap var.name ≡ some v
        → v.loc ≡ at_address f'.id (length f.frame)
        → get_elem? f'.frame (length f.frame) ≡ some new_block
        → f'.id ≡ f.id
        → state_getobject (record s { stack = f' ∷ prev }) var.name
          ≡ ok (
            record s { stack = f' ∷ prev },
            record {
              obj = some (record { loc = at_address f.id (length f.frame); index = 0 });
              err = none;
            },
          )
    looked_up f' v named at own same_id =
        rw (name, named)
          (ap (λ l. state_get (record s { stack = f' ∷ prev }) l true) at
            ∙ get_own s f' prev (length f.frame) none own
            ∙ ap
                (λ i. ok (
                  record s { stack = f' ∷ prev },
                  record {
                    obj = some (record { loc = at_address i (length f.frame); index = 0 });
                    err = none;
                  },
                ))
                same_id)
