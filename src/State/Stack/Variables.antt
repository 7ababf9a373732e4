-- ===== src/State/Stack/Variables.antt =====
-- The variables of a frame of src/state/stack.c.
use xr.Prelude.{
  ℕ, ◌≡◌, refl, Bool, true, none, some, [], ◌∷◌, ◌++◌, ok, ◌==◌, if◌then◌else◌, length, get_elem?,
}
use xr.Prelude.Str.{Str, str_eq}
use xr.Util.Map.{map_get, map_set}
use xr.Util.Map.Laws.{map_get-map_set}
use xr.Ast.Types.{AstVariable}
use xr.Ast.Types.Copy.{is_copyable, unqualified}
use xr.State.Heap.Laws.{get_elem?-append_one}
use xr.State.Stack.{Frame, Stack, Variable, stack_declare}
use xr.State.Stack.Frames.{new_block, at_address, variable_create_lem}

-- A declaration of a variable that the frame does not have, of a type that can be copied: the frame
-- has a new block for it that no variable had, with an object without a value, its name leads to that
-- block, and every other name and every other block of the frame are as before.
pub stack_declare_lem :
    (s : Frame) (prev : Stack) (var : AstVariable) (isparam : Bool) (id : Str) (address : ℕ)
    → map_get s.varmap var.name ≡ none
    → is_copyable var.type ≡ true
    → (s' : Frame) × (v : Variable) × (stack_declare (s ∷ prev) var isparam ≡ ok (s' ∷ prev))
      × (s'.id ≡ s.id)
      × (v.loc ≡ at_address s.id (length s.frame))
      × (v.type ≡ unqualified var.type)
      × (v.isparam ≡ isparam)
      × (map_get s'.varmap id ≡ (if str_eq var.name id then some v else map_get s.varmap id))
      × (get_elem? s'.frame address
          ≡ (if address == length s.frame then some new_block else get_elem? s.frame address))
unfolding stack_declare
stack_declare_lem s prev var isparam id address new c =
    let v : Variable = record {
      type = unqualified var.type;
      loc = at_address s.id (length s.frame);
      isparam = isparam;
    } in
    (
      record s { frame = s.frame ++ new_block ∷ []; varmap = map_set s.varmap var.name v },
      v,
      rw (new, variable_create_lem var.type s.id s.frame isparam c) refl,
      refl,
      refl,
      refl,
      refl,
      map_get-map_set s.varmap var.name id v,
      get_elem?-append_one s.frame new_block address,
    )
