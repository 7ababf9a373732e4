-- ===== src/State/Stack/Frames.antt =====
-- The frames of src/state/stack.c as a partial map from numbers.
use xr.Prelude.{
  ℕ, ◌≡◌, refl, ap, Bool, true, false, Option, none, some, [], ◌∷◌, ◌++◌, ok, arith, ◌==◌,
  if◌then◌else◌, length, get_elem?-append_last, set,
}
use xr.Prelude.Int.{pos}
use xr.Prelude.Str.{Str}
use xr.Util.Map.{map_create}
use xr.Ast.Expr.{ast_expr_constant_create}
use xr.Ast.Types.{AstType}
use xr.Ast.Types.Copy.{is_copyable, unqualified, type_copy_lem}
use xr.Ast.Stmts.{AstBlock}
use xr.Value.Objects.{unassigned}
use xr.Value.Objects.Arrays.{object_arr_append, object_arr_insert}
use xr.State.Heap.{BlockArr, block_arr_create}
use xr.State.Location.{Location, location_automatic}
use xr.State.Block.{Block}
use xr.State.Stack.{
  Frame, Stack, variable_create, next_id, stack_create, stack_getframe, program_counter_create,
}

-- A frame's number is the number of those below it.
abbrev pub IsNumbered : Stack → Type 0
IsNumbered [] = Unit
IsNumbered (f ∷ prev) = (f.id ≡ length prev) × IsNumbered prev

-- The frame above as many others as the number says.
abbrev pub frame_at : Stack → ℕ → Option Frame
frame_at [] i = none
frame_at (f ∷ prev) i = if i == length prev then some f else frame_at prev i

pub getframe_lem :
    (f : Frame) (prev : Stack) (i : ℕ)
    → IsNumbered (f ∷ prev)
    → stack_getframe (f ∷ prev) i ≡ ok (frame_at (f ∷ prev) i)
unfolding stack_getframe
getframe_lem f [] i (w, ws) = ground (arith, w)
getframe_lem f (p ∷ prev) i (w, ws) =
    rw (getframe_lem p prev i ws) (branches f.id (length (p ∷ prev)) (frame_at (p ∷ prev) i) w)
  where
    branches :
        (n m : ℕ) (o : Option Frame)
        → n ≡ m
        → (if n == i then ok (some f) else ok o) ≡ ok (if i == m then some f else o)
    branches n m o e = ground (arith, e)

next_id_lem : (prev : Stack) → IsNumbered prev → next_id prev ≡ length prev
unfolding next_id
next_id_lem [] w = refl
next_id_lem (f ∷ prev) (w, ws) = omega (arith, w)

-- The block of a new variable.
abbrev pub new_block : Block
new_block = unassigned (ast_expr_constant_create (pos 0)) ∷ []

abbrev pub at_address : ℕ → ℕ → Location
at_address id address = record {
  type = location_automatic;
  frame = some id;
  block = address;
  offset = ast_expr_constant_create (pos 0);
}

set_last :
    (frame : BlockArr Block) (b c : Block)
    → set (frame ++ b ∷ []) (length frame) c ≡ frame ++ c ∷ []
set_last [] b c = refl
set_last (d ∷ frame) b c = ap (λ l. d ∷ l) (set_last frame b c)

-- A variable of a type that can be copied gets a block of its own behind the others.
pub variable_create_lem :
    (type : AstType) (id : ℕ) (frame : BlockArr Block) (isparam : Bool)
    → is_copyable type ≡ true
    → variable_create type id frame isparam
      ≡ ok (
        frame ++ new_block ∷ [],
        record { type = unqualified type; loc = at_address id (length frame); isparam = isparam },
      )
unfolding variable_create object_arr_append object_arr_insert
variable_create_lem type id frame isparam c =
    rw (type_copy_lem type c, get_elem?-append_last frame [], set_last frame [] new_block) refl

-- On frames that have their depth as their number, a new frame for a result type that can be copied
-- has the next number and a single block, its result's; it is the frame of that number, and every
-- other number leads to the frame that it led to.
pub stack_create-IsNumbered :
    (name : Str) (b : AstBlock) (ret_type : AstType) (abstract : Bool) (prev : Stack) (i : ℕ)
    → IsNumbered prev
    → is_copyable ret_type ≡ true
    → (f : Frame) × (stack_create name b ret_type abstract prev ≡ ok (f ∷ prev))
      × IsNumbered (f ∷ prev)
      × (f.frame ≡ new_block ∷ [])
      × (f.result.loc ≡ at_address (length prev) 0)
      × (stack_getframe (f ∷ prev) i ≡ ok (if i == length prev then some f else frame_at prev i))
unfolding stack_create block_arr_create
stack_create-IsNumbered name b ret_type abstract prev i w c =
    let f : Frame = record {
      pc = program_counter_create b name;
      abstract = abstract;
      frame = new_block ∷ [];
      varmap = map_create;
      result = record {
        type = unqualified ret_type;
        loc = at_address (length prev) 0;
        isparam = false;
      };
      id = length prev;
    } in
    (
      f,
      rw (next_id_lem prev w, variable_create_lem ret_type (length prev) [] false c) refl,
      (refl, w),
      refl,
      refl,
      getframe_lem f prev i (refl, w),
    )
