-- ===== src/State/Machine.antt =====
-- `struct state` of src/state/state.c: the memories of the abstract machine, and the blocks that a
-- location leads to. A block that has been changed is put back where its location says.
pub mod Access
pub mod Objects
pub mod Calls
pub mod Ranges
pub mod Values
pub mod Arrays
use xr.Prelude.{
  ℕ, Bool, true, false, ◌&&◌, ◌++◌, Option, none, some, List, [], ◌∷◌, ◌==◌, Run, ok, abort, ◌>>=◌,
  ◌>>◌, assert, if◌then◌else◌, is_some, get_elem?, set,
}
use xr.Prelude.Int.{pos}
use xr.Prelude.Str.{Str, str_eq, codes}
use xr.Ast.Expr.{Expr, ast_expr_constant_create}
use xr.Ast.Types.{AstType, AstVariable}
use xr.Ast.Stmts.{AstBlock}
use xr.Ast.Functions.{Externals}
use xr.Props.{Props, props_create, props_copy}
use xr.Value.Objects.{
  Value, Object, value_ptr, value_literal_create, value_issync, value_as_location, object_assign,
}
use xr.State.Heap.{Heap, heap_create, heap_copy, heap_getblock}
use xr.State.Clump.{Clump, clump_create, clump_copy, clump_newblock, clump_getblock}
use xr.State.Static.{
  StaticMemory, static_memory_create, static_memory_copy, static_memory_newblock,
  static_memory_getblock, static_memory_stringpool, static_memory_checkpool,
}
use xr.State.Vconst.{Vconst, vconst_create, vconst_copy}
use xr.State.Location.{
  LocationType, Location, location_static, location_vconst, location_dereferencable,
  location_automatic, location_dynamic, location_type_eq, location_create_static,
  location_create_dereferencable, location_with_offset,
}
use xr.State.Block.{Block, block_create, block_copy, block_observe}
use xr.State.Stack.{
  Frame, Stack, Variable, stack_create, stack_copy, stack_getframe, stack_getblock, stack_declare,
  stack_getvariable, stack_getresult,
}

pub record State : Type 0 where
  pub ext : Externals
  pub vconst : Vconst
  pub static_memory : StaticMemory Block
  pub clump : Clump Block
  pub stack : Stack
  pub heap : Heap Block
  pub props : Props

unfoldable pub state_create : Str → AstBlock → AstType → Bool → Externals → Run State
unfolding vconst_create static_memory_create clump_create stack_create heap_create props_create
state_create name body ret_type abstract ext = do
  stack ← stack_create name body ret_type abstract []
  ok (record {
    ext = ext;
    vconst = vconst_create;
    static_memory = static_memory_create;
    clump = clump_create;
    stack = stack;
    heap = heap_create;
    props = props_create;
  })

unfoldable pub state_copy : State → Run State
unfolding static_memory_copy vconst_copy clump_copy stack_copy heap_copy props_copy
state_copy s = do
  static_memory ← static_memory_copy block_copy s.static_memory
  vconst ← vconst_copy s.vconst
  clump ← clump_copy block_copy s.clump
  stack ← stack_copy s.stack
  heap ← heap_copy block_copy s.heap
  props ← props_copy s.props
  ok (record {
    ext = s.ext;
    vconst = vconst;
    static_memory = static_memory;
    clump = clump;
    stack = stack;
    heap = heap;
    props = props;
  })

unfoldable pub state_pushframe : State → Str → AstBlock → AstType → Bool → Run State
unfolding stack_create
state_pushframe s name b t abstract = do
  stack ← stack_create name b t abstract s.stack
  ok (record s { stack = stack })

-- The frame below must be there.
unfoldable pub stack_popped : Stack → Run Stack
stack_popped (old ∷ f ∷ rest) = ok (f ∷ rest)
stack_popped _ = abort

unfoldable pub state_popframe : State → Run State
unfolding stack_popped
state_popframe s = do stack ← stack_popped s.stack; ok (record s { stack = stack })

unfoldable pub state_declare : State → AstVariable → Bool → Run State
unfolding stack_declare
state_declare s var isparam = do
  stack ← stack_declare s.stack var isparam
  ok (record s { stack = stack })

-- `struct block_res`, with NULL as `none`.
pub record BlockRes : Type 0 where
  pub b : Option Block
  pub err : Option Str

-- A frame that is not set is read outside the contents of a location.
unfoldable pub location_auto_getblock : Option ℕ → ℕ → Stack → Run BlockRes
unfolding stack_getframe stack_getblock
location_auto_getblock none block s = abort
location_auto_getblock (some frame) block s = do
  f ← stack_getframe s frame
  elim f [
    | none ↦ ok (record { b = none; err = some (codes "stack frame doesn't exist") })
    | some fr ↦ do b ← stack_getblock fr block; ok (record { b = b; err = none })
  ]

unfoldable pub getblock_at : LocationType → Option ℕ → ℕ → State → Run BlockRes
unfolding static_memory_getblock location_auto_getblock heap_getblock clump_getblock
getblock_at location_static frame block s =
    ok (record { b = static_memory_getblock s.static_memory block; err = none })
getblock_at location_vconst frame block s = abort
getblock_at location_dereferencable frame block s =
    ok (record { b = clump_getblock s.clump block; err = none })
getblock_at location_automatic frame block s = location_auto_getblock frame block s.stack
getblock_at location_dynamic frame block s = do
  b ← heap_getblock s.heap block
  ok (record { b = b; err = none })

unfoldable pub has_frame : Stack → Bool
has_frame [] = false
has_frame (f ∷ prev) = true

unfoldable pub location_getblock : Location → State → Run BlockRes
unfolding getblock_at has_frame
location_getblock loc s = do assert (has_frame s.stack); getblock_at loc.type loc.frame loc.block s

unfoldable pub state_getblock : State → Location → Run (Option Block)
unfolding location_getblock
state_getblock s loc = do
  res ← location_getblock loc s
  elim res.err [ none ↦ ok res.b | some e ↦ abort ]

unfoldable pub state_isdeallocand : State → Location → Run Bool
unfolding state_getblock location_type_eq
state_isdeallocand s loc = do
  b ← state_getblock s loc
  ok (location_type_eq loc.type location_dynamic && is_some b)

-- The block at an address of the frame with the number.
unfoldable pub put_in_frame : Stack → Option ℕ → ℕ → Block → Stack
put_in_frame s none address b = s
put_in_frame [] (some frame) address b = []
put_in_frame (f ∷ prev) (some frame) address b =
    let rest = put_in_frame prev (some frame) address b in
    if f.id == frame then record f { frame = set f.frame address b } ∷ prev else f ∷ rest

unfoldable pub put_at : LocationType → Option ℕ → ℕ → Block → State → State
unfolding put_in_frame
put_at location_static frame block b s = record s {
  static_memory = record s.static_memory { blocks = set s.static_memory.blocks block b };
}
put_at location_vconst frame block b s = s
put_at location_dereferencable frame block b s = record s {
  clump = record s.clump { blocks = set s.clump.blocks block b };
}
put_at location_automatic frame block b s = record s { stack = put_in_frame s.stack frame block b }
put_at location_dynamic frame block b s = record s {
  heap = record s.heap { blocks = set s.heap.blocks block b };
}

-- The state after a write through a pointer to the block of a location.
unfoldable pub put_block : State → Location → Block → State
unfolding put_at
put_block s loc b = put_at loc.type loc.frame loc.block b s
