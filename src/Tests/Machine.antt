-- ===== src/Tests/Machine.antt =====
-- Virtual constants, frames and the state at concrete inputs.
use xr.Prelude.{◌≡◌, refl, ok, true, false, none, some, [], ◌∷◌, if◌then◌else◌, arith}
use xr.Ast.Expr.{constant}
use xr.Ast.Expr.Eval.{constant_sum}
use xr.Prelude.Int.{pos}
use xr.Prelude.Str.{codes, str_eq, decimal}
use xr.Util.Map.{entry, map_get}
use xr.Ast.Types.{AstType, AstVariable, basic, type_int, pointer, no_variables, variable}
use xr.Ast.Types.Copy.{is_copyable}
use xr.Ast.Stmts.{AstBlock, block, stmt, no_stmts, nop, ast_block_ndecls}
use xr.Ast.Functions.{externals_create}
use xr.Value.Objects.{value_literal}
use xr.State.Heap.{heap_create}
use xr.State.Clump.{clump_create}
use xr.State.Static.{static_memory_create}
use xr.State.Vconst.{Vconst, vconst_declare, vconst_get, vconst_create}
use xr.State.Vconst.Names.{IsNumbered as HasNames, vconst_declare-IsNumbered}
use xr.State.Stack.{ProgramCounter, at_decls, program_counter_atend, Frame}
use xr.State.Stack.Counter.{Advanced, program_counter_advance-IsInBlock}
use xr.State.Stack.Frames.{new_block, at_address}
use xr.State.Machine.{State, location_getblock, state_pushframe, state_popframe, state_declare}
use xr.State.Machine.Access.{state_getobject}
use xr.State.Block.{Block, block_range_alloc}
use xr.State.Block.Closed.{is_closed}
use xr.State.Heap.{Heap}
use xr.State.Heap.Laws.{IsWellFormed, lookup}
use xr.State.Machine.{has_frame}
use xr.State.Machine.Ranges.{block_range_dealloc}
use xr.State.Machine.Ranges.Laws.{block_range_dealloc-block_range_alloc}
use xr.State.Machine.Calls.{state_popframe-state_pushframe}
use xr.State.Machine.Objects.{variable_object, state_getobject-state_declare}

-- `$0` that persists, and `#0` that does not.
abbrev pub two_constants : Vconst
two_constants = record {
  varmap =
      entry (codes "$0") (value_literal (codes "a"))
      ∷ entry (codes "#0") (value_literal (codes "b"))
      ∷ [];
  comment = [];
  persist = entry (codes "$0") true ∷ entry (codes "#0") false ∷ [];
}

vconst_declare-IsNumbered_example :
    (vconst_get two_constants
        (vconst_declare two_constants (value_literal (codes "c")) none false).1
      ≡ none)
    × (vconst_get
          (vconst_declare two_constants (value_literal (codes "c")) none false).0
          (codes "#1")
        ≡ (if str_eq
              (vconst_declare two_constants (value_literal (codes "c")) none false).1
              (codes "#1")
            then some (value_literal (codes "c"))
            else vconst_get two_constants (codes "#1")))
    × HasNames (vconst_declare two_constants (value_literal (codes "c")) none false).0
unfolding decimal
vconst_declare-IsNumbered_example =
    vconst_declare-IsNumbered two_constants (value_literal (codes "c")) none false (codes "#1")
      (refl, refl)

abbrev pub int_type : AstType
int_type = basic type_int 0

-- `{ int x; ; ; }`, at its declaration.
abbrev pub short_block : AstBlock
short_block = block (variable (codes "x") int_type no_variables) (stmt nop (stmt nop no_stmts))

abbrev first_decl : ProgramCounter
first_decl = record { b = short_block; s = at_decls; name = codes "f"; index = 0 }

program_counter_advance-IsInBlock_example : (pc' : ProgramCounter) × Advanced first_decl false pc'
unfolding program_counter_atend ast_block_ndecls
program_counter_advance-IsInBlock_example =
    program_counter_advance-IsInBlock first_decl false (omega arith) refl

-- The frame of `main` with no variable.
abbrev pub main_frame : Frame
main_frame = record {
  pc = first_decl;
  abstract = false;
  frame = new_block ∷ [];
  varmap = [];
  result = record { type = int_type; loc = at_address 0 0; isparam = false };
  id = 0;
}

abbrev pub main_state : State
main_state = record {
  ext = externals_create;
  vconst = vconst_create;
  static_memory = static_memory_create;
  clump = clump_create;
  stack = main_frame ∷ [];
  heap = heap_create;
  props = [];
}

state_popframe-state_pushframe_example :
    (s' : State) × (state_pushframe main_state (codes "f") short_block int_type true ≡ ok s')
    × (location_getblock (at_address 0 0) s' ≡ location_getblock (at_address 0 0) main_state)
    × (state_popframe s' ≡ ok main_state)
unfolding is_copyable
state_popframe-state_pushframe_example =
    state_popframe-state_pushframe main_state main_frame [] (codes "f") short_block int_type true
      (at_address 0 0) refl (refl, tt) refl (λ e. cc)

abbrev pointer_p : AstVariable
pointer_p = record { name = codes "p"; type = pointer 0 int_type }

state_getobject-state_declare_example :
    (s' : State) × (state_declare main_state pointer_p false ≡ ok s')
    × (location_getblock (at_address 0 1) s'
        ≡ ok (record { b = some (variable_object none ∷ []); err = none }))
    × (state_getobject s' (codes "p")
        ≡ ok (s', record { obj = some (record { loc = at_address 0 1; index = 0 }); err = none }))
unfolding is_copyable str_eq map_get
state_getobject-state_declare_example =
    state_getobject-state_declare main_state main_frame [] pointer_p false refl refl refl refl

block_range_dealloc-block_range_alloc_example :
    (b : Block) × (h1 : Heap Block) × (h2 : Heap Block) × (block_range_alloc []
        (constant (pos 0) false)
        (constant (pos 10) false)
        main_state.heap
      ≡ ok (b, h1))
    × (block_range_dealloc b
          (constant (pos 0) false)
          (constant (pos 10) false)
          (record main_state { heap = h1 })
        ≡ ok ([], h2, none))
    × IsWellFormed h2
    × (lookup h2 0 ≡ lookup main_state.heap 0)
unfolding is_closed constant_sum heap_create has_frame
block_range_dealloc-block_range_alloc_example =
    block_range_dealloc-block_range_alloc (constant (pos 0) false) (constant (pos 10) false)
      main_state 0 refl refl (omega arith) refl refl
