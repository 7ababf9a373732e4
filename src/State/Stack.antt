-- ===== src/State/Stack.antt =====
-- `struct stack`, `struct variable` and `struct program_counter` of src/state/stack.c. The stack is the
-- list of its frames, the newest first; NULL, which stands below the last frame, is the empty list.
pub mod Counter
pub mod Frames
pub mod Variables
use xr.Prelude.{
  ℕ, suc, ◌+◌, Bool, true, false, not, ◌||◌, Option, none, some, List, [], ◌∷◌, ◌==◌, Run, ok,
  abort, ◌>>=◌, ◌>>◌, assert, if◌then◌else◌, is_some, ltb, leb, length, get_elem?, set,
}
use xr.Prelude.Int.{pos}
use xr.Prelude.Str.{Str, str_eq, codes}
use xr.Util.Map.{Map, Entry, map_create, map_get, map_set}
use xr.Ast.Expr.{ast_expr_constant_create}
use xr.Ast.Types.{AstType, AstVariable, ast_type_copy}
use xr.Ast.Stmts.{AstBlock, AstStmt, ast_block_ndecls, ast_block_nstmts}
use xr.Value.Objects.{object_value_create}
use xr.State.Heap.{BlockArr, block_arr_create, block_arr_append, block_arr_copy}
use xr.State.Location.{Location, location_create_automatic, location_copy}
use xr.State.Block.{Block, block_create, block_copy, block_install}

pub data ProgramCounterState : Type 0 where
  at_decls at_stmts at_end : ProgramCounterState

pub record ProgramCounter : Type 0 where
  pub b : AstBlock
  pub s : ProgramCounterState
  pub name : Str
  pub index : ℕ

-- A number as a condition: it is not 0.
unfoldable pub if_any {ℓ} : {A : Type ℓ} → ℕ → A → A → A
if_any n some_case no_case = if n == 0 then no_case else some_case

unfoldable pub program_counter_state_init : AstBlock → ProgramCounterState
unfolding if_any
program_counter_state_init b =
    if_any (ast_block_ndecls b) at_decls (if_any (ast_block_nstmts b) at_stmts at_end)

unfoldable pub program_counter_create : AstBlock → Str → ProgramCounter
unfolding program_counter_state_init
program_counter_create b name = record {
  b = b;
  s = program_counter_state_init b;
  name = name;
  index = 0;
}

unfoldable pub program_counter_copy : ProgramCounter → ProgramCounter
unfolding program_counter_create
program_counter_copy old = record (program_counter_create old.b old.name) {
  s = old.s;
  index = old.index;
}

unfoldable pub program_counter_changename : ProgramCounter → Str → ProgramCounter
program_counter_changename pc new_name = record pc { name = new_name }

unfoldable pub is_at_decls : ProgramCounterState → Bool
is_at_decls at_decls = true
is_at_decls _ = false

unfoldable pub is_at_stmts : ProgramCounterState → Bool
is_at_stmts at_stmts = true
is_at_stmts _ = false

unfoldable pub program_counter_atend : ProgramCounter → Bool
unfolding is_at_decls is_at_stmts
program_counter_atend pc = not (is_at_decls pc.s || is_at_stmts pc.s)

unfoldable pub program_counter_nextdecl : ProgramCounter → Run ProgramCounter
unfolding is_at_decls if_any
program_counter_nextdecl pc = do
  assert (is_at_decls pc.s)
  ok (
      if leb (ast_block_ndecls pc.b) (suc pc.index)
      then record pc { s = if_any (ast_block_nstmts pc.b) at_stmts at_end; index = 0 }
      else record pc { index = suc pc.index })

-- Whether the statement at the index is terminal is an argument; the index stays on one that is.
unfoldable pub program_counter_nextstmt : ProgramCounter → Bool → Run ProgramCounter
unfolding is_at_stmts
program_counter_nextstmt pc isterminal = do
  assert (is_at_stmts pc.s)
  ok (
      if isterminal
      then record pc { s = at_end }
      else (if leb (ast_block_nstmts pc.b) (suc pc.index)
          then record pc { s = at_end; index = suc pc.index }
          else record pc { index = suc pc.index }))

-- What `program_counter_exec` does to the counter when the declaration or statement gives no error.
unfoldable pub program_counter_advance : ProgramCounter → Bool → Run ProgramCounter
unfolding program_counter_nextdecl program_counter_nextstmt
program_counter_advance pc isterminal = elim pc.s [
  | at_decls ↦ program_counter_nextdecl pc
  | at_stmts ↦ program_counter_nextstmt pc isterminal
  | at_end ↦ abort
]

pub record Variable : Type 0 where
  pub type : AstType
  pub loc : Location
  pub isparam : Bool

pub record Frame : Type 0 where
  pub pc : ProgramCounter
  pub abstract : Bool
  pub frame : BlockArr Block
  pub varmap : Map Variable
  pub result : Variable
  pub id : ℕ

abbrev pub Stack : Type 0
Stack = List Frame

-- The blocks of the frame `id` with a new one, and its location.
unfoldable pub stack_newblock : ℕ → BlockArr Block → BlockArr Block × Location
unfolding block_arr_append block_create location_create_automatic
stack_newblock id frame =
    let (frame', address) = block_arr_append frame block_create in
    (frame', location_create_automatic id address (ast_expr_constant_create (pos 0)))

-- `block_install` on the block at an address, which is written back there.
unfoldable pub install_at : BlockArr Block → ℕ → Option Block → Run (BlockArr Block)
unfolding block_install object_value_create
install_at frame address none = abort
install_at frame address (some b) = do
  b' ← block_install b (object_value_create (ast_expr_constant_create (pos 0)) none)
  ok (set frame address b')

-- On the frame whose number is `id` and whose blocks are `frame`: the blocks, and the variable.
unfoldable pub variable_create :
    AstType → ℕ → BlockArr Block → Bool → Run (BlockArr Block × Variable)
unfolding stack_newblock install_at
variable_create type id frame isparam = do
  t ← ast_type_copy type
  let (frame1, loc) = stack_newblock id frame
  frame2 ← install_at frame1 loc.block (get_elem? frame1 loc.block)
  ok (frame2, record { type = t; loc = loc; isparam = isparam })

unfoldable pub variable_copy : Variable → Run Variable
variable_copy old = do
  t ← ast_type_copy old.type
  loc ← location_copy old.loc
  ok (record { type = t; loc = loc; isparam = old.isparam })

unfoldable pub next_id : Stack → ℕ
next_id [] = 0
next_id (f ∷ prev) = f.id + 1

unfoldable pub stack_create : Str → AstBlock → AstType → Bool → Stack → Run Stack
unfolding program_counter_create block_arr_create next_id variable_create
stack_create name b ret_type abstract prev = do
  (frame, result) ← variable_create ret_type (next_id prev) block_arr_create false
  ok (
      record {
        pc = program_counter_create b name;
        abstract = abstract;
        frame = frame;
        varmap = map_create;
        result = result;
        id = next_id prev;
      }
      ∷ prev)

-- `none` is NULL.
unfoldable pub stack_getframe : Stack → ℕ → Run (Option Frame)
stack_getframe [] frame = abort
stack_getframe (s ∷ []) frame = if s.id == frame then ok (some s) else ok none
stack_getframe (s ∷ p ∷ prev) frame =
    let rest = stack_getframe (p ∷ prev) frame in if s.id == frame then ok (some s) else rest

unfoldable pub stack_getblock : Frame → ℕ → Run (Option Block)
stack_getblock f address = do assert (ltb address (length f.frame)); ok (get_elem? f.frame address)

-- The loop of `varmap_copy`.
unfoldable pub varmap_copy_each : Map Variable → Map Variable → Run (Map Variable)
unfolding variable_copy
varmap_copy_each new [] = ok new
varmap_copy_each new (e ∷ m) = do
  copy ← variable_copy e.value
  varmap_copy_each (map_set new e.key copy) m

unfoldable pub varmap_copy : Map Variable → Run (Map Variable)
unfolding varmap_copy_each
varmap_copy m = varmap_copy_each map_create m

unfoldable pub stack_copy : Stack → Run Stack
unfolding program_counter_copy varmap_copy variable_copy
stack_copy [] = ok []
stack_copy (s ∷ prev) = do
  frame ← block_arr_copy block_copy s.frame
  varmap ← varmap_copy s.varmap
  result ← variable_copy s.result
  ok (
      record s { pc = program_counter_copy s.pc; frame = frame; varmap = varmap; result = result }
      ∷ (← stack_copy prev))

unfoldable pub stack_copywithname : Stack → Str → Run Stack
unfolding stack_copy program_counter_changename
stack_copywithname stack new_name = do
  copy ← stack_copy stack
  elim copy [
    | [] ↦ abort
    | s ∷ prev ↦ ok (record s { pc = program_counter_changename s.pc new_name } ∷ prev)
  ]

unfoldable pub stack_atend : Stack → Run Bool
unfolding program_counter_atend
stack_atend [] = abort
stack_atend (s ∷ []) = ok (program_counter_atend s.pc)
stack_atend (s ∷ p ∷ prev) = ok false

unfoldable pub stack_declare : Stack → AstVariable → Bool → Run Stack
unfolding variable_create
stack_declare [] var isparam = abort
stack_declare (s ∷ prev) var isparam = do
  assert (not (is_some (map_get s.varmap var.name)))
  (frame, v) ← variable_create var.type s.id s.frame isparam
  ok (record s { frame = frame; varmap = map_set s.varmap var.name v } ∷ prev)

-- The variable's name is not the keyword for the result.
unfoldable pub stack_getvariable : Stack → Str → Run (Option Variable)
stack_getvariable [] id = abort
stack_getvariable (s ∷ prev) id = do
  assert (not (str_eq id (codes "return")))
  ok (map_get s.varmap id)

unfoldable pub stack_getresult : Stack → Run Variable
stack_getresult [] = abort
stack_getresult (s ∷ prev) = ok s.result
