-- ===== src/Lib.antt =====
-- xr0, a verifier for C. A function carries annotations in C's own syntax; xr0 executes the
-- annotations on an abstract state and the body on an actual state, and compares the two. Where a
-- state cannot decide a condition, the path through the function splits into one that assumes the
-- condition and one that assumes its negation.
--
-- The parts and the files that model them (paths from the repository's root):
-- - Path: src/path/path.c, the tree of paths of one function: how a path starts its two states, takes
--   steps of the abstract one, and splits. A constructor stands for each `path_state`, and carries the
--   fields that are set in it; a step returns the path it has changed, or the error.
-- - Verify: src/ast/expr/verify.c, src/ast/stmt/verify.c and what src/ast/function/function.c
--   does with a state. Results: `struct result`, `struct lvalue_res` and the objects that they
--   point to. Lvalue: `ast_expr_lvalue`. Reduce: the evaluation that decides conditions
--   (`ast_expr_pf_reduce`, `sel_decide`). Assume: `ast_expr_assume`. Virtual: `ast_type_vconst`.
--   Abstract, Absexec and Setup: annotations (`ast_expr_abseval`, `ast_stmt_absexec`, the setup
--   of a function's parameters). Call: `expr_call_eval`. Eval: `ast_expr_eval`. Decide and Exec:
--   bodies (`ast_stmt_exec`, `ast_stmt_verify`, `ast_stmt_process`). Step: `state_step` with
--   `stack_step` and `program_counter_exec`. The functions of expressions and statements call one
--   another through calls: the other files take `ast_expr_eval` as a parameter, and Eval gives
--   it. `Spot` is a pointer to an object: its place in a block and the structure members that
--   lead to it from there.
-- - State.Machine: src/state/state.c, the record of the memories; `put_block` writes a block back where
--   its location says, which is what a write through a pointer does to the memory. Access: the objects
--   in the blocks; where the code hands out a pointer to an object, `Place` is the location of its
--   block and its index there. Values: what a state says of variables and pointers (with the tests of
--   src/state/location.c). Ranges and Arrays: ranges of a block or of what a pointer leads to are
--   allocated, freed and tested (src/state/block.c), which asks the state.
-- - State.Stack: src/state/stack.c, the frames of the calls as a list, the newest first, each with its
--   number, variables and program counter. Whether a statement ends the block is an argument of the
--   counter's advance, which Verify.Step gives it.
-- - State.Block: src/state/block.c, arrays of objects. Observing an offset splits the range that
--   contains it, for which `block_observe` takes and returns the heap of the state.
-- - State.Vconst: `struct vconst` of src/state/heap.c, the virtual constants by name.
-- - Value.Objects: `struct value` of src/value/value.c with the objects and object arrays of
--   src/object/object.c. A value, the map of a structure's members and the objects in it are three
--   mutual types. Extents compares the bounds of objects; Members is about structures; Print is
--   `value_to_expr`, with the text of a location that it contains.
-- - Ast.Types, Ast.Stmts and Ast.Functions: src/ast/type/type.c, src/ast/variable.c,
--   src/ast/stmt/stmt.c, src/ast/block.c, src/ast/function/function.c, src/ast/externdecl.c and the
--   maps of src/ext/ext.c. Positions in the source text (`struct lexememarker`) are left out.
-- - State.Heap: src/state/heap.c and the block arrays of src/state/block.c. An address is an index
--   of the array, and a flag says whether the block there has been freed. What a block holds is a
--   parameter.
-- - State.Location: src/state/location.c, places in the memories of a state. The frame of an automatic
--   location is `none` in the others; freeing through a location calls the heap.
-- - State.Static and State.Clump: src/state/static.c and src/state/clump.c, block arrays that only
--   grow, the former with a pool of string literals, which maps each to a location.
-- - Value.Number: `struct number` of src/value/value.c, the ranges in which an unknown integer lies,
--   and `number_assume`, which a path takes to assume that a value is 0 or is not.
-- - Props: src/props/props.c, the conditions that a state takes to hold.
-- - Ast.Expr: src/ast/expr/expr.h and the functions of src/ast/expr/expr.c that build, copy, compare
--   and evaluate expressions. The conditions of Props and of the undecidable errors are such.
--   Print is `ast_expr_str`, the text of an expression, which values and errors contain.
-- - Math: src/math/math.c, sums of naturals and variables, to which `ast_expr_matheval` brings a
--   comparison of expressions in order to decide it.
-- - Util: src/util/util.c: the maps (Util.Map), string arrays (Util.StringArr), circuit breakers
--   (Util.Breaker) and error chains (Util.Error) that the others use. Math keeps its counts in a
--   map; a path reads the undecidable condition out of an error chain.
-- - Tests: the models at concrete inputs. Prelude: Boolean tests, lists, signed integers, strings.
--
-- How the code is rendered. A function that changes a structure takes the old one and returns the
-- new one. A `Run` is the outcome of code that may stop the program: `abort` is a failed `assert`, a
-- signed operation that overflows, or a read outside an array. An `int` or `long` result is checked
-- against the range of its type (`as_int`, `as_long`), and a conversion to `int` wraps (`to_int`). A
-- C string is the list of its bytes. NULL is `none`. A loop is a recursion over what it runs
-- through. The digits of a number have as fuel one more than the number, which is more than the digits
-- there are. The evaluation of an expression has no bound in the code, since an annotation may call
-- functions again: the fuel of `ast_expr_eval` is its depth, and `depth` that of the types and pointers
-- that are followed; without fuel the outcome is `abort`. An expression that the code has freed reads
-- as it was, but for the size of a range, which `block_observe` leaves freed in the block: there the
-- size is `none`, and reading it is `abort`.
--
-- Bounds. The arithmetic of src/math/math.c is stated for expressions in which the variables are
-- fewer than 2^31 and the naturals add up to less than 2^31, so that no tally overflows; ranges of
-- numbers, for constants that are far enough from the ends of `int` to be stepped beyond.
-- Offsets are stated to be compared where they are sums and differences of constants.
--
-- Not modelled. Allocation and freeing of the verifier's own memory (`_destroy`) but for the size of a
-- range above; the lexer, the grammar and src/main.c, which are generated or pure input and output; the
-- headers of libx. The text of a statement's position, which the errors contain, is the parameter
-- `position`. What follows references through a state (`_references`, `_referencesheap`,
-- `_abstractcopy`, `_undeclare`, `_transfigure`), the text of a state (`state_str` and what it calls)
-- and the order of functions (src/ast/topological.c) have no model yet. The audit of a path
-- (`path_audit`) looks for garbage by the first and compares states by the second, so that it, the
-- steps that end in it (`path_step_actual`, `path_step_split`, `path_step`) and the loop of
-- `ast_function_verify` have no model either.
pub mod Ast
pub mod Math
pub mod Path
pub mod Prelude
pub mod Props
pub mod State
pub mod Tests
pub mod Util
pub mod Value
pub mod Verify
