-- ===== src/State/Machine/Ranges.antt =====
-- Freeing a range of a block: src/state/block.c, with the objects of src/object/object.c that may be
-- freed.
pub mod Laws
use xr.Prelude.{
  ℕ, suc, ◌-◌, Bool, true, false, not, ◌++◌, Option, none, some, List, [], ◌∷◌, Run, ok, abort,
  ◌>>=◌, if◌then◌else◌, is_some, get_elem?, take, drop,
}
use xr.Prelude.Str.{Str, codes}
use xr.Math.{and_run}
use xr.Ast.Expr.{Expr, binary, op_eq, ast_expr_matheval}
use xr.Value.Objects.{Object, unassigned, assigned, deallocand_range, value_as_location}
use xr.Value.Objects.Extents.{object_lower, object_upper}
use xr.Value.Objects.Arrays.{
  object_arr_index, object_arr_index_upperincl, object_arr_remove, object_arr_append,
}
use xr.State.Heap.{Heap}
use xr.State.Block.{Block, object_dealloc, object_upto, object_from}
use xr.State.Machine.{State, state_isdeallocand}

-- A NULL location is read.
unfoldable pub object_isdeallocand : Object → State → Run Bool
unfolding value_as_location state_isdeallocand
object_isdeallocand (unassigned offset) s = ok false
object_isdeallocand (assigned offset v) s = do
  loc ← value_as_location v
  elim loc [ none ↦ abort | some l ↦ state_isdeallocand s l ]
object_isdeallocand (deallocand_range offset r) s = state_isdeallocand s r.loc

unfoldable pub hack_first_object_is_exactly_bounds : Block → Expr → Expr → State → Run Bool
unfolding object_isdeallocand
hack_first_object_is_exactly_bounds [] lw up s = ok false
hack_first_object_is_exactly_bounds (obj ∷ b) lw up s = do
  d ← object_isdeallocand obj s
  if not d then ok false else (do
    hi ← object_upper obj
    and_run (ast_expr_matheval (binary lw op_eq (object_lower obj)))
        (ast_expr_matheval (binary up op_eq hi)))

-- The last loop, up to the first error.
unfoldable pub dealloc_each : List Object → Heap Block → Run (Heap Block × Option Str)
unfolding object_dealloc
dealloc_each [] h = ok (h, none)
dealloc_each (obj ∷ objs) h = do
  (h', err) ← object_dealloc obj h
  if is_some err then ok (h', err) else dealloc_each objs h'

unfoldable pub append_if : Option Object → Block → Run Block
append_if none b = ok b
append_if (some obj) b = object_arr_append b obj

-- The objects at the two indices have been found. What remains of them is appended to the old array,
-- which is then replaced.
unfoldable pub dealloc_between :
    Block → ℕ → ℕ → Expr → Expr → Heap Block → Run (Block × Heap Block × Option Str)
unfolding object_upto object_from append_if dealloc_each
dealloc_between b lw_index up_index lw up h = elim (get_elem? b lw_index) [
  | none ↦ abort
  | some first ↦ elim (get_elem? b up_index) [
    | none ↦ abort
    | some last ↦ do
      (h1, upto) ← object_upto first lw h
      (h2, from) ← object_from last up h1
      b1 ← append_if upto b
      b2 ← append_if from b1
      (h3, err) ← dealloc_each (take (suc up_index - lw_index) (drop lw_index b)) h2
      ok (
          if is_some err
          then (b2, h3, err)
          else (take lw_index b ++ drop (suc up_index) b, h3, none))
  ]
]

-- The first object has exactly the bounds.
unfoldable pub dealloc_first : Block → Heap Block → Run (Block × Heap Block × Option Str)
unfolding object_dealloc
dealloc_first [] h = abort
dealloc_first (obj ∷ b) h = do
  (h', err) ← object_dealloc obj h
  if is_some err
      then ok (obj ∷ b, h', err)
      else (do b' ← object_arr_remove (obj ∷ b) 0; ok (b', h', none))

-- The block, the heap, and the error if there is one.
unfoldable pub block_range_dealloc :
    Block → Expr → Expr → State → Run (Block × Heap Block × Option Str)
unfolding hack_first_object_is_exactly_bounds dealloc_first dealloc_between
block_range_dealloc b lw up s = do
  exact ← hack_first_object_is_exactly_bounds b lw up s
  if exact then dealloc_first b s.heap else (do
    lw_index ← object_arr_index b lw
    elim lw_index [
      | none ↦ ok (b, s.heap, some (codes "lower bound not allocated"))
      | some i ↦ do
        up_index ← object_arr_index_upperincl b up
        elim up_index [
          | none ↦ ok (b, s.heap, some (codes "upper bound not allocated"))
          | some j ↦ dealloc_between b i j lw up s.heap
        ]
    ])
