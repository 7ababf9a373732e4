-- ===== src/Tests/Blocks.antt =====
-- Values, objects and blocks at concrete inputs.
use xr.Prelude.{
  ◌≡◌, ℕ, refl, ok, abort, Bool, true, false, none, some, [], ◌∷◌, ◌++◌, ◌>>=◌, take, drop, arith,
}
use xr.Prelude.Int.{pos, ◌+ℤ◌}
use xr.Prelude.Str.{codes, str_eq}
use xr.Ast.Expr.{Expr, constant}
use xr.Ast.Expr.Copy.{is_copyable}
use xr.Ast.Expr.Eval.{constant_sum}
use xr.Ast.Types.{basic, type_int, pointer, variable, no_variables}
use xr.Ast.Types.Copy.{are_copyable}
use xr.Value.Objects.{
  Value, value_struct, value_ptr, field, no_fields, assigned, unassigned, deallocand_range,
  value_copy,
}
use xr.Value.Objects.Copy.{copied, value_copy-copied}
use xr.Value.Objects.Extents.{object_lower}
use xr.Value.Objects.Arrays.{object_arr_insert, object_arr_remove}
use xr.Value.Objects.Arrays.Laws.{object_arr_remove-object_arr_insert}
use xr.State.Heap.{Heap}
use xr.State.Heap.Laws.{lookup}
use xr.State.Location.{Location, location_dynamic}
use xr.State.Block.{Block, block_observe}
use xr.State.Block.Closed.{is_closed, offset_value}
use xr.State.Block.Coverage.{size_expr, has_size, within, upper_expr}
use xr.State.Block.Lost.{block_observe-lost}
use xr.State.Block.Observe.{Observed, block_observe-Observed}

abbrev number_of : ℕ → Expr
number_of n = constant (pos n) false

abbrev heap_start : Location
heap_start = record { type = location_dynamic; frame = none; block = 0; offset = number_of 0 }

-- A structure with a pointer and a member that has no value.
abbrev list_node : Value
list_node =
    value_struct
      (variable (codes "next") (pointer 0 (basic type_int 0))
        (variable (codes "n") (basic type_int 0) no_variables))
      (field (codes "next") (assigned (number_of 0) (value_ptr (some heap_start)))
        (field (codes "n") (unassigned (number_of 0)) no_fields))

value_copy-copied_example : value_copy list_node ≡ ok (copied list_node)
unfolding is_copyable are_copyable str_eq
value_copy-copied_example =
    value_copy-copied list_node (refl, ((refl, (refl, refl)), (refl, tt), (refl, tt, tt)))

object_arr_remove-object_arr_insert_example :
    (object_arr_insert (unassigned (number_of 4) ∷ []) 1 (unassigned (number_of 6))
      ≡ ok (
          take 1 (unassigned (number_of 4) ∷ [])
          ++ unassigned (number_of 6) ∷ drop 1 (unassigned (number_of 4) ∷ [])))
    × ((object_arr_insert (unassigned (number_of 4) ∷ []) 1 (unassigned (number_of 6)) >>= λ new.
          object_arr_remove new 1)
        ≡ ok (unassigned (number_of 4) ∷ []))
object_arr_remove-object_arr_insert_example =
    object_arr_remove-object_arr_insert (unassigned (number_of 4) ∷ []) 1 (unassigned (number_of 6))
      (omega arith)

-- The offsets from 2 to 9 as one range at the only block of a heap, and its offset 5.
abbrev one_range : Block
one_range =
    deallocand_range (number_of 2) (record { size = some (number_of 8); loc = heap_start }) ∷ []

abbrev one_heap : Heap Block
one_heap = record { blocks = [] ∷ []; freed = false ∷ [] }

block_observe-Observed_example :
    (b' : Block) × (h' : Heap Block) × (at : ℕ) × Observed one_range (number_of 2) one_heap b' h' at
unfolding is_closed constant_sum lookup object_lower size_expr has_size offset_value
block_observe-Observed_example =
    block_observe-Observed one_range (number_of 2) one_heap ((refl, refl, refl, omega arith), tt)
      ((refl, (refl, [], refl)), tt) ((λ _. refl), tt) refl (omega arith) refl

block_observe-lost_example :
    (b' : Block) × (h' : Heap Block) × (at : ℕ) × (block_observe one_range
        (number_of 5)
        one_heap
        true
      ≡ ok (b', h', some at))
    × ((e : Expr) (h2 : Heap Block) (c : Bool) → block_observe b' e h2 c ≡ abort)
unfolding is_closed constant_sum lookup object_lower size_expr has_size within upper_expr
    offset_value ◌+ℤ◌
block_observe-lost_example =
    block_observe-lost (number_of 2) (number_of 5)
      (record { size = some (number_of 8); loc = heap_start }) [] one_heap
      (refl, refl, refl, omega arith) refl (omega arith) refl refl refl (refl, [], refl)
