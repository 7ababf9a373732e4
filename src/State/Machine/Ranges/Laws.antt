-- ===== src/State/Machine/Ranges/Laws.antt =====
-- Allocating a range in an empty block of src/state/block.c and freeing it again.
use xr.Prelude.{
  ℕ, ◌+◌, ◌<◌, ◌^◌, ◌≡◌, refl, ap, ◌∙◌, sym, true, none, some, [], ◌∷◌, ok, arith, if◌then◌else◌,
  ◌==◌, ==_iff, inl, inr, Bool-cases,
}
use xr.Prelude.Int.{ℤ, eqb_ℤ}
use xr.Ast.Expr.{Expr, binary, op_subtraction, op_eq, ast_expr_matheval}
use xr.Ast.Expr.Eval.{constant_sum, holds, value}
use xr.Value.Objects.{Object, deallocand_range, value_islocation, value_as_location}
use xr.Value.Objects.Extents.{object_lower}
use xr.Value.Objects.Arrays.{object_arr_append, object_arr_insert, object_arr_remove}
use xr.State.Heap.{Heap, heap_newblock}
use xr.State.Heap.Laws.{
  IsWellFormed, lookup, heap_getblock_lem, heap_newblock_lem, heap_deallocblock-in_use,
}
use xr.State.Block.{
  Block, block_create, block_range_alloc, alloc_location, object_dealloc, state_dealloc,
}
use xr.State.Block.Closed.{is_closed, offset_value, closed_copy, closed_compare, gap}
use xr.State.Block.Coverage.{
  IsPlaced, upper_expr, size_expr, has_size, upper_lem, upper_closed, upper_small,
}
use xr.State.Location.{location_dealloc, location_type_eq}
use xr.State.Machine.{State, has_frame, state_isdeallocand}
use xr.State.Machine.Ranges.{
  object_isdeallocand, dealloc_first, block_range_dealloc, hack_first_object_is_exactly_bounds,
}

module _ (lw up : Expr) (h : Heap Block) (lw_closed : is_closed lw ≡ true)
    (up_closed : is_closed up ≡ true)
    (small : constant_sum lw + constant_sum lw + constant_sum up < 2 ^ 31) where
  abbrev new_range : Object
  new_range =
      deallocand_range lw
        (record { size = some (binary up op_subtraction lw); loc = (alloc_location h).1 })

  -- An empty block gets one range.
  allocates : block_range_alloc [] lw up h ≡ ok (new_range ∷ [], (alloc_location h).0)
  unfolding block_range_alloc object_arr_append object_arr_insert
  allocates = rw (closed_copy lw lw_closed, closed_copy up up_closed) refl

  placed : IsPlaced new_range
  unfolding object_lower size_expr has_size is_closed constant_sum
  placed = (refl, lw_closed, rw (up_closed, lw_closed) refl, omega (arith, small))

  -- The range ends at the upper bound.
  ends : offset_value (upper_expr new_range) ≡ offset_value up
  unfolding offset_value upper_expr size_expr object_lower value
  ends = gap _ _

  module _ (s : State) (w : IsWellFormed h) (framed : has_frame s.stack ≡ true) where
    abbrev after : State
    after = record s { heap = (alloc_location h).0 }

    abbrev address : ℕ
    address = (heap_newblock block_create h).1

    kept : IsWellFormed (alloc_location h).0
    unfolding alloc_location
    kept = (heap_newblock_lem block_create h w).0

    fresh : lookup h address ≡ none
    fresh = (heap_newblock_lem block_create h w).1

    reads :
        (a : ℕ)
        → lookup (alloc_location h).0 a ≡ (if a == address then some block_create else lookup h a)
    unfolding alloc_location
    reads a = (heap_newblock_lem block_create h w).2 a

    in_use : lookup (alloc_location h).0 address ≡ some block_create
    in_use = reads address ∙ here address
      where
        here : (a : ℕ) → (if a == a then some block_create else lookup h a) ≡ some block_create
        here a = ground arith

    deallocand : state_isdeallocand after (alloc_location h).1 ≡ ok true
    unfolding state_isdeallocand alloc_location
    deallocand = rw (framed, heap_getblock_lem (alloc_location h).0 address kept, in_use) refl

    exact : hack_first_object_is_exactly_bounds (new_range ∷ []) lw up after ≡ ok true
    unfolding hack_first_object_is_exactly_bounds object_isdeallocand object_lower holds
    exact =
        let end = upper_expr new_range in
        let at_start : ast_expr_matheval (binary lw op_eq lw) ≡ ok true =
          closed_compare lw lw op_eq lw_closed lw_closed (omega (arith, small))
            (omega (arith, small)) tt
          ∙ ap ok (same (offset_value lw)) in
        let at_end : ast_expr_matheval (binary up op_eq end) ≡ ok true =
          closed_compare up end op_eq up_closed (upper_closed new_range placed)
            (omega (arith, small)) (upper_small new_range placed) tt
          ∙ ap (λ k. ok (eqb_ℤ (offset_value up) k)) ends
          ∙ ap ok (same (offset_value up)) in
        rw (deallocand, upper_lem new_range placed, at_start, at_end) refl
      where
        same : (a : ℤ) → eqb_ℤ a a ≡ true
        same a = ground arith

    back :
        (h2 : Heap Block)
        → ((a : ℕ) → lookup h2 a ≡ (if a == address then none else lookup (alloc_location h).0 a))
        → (a : ℕ) → lookup h2 a ≡ lookup h a
    back h2 after_reads a = elim (Bool-cases (a == address)) [
      | inl same ↦
          let e : a ≡ address = (==_iff a address).0 same in
          after_reads a ∙ rw same (sym (ap (lookup h) e ∙ fresh))
      | inr other ↦ after_reads a ∙ rw other (reads a ∙ rw other refl)
    ]

    freed :
        (h2 : Heap Block) × (dealloc_first (new_range ∷ []) (alloc_location h).0
          ≡ ok ([], h2, none))
        × IsWellFormed h2
        × ((a : ℕ) → lookup h2 a ≡ lookup h a)
    unfolding dealloc_first object_dealloc state_dealloc value_islocation value_as_location
        location_dealloc location_type_eq alloc_location object_arr_remove
    freed =
        let (h2, frees, w2, n, after_reads) =
          heap_deallocblock-in_use (alloc_location h).0 address block_create kept in_use in
        (h2, rw frees refl, w2, back h2 after_reads)

-- In a state with a frame and with a flag for each block of the heap, an empty block gets a range
-- between two closed bounds with small constants, and freeing the same range returns no error and
-- leaves the block empty and each address of the heap as it was before the two.
pub block_range_dealloc-block_range_alloc :
    (lw up : Expr) (s : State) (a : ℕ)
    → is_closed lw ≡ true
    → is_closed up ≡ true
    → constant_sum lw + constant_sum lw + constant_sum up < 2 ^ 31
    → IsWellFormed s.heap
    → has_frame s.stack ≡ true
    → (b : Block) × (h1 : Heap Block) × (h2 : Heap Block) × (block_range_alloc [] lw up s.heap
        ≡ ok (b, h1))
      × (block_range_dealloc b lw up (record s { heap = h1 }) ≡ ok ([], h2, none))
      × IsWellFormed h2
      × (lookup h2 a ≡ lookup s.heap a)
unfolding block_range_dealloc
block_range_dealloc-block_range_alloc lw up s a lw_closed up_closed small w framed =
    let (h2, frees, w2, same) = freed lw up s.heap lw_closed up_closed small s w framed in
    (
      new_range lw up s.heap lw_closed up_closed small ∷ [],
      (alloc_location s.heap).0,
      h2,
      allocates lw up s.heap lw_closed up_closed small,
      rw (exact lw up s.heap lw_closed up_closed small s w framed) frees,
      w2,
      same a,
    )
