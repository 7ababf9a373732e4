-- ===== src/State/Block/Lost.antt =====
-- What `block_observe` of src/state/block.c does to a range of which it observes an offset above the
-- first: the part below is left with a size that has been freed.
use xr.Prelude.{
  arith, ℕ, ◌+◌, ◌<◌, ◌^◌, ◌≡◌, refl, ◌∙◌, true, false, Bool, none, some, [], ◌∷◌, ◌++◌, Run, ok,
  abort, ◌>>=◌,
}
use xr.Prelude.Int.{eqb_ℤ}
use xr.Ast.Expr.{Expr, ast_expr_copy}
use xr.Ast.Expr.Eval.{constant_sum}
use xr.Value.Objects.{Range, assigned, deallocand_range, range_size, object_isvalue}
use xr.Value.Objects.Extents.{object_lower, object_size, object_upper, object_contains}
use xr.Value.Objects.Arrays.{index_from, object_arr_index}
use xr.State.Heap.{Heap}
use xr.State.Location.{Location, location_dynamic}
use xr.State.Block.{Block, alloc_location, state_alloc, with_freed_size, block_observe}
use xr.State.Block.Closed.{is_closed, offset_value}
use xr.State.Block.Coverage.{IsPlaced, within, contains_lem}
use xr.State.Block.Parts.{IsKept, as_block, alloc-IsKept, upto_later}
use xr.State.Block.Split.{split_run}
use xr.State.Block.Observe.{at_lem}

then_abort : {A B : Type 0} (r : Run A) → ◌>>=◌ {T = B} r (λ a. abort) ≡ abort
then_abort (ok a) = refl
then_abort abort = refl

upper_aborts :
    (offset : Expr) (loc : Location)
    → object_upper (deallocand_range offset (record { size = none; loc = loc })) ≡ abort
unfolding object_upper object_size object_lower range_size
upper_aborts offset loc = then_abort (ast_expr_copy offset)

-- The search stops the program at a range whose size has been freed.
search_aborts :
    (offset e : Expr) (loc : Location) (b : Block)
    → object_arr_index (deallocand_range offset (record { size = none; loc = loc }) ∷ b) e ≡ abort
unfolding object_arr_index index_from object_contains
search_aborts offset e loc b = rw (upper_aborts offset loc) refl

found_first :
    (offset of : Expr) (r : Range) (ys : Block)
    → IsPlaced (deallocand_range offset r)
    → is_closed of ≡ true
    → constant_sum of + 1 < 2 ^ 31
    → within (deallocand_range offset r) (offset_value of) ≡ true
    → object_arr_index (deallocand_range offset r ∷ ys) of ≡ ok (some 0)
unfolding object_arr_index index_from
found_first offset of r ys p closed small inside =
    rw (contains_lem of closed (omega (arith, small)) (deallocand_range offset r) p, inside) refl

-- Let the first object of a block be a range with closed bounds and small constants, at a block in use
-- of a heap with a flag for each block, and let a closed offset be one of it but not its first. Then
-- the observation of the offset returns, and in the block afterwards the observation of any offset,
-- with any heap, stops the program: the part of the range below the offset keeps a size that the first
-- observation has freed, and the search reads it.
pub block_observe-lost :
    (offset of : Expr) (r : Range) (ys : Block) (h : Heap Block)
    → IsPlaced (deallocand_range offset r)
    → is_closed of ≡ true
    → constant_sum of + 1 < 2 ^ 31
    → within (deallocand_range offset r) (offset_value of) ≡ true
    → eqb_ℤ (offset_value offset) (offset_value of) ≡ false
    → r.loc.type ≡ location_dynamic
    → IsKept h r.loc.block
    → (b' : Block) × (h' : Heap Block) × (at : ℕ) × (block_observe
          (deallocand_range offset r ∷ ys)
          of
          h
          true
        ≡ ok (b', h', some at))
      × ((e : Expr) (h2 : Heap Block) (c : Bool) → block_observe b' e h2 c ≡ abort)
unfolding with_freed_size object_isvalue block_observe
block_observe-lost offset of r ys h p closed small inside later dynamic kept =
    let whole = deallocand_range offset r in
    let (f, h', run, above, w') =
      split_run offset of r h p closed small inside kept dynamic (alloc_location h).0 _
        (upto_later offset of r h p closed small inside kept later)
        (alloc-IsKept h r.loc.block kept) [] ys in
    (
      deallocand_range offset (record { size = none; loc = (alloc_location h).1 })
            ∷ (assigned of (state_alloc (alloc_location h).0).1 ∷ as_block f)
          ++ ys,
      h',
      1,
      at_lem of h (whole ∷ ys) 0 whole (found_first offset of r ys p closed small inside) refl
          ∙ rw run refl,
      λ e h2 c.
          rw
            (search_aborts offset e (alloc_location h).1
              ((assigned of (state_alloc (alloc_location h).0).1 ∷ as_block f) ++ ys))
            refl,
    )
