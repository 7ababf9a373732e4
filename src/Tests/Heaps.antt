-- ===== src/Tests/Heaps.antt =====
-- The heap of src/state/heap.c at concrete inputs.
use xr.Prelude.{
  ℕ, ◌≡◌, ◌≢◌, refl, true, false, none, some, [], ◌∷◌, length, if◌then◌else◌, ◌==◌, ok,
}
use xr.Prelude.Str.{codes}
use xr.State.Heap.{Heap, heap_create, heap_newblock, heap_getblock, heap_deallocblock}
use xr.State.Heap.Laws.{IsWellFormed, lookup, heap_deallocblock-in_use}
use xr.State.Heap.History.{allocates, done, more, heap_deallocblock-for_good}
use xr.Prelude.{Bool, ◌↔◌}
use xr.Prelude.Int.{pos}
use xr.Ast.Expr.{constant}
use xr.Ast.Expr.Equal.{is_comparable, plain}
use xr.State.Location.{
  Location, location_automatic, location_dynamic, location_equal, location_toheap, location_dealloc,
}
use xr.State.Location.Laws.{location_equal-decides, location_dealloc-toheap}
use xr.State.Clump.{Clump}
use xr.State.Static.{StaticMemory}

-- Two blocks, the first freed.
abbrev two_blocks : Heap ℕ
two_blocks = record { blocks = 4 ∷ 6 ∷ []; freed = true ∷ false ∷ [] }

heap_deallocblock-in_use_example :
    (h' : Heap ℕ) × (heap_deallocblock two_blocks 1 ≡ ok (h', none))
    × IsWellFormed h'
    × (length h'.blocks ≡ length two_blocks.blocks)
    × ((a : ℕ) → lookup h' a ≡ (if a == 1 then none else lookup two_blocks a))
unfolding lookup
heap_deallocblock-in_use_example = heap_deallocblock-in_use two_blocks 1 6 refl refl

abbrev one_block : Heap ℕ
one_block = (heap_newblock 4 heap_create).0

abbrev none_left : Heap ℕ
none_left = record { blocks = 4 ∷ []; freed = true ∷ [] }

heap_deallocblock-for_good_example :
    (heap_getblock (heap_newblock 6 none_left).0 0 ≡ ok none)
    × (heap_deallocblock (heap_newblock 6 none_left).0 0
        ≡ ok ((heap_newblock 6 none_left).0, some (codes "double free")))
    × ((b : ℕ) → (heap_newblock b (heap_newblock 6 none_left).0).1 ≢ 0)
unfolding heap_newblock heap_deallocblock heap_create
heap_deallocblock-for_good_example =
    heap_deallocblock-for_good {h = one_block} {h' = none_left}
      {h'' = (heap_newblock 6 none_left).0} 0
      (more heap_create one_block one_block (allocates heap_create 4) (done one_block)) refl
      (more none_left (heap_newblock 6 none_left).0 (heap_newblock 6 none_left).0
        (allocates none_left 6) (done (heap_newblock 6 none_left).0))

abbrev local_start : Location
local_start = record {
  type = location_automatic;
  frame = some 2;
  block = 0;
  offset = constant (pos 0) false;
}

abbrev caller_start : Location
caller_start = record {
  type = location_automatic;
  frame = some 1;
  block = 0;
  offset = constant (pos 0) false;
}

abbrev heap_start : Location
heap_start = record {
  type = location_dynamic;
  frame = none;
  block = 1;
  offset = constant (pos 0) false;
}

-- Two frames apart, and equal.
location_equal-decides_example :
    (b : Bool) × (location_equal local_start caller_start ≡ ok b)
    × ((b ≡ true) ↔ (
        (local_start.type ≡ caller_start.type)
        × (local_start.block ≡ caller_start.block)
        × (plain local_start.offset ≡ plain caller_start.offset)))
unfolding is_comparable
location_equal-decides_example = location_equal-decides local_start caller_start refl

abbrev two_freed : Heap ℕ
two_freed = record { blocks = 4 ∷ 6 ∷ []; freed = true ∷ true ∷ [] }

location_dealloc-toheap_example :
    (location_toheap heap_start two_blocks ≡ ok true)
    × (location_toheap heap_start two_freed ≡ ok false)
    × (location_dealloc heap_start two_freed ≡ ok (two_freed, some (codes "double free")))
unfolding location_dealloc heap_deallocblock
location_dealloc-toheap_example = location_dealloc-toheap heap_start two_blocks two_freed refl refl

abbrev one_clump : Clump ℕ
one_clump = record { blocks = 5 ∷ [] }

abbrev literals : StaticMemory ℕ
literals = record { blocks = 3 ∷ []; pool = [] }
