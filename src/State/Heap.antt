-- ===== src/State/Heap.antt =====
-- The heap of src/state/heap.c and the block arrays of src/state/block.c that it stands on: blocks
-- by address, and for each whether it has been freed. What a block holds is a parameter.
pub mod Laws
pub mod History
use xr.Prelude.{
  ℕ, zero, suc, Bool, true, false, Option, none, some, List, [], ◌∷◌, ◌++◌, if◌then◌else◌, ltb, leb,
  length, get_elem?, set, Run, ok, abort, ◌>>=◌, ◌>>◌, assert,
}
use xr.Prelude.Str.{Str, codes}

abbrev pub BlockArr : Type 0 → Type 0
BlockArr B = List B

pub record Heap (B : Type 0) : Type 0 where
  pub blocks : BlockArr B
  pub freed : List Bool

-- The loop of `heap_copy` over the first `n` flags; an array that is shorter is read outside.
unfoldable pub freed_copy : ℕ → List Bool → Run (List Bool)
freed_copy zero freed = ok []
freed_copy (suc n) [] = abort
freed_copy (suc n) (f ∷ freed) = do ok (f ∷ (← freed_copy n freed))

-- `realloc` to the length `n`, with `false` in a new place, and `freed[address] = false`.
unfoldable pub unfreed : ℕ → List Bool → List Bool
unfreed address freed =
    set (if ltb (length freed) (suc address) then freed ++ false ∷ [] else freed) address false

-- The loop of `heap_referenced` from `address` on: every block that is not freed is referenced.
unfoldable pub referenced_from : (ℕ → Run Bool) → ℕ → List Bool → Run Bool
referenced_from block_referenced address [] = ok true
referenced_from block_referenced address (f ∷ freed) =
    let rest = referenced_from block_referenced (suc address) freed in
    if f then rest else (block_referenced address >>= λ r. if r then rest else ok false)

module _ {B : Type 0} where
  unfoldable pub block_arr_create : BlockArr B
  block_arr_create = []

  unfoldable pub block_arr_nblocks : BlockArr B → ℕ
  block_arr_nblocks arr = length arr

  -- The array with the block at its end, and the block's address.
  unfoldable pub block_arr_append : BlockArr B → B → BlockArr B × ℕ
  block_arr_append arr b = (arr ++ b ∷ [], length arr)

  -- The loop of `block_arr_copy`, with the copying of one block.
  unfoldable pub block_copy_each : (B → Run B) → BlockArr B → BlockArr B → Run (BlockArr B)
  unfolding block_arr_append
  block_copy_each block_copy new [] = ok new
  block_copy_each block_copy new (b ∷ old) = do
    copy ← block_copy b
    block_copy_each block_copy (block_arr_append new copy).0 old

  unfoldable pub block_arr_copy : (B → Run B) → BlockArr B → Run (BlockArr B)
  unfolding block_copy_each block_arr_create
  block_arr_copy block_copy old = block_copy_each block_copy block_arr_create old

  unfoldable pub heap_create : Heap B
  unfolding block_arr_create
  heap_create = record { blocks = block_arr_create; freed = [] }

  unfoldable pub heap_copy : (B → Run B) → Heap B → Run (Heap B)
  unfolding block_arr_copy freed_copy block_arr_nblocks
  heap_copy block_copy h = do
    blocks' ← block_arr_copy block_copy h.blocks
    freed' ← freed_copy (block_arr_nblocks h.blocks) h.freed
    ok (record { blocks = blocks'; freed = freed' })

  -- The heap with a new block `b`, and its address.
  unfoldable pub heap_newblock : B → Heap B → Heap B × ℕ
  unfolding block_arr_append unfreed
  heap_newblock b h =
      let (blocks', address) = block_arr_append h.blocks b in
      (record { blocks = blocks'; freed = unfreed address h.freed }, address)

  -- A read of `freed[address]`.
  unfoldable pub heap_blockisfreed : Heap B → ℕ → Run Bool
  heap_blockisfreed h address = elim (get_elem? h.freed address) [ none ↦ abort | some f ↦ ok f ]

  -- `none` is NULL.
  unfoldable pub heap_getblock : Heap B → ℕ → Run (Option B)
  unfolding heap_blockisfreed block_arr_nblocks
  heap_getblock h address = if leb (block_arr_nblocks h.blocks) address then ok none else (do
    freed ← heap_blockisfreed h address
    ok (if freed then none else get_elem? h.blocks address))

  -- The heap, and the error if there is one.
  unfoldable pub heap_deallocblock : Heap B → ℕ → Run (Heap B × Option Str)
  unfolding heap_blockisfreed block_arr_nblocks
  heap_deallocblock h address = do
    assert (ltb address (block_arr_nblocks h.blocks))
    freed ← heap_blockisfreed h address
    ok (
        if freed
        then (h, some (codes "double free"))
        else (record h { freed = set h.freed address true }, none))

  unfoldable pub heap_referenced : (ℕ → Run Bool) → Heap B → Run Bool
  unfolding referenced_from
  heap_referenced block_referenced h = referenced_from block_referenced 0 h.freed
