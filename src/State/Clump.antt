-- ===== src/State/Clump.antt =====
-- Clumps, src/state/clump.c: the blocks that parameters of a function may point into.
pub mod Laws
use xr.Prelude.{ℕ, Option, none, some, if◌then◌else◌, leb, get_elem?, Run, ok, abort, ◌>>=◌}
use xr.State.Heap.{BlockArr, block_arr_create, block_arr_append, block_arr_nblocks, block_arr_copy}

pub record Clump (B : Type 0) : Type 0 where
  pub blocks : BlockArr B

module _ {B : Type 0} where
  unfoldable pub clump_create : Clump B
  unfolding block_arr_create
  clump_create = record { blocks = block_arr_create }

  unfoldable pub clump_copy : (B → Run B) → Clump B → Run (Clump B)
  unfolding block_arr_copy
  clump_copy block_copy c = do
    blocks' ← block_arr_copy block_copy c.blocks
    ok (record { blocks = blocks' })

  -- The clump with a new block `b`, and its address.
  unfoldable pub clump_newblock : B → Clump B → Clump B × ℕ
  unfolding block_arr_append
  clump_newblock b c =
      let (blocks', address) = block_arr_append c.blocks b in (record { blocks = blocks' }, address)

  unfoldable pub clump_getblock : Clump B → ℕ → Option B
  unfolding block_arr_nblocks
  clump_getblock c address =
      if leb (block_arr_nblocks c.blocks) address then none else get_elem? c.blocks address
