-- ===== src/State/Static.antt =====
-- Static memory, src/state/static.c: the blocks of string literals, and the pool in which each
-- literal is looked up before it gets a block of its own.
pub mod Laws
use xr.Prelude.{
  ℕ, Option, none, some, [], ◌∷◌, if◌then◌else◌, leb, get_elem?, Run, ok, abort, ◌>>=◌,
}
use xr.Prelude.Str.{Str}
use xr.Util.Map.{Entry, Map, map_create, map_get, map_set}
use xr.State.Heap.{BlockArr, block_arr_create, block_arr_append, block_arr_nblocks, block_arr_copy}
use xr.State.Location.{Location, location_copy}

pub record StaticMemory (B : Type 0) : Type 0 where
  pub blocks : BlockArr B
  pub pool : Map Location

-- The loop of `pool_copy`.
unfoldable pub pool_copy_each : Map Location → Map Location → Run (Map Location)
pool_copy_each pcopy [] = ok pcopy
pool_copy_each pcopy (e ∷ p) = do
  loc ← location_copy e.value
  pool_copy_each (map_set pcopy e.key loc) p

unfoldable pub pool_copy : Map Location → Run (Map Location)
unfolding pool_copy_each
pool_copy p = pool_copy_each map_create p

module _ {B : Type 0} where
  unfoldable pub static_memory_create : StaticMemory B
  unfolding block_arr_create
  static_memory_create = record { blocks = block_arr_create; pool = map_create }

  unfoldable pub static_memory_copy : (B → Run B) → StaticMemory B → Run (StaticMemory B)
  unfolding block_arr_copy pool_copy
  static_memory_copy block_copy sm = do
    blocks' ← block_arr_copy block_copy sm.blocks
    pool' ← pool_copy sm.pool
    ok (record { blocks = blocks'; pool = pool' })

  -- The memory with a new block `b`, and its address.
  unfoldable pub static_memory_newblock : B → StaticMemory B → StaticMemory B × ℕ
  unfolding block_arr_append
  static_memory_newblock b sm =
      let (blocks', address) = block_arr_append sm.blocks b in
      (record sm { blocks = blocks' }, address)

  unfoldable pub static_memory_getblock : StaticMemory B → ℕ → Option B
  unfolding block_arr_nblocks
  static_memory_getblock sm address =
      if leb (block_arr_nblocks sm.blocks) address then none else get_elem? sm.blocks address

  unfoldable pub static_memory_stringpool : StaticMemory B → Str → Location → Run (StaticMemory B)
  static_memory_stringpool sm lit loc = do
    copy ← location_copy loc
    ok (record sm { pool = map_set sm.pool lit copy })

  unfoldable pub static_memory_checkpool : StaticMemory B → Str → Option Location
  static_memory_checkpool sm lit = map_get sm.pool lit
