-- ===== src/State/Static/Laws.antt =====
-- What the static memory of src/state/static.c promises.
use xr.Prelude.{ℕ, ◌≡◌, refl, true, some, if◌then◌else◌, ok}
use xr.Prelude.Str.{Str, str_eq}
use xr.Ast.Expr.Copy.{is_copyable}
use xr.Util.Map.{map_set}
use xr.Util.Map.Laws.{map_get-map_set}
use xr.State.Location.{Location}
use xr.State.Location.Laws.{IsFramed, location_copy-with_offset}
use xr.State.Static.{
  StaticMemory, static_memory_getblock, static_memory_stringpool, static_memory_checkpool,
}

module _ {B : Type 0} where
  -- Pooling a literal at a location whose frame is set exactly if it is automatic, and whose offset
  -- can be copied, returns; then the pool gives that location for the literal, every other literal
  -- is looked up as before, and so is every block.
  pub static_memory_stringpool_lem :
      (sm : StaticMemory B) (lit : Str) (loc : Location)
      → IsFramed loc.type loc.frame
      → is_copyable loc.offset ≡ true
      → (sm' : StaticMemory B) × (static_memory_stringpool sm lit loc ≡ ok sm')
        × ((other : Str)
            → static_memory_checkpool sm' other
              ≡ (if str_eq lit other then some loc else static_memory_checkpool sm other))
        × ((a : ℕ) → static_memory_getblock sm' a ≡ static_memory_getblock sm a)
  unfolding static_memory_stringpool static_memory_checkpool static_memory_getblock
  static_memory_stringpool_lem sm lit loc framed c =
      let (copied, moved) = location_copy-with_offset loc loc.offset framed c c in
      (
        record sm { pool = map_set sm.pool lit loc },
        rw copied,
        λ other. map_get-map_set sm.pool lit other loc,
        λ a. refl,
      )
