-- ===== src/State/Location.antt =====
-- `struct location` of src/state/location.c: a place in one of the memories of a state.
pub mod Laws
use xr.Prelude.{
  ℕ, Bool, true, false, ◌&&◌, Option, none, some, if◌then◌else◌, ◌==◌, Run, ok, abort, ◌>>=◌, ◌>>◌,
  assert, is_some,
}
use xr.Prelude.Int.{pos}
use xr.Prelude.Str.{Str, codes}
use xr.Ast.Expr.{Expr, ast_expr_copy, ast_expr_equal, ast_expr_constant_create}
use xr.State.Heap.{Heap, heap_getblock, heap_deallocblock}

pub data LocationType : Type 0 where
  location_static location_vconst location_dereferencable location_automatic location_dynamic :
      LocationType

-- `frame` is set, if `type` is `location_automatic`.
pub record Location : Type 0 where
  pub type : LocationType
  pub frame : Option ℕ
  pub block : ℕ
  pub offset : Expr

-- `==` of the enumeration.
unfoldable pub location_type_eq : LocationType → LocationType → Bool
location_type_eq location_static location_static = true
location_type_eq location_vconst location_vconst = true
location_type_eq location_dereferencable location_dereferencable = true
location_type_eq location_automatic location_automatic = true
location_type_eq location_dynamic location_dynamic = true
location_type_eq _ _ = false

abbrev located : LocationType → Option ℕ → ℕ → Expr → Location
located t f b o = record { type = t; frame = f; block = b; offset = o }

unfoldable pub location_create_vconst : ℕ → Expr → Location
location_create_vconst block offset = located location_vconst none block offset

unfoldable pub location_create_dereferencable : ℕ → Expr → Location
location_create_dereferencable block offset = located location_dereferencable none block offset

unfoldable pub location_create_static : ℕ → Expr → Location
location_create_static block offset = located location_static none block offset

unfoldable pub location_create_dynamic : ℕ → Expr → Location
location_create_dynamic block offset = located location_dynamic none block offset

unfoldable pub location_create_automatic : ℕ → ℕ → Expr → Location
location_create_automatic frame block offset = located location_automatic (some frame) block offset

unfoldable pub offsetzero : Location → Run Bool
offsetzero loc = ast_expr_equal loc.offset (ast_expr_constant_create (pos 0))

-- An automatic location whose frame is not set is read outside its contents.
unfoldable pub copy_at : LocationType → Option ℕ → ℕ → Expr → Run Location
unfolding location_create_static location_create_vconst location_create_dereferencable
    location_create_automatic location_create_dynamic
copy_at location_static frame block offset = ok (location_create_static block offset)
copy_at location_vconst frame block offset = ok (location_create_vconst block offset)
copy_at location_dereferencable frame block offset =
    ok (location_create_dereferencable block offset)
copy_at location_automatic none block offset = abort
copy_at location_automatic (some frame) block offset =
    ok (location_create_automatic frame block offset)
copy_at location_dynamic frame block offset = ok (location_create_dynamic block offset)

unfoldable pub location_copy : Location → Run Location
unfolding copy_at
location_copy loc = do copy ← ast_expr_copy loc.offset; copy_at loc.type loc.frame loc.block copy

unfoldable pub location_with_offset : Location → Expr → Run Location
unfolding offsetzero location_copy
location_with_offset loc offset = do
  zero ← offsetzero loc
  assert zero
  copy ← location_copy loc
  o ← ast_expr_copy offset
  ok (record copy { offset = o })

unfoldable pub location_equal : Location → Location → Run Bool
unfolding location_type_eq
location_equal l1 l2 =
    if location_type_eq l1.type l2.type && (l1.block == l2.block)
    then ast_expr_equal l1.offset l2.offset
    else ok false

unfoldable pub location_isauto : Location → Bool
unfolding location_type_eq
location_isauto loc = location_type_eq loc.type location_automatic

module _ {B : Type 0} where
  unfoldable pub location_toheap : Location → Heap B → Run Bool
  unfolding location_type_eq
  location_toheap loc h = do
    b ← heap_getblock h loc.block
    ok (location_type_eq loc.type location_dynamic && is_some b)

  -- The heap, and the error if there is one.
  unfoldable pub location_dealloc : Location → Heap B → Run (Heap B × Option Str)
  unfolding location_type_eq
  location_dealloc loc h =
      if location_type_eq loc.type location_dynamic
      then heap_deallocblock h loc.block
      else ok (h, some (codes "not heap location"))
