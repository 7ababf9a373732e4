-- ===== src/Value/Objects/Arrays.antt =====
-- `struct object_arr` of src/object/object.c: its loops shift the objects in place.
pub mod Laws
use xr.Prelude.{
  ℕ, zero, suc, ◌+◌, ◌-◌, Bool, true, false, Option, none, some, List, [], ◌∷◌, ◌++◌, Run, ok,
  abort, ◌>>=◌, ◌>>◌, assert, if◌then◌else◌, leb, ltb, length, get_elem?, set, take,
}
use xr.Ast.Expr.{Expr}
use xr.Value.Objects.{Object, object_copy}
use xr.Value.Objects.Extents.{object_contains, object_contains_upperincl}

abbrev pub ObjectArr : Type 0
ObjectArr = List Object

unfoldable pub object_arr_create : ObjectArr
object_arr_create = []

-- `arr->object[i] = arr->object[j]`
unfoldable pub move {ℓ} : {A : Type ℓ} → List A → ℕ → ℕ → List A
move arr i j = elim (get_elem? arr j) [ none ↦ arr | some x ↦ set arr i x ]

-- The loop of `object_arr_insert`: the `n` objects from `index` on move up, the last one first.
unfoldable pub shift_up {ℓ} : {A : Type ℓ} → ℕ → ℕ → List A → List A
unfolding move
shift_up zero index arr = arr
shift_up (suc n) index arr = shift_up n index (move arr (suc (index + n)) (index + n))

-- The loop of `object_arr_remove`: the `n` objects after `index` move down, the first one first.
unfoldable pub shift_down {ℓ} : {A : Type ℓ} → ℕ → ℕ → List A → List A
unfolding move
shift_down zero index arr = arr
shift_down (suc n) index arr = shift_down n (suc index) (move arr index (suc index))

-- The new place is written before it is read. An index beyond the array's end is written outside.
unfoldable pub object_arr_insert : ObjectArr → ℕ → Object → Run ObjectArr
unfolding shift_up
object_arr_insert arr index obj = do
  assert (leb index (length arr))
  ok (set (shift_up (length arr - index) index (arr ++ obj ∷ [])) index obj)

unfoldable pub object_arr_append : ObjectArr → Object → Run ObjectArr
unfolding object_arr_insert
object_arr_append arr obj = object_arr_insert arr (length arr) obj

-- An empty array would get the length -1.
unfoldable pub object_arr_remove : ObjectArr → ℕ → Run ObjectArr
unfolding shift_down
object_arr_remove arr index = do
  assert (ltb 0 (length arr))
  ok (take (length arr - 1) (shift_down (length arr - 1 - index) index arr))

-- The loop of `object_arr_copy`.
unfoldable pub object_arr_copy_each : ObjectArr → ObjectArr → Run ObjectArr
unfolding object_arr_append
object_arr_copy_each copy [] = ok copy
object_arr_copy_each copy (obj ∷ arr) = do
  obj' ← object_copy obj
  copy' ← object_arr_append copy obj'
  object_arr_copy_each copy' arr

unfoldable pub object_arr_copy : ObjectArr → Run ObjectArr
unfolding object_arr_copy_each object_arr_create
object_arr_copy arr = object_arr_copy_each object_arr_create arr

-- The loop from the index `i` on; `none` stands for -1.
unfoldable pub index_from : (Object → Run Bool) → ℕ → ObjectArr → Run (Option ℕ)
index_from test i [] = ok none
index_from test i (obj ∷ arr) =
    let rest = index_from test (suc i) arr in
    (test obj >>= λ found. if found then ok (some i) else rest)

unfoldable pub object_arr_index : ObjectArr → Expr → Run (Option ℕ)
unfolding index_from
object_arr_index arr offset = index_from (λ obj. object_contains obj offset) 0 arr

unfoldable pub object_arr_index_upperincl : ObjectArr → Expr → Run (Option ℕ)
unfolding index_from
object_arr_index_upperincl arr offset =
    index_from (λ obj. object_contains_upperincl obj offset) 0 arr
