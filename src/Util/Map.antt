-- ===== src/Util/Map.antt =====
-- `struct map` of src/util/util.c: an array of entries that is searched from the front. The
-- entries' keys are C strings; a missing key reads as `none`, where the code has NULL.
pub mod Laws
use xr.Prelude.{
  ℕ, zero, suc, Bool, true, false, Option, none, some, List, [], ◌∷◌, ◌++◌, if◌then◌else◌,
  get_elem?,
}
use xr.Prelude.Str.{Str, str_eq}

pub record Entry {ℓ} (V : Type ℓ) : Type ℓ where
  pub key : Str
  pub value : V

abbrev pub Map {ℓ} : Type ℓ → Type ℓ
Map V = List (Entry V)

abbrev pub entry {ℓ} : {V : Type ℓ} → Str → V → Entry V
entry k v = record { key = k; value = v }

module _ {ℓ} {V : Type ℓ} where
  unfoldable pub map_create : Map V
  map_create = []

  -- The loop of `map_getindex` from the index `i` on; `none` stands for -1.
  unfoldable pub getindex_from : ℕ → Map V → Str → Option ℕ
  getindex_from i [] k = none
  getindex_from i (e ∷ m) k =
      let rest = getindex_from (suc i) m k in if str_eq e.key k then some i else rest

  unfoldable pub map_getindex : Map V → Str → Option ℕ
  unfolding getindex_from
  map_getindex m k = getindex_from 0 m k

  abbrev value_of : Option (Entry V) → Option V
  value_of none = none
  value_of (some e) = some e.value

  unfoldable pub map_get : Map V → Str → Option V
  unfolding map_getindex
  map_get m k = elim (map_getindex m k) [ none ↦ none | some i ↦ value_of (get_elem? m i) ]

  -- `map->entry[i].value = value`
  unfoldable pub set_value : Map V → ℕ → V → Map V
  set_value [] i v = []
  set_value (e ∷ m) zero v = record e { value = v } ∷ m
  set_value (e ∷ m) (suc i) v = e ∷ set_value m i v

  unfoldable pub map_set : Map V → Str → V → Map V
  unfolding map_getindex set_value
  map_set m k v = elim (map_getindex m k) [ none ↦ m ++ entry k v ∷ [] | some i ↦ set_value m i v ]
