-- ===== src/Util/Map/Laws.antt =====
-- What the maps of src/util/util.c promise: a read after a write, and distinct keys.
use xr.Prelude.{
  ℕ, suc, ◌≡◌, refl, inl, inr, false, Option, none, some, [], ◌∷◌, ◌++◌, arith, if◌then◌else◌,
  Bool-cases,
}
use xr.Prelude.Str.{Str, str_eq, str_eq_iff, str_eq_comm}
use xr.Util.Map.{Entry, Map, entry, getindex_from, map_get, map_set}

abbrev up : Option ℕ → Option ℕ
up none = none
up (some i) = some (suc i)

module _ {ℓ} {V : Type ℓ} where
  getindex_from-suc :
      (i : ℕ) (m : Map V) (k : Str) → getindex_from (suc i) m k ≡ up (getindex_from i m k)
  unfolding getindex_from
  getindex_from-suc i [] k = refl
  getindex_from-suc i (e ∷ m) k = elim (Bool-cases (str_eq e.key k)) [
    | inl same ↦ rw same
    | inr other ↦ rw other (getindex_from-suc (suc i) m k)
  ]

  pub map_get-cons :
      (e : Entry V) (m : Map V) (k : Str)
      → map_get (e ∷ m) k ≡ (if str_eq e.key k then some e.value else map_get m k)
  unfolding map_get
  map_get-cons e m k = ground (arith, getindex_from-suc 0 m k)

  pub map_set-cons :
      (e : Entry V) (m : Map V) (k : Str) (v : V)
      → map_set (e ∷ m) k v
        ≡ (if str_eq e.key k then record e { value = v } ∷ m else e ∷ map_set m k v)
  unfolding map_set
  map_set-cons e m k v = ground (arith, getindex_from-suc 0 m k)

  pub map_get-nil : (k : Str) → map_get {V = V} [] k ≡ none
  unfolding map_get
  map_get-nil k = refl

  pub map_set-nil : (k : Str) (v : V) → map_set [] k v ≡ entry k v ∷ []
  unfolding map_set
  map_set-nil k v = refl

  -- A read after a write gives the value written, and every other key reads as before.
  pub map_get-map_set :
      (m : Map V) (k j : Str) (v : V)
      → map_get (map_set m k v) j ≡ (if str_eq k j then some v else map_get m j)
  map_get-map_set [] k j v = rw (map_set-nil k v, map_get-cons (entry k v) [] j)
  map_get-map_set (e ∷ m) k j v = elim (Bool-cases (str_eq e.key k)) [
    | inl same ↦
        let e' : e.key ≡ k = (str_eq_iff e.key k).0 same in
        rw
          (
            map_set-cons e m k v,
            same,
            map_get-cons (record e { value = v }) m j,
            map_get-cons e m j,
            e',
          )
          (ground arith)
    | inr other ↦
        rw
          (
            map_set-cons e m k v,
            other,
            map_get-cons e (map_set m k v) j,
            map_get-cons e m j,
            map_get-map_set m k j v,
          )
          (ground (arith, str_eq_iff e.key j, str_eq_iff k j, str_eq_iff e.key k))
  ]

  abbrev pub IsFresh : Str → Map V → Type 0
  IsFresh k [] = Unit
  IsFresh k (e ∷ m) = (str_eq e.key k ≡ false) × IsFresh k m

  -- No key stands twice in the array.
  abbrev pub HasDistinctKeys : Map V → Type 0
  HasDistinctKeys [] = Unit
  HasDistinctKeys (e ∷ m) = IsFresh e.key m × HasDistinctKeys m

  pub IsFresh-map_get : (m : Map V) (k : Str) → map_get m k ≡ none → IsFresh k m
  IsFresh-map_get [] k h = tt
  IsFresh-map_get (e ∷ m) k h = elim (Bool-cases (str_eq e.key k)) [
    | inl same ↦ ground (arith, map_get-cons e m k)
    | inr other ↦ (other, IsFresh-map_get m k (ground (arith, map_get-cons e m k)))
  ]

  pub map_get-IsFresh : (m : Map V) (k : Str) → IsFresh k m → map_get m k ≡ none
  map_get-IsFresh [] k f = map_get-nil k
  map_get-IsFresh (e ∷ m) k f = rw (map_get-cons e m k, f.0) (map_get-IsFresh m k f.1)

  -- A new key goes to the end of the array.
  pub map_set_new :
      (m : Map V) (k : Str) (v : V) → IsFresh k m → map_set m k v ≡ m ++ entry k v ∷ []
  map_set_new [] k v f = map_set-nil k v
  map_set_new (e ∷ m) k v f = rw (map_set-cons e m k v, f.0, map_set_new m k v f.1)

  pub IsFresh-map_set :
      (m : Map V) (k j : Str) (v : V) → str_eq k j ≡ false → IsFresh j m → IsFresh j (map_set m k v)
  IsFresh-map_set [] k j v h f = rw (map_set-nil k v) (h, tt)
  IsFresh-map_set (e ∷ m) k j v h f = elim (Bool-cases (str_eq e.key k)) [
    | inl same ↦ rw (map_set-cons e m k v, same) f
    | inr other ↦ rw (map_set-cons e m k v, other) (f.0, IsFresh-map_set m k j v h f.1)
  ]

  pub map_set-HasDistinctKeys :
      (m : Map V) (k : Str) (v : V) → HasDistinctKeys m → HasDistinctKeys (map_set m k v)
  map_set-HasDistinctKeys [] k v h = rw (map_set-nil k v) (tt, tt)
  map_set-HasDistinctKeys (e ∷ m) k v h = elim (Bool-cases (str_eq e.key k)) [
    | inl same ↦ rw (map_set-cons e m k v, same) h
    | inr other ↦
        rw (map_set-cons e m k v, other)
          (
            IsFresh-map_set m k e.key v (rw (str_eq_comm k e.key) other) h.0,
            map_set-HasDistinctKeys m k v h.1,
          )
  ]
