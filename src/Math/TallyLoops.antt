-- ===== src/Math/TallyLoops.antt =====
-- The loops over tally maps of src/math/math.c, and what the maps stand for after them.
use mathlib.Core.List.{append_assoc, append-nil}
use xr.Prelude.{
  ◌+◌, ◌≤◌, ◌<◌, ◌^◌, ◌≡◌, refl, sym, ap, ◌∙◌, inl, inr, false, [], ◌∷◌, ◌++◌, arith, if◌then◌else◌,
  Bool-cases, ok,
}
use xr.Prelude.Int.{
  ℤ, pos, pos_part, neg_part, ◌+ℤ◌, ◌*ℤ◌, neg, int_laws, +ℤ_right_distrib, neg-*ℤ, zero-*ℤ,
  as_long_small, abs-+ℤ, abs-neg,
}
use xr.Prelude.Str.{Str, str_eq, str_eq_iff, str_eq_comm, str_eq_refl}
use xr.Util.Map.{Entry, Map, entry, map_create, map_get, map_set}
use xr.Util.Map.Laws.{
  HasDistinctKeys, IsFresh, map_get-cons, map_set-cons, map_set-nil, map_set_new,
  map_set-HasDistinctKeys,
}
use xr.Math.{count, copy_each, add_each, neg_each}
use xr.Math.Meaning.{Env, total, weight, abs, add_key, add_keys, map_keys}
use xr.Util.StringArr.{string_arr_contains}

count-cons :
    (e : Entry ℤ) (m : Map ℤ) (k : Str)
    → count (e ∷ m) k ≡ (if str_eq e.key k then e.value else count m k)
unfolding count
count-cons e m k = ground (arith, map_get-cons e m k)

count-nil : (k : Str) → count [] k ≡ pos 0
unfolding count map_get
count-nil k = refl

pub total-map_set :
    (ρ : Env) (m : Map ℤ) (k : Str) (v : ℤ)
    → total ρ (map_set m k v) +ℤ count m k *ℤ ρ k ≡ total ρ m +ℤ v *ℤ ρ k
unfolding total
total-map_set ρ [] k v = rw (map_set-nil k v, count-nil k, zero-*ℤ) (omega int_laws)
total-map_set ρ (e ∷ m) k v = elim (Bool-cases (str_eq e.key k)) [
  | inl same ↦
      rw (map_set-cons e m k v, count-cons e m k, same, (str_eq_iff e.key k).0 same)
        (omega int_laws)
  | inr other ↦
      rw (map_set-cons e m k v, count-cons e m k, other)
        (omega (int_laws, ap pos_part (total-map_set ρ m k v), ap neg_part (total-map_set ρ m k v)))
]

pub weight-map_set :
    (m : Map ℤ) (k : Str) (v : ℤ) → weight (map_set m k v) + abs (count m k) ≡ weight m + abs v
unfolding weight
weight-map_set [] k v = rw (map_set-nil k v, count-nil k) (omega arith)
weight-map_set (e ∷ m) k v = elim (Bool-cases (str_eq e.key k)) [
  | inl same ↦ rw (map_set-cons e m k v, count-cons e m k, same) (omega arith)
  | inr other ↦
      rw (map_set-cons e m k v, count-cons e m k, other) (omega (arith, weight-map_set m k v))
]

-- Keys of `es` are not among those of `m`.
abbrev IsApart : Map ℤ → Map ℤ → Type 0
IsApart m [] = Unit
IsApart m (e ∷ es) = IsFresh e.key m × IsApart m es

IsApart-nil : (es : Map ℤ) → IsApart [] es
IsApart-nil [] = tt
IsApart-nil (e ∷ es) = (tt, IsApart-nil es)

IsFresh-append :
    (m : Map ℤ) (k j : Str) (v : ℤ)
    → IsFresh k m
    → str_eq j k ≡ false
    → IsFresh k (m ++ entry j v ∷ [])
IsFresh-append [] k j v f h = (h, tt)
IsFresh-append (e ∷ m) k j v f h = (f.0, IsFresh-append m k j v f.1 h)

IsApart-append :
    (m es : Map ℤ) (j : Str) (v : ℤ)
    → IsApart m es
    → IsFresh j es
    → IsApart (m ++ entry j v ∷ []) es
IsApart-append m [] j v a f = tt
IsApart-append m (e ∷ es) j v a f =
    (IsFresh-append m e.key j v a.0 (rw (str_eq_comm j e.key) f.0), IsApart-append m es j v a.1 f.1)

-- Copying a map of distinct keys gives the same array.
copy_each-append : (m es : Map ℤ) → IsApart m es → HasDistinctKeys es → copy_each m es ≡ m ++ es
unfolding copy_each
copy_each-append m [] a d = rw append-nil
copy_each-append m (e ∷ es) a d = rw (map_set_new m e.key e.value a.0) (
    copy_each-append (m ++ entry e.key e.value ∷ []) es (IsApart-append m es e.key e.value a.1 d.0)
      d.1
    ∙ append_assoc m (e ∷ []) es)

pub copy_each_lem : (es : Map ℤ) → HasDistinctKeys es → copy_each map_create es ≡ es
unfolding map_create
copy_each_lem es d = copy_each-append [] es (IsApart-nil es) d

pub keys-map_set : (m : Map ℤ) (k : Str) (v : ℤ) → map_keys (map_set m k v) ≡ add_key (map_keys m) k
unfolding add_key string_arr_contains
keys-map_set [] k v = rw (map_set-nil k v)
keys-map_set (e ∷ m) k v = elim (Bool-cases (str_eq e.key k)) [
  | inl same ↦ rw (map_set-cons e m k v, same, str_eq_comm k e.key, same)
  | inr other ↦
      rw (map_set-cons e m k v, other, str_eq_comm k e.key, other, keys-map_set m k v)
        (ground arith)
]

-- What the second loop of `map_sum` leaves.
pub record SumOf (m es r : Map ℤ) : Type 0 where
  pub meaning : (ρ : Env) → total ρ r ≡ total ρ m +ℤ total ρ es
  pub distinct : HasDistinctKeys m → HasDistinctKeys r
  pub counts : weight r ≤ weight m + weight es
  pub keys : map_keys r ≡ add_keys (map_keys m) (map_keys es)

count-le-weight : (m : Map ℤ) (k : Str) → abs (count m k) ≤ weight m
unfolding weight
count-le-weight [] k = rw (count-nil k) (omega arith)
count-le-weight (e ∷ m) k = rw (count-cons e m k) (ground (arith, count-le-weight m k))

-- One round of the loop.
sum_step :
    (m : Map ℤ) (e : Entry ℤ) (es r : Map ℤ)
    → SumOf (map_set m e.key (count m e.key +ℤ e.value)) es r
    → SumOf m (e ∷ es) r
unfolding total weight add_keys
sum_step m e es r s = record {
  meaning = λ ρ.
      let v : ℤ = count m e.key +ℤ e.value in
      omega (
        int_laws,
        ap pos_part (s.meaning ρ),
        ap neg_part (s.meaning ρ),
        ap pos_part (total-map_set ρ m e.key v),
        ap neg_part (total-map_set ρ m e.key v),
        ap pos_part (+ℤ_right_distrib (count m e.key) e.value (ρ e.key)),
        ap neg_part (+ℤ_right_distrib (count m e.key) e.value (ρ e.key)),
      );
  distinct = λ d. s.distinct (map_set-HasDistinctKeys m e.key _ d);
  counts = omega (
    arith,
    s.counts,
    weight-map_set m e.key (count m e.key +ℤ e.value),
    abs-+ℤ (count m e.key) e.value,
  );
  keys = s.keys ∙ rw (keys-map_set m e.key (count m e.key +ℤ e.value));
}

pub add_each_lem :
    (m es : Map ℤ)
    → weight m + weight es < 2 ^ 31
    → (r : Map ℤ) × (add_each m es ≡ ok r) × SumOf m es r
unfolding add_each weight total add_keys
add_each_lem m [] h = (
  m,
  refl,
  record { meaning = λ ρ. omega int_laws; distinct = λ d. d; counts = omega arith; keys = refl },
)
add_each_lem m (e ∷ es) h =
    let v : ℤ = count m e.key +ℤ e.value in
    let small : abs v < 2 ^ 31 =
      omega (arith, abs-+ℤ (count m e.key) e.value, count-le-weight m e.key) in
    let below : weight (map_set m e.key v) + weight es < 2 ^ 31 =
      omega (arith, weight-map_set m e.key v, abs-+ℤ (count m e.key) e.value) in
    let (r, runs, s) = add_each_lem (map_set m e.key v) es below in
    (r, rw (as_long_small v small) runs, sum_step m e es r s)

-- The array after the loop of `neg_tally`.
abbrev pub negate_all : Map ℤ → Map ℤ
negate_all [] = []
negate_all (e ∷ m) = entry e.key (neg e.value) ∷ negate_all m

pub total-negate_all : (ρ : Env) (m : Map ℤ) → total ρ (negate_all m) ≡ neg (total ρ m)
unfolding total
total-negate_all ρ [] = omega int_laws
total-negate_all ρ (e ∷ m) = rw (total-negate_all ρ m, neg-*ℤ) (omega int_laws)

pub keys-negate_all : (m : Map ℤ) → map_keys (negate_all m) ≡ map_keys m
keys-negate_all [] = refl
keys-negate_all (e ∷ m) = ap (λ ks. e.key ∷ ks) (keys-negate_all m)

pub weight-negate_all : (m : Map ℤ) → weight (negate_all m) ≡ weight m
unfolding weight
weight-negate_all [] = refl
weight-negate_all (e ∷ m) = omega (arith, weight-negate_all m, abs-neg e.value)

IsFresh-negate_all : (m : Map ℤ) (k : Str) → IsFresh k m → IsFresh k (negate_all m)
IsFresh-negate_all [] k f = tt
IsFresh-negate_all (e ∷ m) k f = (f.0, IsFresh-negate_all m k f.1)

pub negate_all-HasDistinctKeys : (m : Map ℤ) → HasDistinctKeys m → HasDistinctKeys (negate_all m)
negate_all-HasDistinctKeys [] d = tt
negate_all-HasDistinctKeys (e ∷ m) d =
    (IsFresh-negate_all m e.key d.0, negate_all-HasDistinctKeys m d.1)

count-append : (pre m : Map ℤ) (k : Str) → IsFresh k pre → count (pre ++ m) k ≡ count m k
count-append [] m k f = refl
count-append (e ∷ pre) m k f = rw (count-cons e (pre ++ m) k, f.0) (count-append pre m k f.1)

map_set-append :
    (pre m : Map ℤ) (k : Str) (v : ℤ)
    → IsFresh k pre
    → map_set (pre ++ m) k v ≡ pre ++ map_set m k v
map_set-append [] m k v f = refl
map_set-append (e ∷ pre) m k v f =
    rw (map_set-cons e (pre ++ m) k v, f.0, map_set-append pre m k v f.1)

count-here :
    (pre es : Map ℤ) (e : Entry ℤ) → IsFresh e.key pre → count (pre ++ e ∷ es) e.key ≡ e.value
count-here pre es e f =
    rw (count-append pre (e ∷ es) e.key f, count-cons e es e.key, str_eq_refl e.key)

map_set-here :
    (pre es : Map ℤ) (e : Entry ℤ) (v : ℤ)
    → IsFresh e.key pre
    → map_set (pre ++ e ∷ es) e.key v ≡ (pre ++ entry e.key v ∷ []) ++ es
map_set-here pre es e v f =
    rw (map_set-append pre (e ∷ es) e.key v f, map_set-cons e es e.key v, str_eq_refl e.key)
      (sym (append_assoc pre (entry e.key v ∷ []) es))

neg_each-append :
    (pre es : Map ℤ)
    → IsApart pre es
    → HasDistinctKeys es
    → weight es < 2 ^ 31
    → neg_each (pre ++ es) es ≡ ok (pre ++ negate_all es)
unfolding neg_each weight
neg_each-append pre [] a d h = refl
neg_each-append pre (e ∷ es) a d h =
    rw
      (
        count-here pre es e a.0,
        as_long_small (neg e.value) (omega (arith, abs-neg e.value)),
        map_set-here pre es e (neg e.value) a.0,
      )
      (neg_each-append (pre ++ entry e.key (neg e.value) ∷ []) es
          (IsApart-append pre es e.key (neg e.value) a.1 d.0) d.1 (omega arith)
        ∙ ap ok (append_assoc pre (entry e.key (neg e.value) ∷ []) (negate_all es)))

pub neg_each_lem :
    (m : Map ℤ) → HasDistinctKeys m → weight m < 2 ^ 31 → neg_each m m ≡ ok (negate_all m)
neg_each_lem m d h = neg_each-append [] m (IsApart-nil m) d h
