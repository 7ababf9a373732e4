-- ===== src/State/Vconst/Names.antt =====
-- The names that src/state/heap.c gives to virtual constants are new.
use xr.Prelude.{
  ℕ, suc, ◌+◌, ◌≡◌, ◌≤◌, ◌<◌, refl, ap, ◌∙◌, sym, inl, inr, Bool, true, false, Option, none, some,
  List, [], ◌∷◌, ◌++◌, arith, if◌then◌else◌, le→leb, length, Bool-cases,
}
use xr.Prelude.Str.{Str, decimal, decimal_injective, str_eq, str_eq_iff}
use xr.Util.Map.{Map, entry}
use xr.Util.Map.Laws.{IsFresh, map_set_new, map_get-map_set, map_get-IsFresh}
use xr.Value.Objects.{Value}
use xr.State.Vconst.{Vconst, count_true, decimal_difference, vconst_id, vconst_declare, vconst_get}

abbrev name_of : Bool → ℕ → Str
name_of persist n = (if persist then b'$' else b'#') ∷ decimal n

-- The names of constants that were declared in this order, after `p` that persist and `n` others.
abbrev names : ℕ → ℕ → List Bool → List Str
names p n [] = []
names p n (true ∷ flags) = name_of true p ∷ names (suc p) n flags
names p n (false ∷ flags) = name_of false n ∷ names p (suc n) flags

abbrev keys {ℓ} : {V : Type ℓ} → Map V → List Str
keys [] = []
keys (e ∷ m) = e.key ∷ keys m

abbrev values {ℓ} : {V : Type ℓ} → Map V → List V
values [] = []
values (e ∷ m) = e.value ∷ values m

-- The constants have the names of their order and their flags.
abbrev pub IsNumbered : Vconst → Type 0
IsNumbered v =
    (keys v.varmap ≡ names 0 0 (values v.persist)) × (keys v.persist ≡ names 0 0 (values v.persist))

abbrev trues : List Bool → ℕ
trues [] = 0
trues (b ∷ flags) = let n = trues flags in if b then suc n else n

abbrev falses : List Bool → ℕ
falses [] = 0
falses (b ∷ flags) = let n = falses flags in if b then n else suc n

trues+falses : (flags : List Bool) → trues flags + falses flags ≡ length flags
trues+falses [] = refl
trues+falses (true ∷ flags) = omega (arith, trues+falses flags)
trues+falses (false ∷ flags) = omega (arith, trues+falses flags)

count_lem : (m : Map Bool) → count_true m ≡ trues (values m)
unfolding count_true
count_lem [] = refl
count_lem (e ∷ m) = rw (count_lem m)

length-names : (p n : ℕ) (flags : List Bool) → length (names p n flags) ≡ length flags
length-names p n [] = refl
length-names p n (true ∷ flags) = ap suc (length-names (suc p) n flags)
length-names p n (false ∷ flags) = ap suc (length-names p (suc n) flags)

length-keys {ℓ} : {V : Type ℓ} (m : Map V) → length (keys m) ≡ length m
length-keys [] = refl
length-keys (e ∷ m) = ap suc (length-keys m)

length-values {ℓ} : {V : Type ℓ} (m : Map V) → length (values m) ≡ length m
length-values [] = refl
length-values (e ∷ m) = ap suc (length-values m)

-- The next name of a kind.
abbrev next_name : Bool → ℕ → ℕ → List Bool → Str
next_name true p n flags = name_of true (p + trues flags)
next_name false p n flags = name_of false (n + falses flags)

next_name-true :
    (b : Bool) (p n : ℕ) (flags : List Bool)
    → next_name b (suc p) n flags ≡ next_name b p n (true ∷ flags)
next_name-true true p n flags = ap (name_of true) (omega arith)
next_name-true false p n flags = refl

next_name-false :
    (b : Bool) (p n : ℕ) (flags : List Bool)
    → next_name b p (suc n) flags ≡ next_name b p n (false ∷ flags)
next_name-false true p n flags = refl
next_name-false false p n flags = ap (name_of false) (omega arith)

names-append :
    (p n : ℕ) (flags : List Bool) (b : Bool)
    → names p n (flags ++ b ∷ []) ≡ names p n flags ++ next_name b p n flags ∷ []
names-append p n [] true = ap (λ k. name_of true k ∷ []) (omega arith)
names-append p n [] false = ap (λ k. name_of false k ∷ []) (omega arith)
names-append p n (true ∷ flags) b =
    ap (λ l. name_of true p ∷ l)
      (names-append (suc p) n flags b
        ∙ ap (λ s. names (suc p) n flags ++ s ∷ []) (next_name-true b p n flags))
names-append p n (false ∷ flags) b =
    ap (λ l. name_of false n ∷ l)
      (names-append p (suc n) flags b
        ∙ ap (λ s. names p (suc n) flags ++ s ∷ []) (next_name-false b p n flags))

decimal_apart : (m n : ℕ) → m < n → str_eq (decimal m) (decimal n) ≡ false
decimal_apart m n lt = elim (Bool-cases (str_eq (decimal m) (decimal n))) [
  | inl same ↦
      let e = decimal_injective m n ((str_eq_iff (decimal m) (decimal n)).0 same) in
      absurd (omega (arith, e, lt))
  | inr other ↦ other
]

-- No name of the list is `k`.
abbrev IsAbsent : Str → List Str → Type 0
IsAbsent k [] = Unit
IsAbsent k (s ∷ ss) = (str_eq s k ≡ false) × IsAbsent k ss

persistent-IsAbsent :
    (p n q : ℕ) (flags : List Bool)
    → p + trues flags ≤ q
    → IsAbsent (name_of true q) (names p n flags)
unfolding str_eq
persistent-IsAbsent p n q [] le = tt
persistent-IsAbsent p n q (true ∷ flags) le = (
  decimal_apart p q (omega (arith, le)),
  persistent-IsAbsent (suc p) n q flags (omega (arith, le)),
)
persistent-IsAbsent p n q (false ∷ flags) le = (refl, persistent-IsAbsent p (suc n) q flags le)

local-IsAbsent :
    (p n q : ℕ) (flags : List Bool)
    → n + falses flags ≤ q
    → IsAbsent (name_of false q) (names p n flags)
unfolding str_eq
local-IsAbsent p n q [] le = tt
local-IsAbsent p n q (true ∷ flags) le = (refl, local-IsAbsent (suc p) n q flags le)
local-IsAbsent p n q (false ∷ flags) le =
    (decimal_apart n q (omega (arith, le)), local-IsAbsent p (suc n) q flags (omega (arith, le)))

next_name-IsAbsent :
    (b : Bool) (flags : List Bool) → IsAbsent (next_name b 0 0 flags) (names 0 0 flags)
next_name-IsAbsent true flags = persistent-IsAbsent 0 0 (0 + trues flags) flags (omega arith)
next_name-IsAbsent false flags = local-IsAbsent 0 0 (0 + falses flags) flags (omega arith)

IsFresh-keys {ℓ} : {V : Type ℓ} (m : Map V) (k : Str) → IsAbsent k (keys m) → IsFresh k m
IsFresh-keys [] k h = tt
IsFresh-keys (e ∷ m) k (h, hs) = (h, IsFresh-keys m k hs)

keys-append {ℓ} :
    {V : Type ℓ} (m : Map V) (k : Str) (v : V) → keys (m ++ entry k v ∷ []) ≡ keys m ++ k ∷ []
keys-append [] k v = refl
keys-append (e ∷ m) k v = ap (λ l. e.key ∷ l) (keys-append m k v)

values-append {ℓ} :
    {V : Type ℓ} (m : Map V) (k : Str) (v : V) → values (m ++ entry k v ∷ []) ≡ values m ++ v ∷ []
values-append [] k v = refl
values-append (e ∷ m) k v = ap (λ l. e.value ∷ l) (values-append m k v)

id_lem :
    (v : Vconst) (b : Bool)
    → IsNumbered v
    → vconst_id v.varmap v.persist b ≡ next_name b 0 0 (values v.persist)
unfolding vconst_id decimal_difference
id_lem v true w = ap (λ n. b'$' ∷ decimal n) (count_lem v.persist ∙ omega arith)
id_lem v false w =
    let flags = values v.persist in
    let count = count_lem v.persist in
    let total : length v.varmap ≡ trues flags + falses flags =
      sym (length-keys v.varmap)
      ∙ ap length w.0
      ∙ length-names 0 0 flags
      ∙ sym (trues+falses flags) in
    rw (le→leb (count_true v.persist) (length v.varmap) (omega (arith, count, total)))
      (ap (λ n. b'#' ∷ decimal n) (omega (arith, count, total)))

-- While the constants have the names of their order, a new one gets a name that none has, is found
-- by it, and every other name is looked up as before; the constants have again the names of their
-- order.
pub vconst_declare-IsNumbered :
    (v : Vconst) (val : Value) (comment : Option Str) (persist : Bool) (id : Str)
    → IsNumbered v
    → (vconst_get v (vconst_declare v val comment persist).1 ≡ none)
      × (vconst_get (vconst_declare v val comment persist).0 id ≡ (
          if str_eq (vconst_declare v val comment persist).1 id then some val else vconst_get v id))
      × IsNumbered (vconst_declare v val comment persist).0
unfolding vconst_declare vconst_get
vconst_declare-IsNumbered v val comment persist id w =
    let flags = values v.persist in
    let s = vconst_id v.varmap v.persist persist in
    let next = id_lem v persist w in
    let fresh = next_name-IsAbsent persist flags in
    let fresh_value : IsFresh s v.varmap = IsFresh-keys v.varmap s (rw (next, w.0) fresh) in
    let fresh_flag : IsFresh s v.persist = IsFresh-keys v.persist s (rw (next, w.1) fresh) in
    let flags' = values-append v.persist s persist in
    let appended : names 0 0 flags ++ s ∷ [] ≡ names 0 0 (flags ++ persist ∷ []) =
      ap (λ n. names 0 0 flags ++ n ∷ []) next ∙ sym (names-append 0 0 flags persist) in
    (
      map_get-IsFresh v.varmap s fresh_value,
      map_get-map_set v.varmap s id val,
      (
        rw
            (
              map_set_new v.varmap s val fresh_value,
              map_set_new v.persist s persist fresh_flag,
              flags',
              keys-append v.varmap s val,
              w.0,
            )
            appended,
        rw
            (
              map_set_new v.persist s persist fresh_flag,
              flags',
              keys-append v.persist s persist,
              w.1,
            )
            appended,
      ),
    )
