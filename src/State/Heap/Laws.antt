-- ===== src/State/Heap/Laws.antt =====
-- The heap of src/state/heap.c as a partial map from addresses to blocks.
use xr.Prelude.{
  ltb→lt, abort, ℕ, zero, suc, ◌<◌, ◌≡◌, refl, ap, ◌∙◌, inl, inr, Bool, true, false, Option, none,
  some, List, [], ◌∷◌, ◌++◌, sym, arith, if◌then◌else◌, ltb, leb, lt→ltb, length, get_elem?, set,
  length-append, length-set, get_elem?-ge, get_elem?-lt, ok, ◌==◌, Bool-cases,
}
use xr.Prelude.Str.{Str, codes}
use xr.State.Heap.{
  Heap, heap_newblock, heap_getblock, heap_deallocblock, heap_blockisfreed, unfreed,
  block_arr_nblocks, block_arr_append,
}

module _ {ℓ} {A : Type ℓ} where
  pub get_elem?-append_one :
      (xs : List A) (v : A) (i : ℕ)
      → get_elem? (xs ++ v ∷ []) i ≡ (if i == length xs then some v else get_elem? xs i)
  get_elem?-append_one [] v zero = refl
  get_elem?-append_one [] v (suc i) = ground arith
  get_elem?-append_one (x ∷ xs) v zero = ground arith
  get_elem?-append_one (x ∷ xs) v (suc i) = ground (arith, get_elem?-append_one xs v i)

  get_elem?-set :
      (xs : List A) (j : ℕ) (v : A) (i : ℕ)
      → j < length xs
      → get_elem? (set xs j v) i ≡ (if i == j then some v else get_elem? xs i)
  get_elem?-set [] j v i lt = elim lt [ ]
  get_elem?-set (x ∷ xs) zero v zero lt = refl
  get_elem?-set (x ∷ xs) zero v (suc i) lt = ground arith
  get_elem?-set (x ∷ xs) (suc j) v zero lt = ground arith
  get_elem?-set (x ∷ xs) (suc j) v (suc i) lt = ground (arith, get_elem?-set xs j v i (omega arith))

unfreed_lem : (fs : List Bool) → unfreed (length fs) fs ≡ fs ++ false ∷ []
unfolding unfreed
unfreed_lem fs = rw (lt→ltb (length fs) (suc (length fs)) (omega arith)) (set_last fs)
  where
    set_last : (fs : List Bool) → set (fs ++ false ∷ []) (length fs) false ≡ fs ++ false ∷ []
    set_last [] = refl
    set_last (f ∷ fs) = ap (λ l. f ∷ l) (set_last fs)

module _ {B : Type 0} where
  -- A flag for each block.
  abbrev pub IsWellFormed : Heap B → Type 0
  IsWellFormed h = length h.freed ≡ length h.blocks

  -- The block at an address that is in use, of the two arrays.
  abbrev read_block : Option Bool → Option B → Option B
  read_block none b = none
  read_block (some f) b = if f then none else b

  unfoldable pub lookup : Heap B → ℕ → Option B
  lookup h a = read_block (get_elem? h.freed a) (get_elem? h.blocks a)

  blockisfreed_lem :
      (h : Heap B) (a : ℕ) (f : Bool) → get_elem? h.freed a ≡ some f → heap_blockisfreed h a ≡ ok f
  unfolding heap_blockisfreed
  blockisfreed_lem h a f e = rw (heap_blockisfreed, e)

  -- In a heap with a flag for each block, reading a block returns at every address, and gives the
  -- block there that is in use.
  pub heap_getblock_lem :
      (h : Heap B) (a : ℕ) → IsWellFormed h → heap_getblock h a ≡ ok (lookup h a)
  unfolding heap_getblock lookup block_arr_nblocks heap_blockisfreed
  heap_getblock_lem h a w = elim (Bool-cases (leb (length h.blocks) a)) [
    | inl outside ↦ rw (outside, get_elem?-ge h.freed a (ground arith))
    | inr inside ↦
        let (f, e) = get_elem?-lt h.freed a (ground arith) in
        rw (inside, blockisfreed_lem h a f e, e)
  ]

  -- The entry at an address that is the new one (`same`) or another.
  new_entry :
      (same : Bool) (f : Option Bool) (c : Option B) (b : B)
      → read_block (if same then some false else f) (if same then some b else c)
        ≡ (if same then some b else read_block f c)
  new_entry true f c b = refl
  new_entry false f c b = refl

  freed_entry :
      (same : Bool) (f : Option Bool) (c : Option B)
      → read_block (if same then some true else f) c ≡ (if same then none else read_block f c)
  freed_entry true f c = refl
  freed_entry false f c = refl

  lengths_agree :
      (flags : List Bool) (bs : List B) (b : B)
      → length flags ≡ length bs
      → length (flags ++ false ∷ []) ≡ length (bs ++ b ∷ [])
  lengths_agree flags bs b w = rw (length-append flags (false ∷ []), length-append bs (b ∷ []), w)

  -- In a heap with a flag for each block a new block gets an address that was not in use, is found
  -- there, and every other address reads as before; there is again a flag for each block.
  pub heap_newblock_lem :
      (b : B) (h : Heap B)
      → IsWellFormed h
      → IsWellFormed (heap_newblock b h).0
        × (lookup h (heap_newblock b h).1 ≡ none)
        × ((a : ℕ)
            → lookup (heap_newblock b h).0 a
              ≡ (if a == (heap_newblock b h).1 then some b else lookup h a))
  unfolding heap_newblock lookup block_arr_append
  heap_newblock_lem b h w =
      let flags : unfreed (length h.blocks) h.freed ≡ h.freed ++ false ∷ [] =
        rw (sym w) (unfreed_lem h.freed) in
      (
        rw flags (lengths_agree h.freed h.blocks b w),
        rw (get_elem?-ge h.freed (length h.blocks) (omega arith)),
        λ a.
            rw (flags, get_elem?-append_one h.freed false a, get_elem?-append_one h.blocks b a, w)
              (new_entry (a == length h.blocks) (get_elem? h.freed a) (get_elem? h.blocks a) b),
      )

  in_use_flag :
      (h : Heap B) (a : ℕ) (b : B)
      → IsWellFormed h
      → lookup h a ≡ some b
      → (a < length h.blocks) × (get_elem? h.freed a ≡ some false)
  unfolding lookup
  in_use_flag h a b w e = elim (Bool-cases (ltb a (length h.blocks))) [
    | inl inside ↦
        let (f, is_f) = get_elem?-lt h.freed a (ground arith) in
        (ground arith, is_f ∙ ap some (flag_false f (get_elem? h.blocks a) (rw is_f at e)))
    | inr outside ↦ absurd (outside_absurd (rw (get_elem?-ge h.freed a (ground arith)) at e))
  ]
    where
      outside_absurd : none ≡ some b → ⊥
      outside_absurd e = cc

      flag_false : (f : Bool) (c : Option B) → read_block (some f) c ≡ some b → f ≡ false
      flag_false true c e = cc
      flag_false false c e = refl

  -- In a heap with a flag for each block, freeing a block in use returns no error; the block is
  -- gone, every other address reads as before, no block is moved, and there is again a flag for
  -- each block.
  pub heap_deallocblock-in_use :
      (h : Heap B) (address : ℕ) (b : B)
      → IsWellFormed h
      → lookup h address ≡ some b
      → (h' : Heap B) × (heap_deallocblock h address ≡ ok (h', none))
        × IsWellFormed h'
        × (length h'.blocks ≡ length h.blocks)
        × ((a : ℕ) → lookup h' a ≡ (if a == address then none else lookup h a))
  unfolding heap_deallocblock lookup block_arr_nblocks
  heap_deallocblock-in_use h address b w e =
      let (lt, unfreed) = in_use_flag h address b w e in
      (
        record h { freed = set h.freed address true },
        rw (lt→ltb address (length h.blocks) lt, blockisfreed_lem h address false unfreed),
        length-set h.freed address true ∙ w,
        refl,
        λ a.
            rw (get_elem?-set h.freed address true a (omega arith))
              (freed_entry (a == address) (get_elem? h.freed a) (get_elem? h.blocks a)),
      )

  -- Freeing a block that is not in use: the error, and the same heap.
  pub heap_deallocblock-not_in_use :
      (h : Heap B) (address : ℕ)
      → IsWellFormed h
      → address < length h.blocks
      → lookup h address ≡ none
      → heap_deallocblock h address ≡ ok (h, some (codes "double free"))
  unfolding heap_deallocblock lookup block_arr_nblocks
  heap_deallocblock-not_in_use h address w lt e =
      let (f, is_f) = get_elem?-lt h.freed address (omega arith) in
      let (b, is_b) = get_elem?-lt h.blocks address lt in
      rw (
        lt→ltb address (length h.blocks) lt,
        blockisfreed_lem h address f is_f,
        flag_true f b (rw (is_f, is_b) at e),
      )
    where
      flag_true : (f : Bool) (b : B) → read_block (some f) (some b) ≡ none → f ≡ true
      flag_true true b e = refl
      flag_true false b e = cc

  pub heap_newblock-address :
      (b : B) (h : Heap B)
      → ((heap_newblock b h).1 ≡ length h.blocks)
        × (length (heap_newblock b h).0.blocks ≡ suc (length h.blocks))
  unfolding heap_newblock block_arr_append
  heap_newblock-address b h = (refl, length-append h.blocks (b ∷ []) ∙ omega arith)

  -- A call that returns was on an address that has been handed out.
  pub heap_deallocblock-bound :
      (h : Heap B) (address : ℕ) {h' : Heap B} {err : Option Str}
      → heap_deallocblock h address ≡ ok (h', err)
      → address < length h.blocks
  unfolding heap_deallocblock block_arr_nblocks
  heap_deallocblock-bound h address e = elim (Bool-cases (ltb address (length h.blocks))) [
    | inl inside ↦ ltb→lt address (length h.blocks) inside
    | inr outside ↦ absurd (no_return (rw outside at e))
  ]
    where
      no_return : {A : Type 0} {a : A} → abort ≡ ok a → ⊥
      no_return e = cc
