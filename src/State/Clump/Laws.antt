-- ===== src/State/Clump/Laws.antt =====
-- The clumps of src/state/clump.c as a map from addresses to blocks that only grows.
use xr.Prelude.{
  ℕ, ◌≡◌, refl, sym, ap, ◌∙◌, inl, inr, none, some, List, [], ◌∷◌, ◌++◌, if◌then◌else◌, leb, ◌==◌,
  length, get_elem?, get_elem?-ge, Run, ok, arith, Bool-cases,
}
use xr.State.Heap.{
  BlockArr, block_arr_create, block_arr_append, block_arr_nblocks, block_copy_each, block_arr_copy,
}
use xr.State.Heap.Laws.{get_elem?-append_one}
use xr.State.Clump.{Clump, clump_copy, clump_newblock, clump_getblock}

module _ {B : Type 0} where
  getblock_lem : (c : Clump B) (a : ℕ) → clump_getblock c a ≡ get_elem? c.blocks a
  unfolding clump_getblock block_arr_nblocks
  getblock_lem c a = elim (Bool-cases (leb (length c.blocks) a)) [
    | inl outside ↦ rw (outside, get_elem?-ge c.blocks a (ground arith))
    | inr inside ↦ rw inside
  ]

  -- A new block of the clumps gets an address where there was none and is found there, and every other address
  -- reads as before.
  pub clump_newblock_lem :
      (b : B) (c : Clump B)
      → (clump_getblock c (clump_newblock b c).1 ≡ none)
        × ((a : ℕ)
            → clump_getblock (clump_newblock b c).0 a
              ≡ (if a == (clump_newblock b c).1 then some b else clump_getblock c a))
  unfolding clump_newblock block_arr_append
  clump_newblock_lem b c = (
    getblock_lem c (length c.blocks) ∙ get_elem?-ge c.blocks (length c.blocks) (omega arith),
    λ a.
        getblock_lem (clump_newblock b c).0 a
        ∙ rw (getblock_lem c a) (get_elem?-append_one c.blocks b a),
  )

  append_nil : (bs : List B) → bs ++ [] ≡ bs
  append_nil [] = refl
  append_nil (b ∷ bs) = ap (λ l. b ∷ l) (append_nil bs)

  append_snoc : (bs : List B) (b : B) (cs : List B) → (bs ++ b ∷ []) ++ cs ≡ bs ++ b ∷ cs
  append_snoc [] b cs = refl
  append_snoc (a ∷ bs) b cs = ap (λ l. a ∷ l) (append_snoc bs b cs)

  copy_each_lem :
      (block_copy : B → Run B) (new old : BlockArr B)
      → ((b : B) → block_copy b ≡ ok b)
      → block_copy_each block_copy new old ≡ ok (new ++ old)
  unfolding block_copy_each block_arr_append
  copy_each_lem block_copy new [] h = ap ok (sym (append_nil new))
  copy_each_lem block_copy new (b ∷ old) h =
      rw (h b, copy_each_lem block_copy (new ++ b ∷ []) old h) (ap ok (append_snoc new b old))

  -- If blocks are copied to equal ones, so are the clumps.
  pub clump_copy_lem :
      (block_copy : B → Run B) (c : Clump B)
      → ((b : B) → block_copy b ≡ ok b)
      → clump_copy block_copy c ≡ ok c
  unfolding clump_copy block_arr_copy block_arr_create
  clump_copy_lem block_copy c h = rw (copy_each_lem block_copy [] c.blocks h)
