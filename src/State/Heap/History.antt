-- ===== src/State/Heap/History.antt =====
-- Histories of the heap of src/state/heap.c: any sequence of allocations and frees from the empty
-- heap.
use xr.Prelude.{
  ℕ, ◌<◌, ◌≡◌, ◌≢◌, refl, ap, sym, ◌∙◌, inl, inr, Bool, true, false, Option, none, some, arith,
  if◌then◌else◌, length, ok, ◌==◌, Option-cases,
}
use xr.Prelude.Str.{Str, codes}
use xr.State.Heap.{
  Heap, heap_create, heap_newblock, heap_getblock, heap_deallocblock, block_arr_create,
}
use xr.State.Heap.Laws.{
  IsWellFormed, lookup, heap_getblock_lem, heap_newblock_lem, heap_newblock-address,
  heap_deallocblock-in_use, heap_deallocblock-not_in_use, heap_deallocblock-bound,
}

-- One call that changes the heap.
pub data Step {B : Type 0} : Heap B → Heap B → Type 0 where
  allocates : (h : Heap B) (b : B) → Step h (heap_newblock b h).0
  frees :
      (h h' : Heap B) (err : Option Str) (a : ℕ) → heap_deallocblock h a ≡ ok (h', err) → Step h h'

pub data Steps {B : Type 0} : Heap B → Heap B → Type 0 where
  done : (h : Heap B) → Steps h h
  more : (h h' h'' : Heap B) → Step h h' → Steps h' h'' → Steps h h''

module _ {B : Type 0} where
  -- An address that has been handed out and is not in use.
  abbrev pub IsDead : Heap B → ℕ → Type 0
  IsDead h a = (a < length h.blocks) × (lookup h a ≡ none)

  heap_newblock-IsDead :
      (h : Heap B) (b : B) (a : ℕ) → IsWellFormed h → IsDead h a → IsDead (heap_newblock b h).0 a
  heap_newblock-IsDead h b a w (lt, e) =
      let (address, longer) = heap_newblock-address b h in
      let (w', unused, reads) = heap_newblock_lem b h w in
      (omega arith, reads a ∙ rw (not_last a lt, e))
    where
      not_last : (a : ℕ) → a < length h.blocks → (a == (heap_newblock b h).1) ≡ false
      not_last a lt = let (address, longer) = heap_newblock-address b h in rw address (ground arith)

  none_either : (same : Bool) (r : Option B) → r ≡ none → (if same then none else r) ≡ none
  none_either true r e = refl
  none_either false r e = e

  -- What a call of `heap_deallocblock` that returns leaves.
  heap_deallocblock_step :
      (h h' : Heap B) (err : Option Str) (x : ℕ)
      → IsWellFormed h
      → heap_deallocblock h x ≡ ok (h', err)
      → IsWellFormed h' × IsDead h' x × ((a : ℕ) → IsDead h a → IsDead h' a)
  heap_deallocblock_step h h' err x w e = elim (Option-cases (lookup h x)) [
    | inl unused ↦
        let same : h ≡ h' =
          ap (λ p. p.0) (ok_injective (sym (heap_deallocblock-not_in_use h x w lt unused) ∙ e)) in
        rw (← same) (w, (lt, unused), λ a d. d)
    | inr (b, here) ↦
        let (h₁, call, w₁, len, reads) = heap_deallocblock-in_use h x b w here in
        let same : h₁ ≡ h' = ap (λ p. p.0) (ok_injective (sym call ∙ e)) in
        rw (← same) (
          w₁,
          (omega (arith, len, lt), reads x ∙ rw (==_self x)),
          λ a (la, da). (omega (arith, len, la), reads a ∙ none_either (a == x) (lookup h a) da),
        )
  ]
    where
      lt : x < length h.blocks
      lt = heap_deallocblock-bound h x e

      ==_self : (n : ℕ) → (n == n) ≡ true
      ==_self n = ground arith

      ok_injective : {s t : Heap B × Option Str} → ok s ≡ ok t → s ≡ t
      ok_injective e = cc

  Step-IsDead :
      {h h' : Heap B}
      → Step h h'
      → IsWellFormed h
      → IsWellFormed h' × ((a : ℕ) → IsDead h a → IsDead h' a)
  Step-IsDead (allocates h b) w =
      ((heap_newblock_lem b h w).0, λ a d. heap_newblock-IsDead h b a w d)
  Step-IsDead (frees h h' err x e) w =
      let (w', dead, kept) = heap_deallocblock_step h h' err x w e in (w', kept)

  Steps-IsDead :
      {h h' : Heap B}
      → Steps h h'
      → IsWellFormed h
      → IsWellFormed h' × ((a : ℕ) → IsDead h a → IsDead h' a)
  Steps-IsDead (done h) w = (w, λ a d. d)
  Steps-IsDead (more h h' h'' s ss) w =
      let (w', kept) = Step-IsDead s w in
      let (w'', kept') = Steps-IsDead ss w' in (w'', λ a d. kept' a (kept a d))

  -- In any history of the heap, an address that was freed without an error is not in use ever
  -- after: reading it gives NULL, freeing it gives the error and leaves the heap as it is, and no
  -- new block gets it.
  pub heap_deallocblock-for_good :
      {h h' h'' : Heap B} (a : ℕ)
      → Steps heap_create h
      → heap_deallocblock h a ≡ ok (h', none)
      → Steps h' h''
      → (heap_getblock h'' a ≡ ok none)
        × (heap_deallocblock h'' a ≡ ok (h'', some (codes "double free")))
        × ((b : B) → (heap_newblock b h'').1 ≢ a)
  unfolding heap_create block_arr_create
  heap_deallocblock-for_good {h} {h'} {h''} a before freed after =
      let (w, kept) = Steps-IsDead before refl in
      let (w', dead, kept') = heap_deallocblock_step h h' none a w freed in
      let (w'', kept'') = Steps-IsDead after w' in
      let (lt, e) = kept'' a dead in
      (
        heap_getblock_lem h'' a w'' ∙ ap ok e,
        heap_deallocblock-not_in_use h'' a w'' lt e,
        λ b same. absurd (let (address, longer) = heap_newblock-address b h'' in omega arith),
      )
