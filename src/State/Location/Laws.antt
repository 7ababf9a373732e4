-- ===== src/State/Location/Laws.antt =====
-- What src/state/location.c promises: copies, comparison, and freeing through a location.
use xr.Prelude.{
  ℕ, Bool, true, false, ◌&&◌, ◌≡◌, ◌↔◌, refl, ap, sym, ◌∙◌, ◌<◌, inl, inr, Option, none, some, ◌==◌,
  ==_iff, Run, ok, is_some, arith, Bool-cases, Option-cases, length, pair_of_and,
}
use xr.Prelude.Str.{Str, codes}
use xr.Ast.Expr.{Expr}
use xr.Ast.Expr.Copy.{is_copyable, copy_lem}
use xr.Ast.Expr.Equal.{is_comparable, plain, equal-decides}
use xr.State.Heap.{Heap, heap_getblock, heap_deallocblock}
use xr.State.Heap.Laws.{
  IsWellFormed, lookup, heap_getblock_lem, heap_deallocblock-in_use, heap_deallocblock-not_in_use,
  heap_deallocblock-bound,
}
use xr.State.Location.{
  LocationType, Location, location_static, location_vconst, location_dereferencable,
  location_automatic, location_dynamic, location_type_eq, offsetzero, copy_at, location_copy,
  location_with_offset, location_equal, location_toheap, location_dealloc,
}

-- The frame is set exactly in an automatic location.
abbrev pub IsFramed : LocationType → Option ℕ → Type 0
IsFramed location_automatic f = is_some f ≡ true
IsFramed _ f = is_some f ≡ false

copy_at_lem :
    (t : LocationType) (f : Option ℕ) (b : ℕ) (o : Expr)
    → IsFramed t f
    → copy_at t f b o ≡ ok (record { type = t; frame = f; block = b; offset = o })
unfolding copy_at
copy_at_lem location_static none b o h = refl
copy_at_lem location_vconst none b o h = refl
copy_at_lem location_dereferencable none b o h = refl
copy_at_lem location_dynamic none b o h = refl
copy_at_lem location_automatic (some f) b o h = refl
copy_at_lem location_static (some f) b o h = cc
copy_at_lem location_vconst (some f) b o h = cc
copy_at_lem location_dereferencable (some f) b o h = cc
copy_at_lem location_dynamic (some f) b o h = cc
copy_at_lem location_automatic none b o h = cc

pub location_copy_id :
    (l : Location) → IsFramed l.type l.frame → is_copyable l.offset ≡ true → location_copy l ≡ ok l
unfolding location_copy
location_copy_id l framed c =
    rw (copy_lem l.offset c) (copy_at_lem l.type l.frame l.block l.offset framed)

-- A location whose frame is set exactly if it is automatic, and whose offset can be copied, is
-- copied to an equal one; if its offset is 0, it moves to any offset that can be copied, and stays
-- the same otherwise.
pub location_copy-with_offset :
    (l : Location) (offset : Expr)
    → IsFramed l.type l.frame
    → is_copyable l.offset ≡ true
    → is_copyable offset ≡ true
    → (location_copy l ≡ ok l)
      × (offsetzero l ≡ ok true → location_with_offset l offset ≡ ok (record l { offset = offset }))
unfolding location_copy location_with_offset
location_copy-with_offset l offset framed c c' =
    let copied = copy_at_lem l.type l.frame l.block l.offset framed in
    (rw (copy_lem l.offset c) copied, λ z. rw (z, copy_lem l.offset c, copied, copy_lem offset c'))

type_eq_iff : (s t : LocationType) → (location_type_eq s t ≡ true) ↔ (s ≡ t)
unfolding location_type_eq
type_eq_iff s t = ground arith

-- Where the offset is of the kinds that can be compared, comparing a location with any location
-- answers, and answers true exactly when the kinds of the locations, their blocks and, up to the
-- difference between character and integer constants, their offsets are the same: whatever the
-- frames of automatic locations are.
pub location_equal-decides :
    (l1 l2 : Location)
    → is_comparable l1.offset ≡ true
    → (b : Bool) × (location_equal l1 l2 ≡ ok b)
      × ((b ≡ true)
          ↔ ((l1.type ≡ l2.type) × (l1.block ≡ l2.block) × (plain l1.offset ≡ plain l2.offset)))
unfolding location_equal
location_equal-decides l1 l2 c =
    elim (Bool-cases (location_type_eq l1.type l2.type && (l1.block == l2.block))) [
      | inl same ↦
          let (b, answers, iff) = equal-decides l1.offset l2.offset c in
          let (t, n) = pair_of_and (location_type_eq l1.type l2.type) (l1.block == l2.block) same in
          (
            b,
            rw same answers,
            (
              λ e. ((type_eq_iff l1.type l2.type).0 t, (==_iff l1.block l2.block).0 n, iff.0 e),
              λ (_, _, o). iff.1 o,
            ),
          )
      | inr differ ↦ (
        false,
        rw differ,
        (
          λ e. absurd (false_true e),
          λ (t, n, _). absurd (
              both_differ ((type_eq_iff l1.type l2.type).1 t) ((==_iff l1.block l2.block).1 n)
                differ),
        ),
      )
    ]
  where
    false_true : false ≡ true → ⊥
    false_true e = cc

    both_differ : {a b : Bool} → a ≡ true → b ≡ true → (a && b) ≡ false → ⊥
    both_differ {a = true} {b = true} ea eb e = cc
    both_differ {a = true} {b = false} ea eb e = cc
    both_differ {a = false} ea eb e = cc

module _ {B : Type 0} where
  freed_lem :
      (h h' : Heap B) (a : ℕ)
      → IsWellFormed h
      → heap_deallocblock h a ≡ ok (h', none)
      → ((b : B) × (heap_getblock h a ≡ ok (some b)))
        × (heap_getblock h' a ≡ ok none)
        × (heap_deallocblock h' a ≡ ok (h', some (codes "double free")))
  freed_lem h h' a w e = elim (Option-cases (lookup h a)) [
    | inl unused ↦ absurd (
        no_error
          (sym (heap_deallocblock-not_in_use h a w (heap_deallocblock-bound h a e) unused) ∙ e))
    | inr (b, here) ↦
        let (h₁, call, w₁, len, reads) = heap_deallocblock-in_use h a b w here in
        let same : h₁ ≡ h' = heap_of (sym call ∙ e) in
        let gone : lookup h₁ a ≡ none = reads a ∙ rw (==_self a) in
        rw (← same) (
          (b, heap_getblock_lem h a w ∙ ap ok here),
          heap_getblock_lem h₁ a w₁ ∙ ap ok gone,
          heap_deallocblock-not_in_use h₁ a w₁ (inside len) gone,
        )
  ]
    where
      no_error :
          ◌≡◌ {A = Run (Heap B × Option Str)} (ok (h, some (codes "double free"))) (ok (h', none))
          → ⊥
      no_error e = cc

      heap_of :
          {h₁ : Heap B}
          → ◌≡◌ {A = Run (Heap B × Option Str)} (ok (h₁, none)) (ok (h', none))
          → h₁ ≡ h'
      heap_of e = cc

      ==_self : (n : ℕ) → (n == n) ≡ true
      ==_self n = ground arith

      inside : {n : ℕ} → n ≡ length h.blocks → a < n
      inside len = let lt = heap_deallocblock-bound h a e in omega (arith, lt, len)

  -- In a heap with a flag for each block, a block that is freed through a location without an error
  -- was on the heap and in use there; it is not any more, and freeing it again is the error that
  -- leaves the heap as it is.
  pub location_dealloc-toheap :
      (l : Location) (h h' : Heap B)
      → IsWellFormed h
      → location_dealloc l h ≡ ok (h', none)
      → (location_toheap l h ≡ ok true)
        × (location_toheap l h' ≡ ok false)
        × (location_dealloc l h' ≡ ok (h', some (codes "double free")))
  unfolding location_dealloc location_toheap
  location_dealloc-toheap l h h' w e =
      elim (Bool-cases (location_type_eq l.type location_dynamic)) [
        | inl dynamic ↦
            let e' : heap_deallocblock h l.block ≡ ok (h', none) = rw dynamic at e in
            let ((b, before), after, again) = freed_lem h h' l.block w e' in
            (rw (before, dynamic), rw (after, dynamic), rw dynamic again)
        | inr other ↦ absurd (not_none (rw other at e))
      ]
    where
      not_none :
          ◌≡◌ {A = Run (Heap B × Option Str)}
            (ok (h, some (codes "not heap location")))
            (ok (h', none))
          → ⊥
      not_none e = cc
