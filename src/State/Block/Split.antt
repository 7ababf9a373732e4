-- ===== src/State/Block/Split.antt =====
-- The end of `block_observe` of src/state/block.c: a range gives way to its part below the offset, a
-- value object, and its part above.
use xr.Prelude.{
  ℕ, ◌+◌, ◌<◌, ◌^◌, ◌≡◌, refl, ap, ◌∙◌, sym, Bool, true, false, ◌&&◌, ◌||◌, Option, none, some, [],
  ◌∷◌, ◌++◌, arith, ok, length, get_elem?,
}
use xr.Prelude.Int.{ℤ, pos, ◌+ℤ◌, leb_ℤ, ltb_ℤ, eqb_ℤ, +ℤ_parts}
use xr.Ast.Expr.{Expr, ast_expr_constant_create}
use xr.Ast.Expr.Eval.{constant_sum, value}
use xr.Value.Objects.{Object, Range, Value, assigned, deallocand_range}
use xr.Value.Objects.Extents.{object_lower}
use xr.State.Heap.{Heap}
use xr.State.Heap.Laws.{IsWellFormed}
use xr.State.Location.{location_dynamic}
use xr.State.Block.{Block, alloc_location, state_alloc, with_freed_size, object_upto, split_range}
use xr.State.Block.Closed.{is_closed, offset_value, closed_copy}
use xr.State.Block.Coverage.{IsPlaced, size_expr, upper_expr, within, covers, covers-append}
use xr.State.Block.Parts.{
  IsKept, as_block, alloc-IsKept, dealloc_lem, upto_start, nothing_before, from_lem, begun,
  not_ended,
}
use xr.State.Block.Insertion.{
  append_assoc, get-between, insert-between, remove-between, insert_if-between, insert_if-behind,
}

-- The range is what it was below the offset, the offset, and what it was above.
tiles :
    (lo k hi x : ℤ)
    → leb_ℤ lo k ≡ true
    → ltb_ℤ k hi ≡ true
    → ((leb_ℤ lo x && ltb_ℤ x k) || (eqb_ℤ x k || (leb_ℤ (k +ℤ pos 1) x && ltb_ℤ x hi)))
      ≡ (leb_ℤ lo x && ltb_ℤ x hi)
tiles lo k hi x h1 h2 = ground (arith, +ℤ_parts k (pos 1))

pub singular : (k x : ℤ) → (leb_ℤ k x && ltb_ℤ x (k +ℤ pos 1)) ≡ eqb_ℤ x k
singular k x = ground (arith, +ℤ_parts k (pos 1))

pub value_covers :
    (of : Expr) (v : Value) (x : ℤ) → within (assigned of v) x ≡ eqb_ℤ x (offset_value of)
unfolding within upper_expr size_expr object_lower offset_value value ast_expr_constant_create
value_covers of v x = singular _ x

-- What a block covers in which an object has been replaced by three parts of it.
replaced_covers :
    (xs ys : Block) (upto from : Option Object) (whole obs : Object) (x : ℤ)
    → (covers (as_block upto) x || (within obs x || covers (as_block from) x)) ≡ within whole x
    → covers (((xs ++ as_block upto) ++ obs ∷ as_block from) ++ ys) x ≡ covers (xs ++ whole ∷ ys) x
unfolding covers
replaced_covers xs ys upto from whole obs x e =
    rw
      (
        covers-append ((xs ++ as_block upto) ++ obs ∷ as_block from) ys x,
        covers-append (xs ++ as_block upto) (obs ∷ as_block from) x,
        covers-append xs (as_block upto) x,
        covers-append xs (whole ∷ ys) x,
        sym e,
      )
      (regroup (covers xs x) (covers (as_block upto) x) (within obs x) (covers (as_block from) x)
        (covers ys x))
  where
    regroup : (a b c d e : Bool) → (((a || b) || (c || d)) || e) ≡ (a || ((b || (c || d)) || e))
    regroup true b c d e = refl
    regroup false true c d e = refl
    regroup false false true d e = refl
    regroup false false false d e = refl

module _ (offset of : Expr) (r : Range) (h : Heap Block) (p : IsPlaced (deallocand_range offset r))
    (closed : is_closed of ≡ true) (small : constant_sum of + 1 < 2 ^ 31)
    (inside : within (deallocand_range offset r) (offset_value of) ≡ true)
    (kept : IsKept h r.loc.block) (dynamic : r.loc.type ≡ location_dynamic) where
  parts :
      (v : Value) (u f : Option Object) (x : ℤ)
      → covers (as_block u) x ≡ (leb_ℤ (offset_value offset) x && ltb_ℤ x (offset_value of))
      → covers (as_block f) x ≡ (
          leb_ℤ (offset_value of +ℤ pos 1) x
          && ltb_ℤ x (offset_value (upper_expr (deallocand_range offset r))))
      → (covers (as_block u) x || (within (assigned of v) x || covers (as_block f) x))
        ≡ within (deallocand_range offset r) x
  unfolding within object_lower
  parts v u f x e1 e2 =
      let lo = offset_value offset in
      let k = offset_value of in
      let hi = offset_value (upper_expr (deallocand_range offset r)) in
      rw (e1, value_covers of v x, e2)
        (tiles lo k hi x (begun offset of r h p closed small inside kept)
          (not_ended offset of r h p closed small inside kept))

  -- The split, where the part below and the heap after it are given.
  pub split_run :
      (h1 : Heap Block) (u : Option Object)
      → object_upto (deallocand_range offset r) of h ≡ ok (h1, u)
      → IsKept h1 r.loc.block
      → (xs ys : Block)
      → (f : Option Object) × (h' : Heap Block) × (split_range
            (xs ++ deallocand_range offset r ∷ ys)
            (length xs)
            (deallocand_range offset r)
            of
            h
          ≡ ok (
            ((xs ++ as_block (with_freed_size u)) ++ assigned of (state_alloc h1).1 ∷ as_block f)
                ++ ys,
            h',
            length (xs ++ as_block (with_freed_size u)),
          ))
        × ((x : ℤ)
            → covers (as_block f) x ≡ (
                leb_ℤ (offset_value of +ℤ pos 1) x
                && ltb_ℤ x (offset_value (upper_expr (deallocand_range offset r)))))
        × IsWellFormed h'
  unfolding split_range state_alloc
  split_run h1 u run1 kept1 xs ys =
      let whole = deallocand_range offset r in
      let below = with_freed_size u in
      let kept2 = alloc-IsKept h1 r.loc.block kept1 in
      let (h3, f, run3, kept3, covers3) =
        from_lem offset of r (alloc_location h1).0 p closed small inside kept2 in
      let (h4, frees, w4) = dealloc_lem offset r h3 dynamic kept3 in
      let obs = assigned of (state_alloc h1).1 in
      (
        f,
        h4,
        rw (
          closed_copy of closed,
          run1,
          closed_copy of closed,
          run3,
          frees,
          remove-between xs ys whole,
          insert_if-between below xs ys,
          insert-between (xs ++ as_block below) ys obs,
          insert_if-behind f (xs ++ as_block below) ys obs,
        ),
        covers3,
        w4,
      )

  -- At the start of the range there is no part below.
  pub split_lem :
      eqb_ℤ (offset_value offset) (offset_value of) ≡ true
      → (xs ys : Block)
      → (b' : Block) × (h' : Heap Block) × (at : ℕ) × (v : Value) × (split_range
            (xs ++ deallocand_range offset r ∷ ys)
            (length xs)
            (deallocand_range offset r)
            of
            h
          ≡ ok (b', h', at))
        × (get_elem? b' at ≡ some (assigned of v))
        × ((x : ℤ) → covers b' x ≡ covers (xs ++ deallocand_range offset r ∷ ys) x)
        × IsWellFormed h'
  unfolding with_freed_size
  split_lem at_start xs ys =
      let (f, h', run, above, w') =
        split_run h none (upto_start offset of r h p closed small inside kept at_start) kept xs
          ys in
      let v = (state_alloc h).1 in
      let obs = assigned of v in
      (
        ((xs ++ []) ++ obs ∷ as_block f) ++ ys,
        h',
        length (xs ++ []),
        v,
        run,
        ap (λ b. get_elem? b (length (xs ++ []))) (append_assoc (xs ++ []) (obs ∷ as_block f) ys)
            ∙ get-between (xs ++ []) (as_block f ++ ys) obs,
        λ x. replaced_covers xs ys none f (deallocand_range offset r) obs x (
            parts v none f x (nothing_before offset of r h p closed small inside kept at_start x)
              (above x)),
        w',
      )
