-- ===== src/State/Block/Parts.antt =====
-- The parts into which `object_upto` and `object_from` of src/object/object.c divide a range, and the
-- heap from which they take new blocks.
use xr.Prelude.{
  ℕ, ◌+◌, ◌<◌, ◌^◌, ◌≡◌, refl, ap, ◌∙◌, inl, inr, Bool, true, false, ◌&&◌, ◌||◌, Option, none, some,
  [], ◌∷◌, arith, ok, abort, if◌then◌else◌, Bool-cases, pair_of_and, ◌==◌,
}
use xr.Prelude.Int.{ℤ, pos, ◌+ℤ◌, leb_ℤ, ltb_ℤ, eqb_ℤ, +ℤ_parts}
use xr.Ast.Expr.{
  Expr, binary, op_addition, op_subtraction, op_eq, op_le, op_ge, ast_expr_constant_create,
  ast_expr_matheval,
}
use xr.Ast.Expr.Eval.{constant_sum, holds, value}
use xr.Math.Compare.{origin}
use xr.Value.Objects.{
  Object, Range, deallocand_range, object_range_create, range_create, value_islocation,
  value_as_location,
}
use xr.Value.Objects.Extents.{object_lower}
use xr.State.Heap.{Heap, heap_newblock}
use xr.State.Heap.Laws.{IsWellFormed, lookup, heap_newblock_lem, heap_deallocblock-in_use}
use xr.State.Location.{Location, location_dynamic, location_type_eq, location_dealloc}
use xr.State.Block.{
  Block, block_create, alloc_location, range_at, object_upto, object_from, object_dealloc,
  state_dealloc,
}
use xr.State.Block.Closed.{is_closed, offset_value, closed_copy, closed_compare, gap}
use xr.State.Block.Coverage.{
  IsPlaced, size_expr, upper_expr, within, covers, upper_lem, upper_closed, upper_small,
}

-- The heap has a flag for each block, and the block at the address is in use.
abbrev pub IsKept : Heap Block → ℕ → Type 0
IsKept h a = IsWellFormed h × (c : Block) × (lookup h a ≡ some c)

-- The one object, if there is one.
abbrev pub as_block : Option Object → Block
as_block none = []
as_block (some obj) = obj ∷ []

some_either :
    (same : Bool) (b c : Block) → (d : Block) × ((if same then some b else some c) ≡ some d)
some_either true b c = (b, refl)
some_either false b c = (c, refl)

pub alloc-IsKept : (h : Heap Block) (a : ℕ) → IsKept h a → IsKept (alloc_location h).0 a
unfolding alloc_location
alloc-IsKept h a (w, c, e) =
    let (w', fresh, reads) = heap_newblock_lem block_create h w in
    let (d, is_d) = some_either (a == (heap_newblock block_create h).1) block_create c in
    (w', d, reads a ∙ rw e is_d)

pub dealloc_lem :
    (offset : Expr) (r : Range) (h : Heap Block)
    → r.loc.type ≡ location_dynamic
    → IsKept h r.loc.block
    → (h' : Heap Block) × (object_dealloc (deallocand_range offset r) h ≡ ok (h', none))
      × IsWellFormed h'
unfolding object_dealloc state_dealloc value_islocation value_as_location location_dealloc
    location_type_eq
dealloc_lem offset r h dynamic (w, c, e) =
    let (h', frees, w', n, reads) = heap_deallocblock-in_use h r.loc.block c w e in
    (h', rw (dynamic, frees), w')

-- The integers of the part below `k` of the range from `lo` on, and of the part from `n` on.
not_at : (k hi : ℤ) → ltb_ℤ k hi ≡ true → eqb_ℤ hi k ≡ false
not_at k hi h = ground arith

none_below : (lo k x : ℤ) → eqb_ℤ lo k ≡ true → false ≡ (leb_ℤ lo x && ltb_ℤ x k)
none_below lo k x h = ground arith

none_above : (n hi x : ℤ) → leb_ℤ hi n ≡ true → false ≡ (leb_ℤ n x && ltb_ℤ x hi)
none_above n hi x h = ground arith

beyond : (lo k : ℤ) → leb_ℤ lo k ≡ true → eqb_ℤ (k +ℤ pos 1) lo ≡ false
beyond lo k h = ground (arith, +ℤ_parts k (pos 1))

branches :
    (b : Bool) (x y : Heap Block × Option Object)
    → (if b then ok x else (if false then abort else ok y)) ≡ ok (if b then x else y)
branches true x y = refl
branches false x y = refl

range_at_lem :
    (offset size : Expr) (h : Heap Block)
    → range_at offset size h ≡ (
      (alloc_location h).0,
      some (deallocand_range offset (record { size = some size; loc = (alloc_location h).1 })),
    )
unfolding range_at object_range_create range_create
range_at_lem offset size h = refl

-- What a range covers whose size is the difference of its bounds.
range_covers :
    (lw up : Expr) (loc : Location) (x : ℤ)
    → covers
        (deallocand_range lw (record { size = some (binary up op_subtraction lw); loc = loc }) ∷ [])
        x
      ≡ (leb_ℤ (offset_value lw) x && ltb_ℤ x (offset_value up))
unfolding covers within upper_expr size_expr object_lower offset_value value
range_covers lw up loc x = rw (gap (value origin lw) (value origin up)) (or_false _)
  where
    or_false : (b : Bool) → (b || false) ≡ b
    or_false true = refl
    or_false false = refl

module _ (offset of : Expr) (r : Range) (h : Heap Block) (p : IsPlaced (deallocand_range offset r))
    (closed : is_closed of ≡ true) (small : constant_sum of + 1 < 2 ^ 31)
    (inside : within (deallocand_range offset r) (offset_value of) ≡ true)
    (kept : IsKept h r.loc.block) where
  abbrev whole : Object
  whole = deallocand_range offset r

  abbrev lo : ℤ
  lo = offset_value offset

  abbrev k : ℤ
  k = offset_value of

  abbrev hi : ℤ
  hi = offset_value (upper_expr whole)

  pub begun : leb_ℤ lo k ≡ true
  unfolding within object_lower
  begun = (pair_of_and (leb_ℤ lo k) (ltb_ℤ k hi) inside).0

  pub not_ended : ltb_ℤ k hi ≡ true
  unfolding within object_lower
  not_ended = (pair_of_and (leb_ℤ lo k) (ltb_ℤ k hi) inside).1

  -- Nothing, or a range from the start of the whole to the offset.
  upto_run :
      object_upto whole of h
      ≡ ok (if eqb_ℤ lo k then (h, none) else range_at offset (binary of op_subtraction offset) h)
  unfolding object_upto object_lower holds
  upto_run =
      let up = upper_expr whole in
      let up_closed = upper_closed whole p in
      let le : ast_expr_matheval (binary offset op_le of) ≡ ok true =
        closed_compare offset of op_le p.1 closed (omega (arith, p)) (omega (arith, small)) tt
        ∙ ap ok begun in
      let same =
        closed_compare offset of op_eq p.1 closed (omega (arith, p)) (omega (arith, small)) tt in
      let end : ast_expr_matheval (binary up op_eq of) ≡ ok false =
        closed_compare up of op_eq up_closed closed (upper_small whole p) (omega (arith, small)) tt
        ∙ ap ok (not_at k hi not_ended) in
      rw
        (
          upper_lem whole p,
          closed_copy offset p.1,
          closed_copy of closed,
          closed_copy up up_closed,
          le,
          same,
          end,
        )
        (branches (eqb_ℤ lo k) (h, none) (range_at offset (binary of op_subtraction offset) h))

  pub upto_start : eqb_ℤ lo k ≡ true → object_upto whole of h ≡ ok (h, none)
  upto_start at_start = upto_run ∙ rw at_start refl

  pub nothing_before :
      eqb_ℤ lo k ≡ true → (x : ℤ) → covers (as_block none) x ≡ (leb_ℤ lo x && ltb_ℤ x k)
  unfolding covers
  nothing_before at_start x = none_below lo k x at_start

  pub upto_later :
      eqb_ℤ lo k ≡ false
      → object_upto whole of h
        ≡ ok (
          (alloc_location h).0,
          some (
              deallocand_range offset (record {
                size = some (binary of op_subtraction offset);
                loc = (alloc_location h).1;
              })),
        )
  upto_later later =
      upto_run ∙ rw later (ap ok (range_at_lem offset (binary of op_subtraction offset) h))

  abbrev pub next : Expr
  next = binary of op_addition (ast_expr_constant_create (pos 1))

  next_closed : is_closed next ≡ true
  unfolding is_closed ast_expr_constant_create
  next_closed = rw closed refl

  next_small : constant_sum next < 2 ^ 31
  unfolding constant_sum ast_expr_constant_create
  next_small = omega (arith, small)

  next_value : offset_value next ≡ k +ℤ pos 1
  unfolding offset_value value ast_expr_constant_create
  next_value = refl

  -- Nothing, or a range from behind the offset to the end of the whole.
  from_run :
      object_from whole next h
      ≡ ok (
          if leb_ℤ hi (offset_value next)
          then (h, none)
          else range_at next (binary (upper_expr whole) op_subtraction next) h)
  unfolding object_from object_lower holds
  from_run =
      let up = upper_expr whole in
      let up_closed = upper_closed whole p in
      let ge =
        closed_compare next up op_ge next_closed up_closed next_small (upper_small whole p) tt in
      let same : ast_expr_matheval (binary next op_eq offset) ≡ ok false =
        closed_compare next offset op_eq next_closed p.1 next_small (omega (arith, p)) tt
        ∙ ap (λ n. ok (eqb_ℤ n lo)) next_value
        ∙ ap ok (beyond lo k begun) in
      rw
        (
          upper_lem whole p,
          closed_copy next next_closed,
          closed_copy up up_closed,
          closed_copy offset p.1,
          ge,
          same,
        )
        (branches (leb_ℤ hi (offset_value next)) (h, none)
          (range_at next (binary up op_subtraction next) h))

  pub from_lem :
      (h' : Heap Block) × (part : Option Object) × (object_from whole next h ≡ ok (h', part))
      × IsKept h' r.loc.block
      × ((x : ℤ) → covers (as_block part) x ≡ (leb_ℤ (k +ℤ pos 1) x && ltb_ℤ x hi))
  unfolding covers
  from_lem = elim (Bool-cases (leb_ℤ hi (offset_value next))) [
    | inl at_end ↦ (
      h,
      none,
      from_run ∙ rw at_end refl,
      kept,
      λ x.
          none_above (offset_value next) hi x at_end ∙ ap (λ n. leb_ℤ n x && ltb_ℤ x hi) next_value,
    )
    | inr before ↦ (
      (alloc_location h).0,
      some (
          deallocand_range next (record {
            size = some (binary (upper_expr whole) op_subtraction next);
            loc = (alloc_location h).1;
          })),
      from_run
          ∙ rw before (ap ok (range_at_lem next (binary (upper_expr whole) op_subtraction next) h)),
      alloc-IsKept h r.loc.block kept,
      λ x.
          range_covers next (upper_expr whole) (alloc_location h).1 x
          ∙ ap (λ n. leb_ℤ n x && ltb_ℤ x hi) next_value,
    )
  ]
