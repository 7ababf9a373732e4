-- ===== src/State/Block/Observe.antt =====
-- `block_observe` of src/state/block.c at an offset of a value object, at the first offset of a range,
-- or at one that no object contains.
use xr.Prelude.{
  ℕ, ◌+◌, ◌<◌, ◌^◌, ◌≡◌, refl, ap, ◌∙◌, sym, inl, inr, Bool, true, false, ◌&&◌, ◌||◌, none, some,
  [], ◌∷◌, ◌++◌, arith, ok, ◌>>=◌, if◌then◌else◌, length, get_elem?, Bool-cases,
}
use mathlib.Core.Path.{subst}
use xr.Prelude.Int.{ℤ, pos, ◌+ℤ◌, leb_ℤ, ltb_ℤ, eqb_ℤ, eqb_ℤ_iff, +ℤ_parts}
use xr.Math.Compare.{origin}
use xr.Ast.Expr.{Expr, ast_expr_constant_create}
use xr.Ast.Expr.Eval.{constant_sum, value}
use xr.Value.Objects.{Object, unassigned, assigned, deallocand_range, object_isvalue}
use xr.Value.Objects.Extents.{object_lower}
use xr.Value.Objects.Arrays.{object_arr_insert, object_arr_append, object_arr_index}
use xr.State.Heap.{Heap}
use xr.State.Heap.Laws.{IsWellFormed}
use xr.State.Location.{location_dynamic}
use xr.State.Block.{Block, split_range, observe_at, block_observe}
use xr.State.Block.Closed.{is_closed, offset_value, closed_copy}
use xr.State.Block.Coverage.{
  ArePlaced, IsPlaced, size_expr, upper_expr, within, covers, covers-append, search_lem,
}
use xr.State.Block.Parts.{IsKept}
use xr.State.Block.Insertion.{append_nil, get-between, insert-between}
use xr.State.Block.Split.{singular, value_covers, split_lem}

-- Of a range, the location is the start of a block in use on the heap.
abbrev pub IsOwned : Heap Block → Object → Type 0
IsOwned h (deallocand_range offset r) = (r.loc.type ≡ location_dynamic) × IsKept h r.loc.block
IsOwned h _ = Unit

abbrev pub AreOwned : Heap Block → Block → Type 0
AreOwned h [] = Unit
AreOwned h (obj ∷ b) = IsOwned h obj × AreOwned h b

-- If the offset is one of a range, then it is its first.
abbrev pub IsStart : Expr → Object → Type 0
IsStart of (deallocand_range offset r) =
    within (deallocand_range offset r) (offset_value of) ≡ true
    → eqb_ℤ (offset_value offset) (offset_value of) ≡ true
IsStart of _ = Unit

abbrev pub AreStarts : Expr → Block → Type 0
AreStarts of [] = Unit
AreStarts of (obj ∷ b) = IsStart of obj × AreStarts of b

middle-IsStart :
    (of : Expr) (xs ys : Block) (obj : Object) → AreStarts of (xs ++ obj ∷ ys) → IsStart of obj
middle-IsStart of [] ys obj (o, os) = o
middle-IsStart of (x ∷ xs) ys obj (o, os) = middle-IsStart of xs ys obj os

middle-IsPlaced : (xs ys : Block) (obj : Object) → ArePlaced (xs ++ obj ∷ ys) → IsPlaced obj
middle-IsPlaced [] ys obj (p, ps) = p
middle-IsPlaced (x ∷ xs) ys obj (p, ps) = middle-IsPlaced xs ys obj ps

middle-IsOwned :
    (h : Heap Block) (xs ys : Block) (obj : Object) → AreOwned h (xs ++ obj ∷ ys) → IsOwned h obj
middle-IsOwned h [] ys obj (o, os) = o
middle-IsOwned h (x ∷ xs) ys obj (o, os) = middle-IsOwned h xs ys obj os

-- What an observation promises, of the block before.
pub record Observed (b : Block) (of : Expr) (h : Heap Block) (b' : Block) (h' : Heap Block) (at : ℕ)
    : Type 0 where
  pub object : Object
  pub answers : block_observe b of h true ≡ ok (b', h', some at)
  pub found : get_elem? b' at ≡ some object
  pub is_value : object_isvalue object ≡ true
  pub in_place : (x : ℤ) → within object x ≡ eqb_ℤ x (offset_value of)
  pub coverage : (x : ℤ) → covers b' x ≡ (covers b x || eqb_ℤ x (offset_value of))
  pub kept : IsWellFormed h'

one_place :
    (lo k x : ℤ)
    → (leb_ℤ lo k && ltb_ℤ k (lo +ℤ pos 1)) ≡ true
    → (leb_ℤ lo x && ltb_ℤ x (lo +ℤ pos 1)) ≡ eqb_ℤ x k
one_place lo k x h = ground (arith, +ℤ_parts lo (pos 1))

-- A value object that contains an offset is the object of that offset alone.
value_in_place :
    (obj : Object) (k x : ℤ)
    → object_isvalue obj ≡ true
    → within obj k ≡ true
    → within obj x ≡ eqb_ℤ x k
unfolding within upper_expr size_expr object_lower offset_value value ast_expr_constant_create
    object_isvalue
value_in_place (unassigned offset) k x v h = one_place (value origin offset) k x h
value_in_place (assigned offset w) k x v h = one_place (value origin offset) k x h
value_in_place (deallocand_range offset r) k x v h = cc

pub unassigned_covers : (of : Expr) (x : ℤ) → within (unassigned of) x ≡ eqb_ℤ x (offset_value of)
unfolding within upper_expr size_expr object_lower offset_value value ast_expr_constant_create
unassigned_covers of x = singular _ x

found_covers : (b : Block) (k x : ℤ) → covers b k ≡ true → covers b x ≡ (covers b x || eqb_ℤ x k)
found_covers b k x h = elim (Bool-cases (eqb_ℤ x k)) [
  | inl same ↦ let e : x ≡ k = (eqb_ℤ_iff x k).0 same in rw (same, e, h)
  | inr other ↦ rw other (or_false (covers b x))
]
  where
    or_false : (c : Bool) → c ≡ (c || false)
    or_false true = refl
    or_false false = refl

middle_covers :
    (xs ys : Block) (obj : Object) (k : ℤ) → within obj k ≡ true → covers (xs ++ obj ∷ ys) k ≡ true
unfolding covers
middle_covers xs ys obj k h = rw (covers-append xs (obj ∷ ys) k, h) (or_true (covers xs k))
  where
    or_true : (c : Bool) → (c || true) ≡ true
    or_true true = refl
    or_true false = refl

pub at_lem :
    (of : Expr) (h : Heap Block) (b : Block) (index : ℕ) (obj : Object)
    → object_arr_index b of ≡ ok (some index)
    → get_elem? b index ≡ some obj
    → block_observe b of h true ≡ (
        if object_isvalue obj
        then ok (b, h, some index)
        else (split_range b index obj of h >>= λ x. ok (x.0, x.1, some x.2)))
unfolding block_observe observe_at
at_lem of h b index obj there gets = rw (there, gets)

module _ (of : Expr) (h : Heap Block) (closed : is_closed of ≡ true)
    (small : constant_sum of + 1 < 2 ^ 31) (w : IsWellFormed h) where
  abbrev Answers : Block → Type 0
  Answers b = (b' : Block) × (h' : Heap Block) × (at : ℕ) × Observed b of h b' h' at

  append_lem : (b : Block) → object_arr_index b of ≡ ok none → Answers b
  unfolding block_observe covers object_isvalue object_arr_append
  append_lem b none_there = (
    b ++ unassigned of ∷ [],
    h,
    length b,
    record {
      object = unassigned of;
      answers = rw (
        none_there,
        closed_copy of closed,
        ap (λ a. object_arr_insert a (length b) (unassigned of)) (sym (append_nil b))
            ∙ insert-between b [] (unassigned of),
      );
      found = get-between b [] (unassigned of);
      is_value = refl;
      in_place = unassigned_covers of;
      coverage =
          λ x. rw (covers-append b (unassigned of ∷ []) x, unassigned_covers of x) (ground arith);
      kept = w;
    },
  )

  value_lem :
      (xs ys : Block) (obj : Object)
      → object_isvalue obj ≡ true
      → object_arr_index (xs ++ obj ∷ ys) of ≡ ok (some (length xs))
      → within obj (offset_value of) ≡ true
      → Answers (xs ++ obj ∷ ys)
  value_lem xs ys obj is_value there inside =
      let b = xs ++ obj ∷ ys in
      (
        b,
        h,
        length xs,
        record {
          object = obj;
          answers = at_lem of h b (length xs) obj there (get-between xs ys obj) ∙ rw is_value refl;
          found = get-between xs ys obj;
          is_value = is_value;
          in_place = λ x. value_in_place obj (offset_value of) x is_value inside;
          coverage = λ x.
              found_covers b (offset_value of) x (middle_covers xs ys obj (offset_value of) inside);
          kept = w;
        },
      )

  there_lem :
      (xs ys : Block) (obj : Object)
      → IsPlaced obj
      → IsOwned h obj
      → IsStart of obj
      → object_arr_index (xs ++ obj ∷ ys) of ≡ ok (some (length xs))
      → within obj (offset_value of) ≡ true
      → Answers (xs ++ obj ∷ ys)
  unfolding object_isvalue
  there_lem xs ys (deallocand_range offset r) p (dynamic, kept) start there inside =
      let b = xs ++ deallocand_range offset r ∷ ys in
      let (b', h', at, v, splits, gets, same, w') =
        split_lem offset of r h p closed small inside kept dynamic (start inside) xs ys in
      (
        b',
        h',
        at,
        record {
          object = assigned of v;
          answers =
              at_lem of h b (length xs) (deallocand_range offset r) there
                (get-between xs ys (deallocand_range offset r))
              ∙ rw splits;
          found = gets;
          is_value = refl;
          in_place = value_covers of v;
          coverage = λ x.
              same x
              ∙ found_covers b (offset_value of) x (middle_covers xs ys _ (offset_value of) inside);
          kept = w';
        },
      )
  there_lem xs ys (unassigned offset) p owned start there inside =
      value_lem xs ys (unassigned offset) refl there inside
  there_lem xs ys (assigned offset v) p owned start there inside =
      value_lem xs ys (assigned offset v) refl there inside

-- In a block whose objects have closed bounds, ranges at blocks in use of a heap with a flag for each
-- block, let a closed offset be given which, if it is one of a range, is its first. Its observation
-- returns; without overflow as the constants are small. It hands out a value object that lies at the
-- offset alone, the block covers the offset and what it covered before, and the heap has again a flag
-- for each block.
pub block_observe-Observed :
    (b : Block) (of : Expr) (h : Heap Block)
    → ArePlaced b
    → AreOwned h b
    → AreStarts of b
    → is_closed of ≡ true
    → constant_sum of + 1 < 2 ^ 31
    → IsWellFormed h
    → (b' : Block) × (h' : Heap Block) × (at : ℕ) × Observed b of h b' h' at
block_observe-Observed b of h placed owned starts closed small w =
    elim (search_lem of closed (omega (arith, small)) b placed) [
      | inl (e, c) ↦ append_lem of h closed small w b e
      | inr (xs, obj, ys, split, e, inside) ↦ subst (Answers of h closed small w) (sym split) (
          there_lem of h closed small w xs ys obj
            (middle-IsPlaced xs ys obj (subst ArePlaced split placed))
            (middle-IsOwned h xs ys obj (subst (AreOwned h) split owned))
            (middle-IsStart of xs ys obj (subst (AreStarts of) split starts))
            (subst (λ a. object_arr_index a of ≡ ok (some (length xs))) split
              (e ∙ ap (λ n. ok (some n)) (start (length xs))))
            inside)
    ]
  where
    start : (n : ℕ) → 0 + n ≡ n
    start n = omega arith
