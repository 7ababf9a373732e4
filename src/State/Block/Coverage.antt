-- ===== src/State/Block/Coverage.antt =====
-- The offsets that the objects of a block cover, and the search of src/object/object.c for them.
use xr.Prelude.{
  ℕ, suc, ◌+◌, ◌<◌, ◌^◌, ◌≡◌, refl, ap, ◌∙◌, ◌⊎◌, inl, inr, Bool, true, false, ◌&&◌, ◌||◌, Option,
  none, some, [], ◌∷◌, ◌++◌, arith, ok, abort, ◌>>=◌, Run, length, Bool-cases, is_some,
}
use xr.Prelude.Int.{ℤ, pos, leb_ℤ, ltb_ℤ}
use xr.Math.{and_run}
use xr.Ast.Expr.{Expr, binary, op_addition, op_le, op_lt, ast_expr_copy, ast_expr_constant_create}
use xr.Ast.Expr.Eval.{constant_sum, holds}
use xr.Value.Objects.{Object, unassigned, assigned, deallocand_range}
use xr.Value.Objects.Extents.{object_size, object_lower, object_upper, object_contains}
use xr.Value.Objects.Arrays.{index_from, object_arr_index}
use xr.State.Block.{Block}
use xr.State.Block.Closed.{is_closed, offset_value, closed_copy, closed_compare}

-- A range without a size has no offset.
unfoldable pub size_expr : Object → Expr
size_expr (deallocand_range offset r) = elim r.size [
  | none ↦ ast_expr_constant_create (pos 0)
  | some size ↦ size
]
size_expr _ = ast_expr_constant_create (pos 1)

-- Nothing that has been freed is read for the object's size.
unfoldable pub has_size : Object → Bool
has_size (deallocand_range offset r) = is_some r.size
has_size _ = true

-- The expression for the object's end.
unfoldable pub upper_expr : Object → Expr
unfolding object_lower size_expr
upper_expr obj = binary (object_lower obj) op_addition (size_expr obj)

-- The bounds can be read, are closed, and so small that no `int` overflows.
abbrev pub IsPlaced : Object → Type 0
IsPlaced obj =
    (has_size obj ≡ true)
    × (is_closed (object_lower obj) ≡ true)
    × (is_closed (size_expr obj) ≡ true)
    × (constant_sum (object_lower obj) + constant_sum (size_expr obj) < 2 ^ 31)

abbrev pub ArePlaced : Block → Type 0
ArePlaced [] = Unit
ArePlaced (obj ∷ b) = IsPlaced obj × ArePlaced b

-- The offset is one of the object's.
unfoldable pub within : Object → ℤ → Bool
unfolding object_lower upper_expr
within obj x = leb_ℤ (offset_value (object_lower obj)) x && ltb_ℤ x (offset_value (upper_expr obj))

-- The offset is one of an object of the block.
unfoldable pub covers : Block → ℤ → Bool
unfolding within
covers [] x = false
covers (obj ∷ b) x = within obj x || covers b x

pub covers-append : (b c : Block) (x : ℤ) → covers (b ++ c) x ≡ (covers b x || covers c x)
unfolding covers
covers-append [] c x = refl
covers-append (obj ∷ b) c x = rw (covers-append b c x) (ground arith)

pub upper_closed : (obj : Object) → IsPlaced obj → is_closed (upper_expr obj) ≡ true
unfolding is_closed upper_expr
upper_closed obj (has, lw, size, small) = rw (lw, size)

pub upper_small : (obj : Object) → IsPlaced obj → constant_sum (upper_expr obj) < 2 ^ 31
unfolding constant_sum upper_expr
upper_small obj (has, lw, size, small) = small

size_lem :
    (obj : Object)
    → has_size obj ≡ true
    → is_closed (size_expr obj) ≡ true
    → object_size obj ≡ ok (size_expr obj)
unfolding object_size size_expr has_size
size_lem (unassigned offset) has h = refl
size_lem (assigned offset v) has h = refl
size_lem (deallocand_range offset r) has h = of_size r.size has h
  where
    of_size :
        (size : Option Expr)
        → is_some size ≡ true
        → is_closed (elim size [ none ↦ ast_expr_constant_create (pos 0) | some e ↦ e ]) ≡ true
        → ((elim size as (λ _. Run Expr) [ none ↦ abort | some e ↦ ok e ]) >>= ast_expr_copy)
          ≡ ok (elim size [ none ↦ ast_expr_constant_create (pos 0) | some e ↦ e ])
    of_size none has h = cc
    of_size (some e) has h = closed_copy e h

pub upper_lem : (obj : Object) → IsPlaced obj → object_upper obj ≡ ok (upper_expr obj)
unfolding object_upper upper_expr
upper_lem obj (has, lw, size, small) = rw (closed_copy (object_lower obj) lw, size_lem obj has size)

and_run_ok : (a b : Bool) → and_run (ok a) (ok b) ≡ ok (a && b)
and_run_ok true b = refl
and_run_ok false b = refl

module _ (of : Expr) (closed : is_closed of ≡ true) (small : constant_sum of < 2 ^ 31) where
  pub contains_lem :
      (obj : Object) → IsPlaced obj → object_contains obj of ≡ ok (within obj (offset_value of))
  unfolding object_contains within holds
  contains_lem obj p =
      let up = upper_expr obj in
      let up_closed = upper_closed obj p in
      rw
        (
          upper_lem obj p,
          closed_copy (object_lower obj) p.1,
          closed_copy of closed,
          closed_copy up up_closed,
          closed_compare (object_lower obj) of op_le p.1 closed (omega (arith, p)) small tt,
          closed_compare of up op_lt closed up_closed small (upper_small obj p) tt,
        )
        (and_run_ok _ _)

  -- The first object that contains the offset, with what stands before and after it; or none does.
  abbrev pub Search : Block → ℕ → Run (Option ℕ) → Type 0
  Search b i answer =
      ((answer ≡ ok none) × (covers b (offset_value of) ≡ false))
      ⊎ (xs : Block) × (obj : Object) × (ys : Block) × (b ≡ xs ++ obj ∷ ys)
        × (answer ≡ ok (some (i + length xs)))
        × (within obj (offset_value of) ≡ true)

  index_from_lem :
      (i : ℕ) (b : Block)
      → ArePlaced b
      → Search b i (index_from (λ obj. object_contains obj of) i b)
  unfolding index_from covers
  index_from_lem i [] p = inl (refl, refl)
  index_from_lem i (obj ∷ b) (p, ps) = elim (Bool-cases (within obj (offset_value of))) [
    | inl found ↦ inr (
      [],
      obj,
      b,
      refl,
      rw (contains_lem obj p, found) (ap (λ k. ok (some k)) (omega arith)),
      found,
    )
    | inr not_here ↦ elim (index_from_lem (suc i) b ps) [
      | inl (e, c) ↦ inl (rw (contains_lem obj p, not_here) e, rw not_here c)
      | inr (xs, o, ys, split, e, w) ↦ inr (
        obj ∷ xs,
        o,
        ys,
        ap (λ l. obj ∷ l) split,
        rw (contains_lem obj p, not_here) (e ∙ ap (λ k. ok (some k)) (omega arith)),
        w,
      )
    ]
  ]

  pub search_lem : (b : Block) → ArePlaced b → Search b 0 (object_arr_index b of)
  unfolding object_arr_index
  search_lem b p = index_from_lem 0 b p
