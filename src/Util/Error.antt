-- ===== src/Util/Error.antt =====
-- `struct error` of src/util/util.c: a chain of errors, each wrapping the one inside it. The type of
-- the conditions that an error may report as undecidable is a parameter; in the program it is
-- `struct ast_expr`.
pub mod Laws
use xr.Prelude.{Bool, true, false, Option, none, some, List, [], ◌∷◌, if◌then◌else◌, Run, ok, abort}
use xr.Prelude.Str.{Str, codes}

pub data ErrorType : Type 0 where
  error_printf_type error_undecideable_cond_type : ErrorType

module _ {ℓ} (C : Type ℓ) where
  -- `union error_contents` with its tag; `overwritten` has the tag of a condition and a text in the
  -- place of it.
  pub data Contents : Type ℓ where
    printf : Str → Contents
    undecidable_cond : C → Contents
    overwritten : Contents

  -- `inner` is NULL in `alone`.
  pub data Error : Type ℓ where
    alone : Contents → Error
    wrapping : Contents → Error → Error

unfoldable pub type_eq : ErrorType → ErrorType → Bool
type_eq error_printf_type error_printf_type = true
type_eq error_undecideable_cond_type error_undecideable_cond_type = true
type_eq _ _ = false

module _ {ℓ} {C : Type ℓ} where
  unfoldable pub contents_type : Contents C → ErrorType
  contents_type (printf s) = error_printf_type
  contents_type (undecidable_cond c) = error_undecideable_cond_type
  contents_type overwritten = error_undecideable_cond_type

  unfoldable pub error_to : Error C → ErrorType → Option (Error C)
  unfolding type_eq contents_type
  error_to (alone c) t = if type_eq (contents_type c) t then some (alone c) else none
  error_to (wrapping c inner) t =
      let rest = error_to inner t in
      if type_eq (contents_type c) t then some (wrapping c inner) else rest

  -- The error that the call returns: it descends to the end of the chain and returns that end.
  unfoldable pub error_nest : Error C → Error C → Error C
  error_nest (alone c) inner = wrapping c inner
  error_nest (wrapping c e) inner = error_nest e inner

  -- The tag stays as it is.
  unfoldable pub overwrite : Str → Contents C → Contents C
  overwrite s (printf t) = printf s
  overwrite s (undecidable_cond c) = overwritten
  overwrite s overwritten = overwritten

  -- `err->contents.printf = s`
  unfoldable pub set_printf : Str → Error C → Error C
  unfolding overwrite
  set_printf s (alone c) = alone (overwrite s c)
  set_printf s (wrapping c e) = wrapping (overwrite s c) e

  -- The `%w` arguments, in order.
  unfoldable pub nest_each : Error C → List (Error C) → Error C
  unfolding error_nest
  nest_each err [] = err
  nest_each err (w ∷ ws) = nest_each (error_nest err w) ws

  -- `s` is the text that the format and its arguments print, `ws` the errors of its `%w`s.
  unfoldable pub error_printf : Str → List (Error C) → Error C
  unfolding set_printf nest_each
  error_printf s ws = set_printf s (nest_each (alone (printf [])) ws)

  unfoldable pub error_undecideable_cond : C → Error C
  error_undecideable_cond c = alone (undecidable_cond c)

  unfoldable pub error_to_undecideable_cond : Error C → Option (Error C)
  unfolding error_to
  error_to_undecideable_cond err = error_to err error_undecideable_cond_type

  unfoldable pub error_contents : Error C → Contents C
  error_contents (alone c) = c
  error_contents (wrapping c e) = c

  unfoldable pub error_get_undecideable_cond : Error C → Run C
  unfolding error_contents
  error_get_undecideable_cond err = elim (error_contents err) [
    | printf s ↦ abort
    | undecidable_cond c ↦ ok c
    | overwritten ↦ abort
  ]

  unfoldable pub error_str : Error C → Str
  unfolding error_contents
  error_str err = elim (error_contents err) [
    | printf s ↦ s
    | undecidable_cond c ↦ codes "undecideable condition"
    | overwritten ↦ codes "undecideable condition"
  ]
