-- ===== src/Util/Error/Laws.antt =====
-- Wrapping an error of src/util/util.c does not hide the undecidable condition inside it.
use xr.Prelude.{◌≡◌, refl, [], ◌∷◌}
use xr.Prelude.Str.{Str}
use xr.Util.Error.{Error, alone, wrapping, error_printf, error_to_undecideable_cond}

module _ {ℓ} {C : Type ℓ} where
  -- An error formatted around one error by `%w` reports the same undecidable condition as that
  -- error, or none when that error reports none.
  pub error_to_undecideable_cond-error_printf :
      (s : Str) (e : Error C)
      → error_to_undecideable_cond (error_printf s (e ∷ [])) ≡ error_to_undecideable_cond e
  unfolding error_to_undecideable_cond error_printf
  error_to_undecideable_cond-error_printf s (alone c) = refl
  error_to_undecideable_cond-error_printf s (wrapping c e) = refl
