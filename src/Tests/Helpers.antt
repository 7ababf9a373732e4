-- ===== src/Tests/Helpers.antt =====
-- src/util/util.c at concrete inputs.
use xr.Prelude.{ℕ, ◌≡◌, refl, true, false, some, [], ◌∷◌, ◌||◌, ◌==◌, if◌then◌else◌}
use xr.Prelude.Str.{codes, str_eq}
use xr.Util.Map.{Map, entry, map_get, map_set}
use xr.Util.Map.Laws.{map_get-map_set}
use xr.Util.Breaker.{seen, circuitbreaker_append, circuitbreaker_append_lem, IsDistinct}
use xr.Util.Error.{Error, alone, undecidable_cond, error_printf, error_to_undecideable_cond}
use xr.Util.Error.Laws.{error_to_undecideable_cond-error_printf}

abbrev ages : Map ℕ
ages = entry (codes "a") 3 ∷ entry (codes "b") 5 ∷ []

map_get-map_set_example :
    map_get (map_set ages (codes "b") 7) (codes "a")
    ≡ (if str_eq (codes "b") (codes "a") then some 7 else map_get ages (codes "a"))
map_get-map_set_example = map_get-map_set ages (codes "b") (codes "a") 7

circuitbreaker_append_lem_example :
    let (cb', fresh) = circuitbreaker_append (4 ∷ 7 ∷ []) 9 in
    (fresh ≡ (if seen (4 ∷ 7 ∷ []) 9 then false else true))
    × ((o : ℕ) → seen cb' o ≡ (seen (4 ∷ 7 ∷ []) o || (9 == o)))
    × IsDistinct cb'
unfolding seen
circuitbreaker_append_lem_example = circuitbreaker_append_lem (4 ∷ 7 ∷ []) 9 (refl, (refl, tt))

abbrev undecided : Error ℕ
undecided = alone (undecidable_cond 6)

error_to_undecideable_cond-error_printf_example :
    error_to_undecideable_cond (error_printf (codes "cannot step") (undecided ∷ []))
    ≡ error_to_undecideable_cond undecided
error_to_undecideable_cond-error_printf_example =
    error_to_undecideable_cond-error_printf (codes "cannot step") undecided
