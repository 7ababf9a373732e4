-- ===== src/Util/Breaker.antt =====
-- `struct circuitbreaker` of src/util/util.c: the objects that a walk over the memory has already
-- seen. A pointer is the number of the object that it points to.
use xr.Prelude.{
  ℕ, ◌≡◌, refl, inl, inr, Bool, true, false, List, [], ◌∷◌, ◌++◌, arith, if◌then◌else◌, ◌||◌, ◌==◌,
  Bool-cases,
}

abbrev pub Breaker : Type 0
Breaker = List ℕ

unfoldable pub circuitbreaker_create : Breaker
circuitbreaker_create = []

-- The scan of `circuitbreaker_append` for an equal pointer.
unfoldable pub seen : Breaker → ℕ → Bool
seen [] obj = false
seen (o ∷ cb) obj = (o == obj) || seen cb obj

-- The new breaker, and whether the object was not there before.
unfoldable pub circuitbreaker_append : Breaker → ℕ → Breaker × Bool
unfolding seen
circuitbreaker_append cb obj = if seen cb obj then (cb, false) else (cb ++ obj ∷ [], true)

abbrev pub IsDistinct : Breaker → Type 0
IsDistinct [] = Unit
IsDistinct (o ∷ cb) = (seen cb o ≡ false) × IsDistinct cb

seen-append : (cb : Breaker) (o obj : ℕ) → seen (cb ++ o ∷ []) obj ≡ (seen cb obj || (o == obj))
unfolding seen
seen-append [] o obj = ground arith
seen-append (c ∷ cb) o obj = ground (arith, seen-append cb o obj)

IsDistinct-append :
    (cb : Breaker) (o : ℕ) → IsDistinct cb → seen cb o ≡ false → IsDistinct (cb ++ o ∷ [])
unfolding seen
IsDistinct-append [] o d h = (refl, tt)
IsDistinct-append (c ∷ cb) o d h =
    (rw (seen-append cb o c) (ground arith), IsDistinct-append cb o d.1 (ground arith))

-- Registering an object answers true exactly when the object is new; either way it is registered
-- afterwards, nothing else becomes registered, and no object is ever registered twice.
pub circuitbreaker_append_lem :
    (cb : Breaker) (obj : ℕ)
    → IsDistinct cb
    → let (cb', fresh) = circuitbreaker_append cb obj in
      (fresh ≡ (if seen cb obj then false else true))
      × ((o : ℕ) → seen cb' o ≡ (seen cb o || (obj == o)))
      × IsDistinct cb'
unfolding circuitbreaker_append
circuitbreaker_append_lem cb obj d = elim (Bool-cases (seen cb obj)) [
  | inl old ↦ rw old (refl, λ o. ground (arith), d)
  | inr new ↦ rw new (refl, λ o. seen-append cb obj o, IsDistinct-append cb obj d new)
]
