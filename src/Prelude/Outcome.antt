-- ===== src/Prelude/Outcome.antt =====
-- The outcome of code that may stop the program: a failed `assert`, or an operation whose result C
-- leaves undefined (signed overflow, a read outside an array), is `abort`.
use mathlib.Core.Path.{◌≡◌, refl, ap}
use mathlib.Core.Bool.{Bool, true, false}

pub data Run {ℓ} (A : Type ℓ) : Type ℓ where
  ok : A → Run A
  abort : Run A

infixl 5 ◌>>=◌ ◌>>◌
abbrev pub ◌>>=◌ {ℓ κ} : {S : Type ℓ} {T : Type κ} → Run S → (S → Run T) → Run T
abort >>= next = abort
ok s >>= next = next s

abbrev pub ◌>>◌ {ℓ} : {T : Type ℓ} → Run (Unit {0}) → Run T → Run T
first >> second = first >>= λ _. second

-- C's `assert`.
abbrev pub assert : Bool → Run (Unit {0})
assert false = abort
assert true = ok tt

-- A sequence that goes well: so did its first step, and the rest from there.
pub bind-eq-ok {ℓ κ} :
    {S : Type ℓ} {T : Type κ} (first : Run S) (next : S → Run T) {t : T}
    → (first >>= next) ≡ ok t
    → (s : S) × (first ≡ ok s) × (next s ≡ ok t)
bind-eq-ok abort next done = cc
bind-eq-ok (ok s) next done = (s, refl, done)

pub ok_injective {ℓ} : {T : Type ℓ} {a b : T} → ok a ≡ ok b → a ≡ b
ok_injective h = cc

-- Two equal pairs have equal parts.
pub ok_pair_injective {ℓ κ} :
    {S : Type ℓ} {T : Type κ} {a c : S} {b d : T}
    → ◌≡◌ {A = Run (S × T)} (ok (a, b)) (ok (c, d))
    → (a ≡ c) × (b ≡ d)
ok_pair_injective h = (ap (λ p. p.0) (ok_injective h), ap (λ p. p.1) (ok_injective h))
