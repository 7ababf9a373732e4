-- ===== src/Math/Compare.antt =====
-- What the comparisons of src/math/math.c decide.
use xr.Prelude.{
  ℕ, ◌+◌, ◌≡◌, refl, ap, ◌↔◌, Bool, true, false, ◌&&◌, [], ◌∷◌, arith, ◌==◌, length, ok,
  if◌then◌else◌,
}
use xr.Prelude.Int.{
  ℤ, pos, pos_part, neg_part, ◌+ℤ◌, ◌≤ℤ◌, ◌<ℤ◌, leb_ℤ, ltb_ℤ, eqb_ℤ, int_laws, *ℤ_zero, leb_ℤ_iff,
}
use xr.Prelude.Str.{Str, str_eq, str_eq_refl, str_eq_comm}
use xr.Util.Map.{Map}
use xr.Math.{MathExpr, atom, variable, Tally, math_le, math_eq, math_lt, math_gt}
use xr.Math.Meaning.{
  Env, eval, total, IsSmall, occurrence_count, magnitude, TallyOf, variables, map_keys,
}
use xr.Math.Tallies.{tally_lem}

ok_injective {ℓ} : {A : Type ℓ} (a b : A) → ok a ≡ ok b → a ≡ b
ok_injective a b h = cc

leb_ℤ→le : (a b : ℤ) → leb_ℤ a b ≡ true → a ≤ℤ b
leb_ℤ→le a b h = (leb_ℤ_iff a b).0 h

le→leb_ℤ : (a b : ℤ) → a ≤ℤ b → leb_ℤ a b ≡ true
le→leb_ℤ a b h = (leb_ℤ_iff a b).1 h

variable-IsSmall : {x : Str} → IsSmall (atom (variable x))
unfolding occurrence_count magnitude
variable-IsSmall = record { few = omega arith; light = omega arith }

-- Every variable is zero.
abbrev pub origin : Env
origin x = pos 0

total-origin : (m : Map ℤ) → total origin m ≡ pos 0
unfolding total
total-origin [] = refl
total-origin (e ∷ m) = rw (*ℤ_zero, total-origin m) (omega int_laws)

num-origin : (e : MathExpr) (t : Tally) → TallyOf e t → t.num ≡ eval origin e
num-origin e t o =
    let at_origin : total origin t.map +ℤ t.num ≡ eval origin e = o.meaning origin in
    omega (
      int_laws,
      ap pos_part at_origin,
      ap neg_part at_origin,
      ap pos_part (total-origin t.map),
      ap neg_part (total-origin t.map),
    )

length-keys : (m : Map ℤ) → length m ≡ length (map_keys m)
length-keys [] = refl
length-keys (e ∷ m) = omega (arith, length-keys m)

-- As many different variables on both sides.
abbrev pub same_number : MathExpr → MathExpr → Bool
same_number e1 e2 = length (variables e1) == length (variables e2)

-- `math_le` returns, and answers true exactly when both sides have as many different variables and
-- the left side is at most the right side where every variable is zero.
pub math_le_lem :
    (e1 e2 : MathExpr)
    → IsSmall e1
    → IsSmall e2
    → math_le e1 e2 ≡ ok (same_number e1 e2 && leb_ℤ (eval origin e1) (eval origin e2))
unfolding math_le
math_le_lem e1 e2 s1 s2 =
    let (t1, runs1, o1) = tally_lem e1 s1 in
    let (t2, runs2, o2) = tally_lem e2 s2 in
    rw (
      runs1,
      runs2,
      length-keys t1.map,
      length-keys t2.map,
      o1.keys,
      o2.keys,
      num-origin e1 t1 o1,
      num-origin e2 t2 o2,
    )

module _ (e1 e2 : MathExpr) (s1 : IsSmall e1) (s2 : IsSmall e2) where
  pub math_eq_lem :
      math_eq e1 e2 ≡ ok (same_number e1 e2 && eqb_ℤ (eval origin e1) (eval origin e2))
  unfolding math_eq
  math_eq_lem = rw (math_le_lem e1 e2 s1 s2, math_le_lem e2 e1 s2 s1) (ground arith)

module _ (e1 e2 : MathExpr) (s1 : IsSmall e1) (s2 : IsSmall e2) where
  pub math_lt_lem :
      math_lt e1 e2 ≡ ok (same_number e1 e2 && ltb_ℤ (eval origin e1) (eval origin e2))
  unfolding math_lt
  math_lt_lem = rw (math_le_lem e1 e2 s1 s2, math_eq_lem e1 e2 s1 s2) (ground arith)

-- Two small expressions with as many different variables, whose difference is a number that does
-- not depend on the variables: `math_le` answers true exactly when the left side is at most
-- the right side under every assignment of integers to the variables.
pub math_le-decides :
    (e1 e2 : MathExpr) (d : ℤ)
    → IsSmall e1
    → IsSmall e2
    → same_number e1 e2 ≡ true
    → ((ρ : Env) → eval ρ e1 +ℤ d ≡ eval ρ e2)
    → (math_le e1 e2 ≡ ok true) ↔ ((ρ : Env) → eval ρ e1 ≤ℤ eval ρ e2)
math_le-decides e1 e2 d s1 s2 same apart =
    rw (math_le_lem e1 e2 s1 s2, same)
      (
        (λ h ρ. omega (
          int_laws,
          leb_ℤ→le (eval origin e1) (eval origin e2) (ok_injective _ _ h),
          ap pos_part (apart origin),
          ap neg_part (apart origin),
          ap pos_part (apart ρ),
          ap neg_part (apart ρ),
        )),
        λ all. ap ok (le→leb_ℤ (eval origin e1) (eval origin e2) (all origin)),
      )

-- `x ≤ y` is answered true for any two different variables, although there are values at which
-- `y < x`: the loop over the counts cannot make `math_le` answer false.
pub math_le-unsound :
    (x y : Str)
    → str_eq x y ≡ false
    → (math_le (atom (variable x)) (atom (variable y)) ≡ ok true)
      × ((ρ : Env) × (eval ρ (atom (variable y)) <ℤ eval ρ (atom (variable x))))
unfolding eval variables
math_le-unsound x y differ = (
  math_le_lem (atom (variable x)) (atom (variable y)) variable-IsSmall variable-IsSmall,
  (
    (λ z. if str_eq z x then pos 1 else pos 0),
    rw (str_eq_refl x, str_eq_comm y x, differ) (omega arith),
  ),
)

abbrev pub bit : Bool → ℕ
bit b = if b then 1 else 0

-- On small expressions `math_lt`, `math_eq` and `math_gt` all answer, and exactly one of them answers
-- true if both sides have as many different variables; otherwise none does.
pub math_trichotomy :
    (e1 e2 : MathExpr)
    → IsSmall e1
    → IsSmall e2
    → (lt eq gt : Bool) × (math_lt e1 e2 ≡ ok lt)
      × (math_eq e1 e2 ≡ ok eq)
      × (math_gt e1 e2 ≡ ok gt)
      × (bit lt + bit eq + bit gt ≡ bit (same_number e1 e2))
unfolding math_gt
math_trichotomy e1 e2 s1 s2 = (
  _,
  _,
  _,
  math_lt_lem e1 e2 s1 s2,
  math_eq_lem e1 e2 s1 s2,
  math_lt_lem e2 e1 s2 s1,
  ground arith,
)
