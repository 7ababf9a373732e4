-- ===== src/Math/Simplify.antt =====
-- `math_expr_simplify` of src/math/math.c keeps the value of an expression.
use xr.Prelude.{
  ℕ, zero, suc, ◌-◌, ◌<◌, ◌^◌, ◌≡◌, refl, ◌∙◌, sym, inl, inr, true, false, Option, none, some, [],
  ◌∷◌, arith, ok, ◌>>=◌, Bool-cases, if◌then◌else◌,
}
use xr.Prelude.Int.{
  ℤ, pos, negsuc, ◌+ℤ◌, ◌*ℤ◌, neg, eqb_ℤ, eqb_ℤ_iff, ltb_ℤ, int_laws, as_int_small, to_int_small,
  neg-*ℤ, zero-*ℤ, one-*ℤ, +ℤ_right_distrib,
}
use xr.Prelude.Str.{Str}
use xr.Util.Map.{Map}
use xr.Math.{
  nat, variable, MathExpr, atom, sum, negated, math_expr_fromint, add_occurrences, occurrences,
  math_expr_fromvartally, math_expr_nullablesum, simplify_each, math_expr_simplify,
}
use xr.Math.Meaning.{Env, eval, total, weight, abs, IsSmall}
use xr.Math.Tallies.{tally_lem}

-- NULL stands for 0.
abbrev value : Env → Option MathExpr → ℤ
value ρ none = pos 0
value ρ (some e) = eval ρ e

pos-suc-*ℤ : (n : ℕ) (c : ℤ) → pos (suc n) *ℤ c ≡ c +ℤ pos n *ℤ c
pos-suc-*ℤ n c =
    let split : pos (suc n) ≡ pos 1 +ℤ pos n = omega int_laws in
    rw (split, +ℤ_right_distrib, one-*ℤ)

eval-add_occurrences :
    (ρ : Env) (r : ℕ) (e : MathExpr) (id : Str)
    → eval ρ (add_occurrences r e id) ≡ eval ρ e +ℤ pos r *ℤ ρ id
unfolding eval add_occurrences
eval-add_occurrences ρ zero e id = rw zero-*ℤ (omega int_laws)
eval-add_occurrences ρ (suc r) e id =
    eval-add_occurrences ρ r (sum e (atom (variable id))) id
    ∙ rw (pos-suc-*ℤ r (ρ id)) (omega int_laws)

eval-occurrences : (ρ : Env) (id : Str) (n : ℕ) → 0 < n → eval ρ (occurrences id n) ≡ pos n *ℤ ρ id
unfolding occurrences eval
eval-occurrences ρ id zero h = elim h [ ]
eval-occurrences ρ id (suc n) h =
    let less : suc n - 1 ≡ n = omega arith in
    rw less (eval-add_occurrences ρ n (atom (variable id)) id ∙ sym (pos-suc-*ℤ n (ρ id)))

pub neg-negsuc : (n : ℕ) → neg (negsuc n) ≡ pos (suc n)
neg-negsuc n = omega int_laws

pub neg-pos : (n : ℕ) → neg (pos (suc n)) ≡ negsuc n
neg-pos n = omega int_laws

fromvartally_lem :
    (id : Str) (v : ℤ)
    → eqb_ℤ v (pos 0) ≡ false
    → abs v < 2 ^ 31
    → (e : MathExpr) × (math_expr_fromvartally id v ≡ ok e) × ((ρ : Env) → eval ρ e ≡ v *ℤ ρ id)
unfolding math_expr_fromvartally eval
fromvartally_lem id (pos n) nz small =
    let below : ltb_ℤ (pos n) (pos 0) ≡ false = ground arith in
    (occurrences id n, rw (nz, below), λ ρ. eval-occurrences ρ id n (ground arith))
fromvartally_lem id (negsuc n) nz small =
    let below : ltb_ℤ (negsuc n) (pos 0) ≡ true = ground arith in
    (
      negated (occurrences id (suc n)),
      rw (nz, below, neg-negsuc n, as_int_small (pos (suc n)) (omega arith)),
      λ ρ. rw (eval-occurrences ρ id (suc n) (omega arith), ← neg-*ℤ, neg-pos n),
    )

fromint_lem :
    (i : ℤ)
    → abs i < 2 ^ 31
    → (e : MathExpr) × (math_expr_fromint i ≡ ok e) × ((ρ : Env) → eval ρ e ≡ i)
unfolding math_expr_fromint eval
fromint_lem (pos n) small =
    let below : ltb_ℤ (pos n) (pos 0) ≡ false = ground arith in (atom (nat n), rw below, λ ρ. refl)
fromint_lem (negsuc n) small =
    let below : ltb_ℤ (negsuc n) (pos 0) ≡ true = ground arith in
    (
      negated (atom (nat (suc n))),
      rw (below, neg-negsuc n, as_int_small (pos (suc n)) (omega arith)),
      λ ρ. neg-pos n,
    )

nullablesum_lem :
    (a : Option MathExpr) (b : MathExpr)
    → (e : MathExpr) × (math_expr_nullablesum a (some b) ≡ ok e)
      × ((ρ : Env) → eval ρ e ≡ value ρ a +ℤ eval ρ b)
unfolding math_expr_nullablesum eval
nullablesum_lem none b = (b, refl, λ ρ. omega int_laws)
nullablesum_lem (some a) b = (sum a b, refl, λ ρ. refl)

simplify_each_lem :
    (m : Map ℤ) (a : Option MathExpr)
    → weight m < 2 ^ 31
    → (r : Option MathExpr) × (simplify_each m a ≡ ok r)
      × ((ρ : Env) → value ρ r ≡ value ρ a +ℤ total ρ m)
unfolding simplify_each weight total
simplify_each_lem [] a h = (a, refl, λ ρ. omega int_laws)
simplify_each_lem (e ∷ m) a h = elim (Bool-cases (eqb_ℤ e.value (pos 0))) [
  | inl zero_count ↦
      let (r, runs, means) = simplify_each_lem m a (omega arith) in
      (
        r,
        rw zero_count runs,
        λ ρ. rw (means ρ, (eqb_ℤ_iff e.value (pos 0)).0 zero_count, zero-*ℤ) (omega int_laws),
      )
  | inr counted ↦
      let (v, runs1, means1) = fromvartally_lem e.key e.value counted (omega arith) in
      let (s, runs2, means2) = nullablesum_lem a v in
      let (r, runs, means) = simplify_each_lem m (some s) (omega arith) in
      (
        r,
        rw (counted, to_int_small e.value (omega arith), runs1, runs2) runs,
        λ ρ. rw (means ρ, means2 ρ, means1 ρ) (omega int_laws),
      )
]

nullablesum_none :
    (a : Option MathExpr)
    → (r : MathExpr) × (math_expr_nullablesum a none ≡ ok r) × ((ρ : Env) → eval ρ r ≡ value ρ a)
unfolding math_expr_nullablesum
nullablesum_none none = fromint_lem (pos 0) (omega arith)
nullablesum_none (some a) = (a, refl, λ ρ. refl)

-- NULL and a number, put together at the end.
finish_lem :
    (a : Option MathExpr) (n : ℤ)
    → abs n < 2 ^ 31
    → (r : MathExpr) × ((do
      num ← (if eqb_ℤ n (pos 0) then ok none else math_expr_fromint n >>= λ e. ok (some e))
      math_expr_nullablesum a num)
        ≡ ok r)
      × ((ρ : Env) → eval ρ r ≡ value ρ a +ℤ n)
unfolding math_expr_nullablesum eval
finish_lem a n h = elim (Bool-cases (eqb_ℤ n (pos 0))) [
  | inl none_left ↦
      let (r, runs, means) = nullablesum_none a in
      (r, rw none_left runs, λ ρ. rw (means ρ, (eqb_ℤ_iff n (pos 0)).0 none_left) (omega int_laws))
  | inr number ↦
      let (e, runs, means) = fromint_lem n h in
      let (s, runs2, means2) = nullablesum_lem a e in
      (s, rw (number, runs) runs2, λ ρ. rw (means2 ρ, means ρ))
]

-- On a small expression `math_expr_simplify` returns an expression that has the same value under
-- every assignment of integers to the variables.
pub simplify-eval :
    (e : MathExpr)
    → IsSmall e
    → (s : MathExpr) × (math_expr_simplify e ≡ ok s) × ((ρ : Env) → eval ρ s ≡ eval ρ e)
unfolding math_expr_simplify
simplify-eval e small =
    let (t, runs1, o) = tally_lem e small in
    let (a, runs2, means2) = simplify_each_lem t.map none (omega (arith, small.few, o.counts)) in
    let (r, runs3, means3) = finish_lem a t.num (omega (arith, small.light, o.number)) in
    (r, rw (runs1, runs2) runs3, λ ρ. rw (means3 ρ, means2 ρ, ← o.meaning ρ) (omega int_laws))
