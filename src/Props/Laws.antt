-- ===== src/Props/Laws.antt =====
-- What the conditions of src/props/props.c promise: an installed condition holds, its negation does
-- not, and no condition contradicts another.

use xr.Prelude.{
  ℕ, suc, ◌≡◌, refl, ap, ◌⊎◌, inl, inr, ◌↔◌, Bool, true, false, [], ◌∷◌, ◌++◌, arith, if◌then◌else◌,
  ok,
}
use xr.Ast.Expr.{Expr, unary, op_bang, ast_expr_inverted_copy, ast_expr_equal}
use xr.Ast.Expr.Copy.{is_copyable, copy_lem}
use xr.Ast.Expr.Equal.{plain, is_comparable, equal-decides}
use xr.Props.{Props, or_run, props_contradicts_actual, props_contradicts, props_find}

-- Conditions of the kinds that the code compares and copies.
pub record IsUsable (e : Expr) : Type 0 where
  pub comparable : is_comparable e ≡ true
  pub copyable : is_copyable e ≡ true

abbrev pub AllUsable : Props → Type 0
AllUsable [] = Unit
AllUsable (e ∷ p) = IsUsable e × AllUsable p

pub data Among (e : Expr) : Props → Type 0 where
  here : {p : Props} → Among e (e ∷ p)
  there : {f : Expr} {p : Props} → Among e p → Among e (f ∷ p)

-- One is the negation of the other.
abbrev pub Opposes : Expr → Expr → Type 0
Opposes e f = (plain e ≡ unary op_bang (plain f)) ⊎ (unary op_bang (plain e) ≡ plain f)

pub not-IsUsable : (e : Expr) → IsUsable e → IsUsable (unary op_bang e)
unfolding is_comparable is_copyable
not-IsUsable e u = record { comparable = u.comparable; copyable = u.copyable }

inverted_copy_lem : (e : Expr) → IsUsable e → ast_expr_inverted_copy e true ≡ ok (unary op_bang e)
unfolding ast_expr_inverted_copy
inverted_copy_lem e u = rw (copy_lem e u.copyable)

opposes_lem :
    (e f : Expr)
    → IsUsable e
    → IsUsable f
    → (b : Bool) × (or_run (ast_expr_equal e (unary op_bang f)) (ast_expr_equal (unary op_bang e) f)
        ≡ ok b)
      × ((b ≡ true) ↔ Opposes e f)
unfolding plain
opposes_lem e f u v =
    let (x, p, means_x) = equal-decides e (unary op_bang f) u.comparable in
    let (y, q, means_y) = equal-decides (unary op_bang e) f (not-IsUsable e u).comparable in
    join x y p q means_x means_y
  where
    join :
        (x y : Bool)
        → ast_expr_equal e (unary op_bang f) ≡ ok x
        → ast_expr_equal (unary op_bang e) f ≡ ok y
        → ((x ≡ true) ↔ (plain e ≡ unary op_bang (plain f)))
        → ((y ≡ true) ↔ (unary op_bang (plain e) ≡ plain f))
        → (b : Bool) × (or_run
              (ast_expr_equal e (unary op_bang f))
              (ast_expr_equal (unary op_bang e) f)
            ≡ ok b)
          × ((b ≡ true) ↔ Opposes e f)
    join true y p q m n = (true, rw p, ((λ h. inl (m.0 refl)), λ o. refl))
    join false y p q m n =
        (y, rw (p, q), ((λ h. inr (n.0 h)), elim [ inl o ↦ absurd_false (m.1 o) | inr o ↦ n.1 o ]))
      where
        absurd_false : {z : Bool} → false ≡ true → z ≡ true
        absurd_false h = cc

-- What a search for a contradiction answers.
pub record Verdict (p : Props) (e : Expr) (b : Bool) : Type 0 where
  pub sound : b ≡ true → (f : Expr) × Among f p × Opposes e f
  pub complete : (f : Expr) → Among f p → Opposes e f → b ≡ true

contradicts_lem :
    (p : Props) (e : Expr)
    → AllUsable p
    → IsUsable e
    → (b : Bool) × (props_contradicts_actual p e (unary op_bang e) ≡ ok b) × Verdict p e b
unfolding props_contradicts_actual
contradicts_lem [] e u v = (false, refl, record { sound = λ h. cc; complete = λ f m o. elim m [ ] })
contradicts_lem (f ∷ p) e u v =
    let (x, runs, means) = opposes_lem e f v u.0 in
    let (y, rest, verdict) = contradicts_lem p e u.1 v in join x runs means y rest verdict
  where
    join :
        (x : Bool)
        → (or_run (ast_expr_equal e (unary op_bang f)) (ast_expr_equal (unary op_bang e) f) ≡ ok x)
        → ((x ≡ true) ↔ Opposes e f)
        → (y : Bool) → props_contradicts_actual p e (unary op_bang e) ≡ ok y
        → Verdict p e y
        → (b : Bool) × (props_contradicts_actual (f ∷ p) e (unary op_bang e) ≡ ok b)
          × Verdict (f ∷ p) e b
    join true runs means y rest verdict = (
      true,
      rw (inverted_copy_lem f u.0, runs),
      record { sound = λ h. (f, here, means.0 refl); complete = λ g m o. refl },
    )
    join false runs means y rest verdict = (
      y,
      rw (inverted_copy_lem f u.0, runs) rest,
      record {
        sound = λ h. let (g, m, o) = verdict.sound h in (g, there m, o);
        complete = λ g m o. later y means verdict m o;
      },
    )
      where
        later :
            (y : Bool) {g : Expr}
            → ((false ≡ true) ↔ Opposes e f)
            → Verdict p e y
            → Among g (f ∷ p)
            → Opposes e g
            → y ≡ true
        later y means verdict here o = let no_way : false ≡ true = means.1 o in cc
        later y means verdict (there m) o = verdict.complete _ m o

-- For conditions of the kinds that the code copies and compares, `props_contradicts` answers, and
-- the answer is true exactly when some condition of the list is the negation of the given one
-- or is negated by it, up to the difference between character and integer constants.
pub props_contradicts-Verdict :
    (p : Props) (e : Expr)
    → AllUsable p
    → IsUsable e
    → (b : Bool) × (props_contradicts p e ≡ ok b) × Verdict p e b
unfolding props_contradicts
props_contradicts-Verdict p e u v = rw (inverted_copy_lem e v) (contradicts_lem p e u v)

pub Among-append : (p : Props) (e : Expr) → Among e (p ++ e ∷ [])
Among-append [] e = here
Among-append (f ∷ p) e = there (Among-append p e)

pub AllUsable-append : (p : Props) (e : Expr) → AllUsable p → IsUsable e → AllUsable (p ++ e ∷ [])
AllUsable-append [] e u v = (v, tt)
AllUsable-append (f ∷ p) e u v = (u.0, AllUsable-append p e u.1 v)

pub find_installed : (p : Props) (e : Expr) → IsUsable e → props_find (p ++ e ∷ []) e ≡ ok true
unfolding props_find
find_installed [] e u =
    let (b, runs, means) = equal-decides e e u.comparable in rw (runs, means.1 refl)
find_installed (f ∷ p) e u =
    let (b, runs, means) = equal-decides e f u.comparable in
    rw (runs, find_installed p e u) (either b)
  where
    either : (b : Bool) → (if b then ok true else ok true) ≡ ok true
    either b = ground arith

-- How deep the negations of an expression are.
unfoldable pub bangs : Expr → ℕ
bangs (unary o e) = suc (bangs e)
bangs _ = 0

pub not-Opposes-self : (e : Expr) → Opposes e e → ⊥
unfolding bangs
not-Opposes-self e o = elim o [
  | inl h ↦ absurd (omega (arith, ap bangs h))
  | inr h ↦ absurd (omega (arith, ap bangs h))
]

pub plain_not : (e : Expr) → plain (unary op_bang e) ≡ unary op_bang (plain e)
unfolding plain
plain_not e = refl
