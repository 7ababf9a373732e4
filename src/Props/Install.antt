-- ===== src/Props/Install.antt =====
-- `props_install` of src/props/props.c: what holds once a condition is installed.
use xr.Prelude.{
  ◌≡◌, refl, sym, ap, ◌⊎◌, inl, inr, Bool, true, false, not, [], ◌∷◌, ◌++◌, Bool-cases, ok, ◌>>◌,
  assert,
}
use xr.Ast.Expr.{Expr, unary, op_bang, ast_expr_isnot}
use xr.Props.{Props, props_contradicts, props_install, props_get}
use xr.Props.Laws.{
  IsUsable, AllUsable, Among, here, there, Opposes, Verdict, not-IsUsable,
  props_contradicts-Verdict, Among-append, AllUsable-append, find_installed, plain_not,
  not-Opposes-self,
}

-- No condition of the list is the negation of another.
abbrev pub IsConsistent : Props → Type 0
IsConsistent p = (f g : Expr) → Among f p → Among g p → Opposes f g → ⊥

Opposes-comm : (f g : Expr) → Opposes f g → Opposes g f
Opposes-comm f g o = elim o [ inl h ↦ inr (sym h) | inr h ↦ inl (sym h) ]

pub Among-inv : (p : Props) (e f : Expr) → Among f (p ++ e ∷ []) → Among f p ⊎ (f ≡ e)
Among-inv [] e f here = inr refl
Among-inv [] e f (there m) = elim m [ ]
Among-inv (g ∷ p) e f here = inl here
Among-inv (g ∷ p) e f (there m) = elim (Among-inv p e f m) [ inl n ↦ inl (there n) | inr h ↦ inr h ]

-- An installation that goes well found no contradiction.
install-inv :
    (p q : Props) (e : Expr)
    → AllUsable p
    → IsUsable e
    → props_install p e ≡ ok q
    → (q ≡ p ++ e ∷ []) × ((f : Expr) → Among f p → Opposes e f → ⊥)
unfolding props_install
install-inv p q e u v h =
    let (b, runs, verdict) = props_contradicts-Verdict p e u v in
    split b runs verdict (rw runs at h)
  where
    split :
        (b : Bool)
        → props_contradicts p e ≡ ok b
        → Verdict p e b
        → (assert (not b) >> ok (p ++ e ∷ [])) ≡ ok q
        → (q ≡ p ++ e ∷ []) × ((f : Expr) → Among f p → Opposes e f → ⊥)
    split true runs verdict h = (cc, cc)
    split false runs verdict h =
        (cc, λ f m o. let no_way : false ≡ true = verdict.complete f m o in cc)

get_installed :
    (p : Props) (e : Expr)
    → AllUsable p
    → IsUsable e
    → ((f : Expr) → Among f p → Opposes e f → ⊥)
    → props_get (p ++ e ∷ []) e ≡ ok true
unfolding props_get
get_installed p e u v free = elim (Bool-cases (ast_expr_isnot e)) [
  | inl negation ↦
      let (b, runs, verdict) =
        props_contradicts-Verdict (p ++ e ∷ []) e (AllUsable-append p e u v) v in
      rw (negation, runs) (no_contradiction b verdict)
  | inr other ↦ rw other (find_installed p e v)
]
  where
    clash : (f : Expr) → Opposes e f → Among f p ⊎ (f ≡ e) → ⊥
    clash f o (inl m) = free f m o
    clash f o (inr h) = not-Opposes-self e (rw h at o)

    no_contradiction : (b : Bool) → Verdict (p ++ e ∷ []) e b → ok (not b) ≡ ok true
    no_contradiction true verdict =
        let (f, m, o) = verdict.sound refl in absurd (clash f o (Among-inv p e f m))
    no_contradiction false verdict = refl

get_negation :
    (p : Props) (e : Expr)
    → AllUsable p
    → IsUsable e
    → props_get (p ++ e ∷ []) (unary op_bang e) ≡ ok false
unfolding props_get ast_expr_isnot
get_negation p e u v =
    let (b, runs, verdict) =
      props_contradicts-Verdict (p ++ e ∷ []) (unary op_bang e) (AllUsable-append p e u v)
        (not-IsUsable e v) in
    rw runs (ap (λ x. ok (not x)) (verdict.complete e (Among-append p e) (inl (plain_not e))))

pub props_install_lem :
    (p q : Props) (e : Expr)
    → AllUsable p
    → IsUsable e
    → props_install p e ≡ ok q
    → (q ≡ p ++ e ∷ [])
      × (props_get q e ≡ ok true)
      × (props_get q (unary op_bang e) ≡ ok false)
      × (IsConsistent p → IsConsistent q)
props_install_lem p q e u v h =
    let (last, free) = install-inv p q e u v h in
    rw last (refl, get_installed p e u v free, get_negation p e u v, λ c. keep c free)
  where
    pairs :
        IsConsistent p
        → ((f : Expr) → Among f p → Opposes e f → ⊥)
        → (f g : Expr) → Among f p ⊎ (f ≡ e)
        → Among g p ⊎ (g ≡ e)
        → Opposes f g
        → ⊥
    pairs c free f g (inl m) (inl n) o = c f g m n o
    pairs c free f g (inl m) (inr k) o = free f m (Opposes-comm f e (rw k at o))
    pairs c free f g (inr h) (inl n) o = free g n (rw h at o)
    pairs c free f g (inr h) (inr k) o = not-Opposes-self e (rw (h, k) at o)

    keep : IsConsistent p → ((f : Expr) → Among f p → Opposes e f → ⊥) → IsConsistent (p ++ e ∷ [])
    keep c free f g m n = pairs c free f g (Among-inv p e f m) (Among-inv p e g n)
