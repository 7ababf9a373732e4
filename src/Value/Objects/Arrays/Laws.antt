-- ===== src/Value/Objects/Arrays/Laws.antt =====
-- The shifting loops of src/object/object.c insert and remove an element of an array.
use xr.Prelude.{
  ℕ, zero, suc, ◌+◌, ◌-◌, ◌≤◌, ◌<◌, ◌≡◌, refl, ap, ◌∙◌, ap₂, Option, none, some, List, [], ◌∷◌,
  ◌++◌, ok, ◌>>=◌, arith, lt→ltb, le→leb, length, get_elem?, set, take, drop,
}
use xr.Value.Objects.{Object}
use xr.Value.Objects.Arrays.{
  ObjectArr, move, shift_up, shift_down, object_arr_insert, object_arr_remove,
}

module _ {ℓ} {A : Type ℓ} where
  move-cons : (x : A) (arr : List A) (i j : ℕ) → move (x ∷ arr) (suc i) (suc j) ≡ x ∷ move arr i j
  unfolding move
  move-cons x arr i j = inner (get_elem? arr j)
    where
      inner :
          (o : Option A)
          → elim o [ none ↦ x ∷ arr | some y ↦ x ∷ set arr i y ]
            ≡ x ∷ (elim o [ none ↦ arr | some y ↦ set arr i y ])
      inner none = refl
      inner (some y) = refl

  -- The last turn of the loop moves the object at `index`.
  shift_up-last :
      (n index : ℕ) (arr : List A)
      → shift_up (suc n) index arr ≡ move (shift_up n (suc index) arr) (suc index) index
  unfolding shift_up
  shift_up-last zero index arr = ap (λ k. move arr (suc k) k) (omega arith)
  shift_up-last (suc n) index arr =
      shift_up-last n index (move arr (suc (index + suc n)) (index + suc n))
      ∙ ap (λ k. move (shift_up n (suc index) (move arr (suc k) k)) (suc index) index) (omega arith)

  shift_up-cons :
      (n index : ℕ) (x : A) (arr : List A)
      → shift_up n (suc index) (x ∷ arr) ≡ x ∷ shift_up n index arr
  unfolding shift_up
  shift_up-cons zero index x arr = refl
  shift_up-cons (suc n) index x arr =
      ap (λ k. shift_up n (suc index) (move (x ∷ arr) (suc k) k)) {y = suc (index + n)}
        (omega arith)
      ∙ ap (shift_up n (suc index)) (move-cons x arr (suc (index + n)) (index + n))
      ∙ shift_up-cons n index x (move arr (suc (index + n)) (index + n))

  shift_down-cons :
      (n index : ℕ) (x : A) (arr : List A)
      → shift_down n (suc index) (x ∷ arr) ≡ x ∷ shift_down n index arr
  unfolding shift_down
  shift_down-cons zero index x arr = refl
  shift_down-cons (suc n) index x arr =
      ap (shift_down n (suc (suc index))) (move-cons x arr index (suc index))
      ∙ shift_down-cons n (suc index) x (move arr index (suc index))

  -- The object at 0 is gone when all that follow it have moved.
  shifted_down :
      (x : A) (arr : List A) → take (length arr) (shift_down (length arr) 0 (x ∷ arr)) ≡ arr
  unfolding shift_down move
  shifted_down x [] = refl
  shifted_down x (y ∷ arr) =
      ap (take (suc (length arr))) (shift_down-cons (length arr) 0 y (y ∷ arr))
      ∙ ap (λ l. y ∷ l) (shifted_down y arr)

  removed :
      (arr : List A) (index n : ℕ)
      → length arr ≡ suc (index + n)
      → take (index + n) (shift_down n index arr) ≡ take index arr ++ drop (suc index) arr
  removed [] index n e = absurd (omega (arith, e))
  removed (x ∷ arr) zero n e =
      let whole : 0 + n ≡ length arr = omega (arith, e) in
      let len : n ≡ length arr = omega (arith, e) in
      ap₂ (λ k l. take k (shift_down l 0 (x ∷ arr))) whole len ∙ shifted_down x arr
  removed (x ∷ arr) (suc index) n e =
      ap (λ k. take k (shift_down n (suc index) (x ∷ arr))) {y = suc (index + n)} (omega arith)
      ∙ ap (take (suc (index + n))) (shift_down-cons n index x arr)
      ∙ ap (λ l. x ∷ l) (removed arr index n (omega (arith, e)))

  -- Everything moves up by one place, so that the first object stands twice.
  shifted_up :
      (arr : List A) (v z : A) → set (shift_up (length arr) 0 (arr ++ z ∷ [])) 0 v ≡ v ∷ arr
  unfolding shift_up move
  shifted_up [] v z = refl
  shifted_up (x ∷ arr) v z =
      ap (λ l. set l 0 v)
        (shift_up-last (length arr) 0 (x ∷ arr ++ z ∷ [])
          ∙ ap (λ l. move l 1 0) (shift_up-cons (length arr) 0 x (arr ++ z ∷ [])))
      ∙ ap (λ l. v ∷ l) (shifted_up arr x z)

  inserted :
      (arr : List A) (index n : ℕ) (v z : A)
      → length arr ≡ index + n
      → set (shift_up n index (arr ++ z ∷ [])) index v ≡ take index arr ++ v ∷ drop index arr
  inserted arr zero n v z e =
      ap (λ k. set (shift_up k 0 (arr ++ z ∷ [])) 0 v) (omega (arith, e)) ∙ shifted_up arr v z
  inserted [] (suc index) n v z e = absurd (omega (arith, e))
  inserted (x ∷ arr) (suc index) n v z e =
      ap (λ l. set l (suc index) v) (shift_up-cons n index x (arr ++ z ∷ []))
      ∙ ap (λ l. x ∷ l) (inserted arr index n v z (omega (arith, e)))

pub insert_lem :
    (arr : ObjectArr) (index : ℕ) (obj : Object)
    → index ≤ length arr
    → object_arr_insert arr index obj ≡ ok (take index arr ++ obj ∷ drop index arr)
unfolding object_arr_insert
insert_lem arr index obj le =
    rw (le→leb index (length arr) le)
      (ap ok (inserted arr index (length arr - index) obj obj (omega (arith, le))))

pub remove_lem :
    (arr : ObjectArr) (index : ℕ)
    → index < length arr
    → object_arr_remove arr index ≡ ok (take index arr ++ drop (suc index) arr)
unfolding object_arr_remove
remove_lem arr index lt = rw (lt→ltb 0 (length arr) (omega (arith, lt))) (
    ap ok (
      ap (λ k. take k (shift_down (length arr - 1 - index) index arr)) (omega (arith, lt))
      ∙ removed arr index (length arr - 1 - index) (omega (arith, lt))))

module _ {ℓ} {A : Type ℓ} where
  pub length-take-drop :
      (index : ℕ) (arr : List A) (v : A)
      → index ≤ length arr
      → length (take index arr ++ v ∷ drop index arr) ≡ suc (length arr)
  length-take-drop zero arr v le = refl
  length-take-drop (suc index) [] v le = absurd (omega arith)
  length-take-drop (suc index) (x ∷ arr) v le = ap suc (length-take-drop index arr v (omega arith))

  around :
      (index : ℕ) (arr : List A) (v : A)
      → index ≤ length arr
      → take index (take index arr ++ v ∷ drop index arr)
          ++ drop (suc index) (take index arr ++ v ∷ drop index arr)
        ≡ arr
  around zero arr v le = refl
  around (suc index) [] v le = absurd (omega arith)
  around (suc index) (x ∷ arr) v le = ap (λ l. x ∷ l) (around index arr v (omega arith))

-- An insertion at an index within the array or at its end puts the object there, between those that
-- stood before it and those that stood from it on, and a removal at that index gives the array back.
pub object_arr_remove-object_arr_insert :
    (arr : ObjectArr) (index : ℕ) (obj : Object)
    → index ≤ length arr
    → (object_arr_insert arr index obj ≡ ok (take index arr ++ obj ∷ drop index arr))
      × ((object_arr_insert arr index obj >>= λ new. object_arr_remove new index) ≡ ok arr)
object_arr_remove-object_arr_insert arr index obj le = (
  insert_lem arr index obj le,
  rw
      (
        insert_lem arr index obj le,
        remove_lem (take index arr ++ obj ∷ drop index arr) index
            (omega (arith, le, length-take-drop index arr obj le)),
      )
      (ap ok (around index arr obj le)),
)
