-- ===== src/State/Block/Insertion.antt =====
-- Insertions and removals of src/object/object.c between two parts of an array.
use xr.Prelude.{
  suc, ◌≡◌, refl, ap, ap₂, ◌∙◌, sym, Option, none, some, List, [], ◌∷◌, ◌++◌, arith, ok, length,
  get_elem?, take, drop, length-append,
}
use xr.Value.Objects.{Object}
use xr.Value.Objects.Arrays.{object_arr_insert, object_arr_remove}
use xr.Value.Objects.Arrays.Laws.{insert_lem, remove_lem}
use xr.State.Block.{Block, insert_if}
use xr.State.Block.Parts.{as_block}

-- An object that stands between two parts of an array.
module _ {ℓ} {A : Type ℓ} where
  take-between : (xs ys : List A) → take (length xs) (xs ++ ys) ≡ xs
  take-between [] ys = refl
  take-between (x ∷ xs) ys = ap (λ l. x ∷ l) (take-between xs ys)

  drop-between : (xs ys : List A) → drop (length xs) (xs ++ ys) ≡ ys
  drop-between [] ys = refl
  drop-between (x ∷ xs) ys = drop-between xs ys

  drop-behind : (xs ys : List A) (v : A) → drop (suc (length xs)) (xs ++ v ∷ ys) ≡ ys
  drop-behind [] ys v = refl
  drop-behind (x ∷ xs) ys v = drop-behind xs ys v

  pub get-between : (xs ys : List A) (v : A) → get_elem? (xs ++ v ∷ ys) (length xs) ≡ some v
  get-between [] ys v = refl
  get-between (x ∷ xs) ys v = get-between xs ys v

  pub append_assoc : (xs ys zs : List A) → (xs ++ ys) ++ zs ≡ xs ++ (ys ++ zs)
  append_assoc [] ys zs = refl
  append_assoc (x ∷ xs) ys zs = ap (λ l. x ∷ l) (append_assoc xs ys zs)

  pub append_nil : (xs : List A) → xs ++ [] ≡ xs
  append_nil [] = refl
  append_nil (x ∷ xs) = ap (λ l. x ∷ l) (append_nil xs)

pub insert-between :
    (xs ys : Block) (obj : Object)
    → object_arr_insert (xs ++ ys) (length xs) obj ≡ ok (xs ++ obj ∷ ys)
insert-between xs ys obj =
    insert_lem (xs ++ ys) (length xs) obj (omega (arith, length-append xs ys))
    ∙ ap₂ (λ a b. ok (a ++ obj ∷ b)) (take-between xs ys) (drop-between xs ys)

pub remove-between :
    (xs ys : Block) (obj : Object) → object_arr_remove (xs ++ obj ∷ ys) (length xs) ≡ ok (xs ++ ys)
remove-between xs ys obj =
    remove_lem (xs ++ obj ∷ ys) (length xs) (omega (arith, length-append xs (obj ∷ ys)))
    ∙ ap₂ (λ a b. ok (a ++ b)) (take-between xs (obj ∷ ys)) (drop-behind xs ys obj)

pub insert_if-between :
    (part : Option Object) (xs ys : Block)
    → insert_if part (xs ++ ys) (length xs)
      ≡ ok ((xs ++ as_block part) ++ ys, length (xs ++ as_block part))
unfolding insert_if
insert_if-between none xs ys = ap (λ a. ok (a ++ ys, length a)) (sym (append_nil xs))
insert_if-between (some obj) xs ys = rw (insert-between xs ys obj) (
    ap₂ (λ a n. ok (a, n)) (sym (append_assoc xs (obj ∷ []) ys))
      (omega (arith, length-append xs (obj ∷ []))))

pub insert_if-behind :
    (part : Option Object) (xs ys : Block) (obj : Object)
    → insert_if part (xs ++ obj ∷ ys) (suc (length xs))
      ≡ ok ((xs ++ obj ∷ as_block part) ++ ys, length (xs ++ obj ∷ as_block part))
insert_if-behind part xs ys obj =
    let one : length (xs ++ obj ∷ []) ≡ suc (length xs) =
      omega (arith, length-append xs (obj ∷ [])) in
    sym (ap₂ (insert_if part) (append_assoc xs (obj ∷ []) ys) one)
    ∙ insert_if-between part (xs ++ obj ∷ []) ys
    ∙ ap (λ a. ok (a ++ ys, length a)) (append_assoc xs (obj ∷ []) (as_block part))
