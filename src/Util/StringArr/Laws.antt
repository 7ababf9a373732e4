-- ===== src/Util/StringArr/Laws.antt =====
-- The string arrays of src/util/util.c are lists: copy, concatenation, queue order, membership.
use xr.Prelude.{◌≡◌, refl, ◌∙◌, [], ◌∷◌, ◌++◌, arith, ok, ◌||◌}
use mathlib.Core.List.{append_assoc, append-nil}
use xr.Prelude.Str.{Str}
use xr.Util.StringArr.{
  StringArr, string_arr_create, string_arr_append, append_each, string_arr_copy, string_arr_concat,
  string_arr_deque, string_arr_contains,
}

pub append_each_lem : (xs ys : StringArr) → append_each xs ys ≡ xs ++ ys
unfolding append_each string_arr_append
append_each_lem xs [] = rw append-nil
append_each_lem xs (y ∷ ys) = append_each_lem (xs ++ y ∷ []) ys ∙ append_assoc xs (y ∷ []) ys

pub string_arr_copy_lem : (xs : StringArr) → string_arr_copy xs ≡ xs
unfolding string_arr_copy string_arr_create
string_arr_copy_lem xs = append_each_lem [] xs

pub string_arr_concat_lem : (xs ys : StringArr) → string_arr_concat xs ys ≡ xs ++ ys
unfolding string_arr_concat
string_arr_concat_lem xs ys = append_each_lem (string_arr_copy xs) ys ∙ rw (string_arr_copy_lem xs)

pub contains-append :
    (xs ys : StringArr) (s : Str)
    → string_arr_contains (xs ++ ys) s ≡ (string_arr_contains xs s || string_arr_contains ys s)
unfolding string_arr_contains
contains-append [] ys s = refl
contains-append (x ∷ xs) ys s = ground (arith, contains-append xs ys s)

-- Strings leave the queue in the order in which they came: after an append to a queue that is not
-- empty, the first string leaves and the new one stays at the end.
pub deque-append :
    (x : Str) (xs : StringArr) (s : Str)
    → string_arr_deque (string_arr_append (x ∷ xs) s).0 ≡ ok (x, xs ++ s ∷ [])
unfolding string_arr_deque string_arr_append
deque-append x xs s = refl
