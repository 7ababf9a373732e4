-- ===== src/Util/StringArr.antt =====
-- `struct string_arr` of src/util/util.c: a growing array of C strings, used as a queue and as a
-- set by the ordering of functions in src/ast/topological.c.
pub mod Laws
use xr.Prelude.{
  ℕ, Bool, true, false, List, [], ◌∷◌, ◌++◌, if◌then◌else◌, length, Run, ok, abort, ◌||◌,
}
use xr.Prelude.Str.{Str, str_eq}

abbrev pub StringArr : Type 0
StringArr = List Str

unfoldable pub string_arr_create : StringArr
string_arr_create = []

-- The array with `s` at its end, and the index of `s`.
unfoldable pub string_arr_append : StringArr → Str → StringArr × ℕ
string_arr_append arr s = (arr ++ s ∷ [], length arr)

-- `for (i...) string_arr_append(new, old->s[i]);`
unfoldable pub append_each : StringArr → StringArr → StringArr
unfolding string_arr_append
append_each new [] = new
append_each new (s ∷ old) = append_each (string_arr_append new s).0 old

unfoldable pub string_arr_copy : StringArr → StringArr
unfolding append_each string_arr_create
string_arr_copy old = append_each string_arr_create old

unfoldable pub string_arr_concat : StringArr → StringArr → StringArr
unfolding append_each string_arr_copy
string_arr_concat s1 s2 = append_each (string_arr_copy s1) s2

-- The first string and the rest. On an empty array the code reads `arr->s[0]` outside the array.
unfoldable pub string_arr_deque : StringArr → Run (Str × StringArr)
string_arr_deque [] = abort
string_arr_deque (s ∷ arr) = ok (s, arr)

unfoldable pub string_arr_contains : StringArr → Str → Bool
string_arr_contains [] s = false
string_arr_contains (t ∷ arr) s = str_eq s t || string_arr_contains arr s
