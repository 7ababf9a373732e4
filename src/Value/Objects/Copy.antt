-- ===== src/Value/Objects/Copy.antt =====
-- `value_copy` of src/value/value.c and `object_copy` of src/object/object.c.
use xr.Prelude.{true, ◌≡◌, refl, ap, ◌∙◌, none, some, [], ◌∷◌, ◌++◌, ok}
use xr.Prelude.Str.{Str, str_eq_comm}
use xr.Util.Map.{Map, entry, map_set}
use xr.Util.Map.Laws.{IsFresh, map_set_new, IsFresh-map_set}
use xr.Ast.Expr.Copy.{is_copyable, copy_lem}
use xr.Ast.Types.Copy.{are_copyable, unqualified_arr, ast_variable_arr_copy-unqualified}
use xr.Value.Number.{Number, ranges, computed, number_copy}
use xr.State.Location.{Location}
use xr.State.Location.Laws.{IsFramed, location_copy_id}
use xr.Ast.Expr.{Expr}
use xr.Value.Objects.{
  Value, Object, Fields, value_ptr, value_ptr_indefinite, value_int, value_sync, value_literal,
  value_struct, unassigned, assigned, deallocand_range, no_fields, field, as_map, of_map,
  fields_set, range_copy, value_copy, copymembers, object_copy,
}

abbrev pub IsCopyableNumber : Number → Type 0
IsCopyableNumber (ranges arr) = Unit
IsCopyableNumber (computed e) = is_copyable e ≡ true

abbrev pub IsCopyableLocation : Location → Type 0
IsCopyableLocation l = IsFramed l.type l.frame × (is_copyable l.offset ≡ true)

-- No pointer is NULL, the frame of a location is set exactly if it is automatic, the expressions and
-- the types of members can be copied, and no member stands twice in a map.
abbrev mutual
  pub IsCopyableValue : Value → Type 0
  IsCopyableValue (value_ptr none) = ⊥
  IsCopyableValue (value_ptr (some loc)) = IsCopyableLocation loc
  IsCopyableValue (value_ptr_indefinite n) = IsCopyableNumber n
  IsCopyableValue (value_int n) = IsCopyableNumber n
  IsCopyableValue (value_sync n) = IsCopyableNumber n
  IsCopyableValue (value_literal s) = Unit
  IsCopyableValue (value_struct ms m) = (are_copyable ms ≡ true) × AreCopyableFields m

  pub AreCopyableFields : Fields → Type 0
  AreCopyableFields no_fields = Unit
  AreCopyableFields (field k obj m) =
      IsCopyableObject obj × IsFresh k (as_map m) × AreCopyableFields m

  pub IsCopyableObject : Object → Type 0
  IsCopyableObject (unassigned offset) = is_copyable offset ≡ true
  IsCopyableObject (assigned offset v) = (is_copyable offset ≡ true) × IsCopyableValue v
  IsCopyableObject (deallocand_range offset r) =
      (is_copyable offset ≡ true)
      × ((size : Expr) × (r.size ≡ some size) × (is_copyable size ≡ true))
      × IsCopyableLocation r.loc

-- The same, with the types of members as their copies are.
abbrev mutual
  pub copied : Value → Value
  copied (value_struct ms m) = value_struct (unqualified_arr ms) (copied_fields m)
  copied v = v

  pub copied_fields : Fields → Fields
  copied_fields no_fields = no_fields
  copied_fields (field k obj m) = field k (copied_object obj) (copied_fields m)

  pub copied_object : Object → Object
  copied_object (assigned offset v) = assigned offset (copied v)
  copied_object obj = obj

pub as_map-of_map : (m : Map Object) → as_map (of_map m) ≡ m
as_map-of_map [] = refl
as_map-of_map (e ∷ m) = ap (λ l. e ∷ l) (as_map-of_map m)

abbrev fields_append : Fields → Fields → Fields
fields_append no_fields m = m
fields_append (field k obj new) m = field k obj (fields_append new m)

-- The keys of `m` are new.
abbrev AreFresh : Fields → Fields → Type 0
AreFresh new no_fields = Unit
AreFresh new (field k obj m) = IsFresh k (as_map new) × AreFresh new m

AreFresh-set :
    (new m : Fields) (k : Str) (obj : Object)
    → IsFresh k (as_map m)
    → AreFresh new m
    → AreFresh (fields_set new k obj) m
AreFresh-set new no_fields k obj f h = tt
AreFresh-set new (field j o m) k obj (apart, f) (fresh, h) = (
  rw (as_map-of_map (map_set (as_map new) k obj))
      (IsFresh-map_set (as_map new) k j obj (str_eq_comm k j ∙ apart) fresh),
  AreFresh-set new m k obj f h,
)

set-append :
    (new m : Fields) (k : Str) (obj : Object)
    → IsFresh k (as_map new)
    → fields_append (fields_set new k obj) m ≡ fields_append new (field k obj m)
set-append new m k obj f = rw (map_set_new (as_map new) k obj f) (shift new)
  where
    shift :
        (new : Fields)
        → fields_append (of_map (as_map new ++ entry k obj ∷ [])) m
          ≡ fields_append new (field k obj m)
    shift no_fields = refl
    shift (field j o new) = ap (field j o) (shift new)

append-nil : (new : Fields) → fields_append new no_fields ≡ new
append-nil no_fields = refl
append-nil (field k obj new) = ap (field k obj) (append-nil new)

AreFresh-nil : (m : Fields) → AreFresh no_fields m
AreFresh-nil no_fields = tt
AreFresh-nil (field k obj m) = (tt, AreFresh-nil m)

number_copy_id : (n : Number) → IsCopyableNumber n → number_copy n ≡ ok n
unfolding number_copy
number_copy_id (ranges arr) h = refl
number_copy_id (computed e) h = rw (copy_lem e h)

mutual
  unfolding value_copy range_copy

  copies : (v : Value) → IsCopyableValue v → value_copy v ≡ ok (copied v)
  copies (value_ptr none) h = elim h [ ]
  copies (value_ptr (some loc)) h = rw (location_copy_id loc h.0 h.1)
  copies (value_ptr_indefinite n) h = rw (number_copy_id n h)
  copies (value_int n) h = rw (number_copy_id n h)
  copies (value_sync n) h = rw (number_copy_id n h)
  copies (value_literal s) h = refl
  copies (value_struct ms m) (types, fs) =
      rw (ast_variable_arr_copy-unqualified ms types, copies_fields no_fields m (AreFresh-nil m) fs)

  copies_fields :
      (new m : Fields)
      → AreFresh new m
      → AreCopyableFields m
      → copymembers new m ≡ ok (fields_append new (copied_fields m))
  copies_fields new no_fields fresh h = rw (append-nil new)
  copies_fields new (field k obj m) (f, fresh) (c, apart, h) =
      rw
        (
          copies_object obj c,
          copies_fields (fields_set new k (copied_object obj)) m
              (AreFresh-set new m k (copied_object obj) apart fresh) h,
        )
        (ap ok (set-append new (copied_fields m) k (copied_object obj) f))

  copies_object : (obj : Object) → IsCopyableObject obj → object_copy obj ≡ ok (copied_object obj)
  copies_object (unassigned offset) h = rw (copy_lem offset h)
  copies_object (assigned offset v) (h, c) = rw (copy_lem offset h, copies v c)
  copies_object (deallocand_range offset r) (h, (size, e, c), loc) =
      rw (copy_lem offset h, e, copy_lem size c, location_copy_id r.loc loc.0 loc.1) refl

-- A value without NULL pointers and without ranges whose size has been freed, whose locations have a
-- frame exactly if they are automatic, whose expressions and types of members can be copied and whose
-- maps have distinct keys is copied to the same value, with the types of members as their copies are.
pub value_copy-copied : (v : Value) → IsCopyableValue v → value_copy v ≡ ok (copied v)
value_copy-copied v h = copies v h

-- An object of such parts is copied to one with the value's copy.
pub object_copy-copied :
    (obj : Object) → IsCopyableObject obj → object_copy obj ≡ ok (copied_object obj)
object_copy-copied obj h = copies_object obj h
