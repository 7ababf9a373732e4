-- ===== src/State/Vconst.antt =====
-- `struct vconst` of src/state/heap.c: the virtual constants, by name, with their comments and whether
-- they outlive the function.
pub mod Names
use xr.Prelude.{
  ℕ, suc, ◌-◌, Bool, true, false, Option, none, some, List, [], ◌∷◌, ◌++◌, Run, ok, abort, ◌>>=◌,
  if◌then◌else◌, leb, length,
}
use xr.Prelude.Str.{Str, codes, decimal}
use xr.Util.Map.{Map, Entry, map_create, map_get, map_set}
use xr.Ast.Expr.{Expr, ast_expr_matheval}
use xr.Value.Objects.{Value, value_copy}

pub record Vconst : Type 0 where
  pub varmap : Map Value
  pub comment : Map Str
  pub persist : Map Bool

unfoldable pub vconst_create : Vconst
vconst_create = record { varmap = map_create; comment = map_create; persist = map_create }

-- The loops of `vconst_copy` over the values, and over what is copied as it is.
unfoldable pub values_copy : Map Value → Map Value → Run (Map Value)
values_copy new [] = ok new
values_copy new (e ∷ m) = do copy ← value_copy e.value; values_copy (map_set new e.key copy) m

unfoldable pub entries_copy {ℓ} : {V : Type ℓ} → Map V → Map V → Map V
entries_copy new [] = new
entries_copy new (e ∷ m) = entries_copy (map_set new e.key e.value) m

unfoldable pub vconst_copy : Vconst → Run Vconst
unfolding values_copy entries_copy
vconst_copy old = do
  varmap ← values_copy map_create old.varmap
  ok (record {
    varmap = varmap;
    comment = entries_copy map_create old.comment;
    persist = entries_copy map_create old.persist;
  })

unfoldable pub count_true : Map Bool → ℕ
count_true [] = 0
count_true (e ∷ m) = let n = count_true m in if e.value then suc n else n

-- `%d` of a difference.
unfoldable pub decimal_difference : ℕ → ℕ → Str
decimal_difference a b = if leb b a then decimal (a - b) else codes "-" ++ decimal (b - a)

unfoldable pub vconst_id : Map Value → Map Bool → Bool → Str
unfolding count_true decimal_difference
vconst_id varmap persistmap persist =
    let npersist = count_true persistmap in
    if persist
    then codes "$" ++ decimal npersist
    else codes "#" ++ decimal_difference (length varmap) npersist

unfoldable pub commented : Map Str → Str → Option Str → Map Str
commented m s none = m
commented m s (some comment) = map_set m s comment

-- The constants with the new one, and its name.
unfoldable pub vconst_declare : Vconst → Value → Option Str → Bool → Vconst × Str
unfolding vconst_id commented
vconst_declare v val comment persist =
    let s = vconst_id v.varmap v.persist persist in
    (
      record {
        varmap = map_set v.varmap s val;
        comment = commented v.comment s comment;
        persist = map_set v.persist s persist;
      },
      s,
    )

unfoldable pub vconst_get : Vconst → Str → Option Value
vconst_get v id = map_get v.varmap id

-- A key that is missing, or that does not persist, is skipped.
unfoldable pub persists : Option Bool → Bool
persists none = false
persists (some b) = b

-- A value that is missing is read by its copying.
unfoldable pub copy_found : Option Value → Run Value
copy_found none = abort
copy_found (some val) = value_copy val

-- The loop of `vconst_undeclare`, from the constants so far.
unfoldable pub undeclare_each : Vconst → Vconst → Map Value → Run Vconst
unfolding persists copy_found commented
undeclare_each v new [] = ok new
undeclare_each v new (e ∷ m) =
    if persists (map_get v.persist e.key)
    then (do
      copy ← copy_found (map_get v.varmap e.key)
      undeclare_each v
          (record {
            varmap = map_set new.varmap e.key copy;
            comment = commented new.comment e.key (map_get v.comment e.key);
            persist = map_set new.persist e.key true;
          })
          m)
    else undeclare_each v new m

unfoldable pub vconst_undeclare : Vconst → Run Vconst
unfolding undeclare_each vconst_create
vconst_undeclare v = undeclare_each v vconst_create v.varmap

unfoldable pub vconst_eval : Vconst → Expr → Run Bool
vconst_eval v e = ast_expr_matheval e
