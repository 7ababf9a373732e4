-- ===== src/Verify/Reduce/Props.antt =====
-- The reduction of src/ast/expr/verify.c does not look at the conditions that a state takes to hold.
use xr.Prelude.{
  ℕ, ◌≡◌, refl, ap, Bool, true, Option, none, some, Run, ok, abort, ◌>>=◌, Bool-cases, inl, inr,
}
use xr.Prelude.Str.{Str, str_eq, codes}
use xr.Props.{Props}
use xr.State.Location.{
  LocationType, Location, location_static, location_vconst, location_dereferencable,
  location_automatic, location_dynamic,
}
use xr.State.Block.{Block, block_observe}
use xr.State.Stack.{Variable, stack_getresult, stack_getvariable}
use xr.State.Machine.{State, location_getblock, getblock_at, put_block, put_at, state_getblock}
use xr.State.Machine.Access.{
  ObjectRes, Place, no_block, place_of, without_error, observe_in, state_get, state_getobject,
  state_getresult,
}
use xr.Verify.Results.{Spot, read_object, spot_of}
use xr.Verify.Reduce.{has_prefix, is_builtin, held_value, variable_value, expr_identifier_eval}

module _ (p : Props) where
  abbrev pub with_props : State → State
  with_props s = record s { props = p }

  -- The outcome with other conditions in its state.
  abbrev pub changed {ℓ} : {T : Type ℓ} → Run (State × T) → Run (State × T)
  changed abort = abort
  changed (ok (s, t)) = ok (with_props s, t)

  abbrev pub changed_state : Run State → Run State
  changed_state abort = abort
  changed_state (ok s) = ok (with_props s)

  pub after {ℓ κ} :
      {S : Type ℓ} {T : Type κ} (first : Run S) (next next' : S → Run (State × T))
      → ((x : S) → next' x ≡ changed (next x))
      → (first >>= next') ≡ changed (first >>= next)
  after abort next next' h = refl
  after (ok x) next next' h = h x

  pub after_state {ℓ κ} :
      {S : Type ℓ} {T : Type κ} (first : Run (State × S)) (next : State × S → Run (State × T))
      → ((s : State) (x : S) → next (with_props s, x) ≡ changed (next (s, x)))
      → (changed first >>= next) ≡ changed (first >>= next)
  after_state abort next h = refl
  after_state (ok (s, x)) next h = h s x

  block_at_lem :
      (t : LocationType) (frame : Option ℕ) (block : ℕ) (s : State)
      → getblock_at t frame block (with_props s) ≡ getblock_at t frame block s
  unfolding getblock_at
  block_at_lem location_static frame block s = refl
  block_at_lem location_vconst frame block s = refl
  block_at_lem location_dereferencable frame block s = refl
  block_at_lem location_automatic frame block s = refl
  block_at_lem location_dynamic frame block s = refl

  pub getblock_lem :
      (loc : Location) (s : State) → location_getblock loc (with_props s) ≡ location_getblock loc s
  unfolding location_getblock
  getblock_lem loc s = rw (block_at_lem loc.type loc.frame loc.block s) refl

  put_at_lem :
      (t : LocationType) (frame : Option ℕ) (block : ℕ) (b : Block) (s : State)
      → put_at t frame block b (with_props s) ≡ with_props (put_at t frame block b s)
  unfolding put_at
  put_at_lem location_static frame block b s = refl
  put_at_lem location_vconst frame block b s = refl
  put_at_lem location_dereferencable frame block b s = refl
  put_at_lem location_automatic frame block b s = refl
  put_at_lem location_dynamic frame block b s = refl

  pub put_lem :
      (s : State) (loc : Location) (b : Block)
      → put_block (with_props s) loc b ≡ with_props (put_block s loc b)
  unfolding put_block
  put_lem s loc b = put_at_lem loc.type loc.frame loc.block b s

  observe_lem :
      (s : State) (loc : Location) (c : Bool) (b : Option Block)
      → observe_in (with_props s) loc c b ≡ changed (observe_in s loc c b)
  unfolding observe_in
  observe_lem s loc c none = after (no_block loc.type) _ _ λ res. refl
  observe_lem s loc c (some b) = after (block_observe b loc.offset s.heap c) _ _ λ x.
      ap (λ t. ok (t, record { obj = place_of loc x.2; err = none }))
        (put_lem (record s { heap = x.1 }) loc x.0)

  pub get_lem :
      (s : State) (loc : Location) (c : Bool)
      → state_get (with_props s) loc c ≡ changed (state_get s loc c)
  unfolding state_get
  get_lem s loc c =
      rw (getblock_lem loc s) (after (location_getblock loc s) _ _ λ res. found res.err res.b)
    where
      found :
          (err : Option Str) (b : Option Block)
          → (elim err as (λ _. Run (State × ObjectRes)) [
            | some e ↦ ok (with_props s, record { obj = none; err = some e })
            | none ↦ observe_in (with_props s) loc c b
          ])
            ≡ changed (elim err [
              | some e ↦ ok (s, record { obj = none; err = some e })
              | none ↦ observe_in s loc c b
            ])
      found (some e) b = refl
      found none b = observe_lem s loc c b

  pub errorless_lem :
      (s : State) (res : ObjectRes)
      → without_error (with_props s, res) ≡ changed (without_error (s, res))
  unfolding without_error
  errorless_lem s res =
      elim res.err
        as (λ err.
          (elim err as (λ _. Run (State × ObjectRes)) [
            | none ↦ ok (with_props s, res)
            | some e ↦ abort
          ])
          ≡ changed (elim err [ none ↦ ok (s, res) | some e ↦ abort ])) [
            | none ↦ refl
            | some e ↦ refl
          ]

  result_lem : (s : State) → state_getresult (with_props s) ≡ changed (state_getresult s)
  unfolding state_getresult
  result_lem s = after (stack_getresult s.stack) _ _ λ v.
      rw (get_lem s v.loc true) (after_state (state_get s v.loc true) without_error errorless_lem)

  found_lem :
      (s : State) (unknown : ObjectRes) (v : Option Variable)
      → (elim v as (λ _. Run (State × ObjectRes)) [
        | none ↦ ok (with_props s, unknown)
        | some var ↦ state_get (with_props s) var.loc true
      ])
        ≡ changed (elim v [ none ↦ ok (s, unknown) | some var ↦ state_get s var.loc true ])
  found_lem s unknown none = refl
  found_lem s unknown (some var) = get_lem s var.loc true

  object_lem :
      (s : State) (id : Str) → state_getobject (with_props s) id ≡ changed (state_getobject s id)
  unfolding state_getobject
  object_lem s id = elim (Bool-cases (str_eq id (codes "return"))) [
    | inl same ↦ rw same (result_lem s)
    | inr other ↦ rw other (after (stack_getvariable s.stack id) _ _ λ v. found_lem s _ v)
  ]

  read_lem : (s : State) (at : Spot) → read_object (with_props s) at ≡ read_object s at
  unfolding read_object state_getblock
  read_lem s at = rw (getblock_lem at.place.loc s) refl

  value_lem :
      (id : Str) (s : State) (err : Option Str) (obj : Option Place)
      → variable_value id (with_props s) err obj ≡ variable_value id s err obj
  unfolding variable_value
  value_lem id s (some e) obj = refl
  value_lem id s none none = refl
  value_lem id s none (some at) = ap (held_value id) (read_lem s (spot_of at))

  looked_up :
      (id : Str) (s : State)
      → (state_getobject (with_props s) id >>= λ x.
          variable_value id x.0 x.1.err x.1.obj >>= λ r. ok (x.0, r))
        ≡ changed (
            state_getobject s id >>= λ x.
            variable_value id x.0 x.1.err x.1.obj >>= λ r. ok (x.0, r))
  looked_up id s = rw (object_lem s id) (
      after_state (state_getobject s id) _ λ s' res.
        rw (value_lem id s' res.err res.obj)
          (after (variable_value id s' res.err res.obj) _ _ λ r. refl))

  pub identifier_lem :
      (id : Str) (s : State)
      → expr_identifier_eval id (with_props s) ≡ changed (expr_identifier_eval id s)
  unfolding expr_identifier_eval is_builtin
  identifier_lem id s = elim (Bool-cases (is_builtin id s)) [
    | inl builtin ↦ rw builtin refl
    | inr other ↦ rw other (elim (Bool-cases (has_prefix (codes "#") id)) [
      | inl hash ↦ rw hash refl
      | inr name ↦ rw name (looked_up id s)
    ])
  ]
