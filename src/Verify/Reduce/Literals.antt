-- ===== src/Verify/Reduce/Literals.antt =====
-- Literals are found or pooled, by src/state/state.c, without a look at the conditions that a state
-- takes to hold.
use xr.Prelude.{◌≡◌, refl, ap, true, Option, none, some, get_elem?, set, Run, ok, abort, ◌>>=◌}
use xr.Prelude.Int.{pos}
use xr.Prelude.Str.{Str}
use xr.Ast.Expr.{ast_expr_constant_create}
use xr.Props.{Props}
use xr.Value.Objects.{Value, Object, object_assign, value_literal_create, value_ptr}
use xr.State.Static.{static_memory_newblock, static_memory_stringpool, static_memory_checkpool}
use xr.State.Location.{Location, location_create_static}
use xr.State.Block.{Block, block_create}
use xr.State.Machine.{State, state_getblock, put_block}
use xr.State.Machine.Access.{
  Place, state_get, assign_at, without_error, pool_literal, state_static_init,
}
use xr.Verify.Reduce.{expr_literal_eval}
use xr.Verify.Reduce.Props.{
  with_props, changed, changed_state, after, after_state, getblock_lem, put_lem, get_lem,
  errorless_lem,
}

module _ (p : Props) where
  put_each :
      (s : State) (at : Place) (bl : Block) (r : Run Object)
      → (r >>= λ o. ok (put_block (with_props p s) at.loc (set bl at.index o)))
        ≡ changed_state p (r >>= λ o. ok (put_block s at.loc (set bl at.index o)))
  put_each s at bl abort = refl
  put_each s at bl (ok o) = ap ok (put_lem p s at.loc (set bl at.index o))

  put_found :
      (s : State) (at : Place) (val : Option Value) (bl : Block) (obj : Option Object)
      → (elim obj as (λ _. Run State) [
        | none ↦ abort
        | some o ↦ object_assign o val >>= λ o'.
            ok (put_block (with_props p s) at.loc (set bl at.index o'))
      ])
        ≡ changed_state p (elim obj [
          | none ↦ abort
          | some o ↦ object_assign o val >>= λ o'. ok (put_block s at.loc (set bl at.index o'))
        ])
  put_found s at val bl none = refl
  put_found s at val bl (some o) = put_each s at bl (object_assign o val)

  put_in :
      (s : State) (at : Place) (val : Option Value) (r : Run (Option Block))
      → (r >>= λ b. elim b as (λ _. Run State) [
        | none ↦ abort
        | some bl ↦ elim (get_elem? bl at.index) [
          | none ↦ abort
          | some o ↦ object_assign o val >>= λ o'.
              ok (put_block (with_props p s) at.loc (set bl at.index o'))
        ]
      ])
        ≡ changed_state p (
            r >>= λ b. elim b as (λ _. Run State) [
              | none ↦ abort
              | some bl ↦ elim (get_elem? bl at.index) [
                | none ↦ abort
                | some o ↦
                    object_assign o val >>= λ o'. ok (put_block s at.loc (set bl at.index o'))
              ]
            ])
  put_in s at val abort = refl
  put_in s at val (ok none) = refl
  put_in s at val (ok (some bl)) = put_found s at val bl (get_elem? bl at.index)

  assign_lem :
      (s : State) (at : Place) (val : Option Value)
      → assign_at (with_props p s) at val ≡ changed_state p (assign_at s at val)
  unfolding assign_at state_getblock
  assign_lem s at val = rw (getblock_lem p at.loc s) (put_in s at val _)

  pooled_in :
      (lit : Str) (loc : Location) (r : Run State)
      → (changed_state p r >>= λ s2. static_memory_stringpool s2.static_memory lit loc >>= λ sm.
          ok (record s2 { static_memory = sm }, value_ptr (some loc)))
        ≡ changed p (
            r >>= λ s2. static_memory_stringpool s2.static_memory lit loc >>= λ sm.
            ok (record s2 { static_memory = sm }, value_ptr (some loc)))
  pooled_in lit loc abort = refl
  pooled_in lit loc (ok s) =
      after p (static_memory_stringpool s.static_memory lit loc) _ _ λ sm. refl

  pool_at :
      (lit : Str) (loc : Location) (s : State) (at : Option Place)
      → (elim at as (λ _. Run (State × Value)) [
        | none ↦ abort
        | some pl ↦ assign_at (with_props p s) pl (some (value_literal_create lit)) >>= λ s2.
            static_memory_stringpool s2.static_memory lit loc >>= λ sm.
            ok (record s2 { static_memory = sm }, value_ptr (some loc))
      ])
        ≡ changed p (elim at as (λ _. Run (State × Value)) [
          | none ↦ abort
          | some pl ↦ assign_at s pl (some (value_literal_create lit)) >>= λ s2.
              static_memory_stringpool s2.static_memory lit loc >>= λ sm.
              ok (record s2 { static_memory = sm }, value_ptr (some loc))
        ])
  pool_at lit loc s none = refl
  pool_at lit loc s (some pl) =
      rw (assign_lem s pl (some (value_literal_create lit)))
        (pooled_in lit loc (assign_at s pl (some (value_literal_create lit))))

  pool_with :
      (lit : Str) (loc : Location) (t : State)
      → (state_get (with_props p t) loc true >>= λ r. without_error r >>= λ x.
          elim x.1.obj as (λ _. Run (State × Value)) [
            | none ↦ abort
            | some pl ↦ assign_at x.0 pl (some (value_literal_create lit)) >>= λ s2.
                static_memory_stringpool s2.static_memory lit loc >>= λ sm.
                ok (record s2 { static_memory = sm }, value_ptr (some loc))
          ])
        ≡ changed p (
            state_get t loc true >>= λ r. without_error r >>= λ x.
            elim x.1.obj as (λ _. Run (State × Value)) [
              | none ↦ abort
              | some pl ↦ assign_at x.0 pl (some (value_literal_create lit)) >>= λ s2.
                  static_memory_stringpool s2.static_memory lit loc >>= λ sm.
                  ok (record s2 { static_memory = sm }, value_ptr (some loc))
            ])
  pool_with lit loc t = rw (get_lem p t loc true) (
      after_state p (state_get t loc true) _ λ s1 res.
        rw (errorless_lem p s1 res)
          (after_state p (without_error (s1, res)) _ λ s2 r. pool_at lit loc s2 r.obj))

  pool_lem :
      (lit : Str) (s : State) → pool_literal (with_props p s) lit ≡ changed p (pool_literal s lit)
  unfolding pool_literal
  pool_lem lit s =
      pool_with lit
        (location_create_static (static_memory_newblock block_create s.static_memory).1
          (ast_expr_constant_create (pos 0)))
        (record s { static_memory = (static_memory_newblock block_create s.static_memory).0 })

  init_lem :
      (lit : Str) (s : State)
      → state_static_init (with_props p s) lit ≡ changed p (state_static_init s lit)
  unfolding state_static_init
  init_lem lit s =
      elim (static_memory_checkpool s.static_memory lit)
        as (λ found.
          (elim found as (λ _. Run (State × Value)) [
            | some loc ↦ ok (with_props p s, value_ptr (some loc))
            | none ↦ pool_literal (with_props p s) lit
          ])
          ≡ changed p (elim found [
            | some loc ↦ ok (s, value_ptr (some loc))
            | none ↦ pool_literal s lit
          ])) [ some loc ↦ refl | none ↦ pool_lem lit s ]

  pub literal_lem :
      (lit : Str) (s : State)
      → expr_literal_eval lit (with_props p s) ≡ changed p (expr_literal_eval lit s)
  unfolding expr_literal_eval
  literal_lem lit s = rw (init_lem lit s) (after_state p (state_static_init s lit) _ λ s' v. refl)
