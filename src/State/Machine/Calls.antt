-- ===== src/State/Machine/Calls.antt =====
-- Frames of src/state/state.c that are pushed for a call and popped at its end.
use xr.Prelude.{
  ℕ, ◌≡◌, ◌≢◌, refl, ap, ◌∙◌, sym, Bool, true, Option, none, some, ◌∷◌, ok, ◌==◌, if◌then◌else◌,
  length, ==_iff, inl, inr, Bool-cases,
}
use xr.Prelude.Str.{Str}
use xr.Ast.Types.{AstType}
use xr.Ast.Types.Copy.{is_copyable}
use xr.Ast.Stmts.{AstBlock}
use xr.State.Location.{
  LocationType, Location, location_static, location_vconst, location_dereferencable,
  location_automatic, location_dynamic,
}
use xr.State.Stack.{Frame, Stack, stack_getframe}
use xr.State.Stack.Frames.{IsNumbered, frame_at, getframe_lem, stack_create-IsNumbered}
use xr.State.Machine.{
  State, location_auto_getblock, getblock_at, has_frame, location_getblock, stack_popped,
  state_pushframe, state_popframe,
}

older_frame :
    (g f : Frame) (prev : Stack) (i : ℕ)
    → IsNumbered (g ∷ f ∷ prev)
    → i ≢ length (f ∷ prev)
    → stack_getframe (g ∷ f ∷ prev) i ≡ stack_getframe (f ∷ prev) i
older_frame g f prev i w other =
    getframe_lem g (f ∷ prev) i w
    ∙ ap ok (skip (frame_at (f ∷ prev) i))
    ∙ sym (getframe_lem f prev i w.1)
  where
    skip : (o : Option Frame) → (if i == length (f ∷ prev) then some g else o) ≡ o
    skip o = elim (Bool-cases (i == length (f ∷ prev))) [
      | inl same ↦ absurd (other ((==_iff i (length (f ∷ prev))).0 same))
      | inr apart ↦ rw apart refl
    ]

auto_lem :
    (g f : Frame) (prev : Stack) (frame : Option ℕ) (block : ℕ)
    → IsNumbered (g ∷ f ∷ prev)
    → frame ≢ some (length (f ∷ prev))
    → location_auto_getblock frame block (g ∷ f ∷ prev)
      ≡ location_auto_getblock frame block (f ∷ prev)
unfolding location_auto_getblock
auto_lem g f prev none block w other = refl
auto_lem g f prev (some i) block w other =
    rw (older_frame g f prev i w (λ e. other (ap some e))) refl

getblock_lem :
    (s : State) (g f : Frame) (prev : Stack) (t : LocationType) (frame : Option ℕ) (block : ℕ)
    → IsNumbered (g ∷ f ∷ prev)
    → frame ≢ some (length (f ∷ prev))
    → getblock_at t frame block (record s { stack = g ∷ f ∷ prev })
      ≡ getblock_at t frame block (record s { stack = f ∷ prev })
unfolding getblock_at
getblock_lem s g f prev location_static frame block w other = refl
getblock_lem s g f prev location_vconst frame block w other = refl
getblock_lem s g f prev location_dereferencable frame block w other = refl
getblock_lem s g f prev location_automatic frame block w other =
    auto_lem g f prev frame block w other
getblock_lem s g f prev location_dynamic frame block w other = refl

-- On a state whose frames have their depth as their number, a frame for a result type that can be
-- copied is pushed; a location outside of it leads to the same block as before, or to the same error,
-- and the frame's end gives the state back.
pub state_popframe-state_pushframe :
    (s : State) (f : Frame) (prev : Stack) (name : Str) (b : AstBlock) (t : AstType)
    (abstract : Bool) (loc : Location)
    → s.stack ≡ f ∷ prev
    → IsNumbered (f ∷ prev)
    → is_copyable t ≡ true
    → loc.frame ≢ some (length (f ∷ prev))
    → (s' : State) × (state_pushframe s name b t abstract ≡ ok s')
      × (location_getblock loc s' ≡ location_getblock loc s)
      × (state_popframe s' ≡ ok s)
unfolding state_pushframe state_popframe stack_popped location_getblock has_frame
state_popframe-state_pushframe s f prev name b t abstract loc e w c other =
    let (g, creates, w', block, result, frames) =
      stack_create-IsNumbered name b t abstract (f ∷ prev) 0 w c in
    let same : s ≡ record s { stack = f ∷ prev } = ap (λ stack. record s { stack = stack }) e in
    (
      record s { stack = g ∷ f ∷ prev },
      rw (e, creates) refl,
      getblock_lem s g f prev loc.type loc.frame loc.block w' other
          ∙ ap (location_getblock loc) (sym same),
      ap ok (sym same),
    )
