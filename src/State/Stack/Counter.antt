-- ===== src/State/Stack/Counter.antt =====
-- The program counter of src/state/stack.c stays within its block and comes to its end.
use xr.Prelude.{
  ℕ, suc, ◌+◌, ◌-◌, ◌<◌, ◌≡◌, refl, inl, inr, Bool, true, false, ok, arith, ◌==◌, leb, Bool-cases,
}
use xr.Prelude.Str.{Str}
use xr.Ast.Stmts.{AstBlock, ast_block_ndecls, ast_block_nstmts}
use xr.State.Stack.{
  ProgramCounter, ProgramCounterState, at_decls, at_stmts, at_end, if_any, program_counter_nextdecl,
  program_counter_nextstmt, program_counter_advance, program_counter_atend, is_at_decls,
  is_at_stmts,
}

-- The index of a declaration or a statement.
abbrev IndexIn : ProgramCounterState → ℕ → ℕ → ℕ → Type 0
IndexIn at_decls index ndecls nstmts = index < ndecls
IndexIn at_stmts index ndecls nstmts = index < nstmts
IndexIn at_end index ndecls nstmts = Unit

abbrev pub IsInBlock : ProgramCounter → Type 0
IsInBlock pc = IndexIn pc.s pc.index (ast_block_ndecls pc.b) (ast_block_nstmts pc.b)

-- The declarations and statements that are left.
abbrev left_in : ProgramCounterState → ℕ → ℕ → ℕ → ℕ
left_in at_decls index ndecls nstmts = (ndecls - index) + nstmts
left_in at_stmts index ndecls nstmts = nstmts - index
left_in at_end index ndecls nstmts = 0

abbrev pub left : ProgramCounter → ℕ
left pc = left_in pc.s pc.index (ast_block_ndecls pc.b) (ast_block_nstmts pc.b)

start : (n : ℕ) (d : ℕ) → IndexIn (if_any n at_stmts at_end) 0 d n
unfolding if_any
start n d = elim (Bool-cases (n == 0)) [
  | inl none_left ↦ rw none_left tt
  | inr some_left ↦ rw some_left (ground arith)
]

start_left : (n d : ℕ) → left_in (if_any n at_stmts at_end) 0 d n ≡ n
unfolding if_any
start_left n d = elim (Bool-cases (n == 0)) [
  | inl none_left ↦ rw none_left (ground arith)
  | inr some_left ↦ rw some_left (omega arith)
]

abbrev counter : AstBlock → ProgramCounterState → Str → ℕ → ProgramCounter
counter b s name index = record { b = b; s = s; name = name; index = index }

-- What one advance promises.
pub record Advanced (pc : ProgramCounter) (isterminal : Bool) (pc' : ProgramCounter) : Type 0 where
  pub answers : program_counter_advance pc isterminal ≡ ok pc'
  pub same_block : pc'.b ≡ pc.b
  pub bounds : IsInBlock pc'
  pub falls : left pc' < left pc

advanced :
    (b : AstBlock) (s : ProgramCounterState) (name : Str) (index : ℕ) (isterminal : Bool)
    → IsInBlock (counter b s name index)
    → program_counter_atend (counter b s name index) ≡ false
    → (pc' : ProgramCounter) × Advanced (counter b s name index) isterminal pc'
unfolding program_counter_advance program_counter_nextdecl program_counter_nextstmt is_at_decls
    is_at_stmts program_counter_atend
advanced b at_decls name index isterminal h running =
    let d = ast_block_ndecls b in
    let n = ast_block_nstmts b in
    elim (Bool-cases (leb d (suc index))) [
      | inl last ↦ (
        counter b (if_any n at_stmts at_end) name 0,
        record {
          answers = rw last;
          same_block = refl;
          bounds = start n d;
          falls = omega (arith, h, start_left n d);
        },
      )
      | inr more ↦ (
        counter b at_decls name (suc index),
        record {
          answers = rw more;
          same_block = refl;
          bounds = ground (arith, more);
          falls = omega (arith, h);
        },
      )
    ]
advanced b at_stmts name index true h running = (
  counter b at_end name index,
  record { answers = refl; same_block = refl; bounds = tt; falls = omega (arith, h) },
)
advanced b at_stmts name index false h running =
    let n = ast_block_nstmts b in
    elim (Bool-cases (leb n (suc index))) [
      | inl last ↦ (
        counter b at_end name (suc index),
        record { answers = rw last; same_block = refl; bounds = tt; falls = omega (arith, h) },
      )
      | inr more ↦ (
        counter b at_stmts name (suc index),
        record {
          answers = rw more;
          same_block = refl;
          bounds = ground (arith, more);
          falls = omega (arith, h);
        },
      )
    ]
advanced b at_end name index isterminal h running = cc

-- A counter that is not at its end and whose index is one of the declarations or statements of its
-- block advances: in the same block, to the end or to such an index again, and with less left of the
-- block.
pub program_counter_advance-IsInBlock :
    (pc : ProgramCounter) (isterminal : Bool)
    → IsInBlock pc
    → program_counter_atend pc ≡ false
    → (pc' : ProgramCounter) × Advanced pc isterminal pc'
program_counter_advance-IsInBlock pc isterminal h running =
    advanced pc.b pc.s pc.name pc.index isterminal h running
