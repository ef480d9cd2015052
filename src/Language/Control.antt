-- ===== src/Language/Control.antt =====
-- The loop of run_bytecode in src/vm/byte_vm.c: which instruction is executed next. What an
-- instruction does to the variables and qubits is a parameter here, an Effects.
pub mod Steps
pub mod Segments
pub mod Blocks
pub mod Invariants
use qbit_nova_c.Base.{
  ℕ, zero, suc, ◌+◌, ◌-◌, ℤ, pos, negsuc, Bool, true, false, ◌&&◌, Option, none, some, List, [],
  ◌∷◌, length, drop, get_elem?, leb, ltb, ◌==◌, if◌then◌else◌,
}
use qbit_nova_c.Language.Bytecode.{
  OpCode, op_say, op_let, op_qbit, op_hadamard, op_measure, op_entangle, op_cnot, op_check,
  op_repeat, op_block, op_end, op_safe_action, op_qmsg, op_encode_qmsg, op_decode_qmsg, other,
  Instruction, Code,
}

-- The messages with which the loop itself returns.
pub data Fault : Type 0 where
  missing_end stack_overflow : Fault
  unknown_opcode : ℕ → Fault

-- What the branches of the `switch` do: an instruction without a jump, the test of OP_CHECK, and a
-- message of the loop.
pub record Effects (State : Type 0) : Type 0 where
  pub perform : Instruction → State → State
  pub test : Instruction → State → Bool × State
  pub report : Fault → State → State

-- repeat_start, repeat_end and repeat_left at one index below repeat_sp.
pub record Frame : Type 0 where
  pub repeat_start : ℕ
  pub repeat_end : ℕ
  pub repeat_left : ℕ

pub record Machine (State : Type 0) : Type 0 where
  pub pc : ℕ
  pub frames : List Frame  -- the innermost first
  pub state : State

abbrev pub machine : {State : Type 0} → ℕ → List Frame → State → Machine State
machine pc frames state = record { pc = pc; frames = frames; state = state }

-- One round of the loop: on to the next, or the function returns.
pub data Turn (State : Type 0) : Type 0 where
  next : Machine State → Turn State
  halt : State → Turn State

abbrev pub is_end : OpCode → Bool
is_end op_end = true
is_end _ = false

-- `depth` after an instruction that is not the END looked for.
abbrev pub next_depth : OpCode → ℕ → ℕ
next_depth op_check depth = depth + 1
next_depth op_repeat depth = depth + 1
next_depth op_end depth = depth - 1
next_depth _ depth = depth

-- Both scans, from the instruction at index `i`: the index of the END that closes the block.
unfoldable pub find_end : Code → (depth i : ℕ) → Option ℕ
find_end [] depth i = none
find_end (ins ∷ rest) depth i = elim (is_end ins.op && (depth == 0)) [
  | true ↦ some i
  | false ↦ find_end rest (next_depth ins.op depth) (i + 1)
]

abbrev pub block_end : Code → (pc : ℕ) → Option ℕ
block_end code pc = find_end (drop (suc pc) code) 0 (pc + 1)

-- The rounds of a REPEAT: none unless the value is positive.
abbrev pub rounds : ℤ → ℕ
rounds (pos n) = n
rounds (negsuc _) = 0

abbrev pub max_frames : ℕ
max_frames = 64

module _ {State : Type 0} (E : Effects State) where
  -- A check that fails goes to the END, or to the last instruction if there is none.
  unfoldable pub do_check : Instruction → Code → Machine State → Turn State
  do_check ins code m =
      let (pass, state) = E.test ins m.state in
      let skipped : ℕ = elim (block_end code m.pc) [ none ↦ length code - 1 | some e ↦ e ] in
      next (machine ((if pass then m.pc else skipped) + 1) m.frames state)

  unfoldable pub do_repeat : Instruction → Code → Machine State → Turn State
  do_repeat ins code m = elim (block_end code m.pc) [
    | none ↦ halt (E.report missing_end m.state)
    | some e ↦
        if rounds ins.value == 0
        then next (machine (e + 1) m.frames m.state)
        else (if leb max_frames (length m.frames)
            then halt (E.report stack_overflow m.state)
            else next (
                machine (m.pc + 1)
                  (record { repeat_start = m.pc; repeat_end = e; repeat_left = rounds ins.value }
                    ∷ m.frames)
                  m.state))
  ]

  unfoldable pub do_end : List Frame → Machine State → Turn State
  do_end [] m = next (machine (m.pc + 1) m.frames m.state)
  do_end (f ∷ outer) m =
      if m.pc == f.repeat_end
      then (if ltb 0 (f.repeat_left - 1)
          then next (
              machine (f.repeat_start + 1) (record f { repeat_left = f.repeat_left - 1 } ∷ outer)
                m.state)
          else next (machine (m.pc + 1) outer m.state))
      else next (machine (m.pc + 1) m.frames m.state)

  unfoldable pub dispatch : OpCode → Instruction → Code → Machine State → Turn State
  unfolding do_check do_repeat do_end
  dispatch op_check ins code m = do_check ins code m
  dispatch op_repeat ins code m = do_repeat ins code m
  dispatch op_block ins code m = next (machine (m.pc + 1) m.frames m.state)
  dispatch op_end ins code m = do_end m.frames m
  dispatch (other n) ins code m = halt (E.report (unknown_opcode n) m.state)
  dispatch _ ins code m = next (machine (m.pc + 1) m.frames (E.perform ins m.state))

  unfoldable pub step : Code → Machine State → Turn State
  step code m = elim (get_elem? code m.pc) [
    | none ↦ halt m.state
    | some ins ↦ dispatch ins.op ins code m
  ]

  -- The loop may run for ever: on fuel, `none` if there is not enough.
  unfoldable pub run : (fuel : ℕ) → Code → Machine State → Option State
  run zero code m = none
  run (suc fuel) code m = elim (step code m) [
    | next m' ↦ run fuel code m'
    | halt state ↦ some state
  ]
