-- ===== src/Language/Control/Invariants.antt =====
-- What every branch keeps, every run of the loop keeps.
use qbit_nova_c.Base.{
  ℕ, zero, suc, sym, ◌⊎◌, ◌≡◌, refl, Option, some, none, List, [], ◌∷◌, get_elem?, length, ◌≤◌, inl,
  inr, arith,
}
use qbit_nova_c.Language.Bytecode.{
  OpCode, op_check, op_repeat, op_block, op_end, other, Instruction, Code,
}
use qbit_nova_c.Language.Control.{
  Effects, Fault, Frame, Machine, Turn, next, halt, do_check, do_repeat, do_end, dispatch, step,
  run, missing_end, stack_overflow, max_frames,
}
use qbit_nova_c.Language.Control.Steps.{Steps, here, more}
use mathlib.Core.Path.{subst}

abbrev pub turn_state : {State : Type 0} → Turn State → State
turn_state (next m) = m.state
turn_state (halt s) = s

abbrev pub turn_frames : {State : Type 0} → Turn State → List Frame
turn_frames (next m) = m.frames
turn_frames (halt s) = []

-- Every branch of the `switch` keeps `P`, on instructions that are as `Q` says.
pub record Keeps {State : Type 0} (E : Effects State) (Q : Instruction → Type 0)
    (P : State → Type 0) : Type 0 where
  pub perform : (ins : Instruction) (s : State) → Q ins → P s → P (E.perform ins s)
  pub test : (ins : Instruction) (s : State) → P s → P (E.test ins s).1
  pub report : (fault : Fault) (s : State) → P s → P (E.report fault s)

-- Every instruction of the code is as `Q` says.
abbrev pub AllCode : (Instruction → Type 0) → Code → Type 0
AllCode Q code = (i : ℕ) (ins : Instruction) → get_elem? code i ≡ some ins → Q ins

-- The repeats that are open never fill more than their arrays.
module _ {State : Type 0} (E : Effects State) where
  end-frames :
      (frames : List Frame) (m : Machine State)
      → length frames ≤ max_frames
      → length m.frames ≤ max_frames
      → length (turn_frames (do_end E frames m)) ≤ max_frames
  unfolding do_end
  end-frames [] m h h' = h'
  end-frames (f ∷ outer) m h h' = ground (arith, h, h')

  dispatch-frames :
      (op : OpCode) (ins : Instruction) (code : Code) (m : Machine State)
      → length m.frames ≤ max_frames
      → length (turn_frames (dispatch E op ins code m)) ≤ max_frames
  unfolding dispatch do_check do_repeat do_end
  dispatch-frames op_check ins code m h = h
  dispatch-frames op_repeat ins code m h = ground (arith, h)
  dispatch-frames op_block ins code m h = h
  dispatch-frames op_end ins code m h = end-frames m.frames m h h
  dispatch-frames (other n) ins code m h = omega arith
  dispatch-frames op ins code m h = h

  pub step-frames :
      (code : Code) (m : Machine State)
      → length m.frames ≤ max_frames
      → length (turn_frames (step E code m)) ≤ max_frames
  unfolding step
  step-frames code m h =
      elim (get_elem? code m.pc)
        as (λ o.
          length
            (turn_frames (elim o [ none ↦ halt m.state | some ins ↦ dispatch E ins.op ins code m ]))
          ≤ max_frames) [ none ↦ omega arith | some ins ↦ dispatch-frames ins.op ins code m h ]

  pub Steps-frames :
      (code : Code) {m m' : Machine State}
      → Steps E code m m'
      → length m.frames ≤ max_frames
      → length m'.frames ≤ max_frames
  Steps-frames code here h = h
  Steps-frames code (more {m} e steps) h =
      Steps-frames code steps
        (subst (λ (t : Turn State). length (turn_frames t) ≤ max_frames) e (step-frames code m h))

module _ {State : Type 0} (E : Effects State) (Q : Instruction → Type 0) (P : State → Type 0)
    (keeps : Keeps E Q P) where
  open keeps use {perform, test, report}

  repeat-state :
      (ins : Instruction) (code : Code) (m : Machine State)
      → (turn_state (do_repeat E ins code m) ≡ m.state)
        ⊎ ((turn_state (do_repeat E ins code m) ≡ E.report missing_end m.state)
            ⊎ (turn_state (do_repeat E ins code m) ≡ E.report stack_overflow m.state))
  unfolding do_repeat
  repeat-state ins code m = ground arith

  repeat-keeps :
      (ins : Instruction) (code : Code) (m : Machine State)
      → P m.state
      → P (turn_state (do_repeat E ins code m))
  repeat-keeps ins code m h = elim (repeat-state ins code m) [
    | inl e ↦ subst P (sym e) h
    | inr (inl e) ↦ subst P (sym e) (report missing_end m.state h)
    | inr (inr e) ↦ subst P (sym e) (report stack_overflow m.state h)
  ]

  end-state : (frames : List Frame) (m : Machine State) → turn_state (do_end E frames m) ≡ m.state
  unfolding do_end
  end-state [] m = refl
  end-state (f ∷ outer) m = ground arith

  dispatch-keeps :
      (op : OpCode) (ins : Instruction) (code : Code) (m : Machine State)
      → Q ins
      → P m.state
      → P (turn_state (dispatch E op ins code m))
  unfolding dispatch do_check
  dispatch-keeps op_check ins code m fits h = test ins m.state h
  dispatch-keeps op_repeat ins code m fits h = repeat-keeps ins code m h
  dispatch-keeps op_block ins code m fits h = h
  dispatch-keeps op_end ins code m fits h = subst P (sym (end-state m.frames m)) h
  dispatch-keeps (other n) ins code m fits h = report _ m.state h
  dispatch-keeps op ins code m fits h = perform ins m.state fits h

  pub step-keeps :
      (code : Code)
      → AllCode Q code
      → (m : Machine State) → P m.state
      → P (turn_state (step E code m))
  unfolding step
  step-keeps code fit m h =
      elim (get_elem? code m.pc)
          as (λ o.
            get_elem? code m.pc ≡ o
            → P (
                turn_state
                  (elim o [ none ↦ halt m.state | some ins ↦ dispatch E ins.op ins code m ]))) [
                    | none ↦ λ e. h
                    | some ins ↦ λ e. dispatch-keeps ins.op ins code m (fit m.pc ins e) h
                  ]
        refl

  -- Every machine that the loop comes to.
  pub Steps-keeps :
      (code : Code)
      → AllCode Q code
      → {m m' : Machine State} → Steps E code m m'
      → P m.state
      → P m'.state
  Steps-keeps code fit here h = h
  Steps-keeps code fit (more {m} e steps) h =
      Steps-keeps code fit steps (subst (λ t. P (turn_state t)) e (step-keeps code fit m h))

  after-keeps :
      (fuel : ℕ) (code : Code) (s : State)
      → ((m : Machine State) → P m.state → run E fuel code m ≡ some s → P s)
      → (t : Turn State) → P (turn_state t)
      → (elim t as (λ _. Option State) [ next m' ↦ run E fuel code m' | halt x ↦ some x ]) ≡ some s
      → P s
  after-keeps fuel code s rest (next m) k e = rest m k e
  after-keeps fuel code s rest (halt x) k e = subst P (cc) k

  pub run-keeps :
      (fuel : ℕ) (code : Code) (m : Machine State) (s : State)
      → AllCode Q code
      → P m.state
      → run E fuel code m ≡ some s
      → P s
  unfolding run
  run-keeps zero code m s fit h e = absurd (cc)
  run-keeps (suc fuel) code m s fit h e =
      after-keeps fuel code s (λ m' k. run-keeps fuel code m' s fit k) (step E code m)
        (step-keeps code fit m h) e
