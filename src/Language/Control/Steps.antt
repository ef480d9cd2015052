-- ===== src/Language/Control/Steps.antt =====
-- Sequences of rounds of the loop, and the round of each kind of instruction.
use mathlib.Core.Path.{subst}
use qbit_nova_c.Base.{
  ℕ, suc, ◌+◌, ◌≡◌, ◌∙◌, refl, Bool, true, false, some, List, ◌∷◌, ◌++◌, length, drop, get_elem?,
  get_elem?-append, drop-append, ap,
}
use qbit_nova_c.Language.Bytecode.{
  OpCode, op_check, op_repeat, op_block, op_end, other, Instruction, Code,
}
use qbit_nova_c.Language.Control.{
  Effects, Frame, Machine, machine, next, find_end, block_end, dispatch, step, run,
}

-- The instructions whose only effect on the loop is to go on behind them.
abbrev pub is_plain : OpCode → Bool
is_plain op_check = false
is_plain op_repeat = false
is_plain op_block = false
is_plain op_end = false
is_plain (other _) = false
is_plain _ = true

-- `code` is `ins` behind a prefix of `p` instructions, and `rest` follows.
pub record At (code : Code) (p : ℕ) (ins : Instruction) (rest : Code) : Type 0 where
  pub before : Code
  pub length_before : p ≡ length before
  pub splits : code ≡ before ++ ins ∷ rest

module _ {code rest : Code} {p : ℕ} {ins : Instruction} (at : At code p ins rest) where
  pub At-get : get_elem? code p ≡ some ins
  At-get = rw (at.splits, at.length_before) (get_elem?-append at.before ins rest)

  pub At-drop : drop (suc p) code ≡ rest
  At-drop = rw (at.splits, at.length_before) (drop-append at.before ins rest)

  -- The scan from `p` starts at what follows.
  pub At-block_end : block_end code p ≡ find_end rest 0 (p + 1)
  At-block_end = ap (λ (c : Code). find_end c 0 (p + 1)) At-drop

module _ {State : Type 0} (E : Effects State) (code : Code) where
  pub data Steps : Machine State → Machine State → Type 0 where
    here : {m : Machine State} → Steps m m
    more : {m m' m'' : Machine State} → step E code m ≡ next m' → Steps m' m'' → Steps m m''

  pub Steps-trans : {m m' m'' : Machine State} → Steps m m' → Steps m' m'' → Steps m m''
  Steps-trans here t = t
  Steps-trans (more e s) t = more e (Steps-trans s t)

  run-next :
      (m : Machine State) {m' : Machine State} (g : ℕ)
      → step E code m ≡ next m'
      → run E (suc g) code m ≡ run E g code m'
  unfolding run
  run-next m g e = rw (e, run) refl

  -- Enough fuel for the steps, and for what is run after them.
  pub Steps-run :
      {m m' : Machine State} {s : State} (f : ℕ)
      → Steps m m'
      → run E f code m' ≡ some s
      → (g : ℕ) × (run E g code m ≡ some s)
  unfolding run
  Steps-run {m} f here h = (f, h)
  Steps-run {m} f (more e t) h = let (g, r) = Steps-run f t h in (suc g, run-next m g e ∙ r)

  -- Rounds that reach a machine whose position or state is written otherwise.
  pub arrive :
      {m : Machine State} {p q : ℕ} {frames : List Frame} {s s' : State}
      → Steps m (machine p frames s)
      → p ≡ q
      → s ≡ s'
      → Steps m (machine q frames s')
  arrive {m} {q = q} {frames = frames} {s = s} t e h =
      subst (λ (x : State). Steps m (machine q frames x)) h
        (subst (λ (n : ℕ). Steps m (machine n frames s)) e t)

  pub step-At :
      {p : ℕ} {ins : Instruction} {rest : Code} (frames : List Frame) (s : State)
      → At code p ins rest
      → step E code (machine p frames s) ≡ dispatch E ins.op ins code (machine p frames s)
  unfolding step
  step-At frames s at = rw (At-get at, step) refl

dispatch-plain :
    {State : Type 0} (E : Effects State) (op : OpCode) (ins : Instruction) (code : Code)
    (m : Machine State)
    → is_plain op ≡ true
    → dispatch E op ins code m ≡ next (machine (m.pc + 1) m.frames (E.perform ins m.state))
unfolding dispatch
dispatch-plain E op_check ins code m h = cc
dispatch-plain E op_repeat ins code m h = cc
dispatch-plain E op_block ins code m h = cc
dispatch-plain E op_end ins code m h = cc
dispatch-plain E (other n) ins code m h = cc
dispatch-plain E op ins code m h = refl

pub plain-Steps :
    {State : Type 0} (E : Effects State) (code : Code) {p : ℕ} {ins : Instruction} {rest : Code}
    (frames : List Frame) (s : State)
    → At code p ins rest
    → is_plain ins.op ≡ true
    → Steps E code (machine p frames s) (machine (p + 1) frames (E.perform ins s))
plain-Steps E code {ins = ins} frames s at h =
    more (step-At E code frames s at ∙ dispatch-plain E ins.op ins code _ h) here
