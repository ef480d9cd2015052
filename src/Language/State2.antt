-- ===== src/Language/State2.antt =====
-- src/quantum/state2.c and src/vm/state2_vm.c: two qubits in one state of four amplitudes, and the
-- machine that runs byte code on them. Each printf is a message; the n-th call of rand() is that of CLibrary.
pub mod Bell
use qbit_nova_c.Base.{
  ℕ, ◌+◌, ◌/◌, ◌%◌, Bool, true, false, ◌&&◌, List, [], ◌∷◌, ◌++◌, Text, same, ◌==◌, if◌then◌else◌,
}
use qbit_nova_c.Float.{Float64}
use qbit_nova_c.Language.Bytecode.{
  OpCode, op_say, op_qbit, op_hadamard, op_cnot, op_measure, Instruction, Code,
}
use qbit_nova_c.Language.Vm.{CLibrary}

-- amp[0] to amp[3] are the amplitudes of |00>, |01>, |10> and |11>.
pub record QState2 (Double : Type 0) : Type 0 where
  pub amp_0 : Double
  pub amp_1 : Double
  pub amp_2 : Double
  pub amp_3 : Double
  pub measured : Bool
  pub result : ℕ

pub data Message2 (Double : Type 0) : Type 0 where
  bit : ℕ → Message2 Double
  pair : (result : ℕ) → Message2 Double
  amplitudes : (a b c d : Double) → Message2 Double
  said : Text → Message2 Double
  mapped_first mapped_second only_two hadamard_of hadamard_todo : Text → Message2 Double
  cnot_of cnot_todo : (control target : Text) → Message2 Double
  measured_pair : Message2 Double

-- The local variables of run_state2_bytecode, the calls of rand() so far, and what is printed.
pub record Vm2 (Double : Type 0) : Type 0 where
  pub state : QState2 Double
  pub q0 : Text
  pub q1 : Text
  pub qcount : ℕ
  pub measured : Bool
  pub bit0 : ℕ
  pub bit1 : ℕ
  pub rand_calls : ℕ
  pub output : List (Message2 Double)

module _ {Double : Type 0} where
  abbrev pub print2 : Message2 Double → Vm2 Double → Vm2 Double
  print2 message vm = record vm { output = vm.output ++ message ∷ [] }

  unfoldable pub qstate2_print : QState2 Double → Message2 Double
  qstate2_print s = if s.measured then pair s.result else amplitudes s.amp_0 s.amp_1 s.amp_2 s.amp_3

  unfoldable pub qstate2_cnot_first_to_second : QState2 Double → QState2 Double
  qstate2_cnot_first_to_second s = record s { amp_2 = s.amp_3; amp_3 = s.amp_2; measured = false }

module _ (F : Float64) where
  open F use {Double, of_u64, add, sub, mul, div, sqrt, le}

  -- 0.0 and 1.0
  abbrev pub zero_double : Double
  zero_double = of_u64 0

  abbrev pub one_double : Double
  one_double = of_u64 1

  abbrev pub root_two : Double
  root_two = sqrt (of_u64 2)

  unfoldable pub qstate2_init_00 : QState2 Double
  qstate2_init_00 = record {
    amp_0 = one_double;
    amp_1 = zero_double;
    amp_2 = zero_double;
    amp_3 = zero_double;
    measured = false;
    result = 0;
  }

  unfoldable pub qstate2_h_first : QState2 Double → QState2 Double
  qstate2_h_first s = record s {
    amp_0 = div (add s.amp_0 s.amp_2) root_two;
    amp_2 = div (sub s.amp_0 s.amp_2) root_two;
    amp_1 = div (add s.amp_1 s.amp_3) root_two;
    amp_3 = div (sub s.amp_1 s.amp_3) root_two;
    measured = false;
  }

  -- The loop of qstate2_measure over the amplitudes from index `i` on.
  unfoldable pub pick : (r acc : Double) → List Double → (i : ℕ) → ℕ
  pick r acc [] i = 3
  pick r acc (a ∷ amps) i =
      let rest = pick r (add acc (mul a a)) amps (i + 1) in
      if le r (add acc (mul a a)) then i else rest

  unfoldable pub qstate2_measure : (r : Double) → QState2 Double → QState2 Double
  unfolding pick
  qstate2_measure r s =
      let picked = pick r zero_double (s.amp_0 ∷ s.amp_1 ∷ s.amp_2 ∷ s.amp_3 ∷ []) 0 in
      record {
        amp_0 = if picked == 0 then one_double else zero_double;
        amp_1 = if picked == 1 then one_double else zero_double;
        amp_2 = if picked == 2 then one_double else zero_double;
        amp_3 = if picked == 3 then one_double else zero_double;
        measured = true;
        result = picked;
      }

  module _ (C : CLibrary F) where
    unfoldable pub say2 : Text → Vm2 Double → Vm2 Double
    unfolding qstate2_print
    say2 name vm =
        if same name vm.q0
        then print2 (if vm.measured then bit vm.bit0 else qstate2_print vm.state) vm
        else if same name vm.q1
        then print2 (if vm.measured then bit vm.bit1 else qstate2_print vm.state) vm
        else print2 (said name) vm

    unfoldable pub qbit2 : Text → Vm2 Double → Vm2 Double
    qbit2 name vm =
        if vm.qcount == 0
        then print2 (mapped_first name) (record vm { q0 = name; qcount = vm.qcount + 1 })
        else if vm.qcount == 1
        then print2 (mapped_second name) (record vm { q1 = name; qcount = vm.qcount + 1 })
        else print2 (only_two name) vm

    unfoldable pub hadamard2 : Text → Vm2 Double → Vm2 Double
    unfolding qstate2_h_first qstate2_print
    hadamard2 name vm =
        let state = qstate2_h_first vm.state in
        if same name vm.q0
        then print2 (qstate2_print state) (print2 (hadamard_of name) (record vm { state = state }))
        else print2 (hadamard_todo name) vm

    unfoldable pub cnot2 : (control target : Text) → Vm2 Double → Vm2 Double
    unfolding qstate2_cnot_first_to_second qstate2_print
    cnot2 control target vm =
        let state = qstate2_cnot_first_to_second vm.state in
        if same control vm.q0 && same target vm.q1
        then print2 (qstate2_print state)
            (print2 (cnot_of control target) (record vm { state = state }))
        else print2 (cnot_todo control target) vm

    unfoldable pub measure2 : Vm2 Double → Vm2 Double
    unfolding qstate2_measure qstate2_print
    measure2 vm =
        let state = qstate2_measure (C.random vm.rand_calls) vm.state in
        print2 (qstate2_print state) (
          print2 measured_pair (record vm {
            state = state;
            measured = true;
            bit0 = state.result / 2 % 2;
            bit1 = state.result % 2;
            rand_calls = vm.rand_calls + 1;
          }))

    unfoldable pub step2 : OpCode → Instruction → Vm2 Double → Vm2 Double
    unfolding say2 qbit2 hadamard2 cnot2 measure2
    step2 op_say ins vm = say2 ins.arg1 vm
    step2 op_qbit ins vm = qbit2 ins.arg1 vm
    step2 op_hadamard ins vm = hadamard2 ins.arg1 vm
    step2 op_cnot ins vm = cnot2 ins.arg1 ins.arg2 vm
    step2 op_measure ins vm = measure2 vm
    step2 _ ins vm = vm

    unfoldable pub run2 : Code → Vm2 Double → Vm2 Double
    unfolding step2
    run2 [] vm = vm
    run2 (ins ∷ code) vm = run2 code (step2 ins.op ins vm)

    unfoldable pub run_state2_bytecode : (rand_calls : ℕ) → Code → Vm2 Double
    unfolding run2 qstate2_init_00
    run_state2_bytecode rand_calls code = run2 code (record {
      state = qstate2_init_00;
      q0 = [];
      q1 = [];
      qcount = 0;
      measured = false;
      bit0 = 0;
      bit1 = 0;
      rand_calls = rand_calls;
      output = [];
    })
