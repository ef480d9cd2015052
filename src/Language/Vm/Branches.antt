-- ===== src/Language/Vm/Branches.antt =====
-- The branches of the `switch` in run_bytecode, and run_bytecode on them.
use qbit_nova_c.Base.{ℕ, Bool, false, Option, none, some, [], Text, codes, same, if◌then◌else◌}
use qbit_nova_c.Float.{Float64}
use qbit_nova_c.Language.SafeAdapter.{adapter_ok, adapter_blocked, adapter_dispatch_safe}
use qbit_nova_c.Language.Bytecode.{
  OpCode, op_say, op_let, op_qbit, op_hadamard, op_measure, op_entangle, op_cnot, op_safe_action,
  op_qmsg, op_encode_qmsg, op_decode_qmsg, Instruction, Code,
}
use qbit_nova_c.Language.Control.{Effects, machine, run}
use qbit_nova_c.Language.Vm.{
  CLibrary, Vm, print, said, variable_value, qbit_not_found, check_not_found, check_operator,
  qmsg_encode_target, qmsg_decode_target, action_allowed, action_blocked, action_dispatched,
  loop_fault,
}
use qbit_nova_c.Language.Vm.Store.{
  find_var, set_var, find_qbit, change_qbit, print_qbit, cnot_qbits, entangle_qbits, create_qbit,
  hadamard, measure_linked,
}
use qbit_nova_c.Language.Vm.Qmsg.{
  qmsg_set, qmsg_encode, qmsg_measure, qmsg_print_register, qmsg_decode,
}

module _ {Double : Type 0} where
  unfoldable pub vm_say : Text → Vm Double → Vm Double
  unfolding find_qbit find_var print_qbit qmsg_print_register
  vm_say value vm =
      if same value (codes "qmsg")
      then qmsg_print_register vm
      else elim (find_qbit value vm.qbits) [
        | some q ↦ print_qbit q vm
        | none ↦ elim (find_var value vm.vars) [
          | some v ↦ print (variable_value v.value) vm
          | none ↦ print (said value) vm
        ]
      ]

  unfoldable pub run_safe_action : Text → Vm Double → Vm Double
  unfolding adapter_dispatch_safe
  run_safe_action action vm = elim (adapter_dispatch_safe action) [
    | adapter_ok ↦ print (action_dispatched action) (print (action_allowed action) vm)
    | adapter_blocked ↦ print (action_blocked action) vm
  ]

module _ (F : Float64) (C : CLibrary F) where
  open F use {Double, lt, le}

  unfoldable pub do_hadamard : Text → Vm Double → Vm Double
  unfolding find_qbit change_qbit hadamard
  do_hadamard name vm = elim (find_qbit name vm.qbits) [
    | some _ ↦ record vm { qbits = change_qbit name (hadamard F C) vm.qbits }
    | none ↦ print (qbit_not_found name) vm
  ]

  unfoldable pub do_measure : Text → Vm Double → Vm Double
  unfolding find_qbit measure_linked qmsg_measure
  do_measure name vm =
      if same name (codes "qmsg") then qmsg_measure vm else elim (find_qbit name vm.qbits) [
        | some q ↦ measure_linked F C q vm
        | none ↦ print (qbit_not_found name) vm
      ]

  -- The branches that change neither pc nor the repeats.
  unfoldable pub perform_op : OpCode → Instruction → Vm Double → Vm Double
  unfolding vm_say set_var create_qbit do_hadamard cnot_qbits entangle_qbits do_measure qmsg_set
      qmsg_encode qmsg_decode run_safe_action
  perform_op op_say ins vm = vm_say ins.arg1 vm
  perform_op op_let ins vm = set_var ins.arg1 (C.atof ins.arg2) vm
  perform_op op_qbit ins vm = create_qbit F C ins.arg1 ins.arg2 vm
  perform_op op_hadamard ins vm = do_hadamard ins.arg1 vm
  perform_op op_cnot ins vm = cnot_qbits ins.arg1 ins.arg2 vm
  perform_op op_entangle ins vm = entangle_qbits ins.arg1 ins.arg2 vm
  perform_op op_measure ins vm = do_measure ins.arg1 vm
  perform_op op_qmsg ins vm = qmsg_set ins.arg1 vm
  perform_op op_encode_qmsg ins vm =
      if same ins.arg1 (codes "qmsg")
      then qmsg_encode vm
      else print (qmsg_encode_target ins.arg1) vm
  perform_op op_decode_qmsg ins vm =
      if same ins.arg1 (codes "qmsg")
      then qmsg_decode vm
      else print (qmsg_decode_target ins.arg1) vm
  perform_op op_safe_action ins vm = run_safe_action ins.arg1 vm
  perform_op _ ins vm = vm

  -- The comparison of a check; `none` for an operator that is not known.
  unfoldable pub compare_op : Text → (lhs rhs : Double) → Option Bool
  compare_op op lhs rhs =
      if same op (codes ">")
      then some (lt rhs lhs)
      else if same op (codes "<")
      then some (lt lhs rhs)
      else if same op (codes "==")
      then some (C.equal lhs rhs)
      else if same op (codes ">=")
      then some (le rhs lhs)
      else if same op (codes "<=")
      then some (le lhs rhs)
      else none

  unfoldable pub test_check : Instruction → Vm Double → Bool × Vm Double
  unfolding find_var compare_op
  test_check ins vm = elim (find_var ins.arg1 vm.vars) [
    | none ↦ (false, print (check_not_found ins.arg1) vm)
    | some v ↦ elim (compare_op ins.arg2 v.value (C.of_int ins.value)) [
      | none ↦ (false, print (check_operator ins.arg2) vm)
      | some pass ↦ (pass, vm)
    ]
  ]

  abbrev pub vm_effects : Effects (Vm Double)
  vm_effects = record {
    perform = λ ins vm. perform_op ins.op ins vm;
    test = test_check;
    report = λ fault vm. print (loop_fault fault) vm;
  }

  -- `none` if the fuel does not suffice. The header line and the call of srand are left out.
  unfoldable pub run_bytecode : (fuel : ℕ) → Code → Vm Double → Option (Vm Double)
  unfolding run
  run_bytecode fuel code vm = run vm_effects fuel code (machine 0 [] vm)
