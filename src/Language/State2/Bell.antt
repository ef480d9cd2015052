-- ===== src/Language/State2/Bell.antt =====
-- A Bell pair on the two-qubit machine.
use qbit_nova_c.Base.{ℕ, ◌≡◌, ◌⊎◌, refl, arith, true, [], ◌∷◌, Text, pos, take, same_refl}
use qbit_nova_c.Float.{Float64}
use qbit_nova_c.Language.Bytecode.{op_qbit, op_hadamard, op_cnot, op_measure, Code, instruction}
use qbit_nova_c.Language.Vm.{CLibrary}
use qbit_nova_c.Language.State2.{
  Vm2, pick, qstate2_init_00, qstate2_h_first, qstate2_cnot_first_to_second, qstate2_measure, qbit2,
  hadamard2, cnot2, measure2, step2, run2, run_state2_bytecode, root_two,
}

-- What IEEE-754 gives for 0.0 in sums, differences, products and quotients.
pub record PairLaws (F : Float64) : Type 0 where
  pub add_zero_zero : F.add (F.of_u64 0) (F.of_u64 0) ≡ F.of_u64 0
  pub sub_zero_zero : F.sub (F.of_u64 0) (F.of_u64 0) ≡ F.of_u64 0
  pub div_zero_root : F.div (F.of_u64 0) (root_two F) ≡ F.of_u64 0
  pub mul_zero_zero : F.mul (F.of_u64 0) (F.of_u64 0) ≡ F.of_u64 0
  pub add_sum_zero :
      (p : F.Double) → F.add (F.add (F.of_u64 0) p) (F.of_u64 0) ≡ F.add (F.of_u64 0) p

-- qbit a = |0>, qbit b = |0>, hadamard a, cnot a b, measure x
abbrev pub bell_code : (a b x : Text) → Code
bell_code a b x =
    instruction op_qbit a [] (pos 0)
    ∷ instruction op_qbit b [] (pos 0)
    ∷ instruction op_hadamard a [] (pos 0)
    ∷ instruction op_cnot a b (pos 0)
    ∷ instruction op_measure x [] (pos 0)
    ∷ []

module _ (F : Float64) (laws : PairLaws F) where
  open F use {Double, of_u64, add, mul, le}

  -- Amplitudes of 0.0 in the middle are never picked.
  pick_ends :
      (r h k : Double)
      → (pick F r (of_u64 0) (h ∷ of_u64 0 ∷ of_u64 0 ∷ k ∷ []) 0 ≡ 0)
        ⊎ (pick F r (of_u64 0) (h ∷ of_u64 0 ∷ of_u64 0 ∷ k ∷ []) 0 ≡ 3)
  unfolding pick
  pick_ends r h k =
      rw (laws.mul_zero_zero, laws.add_sum_zero (mul h h), laws.add_sum_zero (mul h h))
        (ground arith)

  -- A measurement of a state whose middle amplitudes are 0.0.
  measure2_ends :
      (C : CLibrary F) (vm : Vm2 Double)
      → vm.state.amp_1 ≡ of_u64 0
      → vm.state.amp_2 ≡ of_u64 0
      → (((measure2 F C vm).state.result ≡ 0) ⊎ ((measure2 F C vm).state.result ≡ 3))
        × ((measure2 F C vm).bit0 ≡ (measure2 F C vm).bit1)
        × ((measure2 F C vm).state.measured ≡ true)
  unfolding measure2 qstate2_measure
  measure2_ends C vm e1 e2 =
      rw (e1, e2) (ground (arith, pick_ends (C.random vm.rand_calls) vm.state.amp_0 vm.state.amp_3))

  prepared :
      (C : CLibrary F) (a b : Text) (vm : Vm2 Double)
      → vm.q0 ≡ a
      → vm.q1 ≡ b
      → vm.state ≡ qstate2_init_00 F
      → ((cnot2 F C a b (hadamard2 F C a vm)).state.amp_1 ≡ of_u64 0)
        × ((cnot2 F C a b (hadamard2 F C a vm)).state.amp_2 ≡ of_u64 0)
  unfolding cnot2 hadamard2 qstate2_init_00 qstate2_h_first qstate2_cnot_first_to_second
  prepared C a b vm ea eb es = ground (
    arith,
    ea,
    eb,
    es,
    same_refl a,
    same_refl b,
    laws.add_zero_zero,
    laws.sub_zero_zero,
    laws.div_zero_root,
  )

  -- After a Hadamard gate on the first qubit and a controlled-not, the two qubits are measured
  -- alike, whatever rand gives: the pair is |00> or |11>, and both bits that `say` prints are equal.
  pub run_state2_bytecode-bell :
      (C : CLibrary F) (n : ℕ) (a b x : Text)
      → (((run_state2_bytecode F C n (bell_code a b x)).state.result ≡ 0)
          ⊎ ((run_state2_bytecode F C n (bell_code a b x)).state.result ≡ 3))
        × ((run_state2_bytecode F C n (bell_code a b x)).bit0
            ≡ (run_state2_bytecode F C n (bell_code a b x)).bit1)
        × ((run_state2_bytecode F C n (bell_code a b x)).state.measured ≡ true)
  unfolding run_state2_bytecode run2 step2 qbit2
  run_state2_bytecode-bell C n a b x =
      let vm = run2 F C (take 2 (bell_code a b x)) (run_state2_bytecode F C n []) in
      let middle = prepared C a b vm refl refl refl in
      measure2_ends C (cnot2 F C a b (hadamard2 F C a vm)) middle.0 middle.1
