-- ===== src/Quantum/Circuit/Gates/Ghz.antt =====
-- The circuit that src/quantum/qcircuit.c makes for a number, run on its array of amplitudes.
use native.Mathlib.Nat.{pow-suc}
use qbit_nova_c.Base.{
  ℕ, suc, ◌-◌, ◌^◌, ◌≤◌, ◌≡◌, ◌∙◌, refl, sym, ap, true, false, Option, some, none, ◌∷◌, arith,
}
use qbit_nova_c.Base.Bits.{two-pow-pos, bit-zero, le_of_bit, bit-add_pow_self}
use qbit_nova_c.Float.{Float64}
use mathlib.Core.Path.{subst}
use qbit_nova_c.Quantum.Kernel.{Status, Complex, Kernel, basis_state, zero_amplitude}
use qbit_nova_c.Quantum.Kernel.Gates.{scale}
use qbit_nova_c.Quantum.Kernel.Gates.Meaning.{IsReady, position, flip, bit_cases}
use qbit_nova_c.Quantum.Kernel.Ghz.Cells.{ghz_amplitude, HasTwoStates, chain-cells}
use qbit_nova_c.Quantum.Kernel.Ghz.Step.{two_states}
use qbit_nova_c.Quantum.Circuit.{Circuit, gate_h, loaded, circuit_of_number, max_circuit_qubits}
use qbit_nova_c.Quantum.Circuit.Gates.{
  Ran, ran, and_run, ComplexLibrary, real, real_one, real_zero, run_op, run_ops, simulate,
}
use qbit_nova_c.Quantum.Circuit.Gates.Cells.{matrix_cell, op_cell, run_op-cells}
use qbit_nova_c.Quantum.Circuit.Gates.Kernel.{chain_ops, run_ops-cx_chain}
use qbit_nova_c.Quantum.Circuit.Gates.Number.{clamped, circuit_of_number-chain_ops}

-- The sums and products of 0.0, 1.0 and 1.0 / sqrt(2.0) as complex numbers that a Hadamard gate forms
-- on a basis state are exact in IEEE-754.
pub record HadamardLaws (F : Float64) (L : ComplexLibrary F) : Type 0 where
  pub one_and_zero :
      L.c_add
        (L.c_mul (real F L (scale F)) (real_one F L))
        (L.c_mul (real F L (scale F)) (real_zero F L))
      ≡ real F L (scale F)
  pub one_less_zero :
      L.c_add
        (L.c_mul (real F L (scale F)) (real_one F L))
        (L.c_mul (real F L (L.neg (scale F))) (real_zero F L))
      ≡ real F L (scale F)
  pub zero_and_zero :
      L.c_add
        (L.c_mul (real F L (scale F)) (real_zero F L))
        (L.c_mul (real F L (scale F)) (real_zero F L))
      ≡ real_zero F L
  pub zero_less_zero :
      L.c_add
        (L.c_mul (real F L (scale F)) (real_zero F L))
        (L.c_mul (real F L (L.neg (scale F))) (real_zero F L))
      ≡ real_zero F L

abbrev ghz_circuit : ℕ → Circuit
ghz_circuit m = record {
  nq = m;
  has_measure = true;
  ops = record { op = gate_h; a = 0; b = 0 } ∷ chain_ops (m - 1) 0;
}

module _ (F : Float64) (L : ComplexLibrary F) (laws : HadamardLaws F L) where
  open F use {Double}

  -- H on the digit `p` of the all-zero state.
  start-cell :
      (n j : ℕ)
      → op_cell F L n (record { op = gate_h; a = 0; b = 0 }) (basis_state F 0) j
        ≡ two_states (ghz_amplitude F) (zero_amplitude F) (2 ^ position n 0) j
  unfolding op_cell matrix_cell basis_state flip
  start-cell n j = ground (
    arith,
    laws.one_and_zero,
    laws.one_less_zero,
    laws.zero_and_zero,
    laws.zero_less_zero,
    bit_cases (position n 0) j,
    le_of_bit (position n 0) j,
    bit-zero (position n 0),
    bit-add_pow_self (position n 0) 0 (bit-zero (position n 0)),
    two-pow-pos (position n 0),
  )

  -- A kernel on the same array.
  beside : (n : ℕ) → (ℕ → Complex Double) → Kernel Double
  beside n a = record {
    qubit_count = n;
    state_count = 2 ^ n;
    amplitudes = some a;
    rng_state = 0;
    measured = false;
    measured_state = 0;
  }

  cells_of : Option (ℕ → Complex Double) → ℕ → Complex Double
  cells_of (some a) = a
  cells_of none = basis_state F 0

  chain-runs :
      (p : ℕ) (a : ℕ → Complex Double)
      → suc p ≤ max_circuit_qubits
      → HasTwoStates F (suc p) (2 ^ p) a
      → (b : ℕ → Complex Double) × (run_ops F L (suc p) (chain_ops p 0) a ≡ ran b)
        × HasTwoStates F (suc p) (2 ^ suc p - 1) b
  unfolding beside cells_of
  chain-runs p a few cells =
      let ready : IsReady (beside (suc p) a) a = record {
        some_qubit = omega arith;
        few_qubits = omega arith;
        states = refl;
        array = refl;
      } in
      let (b, runs, calls) = run_ops-cx_chain F L ready p 0 a (omega arith) in
      let (c, calls', ends) =
        chain-cells F (beside (suc p) a) ready p 0 (2 ^ p) a (omega arith)
          (omega (arith, pow-suc 2 p)) cells in
      let same_array : b ≡ c =
        ap (λ (r : Status × Kernel Double). cells_of r.1.amplitudes) (sym calls ∙ calls') in
      (b, runs, subst (HasTwoStates F (suc p) (2 ^ suc p - 1)) (sym same_array) ends)

  -- The run of a GHZ circuit on `m` qubits ends in a GHZ state.
  Prepares : ℕ → Type 0
  Prepares m =
      (b : ℕ → Complex Double) × (simulate F L true (ghz_circuit m) ≡ ran b)
      × HasTwoStates F m (2 ^ m - 1) b

  simulate-first :
      (m p : ℕ) (a b : ℕ → Complex Double)
      → m - 1 ≡ p
      → run_op F L (basis_state F 0) m (record { op = gate_h; a = 0; b = 0 }) ≡ ran a
      → run_ops F L m (chain_ops p 0) a ≡ ran b
      → simulate F L true (ghz_circuit m) ≡ ran b
  unfolding simulate run_ops
  simulate-first m p a b back first rest =
      ap (λ (r : Ran (Complex Double)). and_run r (run_ops F L m (chain_ops (m - 1) 0))) first
      ∙ ap (λ (q : ℕ). run_ops F L m (chain_ops q 0) a) back
      ∙ rest

  ghz-runs : (p : ℕ) → suc p ≤ max_circuit_qubits → Prepares (suc p)
  unfolding Prepares
  ghz-runs p few =
      let (a, first, cells) =
        run_op-cells F L (basis_state F 0) (suc p) gate_h 0 0 (omega arith) (omega arith) refl in
      let last : position (suc p) 0 ≡ p = omega arith in
      let (b, rest, ends) = chain-runs p a few (λ j fits.
        cells j fits
        ∙ start-cell (suc p) j
        ∙ ap (λ (q : ℕ). two_states (ghz_amplitude F) (zero_amplitude F) (2 ^ q) j) last) in
      (b, simulate-first (suc p) p a b (omega arith) first rest, ends)

  -- The circuit program with a number prepares a GHZ state: the circuit of every number is accepted,
  -- its run, if calloc succeeds, goes to its end, and it leaves the amplitude 1.0 / sqrt(2.0) in the all-zero and the
  -- all-one state of its qubits and 0.0 in every other state. Relies on HadamardLaws.
  pub simulate-ghz :
      (n : ℕ)
      → (c : Circuit) × (b : ℕ → Complex Double) × (circuit_of_number n ≡ loaded c)
        × (c.nq ≡ clamped n)
        × (simulate F L true c ≡ ran b)
        × HasTwoStates F (clamped n) (2 ^ clamped n - 1) b
  unfolding Prepares
  simulate-ghz n =
      let grown : suc (clamped n - 1) ≡ clamped n = ground arith in
      let (b, runs, cells) = subst Prepares grown (ghz-runs (clamped n - 1) (ground arith)) in
      (ghz_circuit (clamped n), b, circuit_of_number-chain_ops n, refl, runs, cells)
