-- ===== src/Tests/Circuits.antt =====
-- src/quantum/qcircuit.c: a circuit of two qubits, from its file and from a number.
use qbit_nova_c.Base.{
  ℕ, ◌-◌, ◌^◌, ◌<◌, ◌≤◌, ◌≡◌, refl, arith, pos, Bool, true, false, ◌&&◌, ◌||◌, List, [], ◌∷◌, Text,
  codes, same,
}
use qbit_nova_c.Quantum.Kernel.{ok, Complex}
use qbit_nova_c.Quantum.Kernel.Gates.Effect.{with_cells}
use qbit_nova_c.Quantum.Kernel.Ghz.{cx_chain}
use qbit_nova_c.Quantum.Circuit.{
  Line, Circuit, gate_h, gate_cx, loaded, circuit_of_file, circuit_of_number, load_circuit,
  load_line, load_gate, load_single, load_double, single_gate, double_gate, set_qubits,
  require_qubit, add_op, gate_swap,
}
use qbit_nova_c.Quantum.Circuit.Checked.{
  declares, declarations, IsChecked, circuit_of_file-IsChecked,
}
use qbit_nova_c.Quantum.Circuit.Gates.{ComplexLibrary, ran, run_ops, simulate, run_op}
use qbit_nova_c.Quantum.Circuit.Gates.Cells.{op_cell, run_op-cells}
use qbit_nova_c.Quantum.Circuit.Gates.Ghz.{HadamardLaws, simulate-ghz}
use qbit_nova_c.Quantum.Kernel.Ghz.Cells.{HasTwoStates}
use qbit_nova_c.Quantum.Circuit.Gates.Kernel.{chain_ops, run_ops-cx_chain}
use qbit_nova_c.Quantum.Circuit.Gates.Number.{clamped}
use qbit_nova_c.Quantum.Circuit.Gates.Safe.{EndsRun, has_self_cx, simulate-circuit_of_file}
use qbit_nova_c.Tests.Doubles.{two_values}
use qbit_nova_c.Tests.Machine.{ghz_cells, two_qubits, two_qubits-IsReady}

abbrev line : Text → (got q1 q2 : ℕ) → Line
line kw got q1 q2 = record { is_comment = false; got = got; kw = kw; q1 = pos q1; q2 = pos q2 }

abbrev bell_lines : List Line
bell_lines = line (codes "qubits") 2 2 0 ∷ line (codes "h") 2 0 0 ∷ line (codes "cx") 3 0 1 ∷ []

abbrev bell_circuit : Circuit
bell_circuit = record {
  nq = 2;
  has_measure = false;
  ops = record { op = gate_h; a = 0; b = 0 } ∷ record { op = gate_cx; a = 0; b = 1 } ∷ [];
}

bell_lines-loaded : circuit_of_file bell_lines ≡ loaded bell_circuit
unfolding circuit_of_file load_circuit load_line same load_gate load_single load_double single_gate
    double_gate set_qubits require_qubit add_op
bell_lines-loaded = refl

once : declarations bell_lines ≤ 1
unfolding declarations declares same
once = omega arith

circuit_of_file-IsChecked_example : IsChecked bell_circuit × (1 ≤ 2)
circuit_of_file-IsChecked_example =
    circuit_of_file-IsChecked bell_lines bell_circuit once bell_lines-loaded

abbrev two_complex : ComplexLibrary two_values
two_complex = record {
  c_add = λ x y. record { re = x.re || y.re; im = x.im || y.im };
  c_mul = λ x y. record { re = x.re && y.re; im = x.im && y.im };
  c_neg = λ x. x;
  c_div = λ x y. x;
  cexp = λ x. x;
  neg = λ x. x;
  qpi = true;
}

simulate-circuit_of_file_example :
    EndsRun true (has_self_cx bell_circuit.ops) (simulate two_values two_complex true bell_circuit)
simulate-circuit_of_file_example =
    simulate-circuit_of_file two_values two_complex bell_lines bell_circuit true once
      bell_lines-loaded

run_ops-cx_chain_example :
    (b : ℕ → Complex Bool) × (run_ops two_values two_complex 2 (chain_ops 1 0) ghz_cells ≡ ran b)
    × (cx_chain 1 1 (with_cells (two_qubits ghz_cells) ghz_cells)
        ≡ (ok, with_cells (two_qubits ghz_cells) b))
run_ops-cx_chain_example =
    run_ops-cx_chain two_values two_complex (two_qubits-IsReady ghz_cells) 1 0 ghz_cells refl

run_op-cells_example :
    (c : ℕ → Complex Bool) × (run_op two_values two_complex ghz_cells 2
        (record { op = gate_swap; a = 0; b = 1 })
      ≡ ran c)
    × ((j : ℕ)
        → j < 2 ^ 2
        → c j
          ≡ op_cell two_values two_complex 2 (record { op = gate_swap; a = 0; b = 1 }) ghz_cells j)
run_op-cells_example =
    run_op-cells two_values two_complex ghz_cells 2 gate_swap 0 1 (omega arith) (omega arith) refl

two_complex-HadamardLaws : HadamardLaws two_values two_complex
two_complex-HadamardLaws = record {
  one_and_zero = refl;
  one_less_zero = refl;
  zero_and_zero = refl;
  zero_less_zero = refl;
}

simulate-ghz_example :
    (c : Circuit) × (b : ℕ → Complex Bool) × (circuit_of_number 3 ≡ loaded c)
    × (c.nq ≡ clamped 3)
    × (simulate two_values two_complex true c ≡ ran b)
    × HasTwoStates two_values (clamped 3) (2 ^ clamped 3 - 1) b
simulate-ghz_example = simulate-ghz two_values two_complex two_complex-HadamardLaws 3
