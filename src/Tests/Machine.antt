-- ===== src/Tests/Machine.antt =====
-- src/quantum/qcpu_kernel.c: the kernel's theorems at a kernel of two qubits.
use qbit_nova_c.Base.{
  ℕ, ◌-◌, ◌^◌, ◌<◌, ◌≡◌, refl, Bool, true, false, ◌||◌, some, arith, ◌==◌, if◌then◌else◌,
}
use qbit_nova_c.Quantum.Kernel.{ok, Complex, Kernel, basis_state, zero_amplitude}
use qbit_nova_c.Quantum.Kernel.Gates.{apply_x, apply_cx}
use qbit_nova_c.Quantum.Kernel.Gates.Meaning.{IsReady, position, flip}
use qbit_nova_c.Base.Bits.{bit}
use qbit_nova_c.Quantum.Kernel.Gates.Effect.{with_cells, apply_x-cells, apply_cx-cells}
use qbit_nova_c.Quantum.Kernel.Ghz.{apply_ghz}
use qbit_nova_c.Quantum.Kernel.Ghz.Cells.{ghz_amplitude, HasTwoStates, apply_ghz-cells}
use qbit_nova_c.Quantum.Kernel.Sample.{
  kernel_sample, kernel_measure, kernel_run_shots, rng_unit, no_result,
}
use qbit_nova_c.Quantum.Kernel.Sample.Choice.{kernel_sample-total}
use qbit_nova_c.Quantum.Kernel.Sample.Shots.{total, kernel_run_shots-total}
use qbit_nova_c.Quantum.Kernel.Sample.Collapse.{Collapse, kernel_measure-collapses}
use qbit_nova_c.Tests.Doubles.{two_values, two_values-GateLaws, two_values-NormLaws}

abbrev pub ghz_cells : ℕ → Complex Bool
ghz_cells j = if j == 0 || j == 3 then ghz_amplitude two_values else zero_amplitude two_values

abbrev pub two_qubits : (ℕ → Complex Bool) → Kernel Bool
two_qubits a = record {
  qubit_count = 2;
  state_count = 4;
  amplitudes = some a;
  rng_state = 1;
  measured = false;
  measured_state = 0;
}

pub two_qubits-IsReady : (a : ℕ → Complex Bool) → IsReady (two_qubits a) a
two_qubits-IsReady a = record {
  some_qubit = omega arith;
  few_qubits = omega arith;
  states = refl;
  array = refl;
}

ghz_cells-HasTwoStates : HasTwoStates two_values 2 3 ghz_cells
ghz_cells-HasTwoStates j lt = refl

abbrev k0 : Kernel Bool
k0 = two_qubits (basis_state two_values 0)

abbrev kg : Kernel Bool
kg = two_qubits ghz_cells

apply_x-cells_example :
    (b : ℕ → Complex Bool) × (apply_x k0 1 ≡ (ok, with_cells k0 b))
    × ((j : ℕ) → j < 2 ^ 2 → b j ≡ basis_state two_values 0 (flip (position 2 1) j))
apply_x-cells_example =
    apply_x-cells k0 (two_qubits-IsReady (basis_state two_values 0)) 1 (omega arith)

apply_ghz-cells_example :
    (b : ℕ → Complex Bool) × (apply_ghz two_values k0
      ≡ (ok, record k0 { amplitudes = some b; measured = false; measured_state = 0 }))
    × HasTwoStates two_values 2 (2 ^ 2 - 1) b
apply_ghz-cells_example =
    apply_ghz-cells two_values two_values-GateLaws k0
      (two_qubits-IsReady (basis_state two_values 0))

kernel_sample-total_example :
    (i : ℕ) × (kernel_sample two_values kg 0 ≡ (ok, i, (rng_unit two_values kg).1)) × (i < 2 ^ 2)
kernel_sample-total_example = kernel_sample-total two_values kg (two_qubits-IsReady ghz_cells) 0

kernel_run_shots-total_example :
    (s' : ℕ) × (counts : ℕ → ℕ) × (kernel_run_shots two_values true kg 10 no_result ≡ (
      ok,
      record { shots = 10; state_count = 4; counts = some counts },
      record kg { rng_state = s' },
    ))
    × (total (2 ^ 2) counts ≡ 10)
kernel_run_shots-total_example =
    kernel_run_shots-total two_values kg 10 no_result (two_qubits-IsReady ghz_cells) (omega arith)
      (omega arith)

kernel_measure-collapses_example :
    (i : ℕ) × (k' : Kernel Bool) × (kernel_measure two_values kg ≡ (ok, some i, k'))
    × Collapse two_values kg k' i
kernel_measure-collapses_example =
    kernel_measure-collapses two_values two_values-NormLaws kg (two_qubits-IsReady ghz_cells)

apply_cx-cells_example :
    (b : ℕ → Complex Bool) × (apply_cx kg 0 1 ≡ (ok, with_cells kg b))
    × ((j : ℕ)
        → j < 2 ^ 2
        → b j
          ≡ (if bit (position 2 0) j == 1 then ghz_cells (flip (position 2 1) j) else ghz_cells j))
apply_cx-cells_example =
    apply_cx-cells kg (two_qubits-IsReady ghz_cells) 0 1 (omega arith) (omega arith) (omega arith)
