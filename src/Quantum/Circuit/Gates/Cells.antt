-- ===== src/Quantum/Circuit/Gates/Cells.antt =====
-- The gates of src/quantum/qcircuit.c as functions of the digits of the basis state's index.
use mathlib.Core.Path.{fun_ext}
use qbit_nova_c.Base.{ℕ, ◌^◌, ◌<◌, ◌≡◌, ◌≢◌, false, not, ◌==◌, if◌then◌else◌, arith}
use qbit_nova_c.Base.Bits.{bit}
use qbit_nova_c.Float.{Float64}
use qbit_nova_c.Quantum.Kernel.{Complex}
use qbit_nova_c.Quantum.Kernel.Gates.{pair_loop, not_set}
use qbit_nova_c.Quantum.Kernel.Gates.Meaning.{position, flip, test_mask-pow, plain_cell}
use qbit_nova_c.Quantum.Circuit.{
  Gate, gate_h, gate_x, gate_y, gate_z, gate_s, gate_t, gate_cx, gate_swap, Op,
}
use qbit_nova_c.Quantum.Circuit.Gates.{
  ran, ComplexLibrary, matrix_pair, g_single, g_h, g_x, g_y, g_z, g_s, g_t, real, real_one,
  real_zero, imaginary, run_op,
}
use qbit_nova_c.Quantum.Circuit.Gates.Kernel.{cx_array, g_cx-cx_array, cx_array_cell}
use qbit_nova_c.Quantum.Circuit.Gates.Safe.{is_self_cx}
use qbit_nova_c.Quantum.Circuit.Gates.Swap.{exchanged, g_swap-exchanged}

-- A matrix of two rows.
pub record Matrix (A : Type 0) : Type 0 where
  pub m00 : A
  pub m01 : A
  pub m10 : A
  pub m11 : A

-- What a matrix gives for the cell `j`, from it and from the cell with the digit `p` turned over.
unfoldable pub matrix_cell : {A : Type 0} → (A → A → A × A) → (p : ℕ) → (ℕ → A) → ℕ → A
matrix_cell f p amp j =
    if bit p j == 1 then (f (amp (flip p j)) (amp j)).1 else (f (amp j) (amp (flip p j))).0

module _ (F : Float64) (L : ComplexLibrary F) where
  open F use {Double, of_u64, div, sqrt}
  open L use {c_mul, c_neg, c_div, cexp, neg, qpi}

  abbrev zero_c : Complex Double
  zero_c = real_zero F L

  abbrev one_c : Complex Double
  one_c = real_one F L

  abbrev i_c : Complex Double
  i_c = imaginary F L

  g_single-cells :
      (amp : ℕ → Complex Double) (n q : ℕ)
      → q < n
      → (m00 m01 m10 m11 : Complex Double)
      → (b : ℕ → Complex Double) × (g_single F L amp n q m00 m01 m10 m11 ≡ ran b)
        × ((j : ℕ)
            → j < 2 ^ n
            → b j ≡ matrix_cell (matrix_pair F L m00 m01 m10 m11) (position n q) amp j)
  unfolding g_single matrix_cell
  g_single-cells amp n q lt m00 m01 m10 m11 = (
    pair_loop (2 ^ n) (not_set (2 ^ position n q)) (2 ^ position n q)
        (matrix_pair F L m00 m01 m10 m11) amp,
    rw (fun_ext (clear-not_set (position n q))) (ground arith),
    λ j fits. plain_cell (matrix_pair F L m00 m01 m10 m11) amp n (position n q) j fits,
  )
    where
      clear-not_set : (p i : ℕ) → not (bit p i == 1) ≡ not_set (2 ^ p) i
      clear-not_set p i = ground (arith, test_mask-pow p i)

  -- The gates on one qubit as matrices: H, and the others with their first row or column in 0 and 1.
  abbrev pub matrix_of : Gate → Matrix (Complex Double)
  matrix_of gate_h =
      let s = div (of_u64 1) (sqrt (of_u64 2)) in
      record { m00 = real F L s; m01 = real F L s; m10 = real F L s; m11 = real F L (neg s) }
  matrix_of gate_x = record { m00 = zero_c; m01 = one_c; m10 = one_c; m11 = zero_c }
  matrix_of gate_y = record { m00 = zero_c; m01 = c_neg i_c; m10 = i_c; m11 = zero_c }
  matrix_of gate_z = record {
    m00 = one_c;
    m01 = zero_c;
    m10 = zero_c;
    m11 = real F L (neg (of_u64 1));
  }
  matrix_of gate_s = record { m00 = one_c; m01 = zero_c; m10 = zero_c; m11 = i_c }
  matrix_of gate_t = record {
    m00 = one_c;
    m01 = zero_c;
    m10 = zero_c;
    m11 = cexp (c_div (c_mul i_c (real F L qpi)) (real F L (of_u64 4)));
  }
  matrix_of _ = record { m00 = one_c; m01 = zero_c; m10 = zero_c; m11 = one_c }

  -- The cell `j` after an operation on `n` qubits, by the digits of `j`.
  unfoldable pub op_cell : (n : ℕ) → Op → (ℕ → Complex Double) → ℕ → Complex Double
  unfolding matrix_cell exchanged flip
  op_cell n o amp j =
      let p = position n o.a in
      let r = position n o.b in
      let m = matrix_of o.op in
      elim o.op [
        | gate_cx ↦ if bit p j == 1 then amp (flip r j) else amp j
        | gate_swap ↦ amp (exchanged p r j)
        | _ ↦ matrix_cell (matrix_pair F L m.m00 m.m01 m.m10 m.m11) p amp j
      ]

  -- Every operation whose operands are in range, and which is no CX on one qubit, runs to its end and
  -- gives each cell what the gate's meaning on digits says: for a gate on one qubit, its matrix on the
  -- cell and the one with that digit turned over; for CX, the cell with the target turned over where
  -- the control is 1; for SWAP, the cell with the two digits exchanged.
  pub run_op-cells :
      (amp : ℕ → Complex Double) (n : ℕ) (gate : Gate) (a b : ℕ)
      → a < n
      → b < n
      → is_self_cx gate a b ≡ false
      → (c : ℕ → Complex Double) × (run_op F L amp n (record { op = gate; a = a; b = b }) ≡ ran c)
        × ((j : ℕ) → j < 2 ^ n → c j ≡ op_cell n (record { op = gate; a = a; b = b }) amp j)
  unfolding run_op op_cell g_h g_x g_y g_z g_s g_t
  run_op-cells amp n gate_h a b la lb e = g_single-cells amp n a la _ _ _ _
  run_op-cells amp n gate_x a b la lb e = g_single-cells amp n a la _ _ _ _
  run_op-cells amp n gate_y a b la lb e = g_single-cells amp n a la _ _ _ _
  run_op-cells amp n gate_z a b la lb e = g_single-cells amp n a la _ _ _ _
  run_op-cells amp n gate_s a b la lb e = g_single-cells amp n a la _ _ _ _
  run_op-cells amp n gate_t a b la lb e = g_single-cells amp n a la _ _ _ _
  run_op-cells amp n gate_cx a b la lb e =
      let ne : a ≢ b = λ (p : a ≡ b). absurd (ground arith) in
      (cx_array amp n a b, g_cx-cx_array amp n a b la lb ne, cx_array_cell amp n a b la lb ne)
  run_op-cells amp n gate_swap a b la lb e = g_swap-exchanged amp n a b la lb
