-- ===== src/Quantum/Circuit/Gates.antt =====
-- src/quantum/qcircuit.c: the gates on the array of amplitudes, the loop of simulate over the
-- operations and measure_all. Arithmetic on `double complex` is the compiler's and the C library's,
-- so it is a parameter.
pub mod Kernel
pub mod Swap
pub mod Safe
pub mod Number
pub mod Cells
pub mod Ghz
use qbit_nova_c.Base.{
  ℕ, zero, suc, ◌+◌, ◌-◌, ◌^◌, Bool, true, false, not, ◌&&◌, List, [], ◌∷◌, ltb, ◌==◌,
  if◌then◌else◌,
}
use qbit_nova_c.Base.Bits.{bit}
use qbit_nova_c.Float.{Float64}
use qbit_nova_c.Quantum.Kernel.{Complex, zero_amplitude, one_amplitude, basis_state}
use qbit_nova_c.Quantum.Kernel.Gates.{pair_loop, swap_pair}
use qbit_nova_c.Quantum.Kernel.Sample.{probability}
use qbit_nova_c.Quantum.Circuit.{
  Gate, gate_h, gate_x, gate_y, gate_z, gate_s, gate_t, gate_cx, gate_swap, Op, Circuit,
}

-- What a gate or a run leaves: the array, an exit of fail() for a CX on one qubit or for want of
-- memory, or a shift by a negative number, which C does not define.
pub data Ran (A : Type 0) : Type 0 where
  ran : (ℕ → A) → Ran A
  cx_same_qubit : Ran A
  allocation_failed : Ran A
  undefined_shift : Ran A

abbrev pub and_run : {A : Type 0} → Ran A → ((ℕ → A) → Ran A) → Ran A
and_run (ran amp) next = next amp
and_run cx_same_qubit next = cx_same_qubit
and_run allocation_failed next = allocation_failed
and_run undefined_shift next = undefined_shift

-- n - 1 - q as the number of a digit.
abbrev pub digit_of : {A : Type 0} → (n q : ℕ) → (ℕ → Ran A) → Ran A
digit_of n q next = if ltb q n then next (n - 1 - q) else undefined_shift

-- The test of g_cx before its round.
abbrev pub cx_test : (pc pt : ℕ) → ℕ → Bool
cx_test pc pt i = bit pc i == 1 && not (bit pt i == 1)

module _ {A : Type 0} where
  unfoldable pub g_cx : (ℕ → A) → (n c t : ℕ) → Ran A
  g_cx amp n c t =
      if c == t
      then cx_same_qubit
      else digit_of n c
          λ pc. digit_of n t λ pt. ran (pair_loop (2 ^ n) (cx_test pc pt) (2 ^ pt) swap_pair amp)

  unfoldable pub g_swap : (ℕ → A) → (n a b : ℕ) → Ran A
  g_swap amp n a b =
      if a == b
      then ran amp
      else and_run (g_cx amp n a b) λ amp1. and_run (g_cx amp1 n b a) λ amp2. g_cx amp2 n a b

-- The operators of <complex.h>, and the constants that a C compiler reads.
pub record ComplexLibrary (F : Float64) : Type 0 where
  pub c_add : Complex F.Double → Complex F.Double → Complex F.Double
  pub c_mul : Complex F.Double → Complex F.Double → Complex F.Double
  pub c_neg : Complex F.Double → Complex F.Double
  pub c_div : Complex F.Double → Complex F.Double → Complex F.Double
  pub cexp : Complex F.Double → Complex F.Double
  pub neg : F.Double → F.Double
  pub qpi : F.Double

module _ (F : Float64) (L : ComplexLibrary F) where
  open F use {Double, of_u64, add, div, sqrt, le}
  open L use {c_add, c_mul, c_neg, c_div, cexp, neg, qpi}

  -- m00 * x + m01 * y and m10 * x + m11 * y
  abbrev pub matrix_pair : (m00 m01 m10 m11 x y : Complex Double) → Complex Double × Complex Double
  matrix_pair m00 m01 m10 m11 x y =
      (c_add (c_mul m00 x) (c_mul m01 y), c_add (c_mul m10 x) (c_mul m11 y))

  unfoldable pub g_single :
      (ℕ → Complex Double) → (n q : ℕ) → (m00 m01 m10 m11 : Complex Double) → Ran (Complex Double)
  g_single amp n q m00 m01 m10 m11 = digit_of n q λ p.
      ran (pair_loop (2 ^ n) (λ i. not (bit p i == 1)) (2 ^ p) (matrix_pair m00 m01 m10 m11) amp)

  abbrev pub real : Double → Complex Double
  real x = record { re = x; im = of_u64 0 }

  abbrev pub imaginary : Complex Double
  imaginary = record { re = of_u64 0; im = of_u64 1 }

  abbrev pub real_one : Complex Double
  real_one = real (of_u64 1)

  abbrev pub real_zero : Complex Double
  real_zero = real (of_u64 0)

  unfoldable pub g_h : (ℕ → Complex Double) → (n q : ℕ) → Ran (Complex Double)
  unfolding g_single
  g_h amp n q =
      let s = div (of_u64 1) (sqrt (of_u64 2)) in
      g_single amp n q (real s) (real s) (real s) (real (neg s))

  unfoldable pub g_x : (ℕ → Complex Double) → (n q : ℕ) → Ran (Complex Double)
  unfolding g_single
  g_x amp n q = g_single amp n q real_zero real_one real_one real_zero

  unfoldable pub g_y : (ℕ → Complex Double) → (n q : ℕ) → Ran (Complex Double)
  unfolding g_single
  g_y amp n q = g_single amp n q real_zero (c_neg imaginary) imaginary real_zero

  unfoldable pub g_z : (ℕ → Complex Double) → (n q : ℕ) → Ran (Complex Double)
  unfolding g_single
  g_z amp n q = g_single amp n q real_one real_zero real_zero (real (neg (of_u64 1)))

  unfoldable pub g_s : (ℕ → Complex Double) → (n q : ℕ) → Ran (Complex Double)
  unfolding g_single
  g_s amp n q = g_single amp n q real_one real_zero real_zero imaginary

  -- cexp(I * QPI / 4.0)
  unfoldable pub g_t : (ℕ → Complex Double) → (n q : ℕ) → Ran (Complex Double)
  unfolding g_single
  g_t amp n q =
      g_single amp n q real_one real_zero real_zero
        (cexp (c_div (c_mul imaginary (real qpi)) (real (of_u64 4))))

  unfoldable pub run_op : (ℕ → Complex Double) → (n : ℕ) → Op → Ran (Complex Double)
  unfolding g_h g_x g_y g_z g_s g_t g_cx g_swap
  run_op amp n o = elim o.op [
    | gate_h ↦ g_h amp n o.a
    | gate_x ↦ g_x amp n o.a
    | gate_y ↦ g_y amp n o.a
    | gate_z ↦ g_z amp n o.a
    | gate_s ↦ g_s amp n o.a
    | gate_t ↦ g_t amp n o.a
    | gate_cx ↦ g_cx amp n o.a o.b
    | gate_swap ↦ g_swap amp n o.a o.b
  ]

  unfoldable pub run_ops : (n : ℕ) → List Op → (ℕ → Complex Double) → Ran (Complex Double)
  unfolding run_op
  run_ops n [] amp = ran amp
  run_ops n (o ∷ ops) amp = and_run (run_op amp n o) (run_ops n ops)

  -- The amplitudes that simulate prints and measures; `allocated` says whether calloc succeeds.
  unfoldable pub simulate : (allocated : Bool) → Circuit → Ran (Complex Double)
  unfolding run_ops basis_state
  simulate allocated c =
      if not allocated then allocation_failed else run_ops c.nq c.ops (basis_state F 0)

  -- The loop of measure_all from state `i` on, `left` states being left.
  unfoldable pub pick_from :
      (left i : ℕ) → (r acc : Double) → (ℕ → Complex Double) → (picked : ℕ) → ℕ
  pick_from zero i r acc amp picked = picked
  pick_from (suc left) i r acc amp picked =
      let acc' = add acc (probability F (amp i)) in
      let rest = pick_from left (i + 1) r acc' amp picked in if le r acc' then i else rest

  -- `r` is the quotient of rand() and RAND_MAX.
  unfoldable pub measure_all : (r : Double) → (ℕ → Complex Double) → (dim : ℕ) → ℕ
  unfolding pick_from
  measure_all r amp dim = pick_from dim 0 r (of_u64 0) amp (dim - 1)
