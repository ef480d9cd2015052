-- ===== src/Quantum/Kernel/Sample/Collapse.antt =====
-- qcpu_kernel_measure: the collapse onto the state that was chosen, and its norm.
use qbit_nova_c.Base.{
  ℕ, zero, suc, ◌-◌, ◌^◌, ◌<◌, ◌≡◌, ◌⊎◌, ◌∙◌, refl, true, some, ltb, if◌then◌else◌, arith,
}
use mathlib.Core.Path.{ap₂}
use qbit_nova_c.Base.Bits.{two-pow-pos}
use qbit_nova_c.Base.Loops.{for_range}
use qbit_nova_c.Float.{Float64}
use qbit_nova_c.Quantum.Kernel.{ok, Complex, Kernel, kernel_ready, basis_state, change}
use qbit_nova_c.Quantum.Kernel.Gates.Meaning.{IsReady, IsReady-ready}
use qbit_nova_c.Quantum.Kernel.Ghz.Cells.{HasTwoStates}
use qbit_nova_c.Quantum.Kernel.Sample.{
  probability, kernel_sample, rng_unit, kernel_measure, collapsed, kernel_norm,
}
use qbit_nova_c.Quantum.Kernel.Sample.Choice.{
  SumLaws, cell-array, kernel_sample-total, kernel_sample-two_states,
}
use qbit_nova_c.Quantum.Kernel.Rng.{rng_next}

-- The sums and products of 0.0 and 1.0 that the norm of a basis state forms are exact in IEEE-754.
pub record NormLaws (F : Float64) : Type 0 where
  pub mul_zero_zero : F.mul (F.of_u64 0) (F.of_u64 0) ≡ F.of_u64 0
  pub mul_one_one : F.mul (F.of_u64 1) (F.of_u64 1) ≡ F.of_u64 1
  pub add_zero_zero : F.add (F.of_u64 0) (F.of_u64 0) ≡ F.of_u64 0
  pub add_zero_one : F.add (F.of_u64 0) (F.of_u64 1) ≡ F.of_u64 1
  pub add_one_zero : F.add (F.of_u64 1) (F.of_u64 0) ≡ F.of_u64 1

module _ (F : Float64) where
  open F use {Double, of_u64, add}

  -- The loop of kernel_norm over `n` cells.
  unfoldable pub norm_loop : ℕ → (ℕ → Complex Double) → Double
  unfolding for_range
  norm_loop n a = for_range n (λ index norm. add norm (probability F (a index))) (of_u64 0)

  norm_loop-basis :
      NormLaws F
      → (i n : ℕ) → norm_loop n (basis_state F i) ≡ (if ltb i n then of_u64 1 else of_u64 0)
  unfolding norm_loop basis_state
  norm_loop-basis laws i zero = ground arith
  norm_loop-basis laws i (suc n) = ground (arith, norm_loop-basis laws i n)

  pub kernel_norm_lem :
      (k : Kernel Double) {a : ℕ → Complex Double}
      → IsReady k a
      → kernel_norm F k ≡ norm_loop (2 ^ k.qubit_count) a
  unfolding kernel_norm norm_loop
  kernel_norm_lem k r =
      rw (IsReady-ready r)
        (ap₂ (λ (c : ℕ → Complex Double) (n : ℕ). norm_loop n c) (cell-array F k r.array) r.states)

  collapsed-IsReady :
      (k : Kernel Double) {a : ℕ → Complex Double} (i : ℕ)
      → IsReady k a
      → IsReady (collapsed F k i) (basis_state F i)
  unfolding change
  collapsed-IsReady k i r = record {
    some_qubit = r.some_qubit;
    few_qubits = r.few_qubits;
    states = r.states;
    array = rw (r.array);
  }

  -- The norm of a kernel that has collapsed onto a state that exists is exactly 1.0.
  pub kernel_norm-collapsed :
      NormLaws F
      → (k : Kernel Double) {a : ℕ → Complex Double} (i : ℕ) → IsReady k a
      → i < 2 ^ k.qubit_count
      → kernel_norm F (collapsed F k i) ≡ of_u64 1
  unfolding change
  kernel_norm-collapsed laws k i r lt =
      kernel_norm_lem (collapsed F k i) (collapsed-IsReady k i r)
      ∙ norm_loop-basis laws i (2 ^ k.qubit_count)
      ∙ ground arith

  kernel_measure-run :
      (k k' : Kernel Double) (i : ℕ)
      → kernel_ready k ≡ true
      → kernel_sample F k 0 ≡ (ok, i, k')
      → kernel_measure F k ≡ (ok, some i, collapsed F k' i)
  unfolding kernel_measure
  kernel_measure-run k k' i ready e = ground arith

  drawn-IsReady :
      (k : Kernel Double) {a : ℕ → Complex Double} → IsReady k a → IsReady (rng_unit F k).1 a
  unfolding rng_unit rng_next
  drawn-IsReady k r = record {
    some_qubit = r.some_qubit;
    few_qubits = r.few_qubits;
    states = r.states;
    array = r.array;
  }

  -- What a successful measurement of `k` with the result `i` leaves.
  pub record Collapse (k k' : Kernel Double) (i : ℕ) : Type 0 where
    pub exists : i < 2 ^ k.qubit_count
    pub ready : IsReady k' (basis_state F i)
    pub same_size : k'.qubit_count ≡ k.qubit_count
    pub measured : k'.measured ≡ true
    pub measured_state : k'.measured_state ≡ i
    pub norm : kernel_norm F k' ≡ of_u64 1

  collapsed-Collapse :
      NormLaws F
      → (k : Kernel Double) {a : ℕ → Complex Double} (i : ℕ) → IsReady k a
      → i < 2 ^ k.qubit_count
      → Collapse k (collapsed F (rng_unit F k).1 i) i
  unfolding rng_unit rng_next change
  collapsed-Collapse laws k i r lt = record {
    exists = lt;
    ready = collapsed-IsReady (rng_unit F k).1 i (drawn-IsReady k r);
    same_size = refl;
    measured = refl;
    measured_state = refl;
    norm = kernel_norm-collapsed laws (rng_unit F k).1 i (drawn-IsReady k r) lt;
  }

  -- Measuring a ready kernel succeeds with a state that exists, collapses the kernel onto it,
  -- records it and leaves a norm of exactly 1.0. Relies on NormLaws.
  pub kernel_measure-collapses :
      NormLaws F
      → (k : Kernel Double) {a : ℕ → Complex Double} → IsReady k a
      → (i : ℕ) × (k' : Kernel Double) × (kernel_measure F k ≡ (ok, some i, k')) × Collapse k k' i
  kernel_measure-collapses laws k r =
      let (i, sample, below) = kernel_sample-total F k r 0 in
      (
        i,
        collapsed F (rng_unit F k).1 i,
        kernel_measure-run k (rng_unit F k).1 i (IsReady-ready r) sample,
        collapsed-Collapse laws k i r below,
      )

  -- Measuring a ready kernel with the two cells of a GHZ state succeeds with the all-zero or the
  -- all-one state and collapses the kernel onto it. Relies on SumLaws and NormLaws.
  pub kernel_measure-two_states :
      SumLaws F
      → NormLaws F
      → (k : Kernel Double) {a : ℕ → Complex Double} → IsReady k a
      → HasTwoStates F k.qubit_count (2 ^ k.qubit_count - 1) a
      → (i : ℕ) × (k' : Kernel Double) × (kernel_measure F k ≡ (ok, some i, k'))
        × Collapse k k' i
        × ((i ≡ 0) ⊎ (i ≡ 2 ^ k.qubit_count - 1))
  kernel_measure-two_states sums laws k r cells =
      let (i, sample, ends) = kernel_sample-two_states F k r sums cells 0 in
      (
        i,
        collapsed F (rng_unit F k).1 i,
        kernel_measure-run k (rng_unit F k).1 i (IsReady-ready r) sample,
        collapsed-Collapse laws k i r (ground (arith, two-pow-pos k.qubit_count)),
        ends,
      )
