-- ===== src/Quantum/Kernel/Sample/GhzNorm.antt =====
-- The norm that qcpu_kernel_norm computes for the two cells of a GHZ state.
use native.Mathlib.Nat.{pow-suc}
use mathlib.Core.Path.{ap₂, sym}
use qbit_nova_c.Base.{ℕ, zero, suc, ◌-◌, ◌^◌, ◌<◌, ◌≡◌, ◌∙◌, ap, arith}
use qbit_nova_c.Base.Bits.{two-pow-pos}
use qbit_nova_c.Float.{Float64}
use qbit_nova_c.Quantum.Kernel.{Complex, Kernel, zero_amplitude}
use qbit_nova_c.Quantum.Kernel.Gates.Meaning.{IsReady}
use qbit_nova_c.Quantum.Kernel.Ghz.Cells.{HasTwoStates, ghz_amplitude}
use qbit_nova_c.Quantum.Kernel.Sample.{probability, kernel_norm}
use qbit_nova_c.Quantum.Kernel.Sample.Choice.{SumLaws, add-zero_cell}
use qbit_nova_c.Quantum.Kernel.Sample.Collapse.{norm_loop, kernel_norm_lem}

module _ (F : Float64) where
  open F use {Double, of_u64, add}

  -- 0.0 + p + p for the square p of the amplitude 1.0 / sqrt(2.0)
  abbrev pub ghz_norm : Double
  ghz_norm =
      add (add (of_u64 0) (probability F (ghz_amplitude F))) (probability F (ghz_amplitude F))

  norm_loop-front :
      SumLaws F
      → (a : ℕ → Complex Double) (count m : ℕ) → suc m < count
      → ((j : ℕ) → 0 < j → suc j < count → a j ≡ zero_amplitude F)
      → norm_loop F (suc m) a ≡ add (of_u64 0) (probability F (a 0))
  unfolding norm_loop
  norm_loop-front laws a count zero lt zeros = ground arith
  norm_loop-front laws a count (suc m) lt zeros =
      ap (λ (d : Double). add d (probability F (a (suc m))))
        (norm_loop-front laws a count m (omega arith) zeros)
      ∙ add-zero_cell F laws (probability F (a 0)) (a (suc m))
          (zeros (suc m) (omega arith) (omega arith))

  norm_loop-ends :
      SumLaws F
      → (a : ℕ → Complex Double) (m : ℕ)
      → ((j : ℕ) → 0 < j → suc j < suc (suc m) → a j ≡ zero_amplitude F)
      → a 0 ≡ ghz_amplitude F
      → a (suc m) ≡ ghz_amplitude F
      → norm_loop F (suc (suc m)) a ≡ ghz_norm
  unfolding norm_loop
  norm_loop-ends laws a m zeros first last =
      ap (λ (d : Double). add d (probability F (a (suc m))))
        (norm_loop-front laws a (suc (suc m)) m (omega arith) zeros)
      ∙ ap₂ (λ (c d : Complex Double). add (add (of_u64 0) (probability F c)) (probability F d))
          first last

  pub kernel_norm-two_states :
      SumLaws F
      → (k : Kernel Double) {a : ℕ → Complex Double} → IsReady k a
      → HasTwoStates F k.qubit_count (2 ^ k.qubit_count - 1) a
      → kernel_norm F k ≡ ghz_norm
  kernel_norm-two_states laws k {a} r cells =
      let n = k.qubit_count in
      let grown : n ≡ suc (n - 1) = omega (arith, r.some_qubit) in
      let big : suc (suc (2 ^ n - 2)) ≡ 2 ^ n =
        omega (arith, pow-suc 2 (n - 1), two-pow-pos (n - 1), ap (λ (k : ℕ). 2 ^ k) grown) in
      kernel_norm_lem F k r
      ∙ ap (λ (c : ℕ). norm_loop F c a) (sym big)
      ∙ norm_loop-ends laws a (2 ^ n - 2) (λ j above below. cells j (omega arith) ∙ ground arith)
          (cells 0 (omega arith) ∙ ground arith)
          (cells (suc (2 ^ n - 2)) (omega arith) ∙ ground arith)
