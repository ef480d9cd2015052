-- ===== src/Quantum/Kernel/Sample/Choice.antt =====
-- Which state qcpu_kernel_sample chooses.
use native.Mathlib.Nat.{pow-suc}
use mathlib.Core.Path.{subst, ap₂}
use qbit_nova_c.Base.{
  ℕ, zero, suc, ◌+◌, ◌-◌, ◌^◌, ◌<◌, ◌≤◌, ◌≡◌, ◌⊎◌, ◌∙◌, inl, inr, refl, ap, false, Option, some,
  none, ◌||◌, ◌==◌, arith, Bool-cases,
}
use qbit_nova_c.Base.Bits.{two-pow-pos}
use qbit_nova_c.Float.{Float64}
use qbit_nova_c.Quantum.Kernel.{ok, Complex, Kernel, zero_amplitude}
use qbit_nova_c.Quantum.Kernel.Gates.Meaning.{IsReady, IsReady-ready}
use qbit_nova_c.Quantum.Kernel.Ghz.Cells.{HasTwoStates}
use qbit_nova_c.Quantum.Kernel.Sample.{probability, cell, scan, kernel_sample, rng_unit}

-- Adding the square of an amplitude 0.0 changes no sum that starts at 0.0: exact in IEEE-754, where
-- such a sum is never -0.0.
pub record SumLaws (F : Float64) : Type 0 where
  pub mul_zero_zero : F.mul (F.of_u64 0) (F.of_u64 0) ≡ F.of_u64 0
  pub add_zero_zero : F.add (F.of_u64 0) (F.of_u64 0) ≡ F.of_u64 0
  pub add_sum_zero :
      (p : F.Double) → F.add (F.add (F.of_u64 0) p) (F.of_u64 0) ≡ F.add (F.of_u64 0) p

module _ (F : Float64) where
  open F use {Double, of_u64, add, lt}

  -- The loop returns an index in range: its last round always does.
  scan-total :
      (a : ℕ → Complex Double) (threshold : Double) (count n index : ℕ) (sum : Double)
      → index + suc n ≡ count
      → (i : ℕ) × (scan F a count threshold (suc n) index sum ≡ some i) × (i < count)
  unfolding scan
  scan-total a threshold count zero index sum e = (index, ground arith, omega arith)
  scan-total a threshold count (suc n) index sum e =
      let sum' = add sum (probability F (a index)) in
      let (i, rest, lt_count) = scan-total a threshold count n (index + 1) sum' (omega arith) in
      elim (Bool-cases (lt threshold sum' || (index + 1 == count))) [
        | inl stop ↦ (index, rw stop refl, omega arith)
        | inr more ↦ (i, rw more rest, lt_count)
      ]

  -- With a sum that stays where it is, not above the threshold, the last state is chosen.
  scan-last :
      (a : ℕ → Complex Double) (threshold sum : Double) (count n index : ℕ)
      → lt threshold sum ≡ false
      → index + suc n ≡ count
      → ((j : ℕ) → index ≤ j → suc j < count → add sum (probability F (a j)) ≡ sum)
      → scan F a count threshold (suc n) index sum ≡ some (count - 1)
  unfolding scan
  scan-last a threshold sum count zero index low e flat = ground arith
  scan-last a threshold sum count (suc n) index low e flat =
      let ih =
        scan-last a threshold sum count n (index + 1) low (omega arith)
          (λ j below fits. flat j (omega arith) fits) in
      let more : (index + 1 == count) ≡ false = ground arith in
      rw (flat index (omega arith) (omega arith), low, more) ih

  -- A cell 0.0 leaves the sum as it is.
  pub add-zero_cell :
      SumLaws F
      → (p : Double) (c : Complex Double) → c ≡ zero_amplitude F
      → add (add (of_u64 0) p) (probability F c) ≡ add (of_u64 0) p
  add-zero_cell laws p c e =
      ap (λ (c : Complex Double). add (add (of_u64 0) p) (probability F c)) e
      ∙ ap (add (add (of_u64 0) p))
          (ap (λ (x : Double). add x x) laws.mul_zero_zero ∙ laws.add_zero_zero)
      ∙ laws.add_sum_zero p

  -- With the amplitude 0.0 in all states but the first and the last, one of these two is chosen.
  scan-ends :
      SumLaws F
      → (a : ℕ → Complex Double) (threshold : Double) (m count : ℕ) → suc (suc m) ≡ count
      → ((j : ℕ) → 0 < j → suc j < count → a j ≡ zero_amplitude F)
      → (i : ℕ) × (scan F a count threshold (suc (suc m)) 0 (of_u64 0) ≡ some i)
        × ((i ≡ 0) ⊎ (i ≡ count - 1))
  unfolding scan
  scan-ends laws a threshold m count e zeros =
      let sum = add (of_u64 0) (probability F (a 0)) in
      let flat : (j : ℕ) → 0 + 1 ≤ j → suc j < count → add sum (probability F (a j)) ≡ sum =
        λ j above below.
          add-zero_cell laws (probability F (a 0)) (a j) (zeros j (omega arith) below) in
      elim (Bool-cases (lt threshold sum || (0 + 1 == count))) [
        | inl stop ↦ (0, rw stop refl, inl refl)
        | inr more ↦ (
          count - 1,
          rw more (scan-last a threshold sum count m (0 + 1) (ground arith) (omega arith) flat),
          inr refl,
        )
      ]

  -- On the two cells of a GHZ state one of the two is chosen, whatever the threshold.
  pub scan-two_states :
      SumLaws F
      → (n : ℕ) (a : ℕ → Complex Double) (threshold : Double) → 0 < n
      → HasTwoStates F n (2 ^ n - 1) a
      → (i : ℕ) × (scan F a (2 ^ n) threshold (2 ^ n) 0 (of_u64 0) ≡ some i)
        × ((i ≡ 0) ⊎ (i ≡ 2 ^ n - 1))
  scan-two_states laws n a threshold pos cells =
      let big : suc (suc (2 ^ n - 2)) ≡ 2 ^ n =
        omega (arith, pow-suc 2 (n - 1), two-pow-pos (n - 1), ap (λ (k : ℕ). 2 ^ k) grown) in
      subst
        (λ r.
          (i : ℕ) × (scan F a (2 ^ n) threshold r 0 (of_u64 0) ≡ some i)
          × ((i ≡ 0) ⊎ (i ≡ 2 ^ n - 1)))
        big
        (scan-ends laws a threshold (2 ^ n - 2) (2 ^ n) big
          (λ j above below. cells j (omega arith) ∙ ground arith))
    where
      grown : n ≡ suc (n - 1)
      grown = omega arith

  pub cell-array :
      (k : Kernel Double) {a : ℕ → Complex Double} → k.amplitudes ≡ some a → cell F k ≡ a
  cell-array k e =
      ap {B = ℕ → Complex Double}
        (λ (o : Option (ℕ → Complex Double)) (i : ℕ). elim o as (λ _. Complex Double) [
          | none ↦ zero_amplitude F
          | some c ↦ c i
        ])
        e

  module _ (k : Kernel Double) {a : ℕ → Complex Double} (r : IsReady k a) where
    kernel_sample-run :
        (state i : ℕ)
        → scan F a (2 ^ k.qubit_count) (rng_unit F k).0 (2 ^ k.qubit_count) 0 (of_u64 0) ≡ some i
        → kernel_sample F k state ≡ (ok, i, (rng_unit F k).1)
    unfolding kernel_sample
    kernel_sample-run state i chosen =
        let found : scan F (cell F k) k.state_count (rng_unit F k).0 k.state_count 0 (of_u64 0)
            ≡ some i =
          ap₂ (λ (c : ℕ → Complex Double) (n : ℕ). scan F c n (rng_unit F k).0 n 0 (of_u64 0))
            (cell-array k r.array) r.states
          ∙ chosen in
        rw (IsReady-ready r, found) refl

    -- On a ready kernel a sample succeeds, chooses a basis state that exists and advances nothing
    -- but the generator: the loop never falls through to QCPU_ERR_STATE.
    pub kernel_sample-total :
        (state : ℕ)
        → (i : ℕ) × (kernel_sample F k state ≡ (ok, i, (rng_unit F k).1)) × (i < 2 ^ k.qubit_count)
    kernel_sample-total state =
        let n = 2 ^ k.qubit_count in
        let grown : suc (n - 1) ≡ n = omega (arith, two-pow-pos k.qubit_count) in
        let (i, chosen, below) =
          scan-total a (rng_unit F k).0 n (n - 1) 0 (of_u64 0) (omega arith) in
        let whole = subst (λ m. scan F a n (rng_unit F k).0 m 0 (of_u64 0) ≡ some i) grown chosen in
        (i, kernel_sample-run state i whole, below)

    -- On a ready kernel with the two cells of a GHZ state a sample succeeds, relying on SumLaws, and
    -- chooses the all-zero or the all-one state.
    pub kernel_sample-two_states :
        SumLaws F
        → HasTwoStates F k.qubit_count (2 ^ k.qubit_count - 1) a
        → (state : ℕ)
        → (i : ℕ) × (kernel_sample F k state ≡ (ok, i, (rng_unit F k).1))
          × ((i ≡ 0) ⊎ (i ≡ 2 ^ k.qubit_count - 1))
    kernel_sample-two_states laws cells state =
        let (i, chosen, ends) =
          scan-two_states laws k.qubit_count a (rng_unit F k).0 r.some_qubit cells in
        (i, kernel_sample-run state i chosen, ends)
