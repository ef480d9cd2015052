-- ===== src/Quantum/Kernel/Ghz/Cells.antt =====
-- The cells that qcpu_kernel_apply_ghz leaves: only the all-zero and the all-one state have an
-- amplitude other than 0.
use native.Mathlib.Nat.{pow-suc}
use mathlib.Core.Path.{ap₂}
use qbit_nova_c.Base.{
  ℕ, zero, suc, ◌+◌, ◌-◌, ◌^◌, ◌<◌, ◌≡◌, ◌∙◌, refl, ap, false, false, some, ◌==◌, if◌then◌else◌,
  arith,
}
use qbit_nova_c.Base.Bits.{bit, two-pow-pos, bit-zero, le_of_bit, bit-add_pow_self}
use qbit_nova_c.Float.{Float64}
use qbit_nova_c.Quantum.Kernel.{ok, Complex, Kernel, kernel_reset, zero_amplitude, basis_state}
use qbit_nova_c.Quantum.Kernel.Gates.{scale, apply_h, hadamard_pair}
use qbit_nova_c.Quantum.Kernel.Gates.Meaning.{
  IsReady, IsReady-ready, position, flip, flip-lt, bit_cases,
}
use qbit_nova_c.Quantum.Kernel.Gates.Effect.{
  with_cells, with_cells-IsReady, apply_cx-cells, apply_h-cells,
}
use qbit_nova_c.Quantum.Kernel.Ghz.{cx_chain, apply_ghz}
use qbit_nova_c.Quantum.Kernel.Ghz.Step.{two_states, two_states-grow, top-bit, below-bit}

-- The sums and products of 0.0, 1.0 and 1.0 / sqrt(2.0) that the gates form are exact in IEEE-754.
pub record GateLaws (F : Float64) : Type 0 where
  pub add_one_zero : F.add (F.of_u64 1) (F.of_u64 0) ≡ F.of_u64 1
  pub sub_one_zero : F.sub (F.of_u64 1) (F.of_u64 0) ≡ F.of_u64 1
  pub add_zero_zero : F.add (F.of_u64 0) (F.of_u64 0) ≡ F.of_u64 0
  pub sub_zero_zero : F.sub (F.of_u64 0) (F.of_u64 0) ≡ F.of_u64 0
  pub mul_one_scale : F.mul (F.of_u64 1) (scale F) ≡ scale F
  pub mul_zero_scale : F.mul (F.of_u64 0) (scale F) ≡ F.of_u64 0

module _ (F : Float64) where
  open F use {Double, of_u64}

  -- 1.0 / sqrt(2.0) + 0.0 * I
  abbrev pub ghz_amplitude : Complex Double
  ghz_amplitude = record { re = scale F; im = of_u64 0 }

  -- The cells that exist are those of `two_states`, with the amplitudes of a GHZ state.
  abbrev pub HasTwoStates : (n top : ℕ) → (ℕ → Complex Double) → Type 0
  HasTwoStates n top a =
      (j : ℕ) → j < 2 ^ n → a j ≡ two_states ghz_amplitude (zero_amplitude F) top j

  grow-cells :
      (n p top : ℕ) (a b : ℕ → Complex Double)
      → suc p < n
      → top + 2 ^ suc p ≡ 2 ^ n
      → HasTwoStates n top a
      → ((j : ℕ) → j < 2 ^ n → b j ≡ (if bit (suc p) j == 1 then a (flip p j) else a j))
      → HasTwoStates n (top + 2 ^ p) b
  grow-cells n p top a b lt e cells cell j fits =
      cell j fits
      ∙ ap₂ (λ (x y : Complex Double). if bit (suc p) j == 1 then x else y)
          (cells (flip p j) (flip-lt p n j (omega arith) fits)) (cells j fits)
      ∙ two_states-grow ghz_amplitude (zero_amplitude F) p top j (top-bit (suc p) n top lt e)
          (below-bit p n top lt e)

  pub chain-cells :
      (k : Kernel Double) {a0 : ℕ → Complex Double}
      → IsReady k a0
      → (rounds q top : ℕ) (a : ℕ → Complex Double) → suc q + rounds ≡ k.qubit_count
      → top + 2 ^ rounds ≡ 2 ^ k.qubit_count
      → HasTwoStates k.qubit_count top a
      → (b : ℕ → Complex Double) × (cx_chain rounds (suc q) (with_cells k a) ≡ (ok, with_cells k b))
        × HasTwoStates k.qubit_count (2 ^ k.qubit_count - 1) b
  unfolding cx_chain
  chain-cells k r zero q top a e t cells = (a, refl, λ j fits. cells j fits ∙ ground arith)
  chain-cells k r (suc n) q top a e t cells =
      let (b, step, cell) =
        apply_cx-cells (with_cells k a) (with_cells-IsReady k r a) q (suc q) (omega arith)
          (omega arith) (λ e. omega arith) in
      let at_control : position k.qubit_count q ≡ suc n = omega arith in
      let at_target : position k.qubit_count (suc q) ≡ n = omega arith in
      let cell' : (j : ℕ)
          → j < 2 ^ k.qubit_count
          → b j ≡ (if bit (suc n) j == 1 then a (flip n j) else a j) =
        λ j fits.
          cell j fits
          ∙ ap₂ (λ (x y : ℕ). if bit x j == 1 then a (flip y j) else a j) at_control at_target in
      let (c, rest, last) =
        chain-cells k r n (suc q) (top + 2 ^ n) b (omega arith) (omega (arith, t, pow-suc 2 n))
          (grow-cells k.qubit_count n top a b (omega arith) t cells cell') in
      let back : suc q - 1 ≡ q = omega arith in
      let on : suc q + 1 ≡ suc (suc q) = omega arith in (c, rw (back, on, step) rest, last)

  -- The state that a reset leaves.
  abbrev pub reset_kernel : Kernel Double → Kernel Double
  reset_kernel k = record k {
    amplitudes = some (basis_state F 0);
    measured = false;
    measured_state = 0;
  }

  pub kernel_reset_lem :
      (k : Kernel Double) {a : ℕ → Complex Double}
      → IsReady k a
      → kernel_reset F k ≡ (ok, reset_kernel k)
  unfolding kernel_reset
  kernel_reset_lem k r = ground (arith, IsReady-ready r, r.array)

  pub reset_kernel-IsReady :
      (k : Kernel Double) {a : ℕ → Complex Double}
      → IsReady k a
      → IsReady (reset_kernel k) (basis_state F 0)
  reset_kernel-IsReady k r = record {
    some_qubit = r.some_qubit;
    few_qubits = r.few_qubits;
    states = r.states;
    array = refl;
  }

  -- H on the digit `p` of the all-zero state.
  start-cells :
      GateLaws F
      → (p j : ℕ)
      → (if bit p j == 1
          then (hadamard_pair F (basis_state F 0 (flip p j)) (basis_state F 0 j)).1
          else (hadamard_pair F (basis_state F 0 j) (basis_state F 0 (flip p j))).0)
        ≡ two_states ghz_amplitude (zero_amplitude F) (2 ^ p) j
  unfolding basis_state flip
  start-cells laws p j = ground (
    arith,
    bit_cases p j,
    le_of_bit p j,
    bit-zero p,
    bit-add_pow_self p 0 (bit-zero p),
    two-pow-pos p,
  )

  apply_ghz-run :
      (k : Kernel Double) {a : ℕ → Complex Double}
      → IsReady k a
      → (p : ℕ) (a1 b : ℕ → Complex Double) → k.qubit_count - 1 ≡ p
      → apply_h F (reset_kernel k) 0 ≡ (ok, with_cells (reset_kernel k) a1)
      → cx_chain p 1 (with_cells (reset_kernel k) a1) ≡ (ok, with_cells (reset_kernel k) b)
      → apply_ghz F k ≡ (ok, with_cells (reset_kernel k) b)
  unfolding apply_ghz
  apply_ghz-run k r p a1 b last_round step chain =
      rw (IsReady-ready r, kernel_reset_lem k r, step, last_round) chain

  -- On a ready kernel apply_ghz succeeds; it leaves the amplitude 1.0 / sqrt(2.0) in the all-zero and
  -- the all-one state and 0.0 in every other state, forgets a measurement, and changes nothing else. Relies on GateLaws.
  pub apply_ghz-cells :
      GateLaws F
      → (k : Kernel Double) {a : ℕ → Complex Double} → IsReady k a
      → (b : ℕ → Complex Double) × (apply_ghz F k
          ≡ (ok, record k { amplitudes = some b; measured = false; measured_state = 0 }))
        × HasTwoStates k.qubit_count (2 ^ k.qubit_count - 1) b
  apply_ghz-cells laws k {a} r =
      let k0 = reset_kernel k in
      let r0 = reset_kernel-IsReady k r in
      let (a1, step, cell) = apply_h-cells F k0 r0 0 r.some_qubit in
      let p = position k.qubit_count 0 in
      let grown : k.qubit_count ≡ suc p = omega (arith, r.some_qubit) in
      let (b, chain, cells) =
        chain-cells k0 r0 p 0 (2 ^ p) a1 (omega arith)
          (omega (arith, pow-suc 2 p, ap (λ (n : ℕ). 2 ^ n) grown))
          (λ j fits. cell j fits ∙ start-cells laws p j) in
      (b, apply_ghz-run k r p a1 b (omega arith) step chain, cells)
