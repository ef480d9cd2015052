-- ===== src/Quantum/Kernel/Gates/Effect.antt =====
-- The gate functions of src/quantum/qcpu_kernel.c as a whole: status, guards and new kernel.
use qbit_nova_c.Base.{
  ℕ, ◌^◌, ◌<◌, ◌≤◌, ◌≡◌, ◌≢◌, ◌⊎◌, ◌∙◌, refl, false, some, ◌==◌, if◌then◌else◌, arith,
}
use qbit_nova_c.Base.Bits.{bit}
use qbit_nova_c.Float.{Float64}
use qbit_nova_c.Quantum.Kernel.{ok, err_range, Complex, Kernel, change}
use qbit_nova_c.Quantum.Kernel.Gates.{
  apply_x, apply_cx, apply_h, hadamard_pair, pair_loop, not_set, controlled, swap_pair,
}
use qbit_nova_c.Quantum.Kernel.Gates.Meaning.{
  IsReady, IsReady-ready, qubit_mask_lem, position, flip, plain_cell, controlled_cell,
}

-- The kernel after a gate: the array is replaced and the measurement is forgotten.
abbrev pub with_cells : {Double : Type 0} → Kernel Double → (ℕ → Complex Double) → Kernel Double
with_cells k b = record k { amplitudes = some b; measured = false }

module _ {Double : Type 0} (k : Kernel Double) {a : ℕ → Complex Double} (r : IsReady k a) where
  open r use {states, array}

  -- On a ready kernel and a qubit in range, apply_x succeeds, changes nothing but the array and the
  -- measured mark, and puts into each cell the amplitude of the state with that qubit turned over.
  pub apply_x-cells :
      (q : ℕ)
      → q < k.qubit_count
      → (b : ℕ → Complex Double) × (apply_x k q ≡ (ok, with_cells k b))
        × ((j : ℕ) → j < 2 ^ k.qubit_count → b j ≡ a (flip (position k.qubit_count q) j))
  unfolding apply_x change
  apply_x-cells q lt = (
    pair_loop (2 ^ k.qubit_count) (not_set (2 ^ p)) (2 ^ p) swap_pair a,
    ground (arith, IsReady-ready r, qubit_mask_lem r q lt, states, array),
    λ j fits. plain_cell swap_pair a k.qubit_count p j fits ∙ ground arith,
  )
    where
      p : ℕ
      p = position k.qubit_count q

  -- On a ready kernel and two distinct qubits in range, apply_cx succeeds, changes nothing but the array and the
  -- measured mark, and turns the target over in exactly the states whose control digit is 1.
  pub apply_cx-cells :
      (c t : ℕ)
      → c < k.qubit_count
      → t < k.qubit_count
      → c ≢ t
      → (b : ℕ → Complex Double) × (apply_cx k c t ≡ (ok, with_cells k b))
        × ((j : ℕ)
            → j < 2 ^ k.qubit_count
            → b j ≡ (
                if bit (position k.qubit_count c) j == 1
                then a (flip (position k.qubit_count t) j)
                else a j))
  unfolding apply_cx change
  apply_cx-cells c t lc lt ne = (
    pair_loop (2 ^ k.qubit_count) (controlled (2 ^ pc) (2 ^ pt)) (2 ^ pt) swap_pair a,
    ground (arith, IsReady-ready r, qubit_mask_lem r c lc, qubit_mask_lem r t lt, states, array),
    λ j fits. controlled_cell swap_pair a k.qubit_count pt j fits pc (λ e. ne (omega arith)),
  )
    where
      pc : ℕ
      pc = position k.qubit_count c

      pt : ℕ
      pt = position k.qubit_count t

  -- On a ready kernel, apply_x with a qubit out of range, and apply_cx with one out of range or a
  -- control that is the target, return QCPU_ERR_RANGE and leave the kernel as it is.
  pub gates_refuse :
      (q c : ℕ)
      → (k.qubit_count ≤ q → apply_x k q ≡ (err_range, k))
        × ((k.qubit_count ≤ c) ⊎ (k.qubit_count ≤ q) ⊎ (c ≡ q) → apply_cx k c q ≡ (err_range, k))
  unfolding apply_x apply_cx
  gates_refuse q c = (λ h. ground (arith, IsReady-ready r), λ h. ground (arith, IsReady-ready r))

  pub with_cells-IsReady : (b : ℕ → Complex Double) → IsReady (with_cells k b) b
  with_cells-IsReady b = record {
    some_qubit = r.some_qubit;
    few_qubits = r.few_qubits;
    states = states;
    array = refl;
  }

module _ (F : Float64) where
  open F use {Double}

  -- On a ready kernel and a qubit in range, apply_h succeeds, changes nothing but the array and the
  -- measured mark, and mixes each cell with that of the state with the qubit turned over.
  pub apply_h-cells :
      (k : Kernel Double) {a : ℕ → Complex Double}
      → IsReady k a
      → (q : ℕ) → q < k.qubit_count
      → (b : ℕ → Complex Double) × (apply_h F k q ≡ (ok, with_cells k b))
        × ((j : ℕ)
            → j < 2 ^ k.qubit_count
            → b j ≡ (
                if bit (position k.qubit_count q) j == 1
                then (hadamard_pair F (a (flip (position k.qubit_count q) j)) (a j)).1
                else (hadamard_pair F (a j) (a (flip (position k.qubit_count q) j))).0))
  unfolding apply_h change
  apply_h-cells k {a} r q lt = (
    pair_loop (2 ^ k.qubit_count) (not_set (2 ^ p)) (2 ^ p) (hadamard_pair F) a,
    ground (arith, IsReady-ready r, qubit_mask_lem r q lt, r.states, r.array),
    λ j fits. plain_cell (hadamard_pair F) a k.qubit_count p j fits,
  )
    where
      p : ℕ
      p = position k.qubit_count q
