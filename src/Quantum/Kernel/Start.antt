-- ===== src/Quantum/Kernel/Start.antt =====
-- qcpu_kernel_init: the range of sizes, and the kernel that it makes.
use qbit_nova_c.Base.{
  ℕ, ◌<◌, ◌≤◌, ◌≡◌, ◌≢◌, ◌⊎◌, refl, true, false, some, arith, Bool, ◌==◌, if◌then◌else◌, ◌∙◌,
}
use qbit_nova_c.Float.{Float64}
use qbit_nova_c.Quantum.Kernel.{
  ok, err_range, err_alloc, Kernel, kernel_init, cleared, basis_state, max_qubits, shift_one,
  zero_amplitude, default_seed, kernel_reset,
}
use qbit_nova_c.Quantum.Kernel.Gates.Meaning.{IsReady, shift_one_lem}
use qbit_nova_c.Quantum.Kernel.Ghz.Cells.{reset_kernel, kernel_reset_lem, reset_kernel-IsReady}

module _ (F : Float64) where
  open F use {Double}

  -- The kernel that the final reset of kernel_init is given.
  abbrev allocated_kernel : (n seed : ℕ) → Kernel Double
  allocated_kernel n seed = record {
    qubit_count = n;
    state_count = shift_one n;
    amplitudes = some (λ _. zero_amplitude F);
    rng_state = if seed == 0 then default_seed else seed;
    measured = false;
    measured_state = 0;
  }

  allocated_kernel-IsReady :
      (n seed : ℕ)
      → 0 < n
      → n ≤ max_qubits
      → IsReady (allocated_kernel n seed) (λ _. zero_amplitude F)
  allocated_kernel-IsReady n seed pos few = record {
    some_qubit = pos;
    few_qubits = few;
    states = shift_one_lem n (omega arith);
    array = refl;
  }

  kernel_init-run :
      (k : Kernel Double) (n seed : ℕ)
      → 0 < n
      → n ≤ max_qubits
      → kernel_init F true k n seed ≡ kernel_reset F (allocated_kernel n seed)
  unfolding kernel_init
  kernel_init-run k n seed pos few = ground arith

  -- With 1 to 20 qubits and memory for the amplitudes, kernel_init makes a ready kernel of that size
  -- in the all-zero state, not measured, whose generator state is not 0.
  pub kernel_init-IsReady :
      (k : Kernel Double) (n seed : ℕ)
      → 0 < n
      → n ≤ max_qubits
      → (k' : Kernel Double) × (kernel_init F true k n seed ≡ (ok, k'))
        × IsReady k' (basis_state F 0)
        × (k'.qubit_count ≡ n)
        × (k'.measured ≡ false)
        × (k'.rng_state ≢ 0)
  kernel_init-IsReady k n seed pos few =
      let r = allocated_kernel-IsReady n seed pos few in
      (
        reset_kernel F (allocated_kernel n seed),
        kernel_init-run k n seed pos few ∙ kernel_reset_lem F (allocated_kernel n seed) r,
        reset_kernel-IsReady F (allocated_kernel n seed) r,
        refl,
        refl,
        ground arith,
      )

  -- Any other number of qubits is refused and leaves the kernel alone; without memory the kernel is
  -- cleared.
  pub kernel_init-refuses :
      (allocated : Bool) (k : Kernel Double) (n seed : ℕ)
      → ((n ≡ 0) ⊎ (max_qubits < n) → kernel_init F allocated k n seed ≡ (err_range, k))
        × (0 < n → n ≤ max_qubits → kernel_init F false k n seed ≡ (err_alloc, cleared))
  unfolding kernel_init
  kernel_init-refuses allocated k n seed = (λ h. ground arith, λ pos few. ground arith)
