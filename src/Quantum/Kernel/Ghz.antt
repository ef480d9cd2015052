-- ===== src/Quantum/Kernel/Ghz.antt =====
-- qcpu_kernel_apply_ghz: reset, H on qubit 0 and the chain of CX gates.
pub mod Cells
pub mod Step
use qbit_nova_c.Base.{ℕ, zero, suc, ◌+◌, ◌-◌, if◌then◌else◌}
use qbit_nova_c.Float.{Float64}
use qbit_nova_c.Quantum.Kernel.{Status, ok, err_argument, Kernel, kernel_ready, kernel_reset}
use qbit_nova_c.Quantum.Kernel.Gates.{apply_h, apply_cx}

-- `if (status != QCPU_OK) return status;`
abbrev pub and_then :
    {Double : Type 0}
    → Status × Kernel Double
    → (Kernel Double → Status × Kernel Double)
    → Status × Kernel Double
and_then m f = elim m.0 [ ok ↦ f m.1 | _ ↦ m ]

-- for (qubit = …; qubit < kernel->qubit_count; ++qubit), with the rounds that are left
unfoldable pub cx_chain :
    {Double : Type 0} → (rounds qubit : ℕ) → Kernel Double → Status × Kernel Double
cx_chain zero qubit k = (ok, k)
cx_chain (suc n) qubit k = and_then (apply_cx k (qubit - 1) qubit) (cx_chain n (qubit + 1))

module _ (F : Float64) where
  open F use {Double}

  unfoldable pub apply_ghz : Kernel Double → Status × Kernel Double
  apply_ghz k =
      if kernel_ready k
      then (and_then (kernel_reset F k)
          λ k0. and_then (apply_h F k0 0) λ k1. cx_chain (k1.qubit_count - 1) 1 k1)
      else (err_argument, k)
