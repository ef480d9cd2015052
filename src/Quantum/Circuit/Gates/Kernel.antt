-- ===== src/Quantum/Circuit/Gates/Kernel.antt =====
-- g_cx of src/quantum/qcircuit.c beside qcpu_kernel_apply_cx of src/quantum/qcpu_kernel.c.
use mathlib.Core.Path.{fun_ext}
use qbit_nova_c.Base.{
  ℕ, zero, suc, ◌+◌, ◌-◌, ◌^◌, ◌<◌, ◌≡◌, ◌≢◌, refl, List, [], ◌∷◌, ◌==◌, if◌then◌else◌, arith,
}
use qbit_nova_c.Base.Bits.{bit}
use qbit_nova_c.Float.{Float64}
use qbit_nova_c.Quantum.Kernel.{ok, Complex, Kernel, change}
use qbit_nova_c.Quantum.Kernel.Gates.{apply_cx, pair_loop, controlled, swap_pair}
use qbit_nova_c.Quantum.Kernel.Gates.Meaning.{
  IsReady, IsReady-ready, qubit_mask_lem, position, test_mask-pow, flip, controlled_cell,
}
use qbit_nova_c.Quantum.Kernel.Gates.Effect.{with_cells, with_cells-IsReady}
use qbit_nova_c.Quantum.Kernel.Ghz.{cx_chain}
use qbit_nova_c.Quantum.Circuit.{Op, gate_cx}
use qbit_nova_c.Quantum.Circuit.Gates.{ran, cx_test, g_cx, ComplexLibrary, run_op, run_ops}

cx_test-controlled : (pc pt i : ℕ) → cx_test pc pt i ≡ controlled (2 ^ pc) (2 ^ pt) i
cx_test-controlled pc pt i = ground (arith, test_mask-pow pc i, test_mask-pow pt i)

-- The array that both loops leave.
abbrev pub cx_array : {A : Type 0} → (ℕ → A) → (n c t : ℕ) → ℕ → A
cx_array amp n c t =
    pair_loop (2 ^ n) (controlled (2 ^ position n c) (2 ^ position n t)) (2 ^ position n t)
      swap_pair amp

module _ {A : Type 0} (amp : ℕ → A) (n c t : ℕ) (lc : c < n) (lt : t < n) (ne : c ≢ t) where
  pub g_cx-cx_array : g_cx amp n c t ≡ ran (cx_array amp n c t)
  unfolding g_cx
  g_cx-cx_array = rw (fun_ext (cx_test-controlled (position n c) (position n t))) (ground arith)

  pub cx_array_cell :
      (j : ℕ)
      → j < 2 ^ n
      → cx_array amp n c t j
        ≡ (if bit (position n c) j == 1 then amp (flip (position n t) j) else amp j)
  cx_array_cell j fits =
      controlled_cell swap_pair amp n (position n t) j fits (position n c) (λ e. ne (omega arith))

-- The operations of the chain that add_ghz adds.
abbrev pub chain_ops : (rounds q : ℕ) → List Op
chain_ops zero q = []
chain_ops (suc rounds) q = record { op = gate_cx; a = q; b = suc q } ∷ chain_ops rounds (suc q)

module _ {Double : Type 0} (k : Kernel Double) {a : ℕ → Complex Double} (r : IsReady k a) where
  open r use {states, array}

  -- On a ready kernel and two distinct qubits in range, g_cx of the circuit program and
  -- qcpu_kernel_apply_cx leave the same array, and the kernel changes nothing but the array and the
  -- measured mark.
  pub g_cx-apply_cx :
      (c t : ℕ)
      → c < k.qubit_count
      → t < k.qubit_count
      → c ≢ t
      → (b : ℕ → Complex Double) × (g_cx a k.qubit_count c t ≡ ran b)
        × (apply_cx k c t ≡ (ok, with_cells k b))
  unfolding apply_cx change
  g_cx-apply_cx c t lc lt ne = (
    cx_array a k.qubit_count c t,
    g_cx-cx_array a k.qubit_count c t lc lt ne,
    ground (arith, IsReady-ready r, qubit_mask_lem r c lc, qubit_mask_lem r t lt, states, array),
  )

module _ (F : Float64) (L : ComplexLibrary F) {k : Kernel F.Double} where
  -- On a ready kernel, for any amplitudes, the CX operations of the circuit program from qubit q to the
  -- last one run to their end and leave the array that the kernel's CX chain leaves, which succeeds.
  pub run_ops-cx_chain :
      {a0 : ℕ → Complex F.Double}
      → IsReady k a0
      → (rounds q : ℕ) (a : ℕ → Complex F.Double) → suc q + rounds ≡ k.qubit_count
      → (b : ℕ → Complex F.Double) × (run_ops F L k.qubit_count (chain_ops rounds q) a ≡ ran b)
        × (cx_chain rounds (suc q) (with_cells k a) ≡ (ok, with_cells k b))
  unfolding run_ops run_op cx_chain
  run_ops-cx_chain r zero q a e = (a, refl, refl)
  run_ops-cx_chain r (suc n) q a e =
      let (b, run, call) =
        g_cx-apply_cx (with_cells k a) (with_cells-IsReady k r a) q (suc q) (omega arith)
          (omega arith) (λ e. omega arith) in
      let (c, runs, calls) = run_ops-cx_chain r n (suc q) b (omega arith) in
      let back : suc q - 1 ≡ q = omega arith in
      let on : suc q + 1 ≡ suc (suc q) = omega arith in (c, rw run runs, rw (back, on, call) calls)
