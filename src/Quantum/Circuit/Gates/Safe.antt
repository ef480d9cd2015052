-- ===== src/Quantum/Circuit/Gates/Safe.antt =====
-- The run of a checked circuit of src/quantum/qcircuit.c: every shift is defined.
use qbit_nova_c.Base.{
  ◌^◌, ℕ, ◌-◌, ◌<◌, ◌≤◌, ◌≡◌, inl, inr, refl, Bool, true, false, not, ◌||◌, List, [], ◌∷◌, ◌==◌,
  Bool-cases, arith,
}
use qbit_nova_c.Base.Bits.{bit}
use qbit_nova_c.Quantum.Kernel.Gates.{pair_loop}
use qbit_nova_c.Float.{Float64}
use qbit_nova_c.Quantum.Kernel.{Complex, basis_state}
use qbit_nova_c.Quantum.Circuit.{
  Gate, gate_h, gate_x, gate_y, gate_z, gate_s, gate_t, gate_cx, gate_swap, Op, Circuit, Line,
  loaded, circuit_of_file,
}
use qbit_nova_c.Quantum.Circuit.Checked.{in_range, declarations, circuit_of_file-IsChecked}
use qbit_nova_c.Quantum.Circuit.Gates.{
  Ran, ran, cx_same_qubit, allocation_failed, and_run, g_cx, ComplexLibrary, run_op, run_ops,
  simulate, digit_of, g_single, matrix_pair, g_h, g_x, g_y, g_z, g_s, g_t,
}
use qbit_nova_c.Quantum.Circuit.Gates.Kernel.{cx_array, g_cx-cx_array}
use qbit_nova_c.Quantum.Circuit.Gates.Swap.{g_swap-exchanged}

-- A CX gate with one qubit for both operands.
abbrev pub is_self_cx : Gate → (a b : ℕ) → Bool
is_self_cx gate_cx a b = a == b
is_self_cx _ a b = false

unfoldable pub has_self_cx : List Op → Bool
has_self_cx [] = false
has_self_cx (o ∷ ops) = is_self_cx o.op o.a o.b || has_self_cx ops

-- How a run ends: in fail() of g_cx if `bad`, else with all its amplitudes. In neither case does a
-- gate shift by a negative number.
abbrev pub Ends : {A : Type 0} → (bad : Bool) → Ran A → Type 0
Ends {A} true r = r ≡ cx_same_qubit
Ends {A} false r = (b : ℕ → A) × (r ≡ ran b)

digit_of_lem :
    {A : Type 0} (n q : ℕ) → q < n → (next : ℕ → Ran A) → digit_of n q next ≡ next (n - 1 - q)
digit_of_lem n q lt next = ground arith

and_run-Ends :
    {A : Type 0} (r : Ran A) (next : (ℕ → A) → Ran A) (x y : Bool)
    → Ends x r
    → ((b : ℕ → A) → Ends y (next b))
    → Ends (x || y) (and_run r next)
and_run-Ends r next true y e after = rw e refl
and_run-Ends r next false y (b, e) after = rw e (after b)

g_cx_self :
    {A : Type 0} (amp : ℕ → A) (n a b : ℕ) → (a == b) ≡ true → g_cx amp n a b ≡ cx_same_qubit
unfolding g_cx
g_cx_self amp n a b e = ground arith

g_cx-Ends : {A : Type 0} (amp : ℕ → A) (n a b : ℕ) → a < n → b < n → Ends (a == b) (g_cx amp n a b)
g_cx-Ends amp n a b la lb = elim (Bool-cases (a == b)) [
  | inl e ↦ rw e (g_cx_self amp n a b e)
  | inr e ↦
      rw e
        (cx_array amp n a b, g_cx-cx_array amp n a b la lb (λ (p : a ≡ b). absurd (ground arith)))
]

module _ (F : Float64) (L : ComplexLibrary F) (n : ℕ) where
  open F use {Double}

  g_single-runs :
      (amp : ℕ → Complex Double) (q : ℕ)
      → q < n
      → (m00 m01 m10 m11 : Complex Double)
      → (b : ℕ → Complex Double) × (g_single F L amp n q m00 m01 m10 m11 ≡ ran b)
  unfolding g_single
  g_single-runs amp q lt m00 m01 m10 m11 =
      let array : ℕ → ℕ → Complex Double = λ p.
        pair_loop (2 ^ n) (λ i. not (bit p i == 1)) (2 ^ p) (matrix_pair F L m00 m01 m10 m11) amp in
      (array (n - 1 - q), digit_of_lem n q lt λ p. ran (array p))

  run_op-Ends :
      (amp : ℕ → Complex Double) (gate : Gate) (a b : ℕ)
      → a < n
      → b < n
      → Ends (is_self_cx gate a b) (run_op F L amp n (record { op = gate; a = a; b = b }))
  unfolding run_op g_h g_x g_y g_z g_s g_t
  run_op-Ends amp gate_h a b la lb = g_single-runs amp a la _ _ _ _
  run_op-Ends amp gate_x a b la lb = g_single-runs amp a la _ _ _ _
  run_op-Ends amp gate_y a b la lb = g_single-runs amp a la _ _ _ _
  run_op-Ends amp gate_z a b la lb = g_single-runs amp a la _ _ _ _
  run_op-Ends amp gate_s a b la lb = g_single-runs amp a la _ _ _ _
  run_op-Ends amp gate_t a b la lb = g_single-runs amp a la _ _ _ _
  run_op-Ends amp gate_cx a b la lb = g_cx-Ends amp n a b la lb
  run_op-Ends amp gate_swap a b la lb = let (c, e, _) = g_swap-exchanged amp n a b la lb in (c, e)

  run_ops-Ends :
      (ops : List Op) (amp : ℕ → Complex Double)
      → in_range n ops ≡ true
      → Ends (has_self_cx ops) (run_ops F L n ops amp)
  unfolding run_ops in_range has_self_cx
  run_ops-Ends [] amp h = (amp, refl)
  run_ops-Ends (o ∷ ops) amp h =
      and_run-Ends _ _ (is_self_cx o.op o.a o.b) (has_self_cx ops)
        (run_op-Ends amp o.op o.a o.b (ground arith) (ground arith))
        λ b. run_ops-Ends ops b (ground arith)

-- How a whole run ends, which begins with a calloc.
abbrev pub EndsRun : {A : Type 0} → (allocated bad : Bool) → Ran A → Type 0
EndsRun false bad r = r ≡ allocation_failed
EndsRun true bad r = Ends bad r

module _ (F : Float64) (L : ComplexLibrary F) where
  -- The run of a circuit that a file gives, when the file declares its number of qubits at most once:
  -- it ends in fail() if calloc fails, or if some CX gate has one qubit for both operands, else with
  -- all its amplitudes; and no gate shifts by a negative number.
  pub simulate-circuit_of_file :
      (lines : List Line) (c : Circuit) (allocated : Bool)
      → declarations lines ≤ 1
      → circuit_of_file lines ≡ loaded c
      → EndsRun allocated (has_self_cx c.ops) (simulate F L allocated c)
  unfolding simulate
  simulate-circuit_of_file lines c false once e = refl
  simulate-circuit_of_file lines c true once e =
      let (checked, _) = circuit_of_file-IsChecked lines c once e in
      run_ops-Ends F L c.nq c.ops (basis_state F 0) checked.operands
