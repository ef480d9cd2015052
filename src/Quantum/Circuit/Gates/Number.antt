-- ===== src/Quantum/Circuit/Gates/Number.antt =====
-- main of src/quantum/qcircuit.c with a number: the operations of a GHZ state.
use mathlib.Core.List.{append_assoc, append-nil}
use qbit_nova_c.Base.{
  ℕ, zero, suc, ◌+◌, ◌-◌, ◌≤◌, ◌≡◌, ◌∙◌, refl, sym, ap, true, List, [], ◌∷◌, ◌++◌, length,
  length-append, leb, false, ltb, if◌then◌else◌, arith,
}
use qbit_nova_c.Quantum.Circuit.{
  max_circuit_qubits, max_ops, gate_h, gate_cx, Op, Circuit, loaded, add_op, add_chain, add_ghz,
  circuit_of_number,
}
use qbit_nova_c.Quantum.Circuit.Gates.Kernel.{chain_ops}

abbrev with_ops : Circuit → List Op → Circuit
with_ops c ops = record c { ops = ops }

add_chain-chain_ops :
    (rounds q : ℕ) (c : Circuit)
    → length c.ops + rounds ≤ max_ops
    → add_chain rounds q c ≡ loaded (with_ops c (c.ops ++ chain_ops rounds q))
unfolding add_chain add_op
add_chain-chain_ops zero q c room =
    ap (λ (ops : List Op). loaded (with_ops c ops)) (sym (append-nil c.ops))
add_chain-chain_ops (suc rounds) q c room =
    let one : List Op = record { op = gate_cx; a = q; b = q + 1 } ∷ [] in
    let full : leb max_ops (length c.ops) ≡ false = ground arith in
    let on : q + 1 ≡ suc q = omega arith in
    rw full (
      add_chain-chain_ops rounds (q + 1) (with_ops c (c.ops ++ one))
        (omega (arith, length-append c.ops one))
      ∙ ap (λ (ops : List Op). loaded (with_ops c ops))
          (append_assoc c.ops one (chain_ops rounds (q + 1)) ∙ rw on refl))

-- The number of qubits of a circuit that is named by a number.
abbrev pub clamped : ℕ → ℕ
clamped n = if ltb n 2 then 2 else if ltb max_circuit_qubits n then max_circuit_qubits else n

add_ghz-chain_ops :
    (m : ℕ)
    → 2 ≤ m
    → m ≤ max_circuit_qubits
    → add_ghz (record { nq = m; has_measure = false; ops = [] })
      ≡ loaded (record {
        nq = m;
        has_measure = false;
        ops = record { op = gate_h; a = 0; b = 0 } ∷ chain_ops (m - 1) 0;
      })
unfolding add_ghz add_op
add_ghz-chain_ops m two few =
    let enough : ltb m 2 ≡ false = ground arith in
    rw enough (
      add_chain-chain_ops (m - 1) 0
        (record { nq = m; has_measure = false; ops = record { op = gate_h; a = 0; b = 0 } ∷ [] })
        (omega arith))

-- For every number, the circuit is accepted: its qubits are the number brought into 2 to 16, its
-- operations H on qubit 0 and the CX chain from qubit 0 to the last one, and it is measured.
pub circuit_of_number-chain_ops :
    (n : ℕ)
    → circuit_of_number n
      ≡ loaded (record {
        nq = clamped n;
        has_measure = true;
        ops = record { op = gate_h; a = 0; b = 0 } ∷ chain_ops (clamped n - 1) 0;
      })
unfolding circuit_of_number
circuit_of_number-chain_ops n =
    rw (add_ghz-chain_ops (clamped n) (ground arith) (ground arith)) refl
