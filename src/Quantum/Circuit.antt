-- ===== src/Quantum/Circuit.antt =====
-- src/quantum/qcircuit.c: a circuit file, its check, and what is emitted for it. What sscanf gives for
-- a line is data; each call of fail() is a Failure.
pub mod Checked
pub mod Gates
use qbit_nova_c.Base.{
  ℕ, zero, suc, ◌+◌, ◌-◌, ℤ, pos, negsuc, Bool, true, false, not, ◌&&◌, ◌||◌, Option, none, some,
  List, [], ◌∷◌, ◌++◌, Text, codes, same, length, leb, ltb, ◌==◌, if◌then◌else◌,
}

abbrev pub max_circuit_qubits : ℕ
max_circuit_qubits = 16

abbrev pub max_ops : ℕ
max_ops = 4096

pub data Gate : Type 0 where
  gate_h gate_x gate_y gate_z gate_s gate_t gate_cx gate_swap : Gate

pub record Op : Type 0 where
  pub op : Gate
  pub a : ℕ
  pub b : ℕ

-- NQ, HAS_MEASURE and OPS[0 .. NOPS - 1].
pub record Circuit : Type 0 where
  pub nq : ℕ
  pub has_measure : Bool
  pub ops : List Op

pub data Failure : Type 0 where
  too_many_operations qubit_out_of_range ghz_needs_qubits qubits_operand qubits_range : Failure
  ghz_operand single_operand double_operand measure_operand missing_qubits : Failure
  unknown_op : Text → Failure

pub data Loaded : Type 0 where
  loaded : Circuit → Loaded
  failed : Failure → Loaded

abbrev pub and_load : Loaded → (Circuit → Loaded) → Loaded
and_load (loaded c) next = next c
and_load (failed f) next = failed f

unfoldable pub add_op : Gate → (a b : ℕ) → Circuit → Loaded
add_op op a b c =
    if leb max_ops (length c.ops)
    then failed too_many_operations
    else loaded (record c { ops = c.ops ++ record { op = op; a = a; b = b } ∷ [] })

-- require_qubit: the index, if it is in range.
unfoldable pub require_qubit : ℤ → Circuit → (ℕ → Loaded) → Loaded
require_qubit (pos q) c next = if ltb q c.nq then next q else failed qubit_out_of_range
require_qubit (negsuc _) c next = failed qubit_out_of_range

-- The loop of add_ghz, `rounds` rounds from qubit `q` on.
unfoldable pub add_chain : (rounds q : ℕ) → Circuit → Loaded
unfolding add_op
add_chain zero q c = loaded c
add_chain (suc rounds) q c = and_load (add_op gate_cx q (q + 1) c) (add_chain rounds (q + 1))

unfoldable pub add_ghz : Circuit → Loaded
unfolding add_op add_chain
add_ghz c =
    if ltb c.nq 2
    then failed ghz_needs_qubits
    else and_load (add_op gate_h 0 0 c) (add_chain (c.nq - 1) 0)

-- A line of the file: whether it starts as a comment or is empty, how many items sscanf finds (0
-- also for EOF), and what it stores.
pub record Line : Type 0 where
  pub is_comment : Bool
  pub got : ℕ
  pub kw : Text
  pub q1 : ℤ
  pub q2 : ℤ

unfoldable pub single_gate : Text → Option Gate
single_gate kw =
    if same kw (codes "h")
    then some gate_h
    else if same kw (codes "x")
    then some gate_x
    else if same kw (codes "y")
    then some gate_y
    else if same kw (codes "z")
    then some gate_z
    else if same kw (codes "s")
    then some gate_s
    else if same kw (codes "t")
    then some gate_t
    else none

unfoldable pub double_gate : Text → Option Gate
double_gate kw =
    if same kw (codes "cx")
    then some gate_cx
    else if same kw (codes "swap")
    then some gate_swap
    else none

unfoldable pub set_qubits : ℤ → Circuit → Loaded
set_qubits (pos n) c =
    if leb 1 n && leb n max_circuit_qubits
    then loaded (record c { nq = n })
    else failed qubits_range
set_qubits (negsuc _) c = failed qubits_range

unfoldable pub load_single : Gate → Line → Circuit → Loaded
unfolding require_qubit add_op
load_single gate l c =
    if not (l.got == 2) then failed single_operand else require_qubit l.q1 c λ q. add_op gate q 0 c

unfoldable pub load_double : Gate → Line → Circuit → Loaded
unfolding require_qubit add_op
load_double gate l c =
    if not (l.got == 3)
    then failed double_operand
    else require_qubit l.q1 c λ q. require_qubit l.q2 c λ r. add_op gate q r c

-- The gates, `measure`, and words that are none of them.
unfoldable pub load_gate : (single double : Option Gate) → Line → Circuit → Loaded
unfolding load_single load_double
load_gate (some gate) double l c = load_single gate l c
load_gate none (some gate) l c = load_double gate l c
load_gate none none l c =
    if same l.kw (codes "measure")
    then (if not (l.got == 1)
        then failed measure_operand
        else loaded (record c { has_measure = true }))
    else failed (unknown_op l.kw)

unfoldable pub load_line : Line → Circuit → Loaded
unfolding set_qubits add_ghz load_gate single_gate double_gate
load_line l c =
    if l.is_comment || ltb l.got 1
    then loaded c
    else if same l.kw (codes "qubits")
    then (if not (l.got == 2) then failed qubits_operand else set_qubits l.q1 c)
    else if same l.kw (codes "ghz")
    then (if not (l.got == 1) then failed ghz_operand else add_ghz c)
    else load_gate (single_gate l.kw) (double_gate l.kw) l c

unfoldable pub load_circuit : List Line → Circuit → Loaded
unfolding load_line
load_circuit [] c = loaded c
load_circuit (l ∷ lines) c = and_load (load_line l c) (load_circuit lines)

abbrev pub empty_circuit : Circuit
empty_circuit = record { nq = 0; has_measure = false; ops = [] }

-- main with a file, and with a number of qubits.
unfoldable pub circuit_of_file : List Line → Loaded
unfolding load_circuit
circuit_of_file lines =
    and_load (load_circuit lines empty_circuit)
      λ c. if ltb c.nq 1 then failed missing_qubits else loaded c

unfoldable pub circuit_of_number : ℕ → Loaded
unfolding add_ghz
circuit_of_number n =
    let nq = if ltb n 2 then 2 else if ltb max_circuit_qubits n then max_circuit_qubits else n in
    and_load (add_ghz (record { nq = nq; has_measure = false; ops = [] }))
      λ c. loaded (record c { has_measure = true })

-- The lines of emit_qasm.
pub data Qasm : Type 0 where
  header : Qasm
  qubit_array bit_array : ℕ → Qasm
  gate : (op : Gate) (a : ℕ) → Qasm
  gate_on_two : (op : Gate) (a b : ℕ) → Qasm
  measure_line : (c q : ℕ) → Qasm

abbrev pub is_double : Gate → Bool
is_double gate_cx = true
is_double gate_swap = true
is_double _ = false

unfoldable pub emit_ops : List Op → List Qasm
emit_ops [] = []
emit_ops (o ∷ ops) =
    (if is_double o.op then gate_on_two o.op o.a o.b else gate o.op o.a) ∷ emit_ops ops

-- `n` lines from qubit `q` on.
unfoldable pub emit_measures : (n q : ℕ) → List Qasm
emit_measures zero q = []
emit_measures (suc n) q = measure_line q q ∷ emit_measures n (q + 1)

unfoldable pub emit_qasm : Circuit → List Qasm
unfolding emit_ops emit_measures
emit_qasm c =
    header
    ∷ qubit_array c.nq
    ∷ bit_array c.nq
    ∷ (emit_ops c.ops ++ (if c.has_measure then emit_measures c.nq 0 else []))
