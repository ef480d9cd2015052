-- ===== src/Quantum/Circuit/Checked.antt =====
-- The check of src/quantum/qcircuit.c: what load_circuit lets through, and the circuit of a number.
use mathlib.Core.Path.{subst}
use qbit_nova_c.Base.{
  ℕ, zero, suc, ◌+◌, ◌-◌, ◌<◌, ◌≤◌, ◌≡◌, ◌∙◌, inl, inr, refl, sym, ap, ℤ, pos, negsuc, Bool, true,
  false, not, ◌&&◌, ◌||◌, Option, none, some, List, [], ◌∷◌, ◌++◌, codes, same, length,
  length-append, ltb, leb, ◌==◌, if◌then◌else◌, Bool-cases, arith,
}
use qbit_nova_c.Quantum.Circuit.{
  max_circuit_qubits, max_ops, Gate, gate_h, gate_cx, Op, Circuit, Failure, failed, Loaded, loaded,
  and_load, add_op, require_qubit, add_chain, add_ghz, Line, single_gate, double_gate, set_qubits,
  load_single, load_double, load_gate, load_line, load_circuit, missing_qubits, empty_circuit,
  circuit_of_file,
}

-- Both operands of every operation name a qubit.
unfoldable pub in_range : ℕ → List Op → Bool
in_range n [] = true
in_range n (o ∷ ops) = ltb o.a n && (ltb o.b n && in_range n ops)

pub record IsChecked (c : Circuit) : Type 0 where
  pub few_qubits : c.nq ≤ max_circuit_qubits
  pub few_ops : length c.ops ≤ max_ops
  pub operands : in_range c.nq c.ops ≡ true

-- A step that stops, or keeps a checked circuit on `n` qubits.
data Keeps (n : ℕ) : Loaded → Type 0 where
  stops : (f : Failure) → Keeps n (failed f)
  keeps : (c : Circuit) → IsChecked c → c.nq ≡ n → Keeps n (loaded c)

if-Keeps :
    {n : ℕ} {x y : Loaded} (b : Bool)
    → (b ≡ true → Keeps n x)
    → (b ≡ false → Keeps n y)
    → Keeps n (if b then x else y)
if-Keeps true on_true on_false = on_true refl
if-Keeps false on_true on_false = on_false refl

and_load-Keeps :
    {n : ℕ} {m : Loaded} {next : Circuit → Loaded}
    → Keeps n m
    → ((c : Circuit) → IsChecked c → c.nq ≡ n → Keeps n (next c))
    → Keeps n (and_load m next)
and_load-Keeps (stops f) after = stops f
and_load-Keeps (keeps c h e) after = after c h e

keeps-after :
    {n : ℕ} {m : Loaded} {next : Circuit → Loaded}
    → Keeps n m
    → ((c : Circuit) → IsChecked c → c.nq ≡ n → (o : ℕ) × Keeps o (next c))
    → (o : ℕ) × Keeps o (and_load m next)
keeps-after (stops f) after = (0, stops f)
keeps-after (keeps c h e) after = after c h e

in_range-append :
    (n : ℕ) (ops : List Op) (o : Op)
    → in_range n ops ≡ true
    → o.a < n
    → o.b < n
    → in_range n (ops ++ o ∷ []) ≡ true
unfolding in_range
in_range-append n [] o h la lb = ground arith
in_range-append n (x ∷ ops) o h la lb = ground (arith, in_range-append n ops o)

add_op-Keeps :
    (gate : Gate) (a b : ℕ) (c : Circuit)
    → IsChecked c
    → a < c.nq
    → b < c.nq
    → Keeps c.nq (add_op gate a b c)
unfolding add_op
add_op-Keeps gate a b c h la lb =
    if-Keeps (leb max_ops (length c.ops)) (λ _. stops _)
      λ room.
        keeps _
          (record {
            few_qubits = h.few_qubits;
            few_ops = ground (arith, length-append c.ops (record { op = gate; a = a; b = b } ∷ []));
            operands = in_range-append c.nq c.ops _ h.operands la lb;
          })
          refl

add_chain-Keeps :
    (rounds q : ℕ) (c : Circuit)
    → IsChecked c
    → q + rounds < c.nq
    → Keeps c.nq (add_chain rounds q c)
unfolding add_chain
add_chain-Keeps zero q c h lt = keeps c h refl
add_chain-Keeps (suc rounds) q c h lt =
    and_load-Keeps (add_op-Keeps gate_cx q (q + 1) c h (omega arith) (omega arith))
      λ d k e. rw (sym e) (add_chain-Keeps rounds (q + 1) d k (omega arith))

add_ghz-Keeps : (c : Circuit) → IsChecked c → Keeps c.nq (add_ghz c)
unfolding add_ghz
add_ghz-Keeps c h =
    if-Keeps (ltb c.nq 2) (λ _. stops _)
      λ two. and_load-Keeps (add_op-Keeps gate_h 0 0 c h (ground arith) (ground arith)) λ d k e.
        subst (λ (n : ℕ). Keeps n (add_chain (c.nq - 1) 0 d)) e
          (add_chain-Keeps (c.nq - 1) 0 d k (ground arith))

require_qubit-Keeps :
    (q : ℤ) (c : Circuit) (next : ℕ → Loaded)
    → ((i : ℕ) → i < c.nq → Keeps c.nq (next i))
    → Keeps c.nq (require_qubit q c next)
unfolding require_qubit
require_qubit-Keeps (pos i) c next k =
    if-Keeps (ltb i c.nq) (λ lt. k i (ground arith)) (λ _. stops _)
require_qubit-Keeps (negsuc i) c next k = stops _

load_gate-Keeps :
    (single double : Option Gate) (l : Line) (c : Circuit)
    → IsChecked c
    → Keeps c.nq (load_gate single double l c)
unfolding load_gate load_single load_double
load_gate-Keeps (some gate) double l c h =
    if-Keeps (not (l.got == 2)) (λ _. stops _)
      λ _. require_qubit-Keeps l.q1 c _ λ i lt. add_op-Keeps gate i 0 c h lt (omega arith)
load_gate-Keeps none (some gate) l c h =
    if-Keeps (not (l.got == 3)) (λ _. stops _)
      λ _.
        require_qubit-Keeps l.q1 c _
          λ i lt. require_qubit-Keeps l.q2 c _ λ j lt'. add_op-Keeps gate i j c h lt lt'
load_gate-Keeps none none l c h =
    if-Keeps (same l.kw (codes "measure"))
      (λ _.
        if-Keeps (not (l.got == 1)) (λ _. stops _)
          λ _.
            keeps (record c { has_measure = true })
              (record { few_qubits = h.few_qubits; few_ops = h.few_ops; operands = h.operands })
              refl)
      (λ _. stops _)

-- Whether a line declares the number of qubits.
unfoldable pub declares : Line → Bool
declares l = not (l.is_comment || ltb l.got 1) && same l.kw (codes "qubits")

load_line-Keeps :
    (l : Line) (c : Circuit) → declares l ≡ false → IsChecked c → Keeps c.nq (load_line l c)
unfolding load_line declares
load_line-Keeps l c plain h =
    if-Keeps (l.is_comment || ltb l.got 1) (λ _. keeps c h refl)
      λ word.
        if-Keeps (same l.kw (codes "qubits")) (λ e. absurd (ground arith))
          λ _.
            if-Keeps (same l.kw (codes "ghz"))
              (λ _. if-Keeps (not (l.got == 1)) (λ _. stops _) λ _. add_ghz-Keeps c h)
              (λ _. load_gate-Keeps (single_gate l.kw) (double_gate l.kw) l c h)

-- A declaration before any operation.
in_range_zero : (n : ℕ) (ops : List Op) → in_range 0 ops ≡ true → in_range n ops ≡ true
unfolding in_range
in_range_zero n [] h = refl
in_range_zero n (o ∷ ops) h = absurd (ground arith)

set_qubits-Keeps :
    (q : ℤ) (c : Circuit) → c.nq ≡ 0 → IsChecked c → (n : ℕ) × Keeps n (set_qubits q c)
unfolding set_qubits
set_qubits-Keeps (pos n) c unset h = (
  n,
  if-Keeps (leb 1 n && leb n max_circuit_qubits)
      (λ fits.
        keeps (record c { nq = n })
          (record {
            few_qubits = ground arith;
            few_ops = h.few_ops;
            operands =
                in_range_zero n c.ops (ap (λ (n : ℕ). in_range n c.ops) (sym unset) ∙ h.operands);
          })
          refl)
      (λ _. stops _),
)
set_qubits-Keeps (negsuc n) c unset h = (0, stops _)

declare-Keeps :
    (l : Line) (c : Circuit)
    → declares l ≡ true
    → c.nq ≡ 0
    → IsChecked c
    → (n : ℕ) × Keeps n (load_line l c)
unfolding load_line declares
declare-Keeps l c told unset h =
    let (n, set) = set_qubits-Keeps l.q1 c unset h in
    (
      n,
      if-Keeps (l.is_comment || ltb l.got 1) (λ e. absurd (ground arith))
          λ word.
            if-Keeps (same l.kw (codes "qubits"))
              (λ _. if-Keeps (not (l.got == 2)) (λ _. stops _) λ _. set)
              (λ e. absurd (ground arith)),
    )

-- How many lines declare it.
unfoldable pub declarations : List Line → ℕ
declarations [] = 0
declarations (l ∷ lines) = (if declares l then 1 else 0) + declarations lines

load_circuit-Keeps :
    (lines : List Line) (c : Circuit)
    → declarations lines + (if c.nq == 0 then 0 else 1) ≤ 1
    → IsChecked c
    → (n : ℕ) × Keeps n (load_circuit lines c)
unfolding load_circuit declarations
load_circuit-Keeps [] c once h = (c.nq, keeps c h refl)
load_circuit-Keeps (l ∷ lines) c once h = elim (Bool-cases (declares l)) [
  | inl e ↦
      keeps-after (declare-Keeps l c e (ground arith) h).1
        λ d k e'. load_circuit-Keeps lines d (ground arith) k
  | inr e ↦
      keeps-after (load_line-Keeps l c e h) λ d k e'. load_circuit-Keeps lines d (ground arith) k
]

-- What holds of the circuit that a file gives.
IsUsable : Loaded → Type 0
IsUsable (loaded c) = IsChecked c × (1 ≤ c.nq)
IsUsable (failed f) = Unit

missing-IsUsable :
    {n : ℕ} {m : Loaded}
    → Keeps n m
    → IsUsable (and_load m λ c. if ltb c.nq 1 then failed missing_qubits else loaded c)
unfolding IsUsable
missing-IsUsable (stops f) = tt
missing-IsUsable (keeps c h e) = elim (Bool-cases (ltb c.nq 1)) [
  | inl few ↦ rw few tt
  | inr enough ↦ rw enough (h, ground arith)
]

-- A circuit file that is accepted and declares its number of qubits at most once has 1 to 16
-- qubits, at most 4096 operations, and operands that all name a qubit.
pub circuit_of_file-IsChecked :
    (lines : List Line) (c : Circuit)
    → declarations lines ≤ 1
    → circuit_of_file lines ≡ loaded c
    → IsChecked c × (1 ≤ c.nq)
unfolding circuit_of_file in_range IsUsable
circuit_of_file-IsChecked lines c once e = subst IsUsable e (
    missing-IsUsable
      (load_circuit-Keeps lines empty_circuit (omega (arith, once))
        (record { few_qubits = omega arith; few_ops = omega arith; operands = refl })).1)
