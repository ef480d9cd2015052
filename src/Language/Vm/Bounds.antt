-- ===== src/Language/Vm/Bounds.antt =====
-- No run writes outside the machine's arrays.
use qbit_nova_c.Base.{
  ℕ, zero, suc, refl, inl, inr, ◌+◌, ◌-◌, ◌≤◌, ◌<◌, ◌≡◌, Bool, true, false, ◌&&◌, some, List, [],
  ◌∷◌, ◌++◌, length, length-append, take, Text, arith, Option-cases, ◌∙◌, ltb, if◌then◌else◌,
}
use qbit_nova_c.Float.{Float64}
use qbit_nova_c.Language.Bytecode.{
  Instruction, Code, OpCode, arg_size, op_say, op_let, op_qbit, op_hadamard, op_measure,
  op_entangle, op_cnot, op_safe_action, op_qmsg, op_encode_qmsg, op_decode_qmsg,
}
use qbit_nova_c.Language.Control.{Machine, machine, step, max_frames}
use qbit_nova_c.Language.Control.Steps.{Steps}
use qbit_nova_c.Language.Control.Invariants.{
  Keeps, AllCode, turn_state, turn_frames, step-frames, Steps-frames, step-keeps, Steps-keeps,
  run-keeps,
}
use qbit_nova_c.Language.Vm.{CLibrary, Vm, VmVar, VmQbit, max_vm_vars, max_vm_qbits, name_size}
use qbit_nova_c.Language.Vm.Store.{
  put_var, new_var, set_var, find_qbit, copy_state, link, set_amplitudes, new_qbit, hadamard,
  collapse, picks_one, change_qbit, join_qbits, cnot_qbits, entangle_qbits, amplitudes_of,
  set_state, create_qbit, measure, measure_linked, print_qbit,
}
use qbit_nova_c.Language.Vm.Qmsg.{
  char_digits, encode_digits, qmsg_set, qmsg_encode, qmsg_measure, qmsg_print_register, qmsg_decode,
  qmsg_max_chars, qmsg_max_bits,
}
use qbit_nova_c.Language.Vm.Branches.{
  vm_say, run_safe_action, do_hadamard, do_measure, perform_op, test_check, vm_effects,
  run_bytecode,
}

-- Texts with room for the terminating NUL in a `char [64]`.
abbrev pub fits_name : Text → Bool
fits_name text = ltb (length text) name_size

unfoldable pub vars_fit : {Double : Type 0} → List (VmVar Double) → Bool
vars_fit [] = true
vars_fit (v ∷ vars) = fits_name v.name && vars_fit vars

abbrev pub qbit_fits : {Double : Type 0} → VmQbit Double → Bool
qbit_fits q = fits_name q.name && fits_name q.entangled_with

unfoldable pub qbits_fit : {Double : Type 0} → List (VmQbit Double) → Bool
qbits_fit [] = true
qbits_fit (q ∷ qbits) = qbit_fits q && qbits_fit qbits

-- The used parts of the arrays, with room for the terminating NUL of a text, and the texts in them.
pub record InBounds {Double : Type 0} (vm : Vm Double) : Type 0 where
  pub vars : length vm.vars ≤ max_vm_vars
  pub qbits : length vm.qbits ≤ max_vm_qbits
  pub qmsg_text : length vm.qmsg_text < qmsg_max_chars
  pub qmsg_bits : length vm.qmsg_bits < qmsg_max_bits
  pub var_names : vars_fit vm.vars ≡ true
  pub qbit_names : qbits_fit vm.qbits ≡ true

-- An instruction as the machine is given it: both texts end within their `char [64]`.
abbrev pub HasTexts : Instruction → Type 0
HasTexts ins = (length ins.arg1 < arg_size) × (length ins.arg2 < arg_size)

length-take : {A : Type 0} (n : ℕ) (xs : List A) → length (take n xs) ≤ n
length-take zero xs = omega arith
length-take (suc n) [] = omega arith
length-take (suc n) (x ∷ xs) = omega (arith, length-take n xs)

length-if :
    {A : Type 0} (b : Bool) (xs : List A)
    → length (if b then xs else []) ≡ (if b then length xs else 0)
length-if true xs = refl
length-if false xs = refl

length-char_digits : (ch : ℕ) (rest : Text) → length (char_digits ch ++ rest) ≡ length rest + 8
unfolding char_digits
length-char_digits ch rest = omega arith

length-encode_digits : (text : Text) (p : ℕ) → p ≤ 1024 → length (encode_digits text p) + p ≤ 1024
unfolding encode_digits
length-encode_digits [] p h = omega arith
length-encode_digits (ch ∷ text) p h = ground (
  arith,
  length-if (ltb p (qmsg_max_bits - 9)) (char_digits ch ++ encode_digits text (p + 8)),
  length-char_digits ch (encode_digits text (p + 8)),
  length-encode_digits text (p + 8),
)

module _ {Double : Type 0} where
  length-put_var :
      (name : Text) (x : Double) (vars : List (VmVar Double))
      → length (put_var name x vars) ≡ length vars
  unfolding put_var
  length-put_var name x [] = refl
  length-put_var name x (v ∷ vars) = ground (arith, length-put_var name x vars)

  pub length-change_qbit :
      (name : Text) (f : VmQbit Double → VmQbit Double) (qs : List (VmQbit Double))
      → length (change_qbit name f qs) ≡ length qs
  unfolding change_qbit
  length-change_qbit name f [] = refl
  length-change_qbit name f (q ∷ qs) = ground (arith, length-change_qbit name f qs)

  vars_fit-put_var :
      (name : Text) (x : Double) (vars : List (VmVar Double))
      → vars_fit (put_var name x vars) ≡ vars_fit vars
  unfolding put_var vars_fit
  vars_fit-put_var name x [] = refl
  vars_fit-put_var name x (v ∷ vars) = ground (arith, vars_fit-put_var name x vars)

  vars_fit-append :
      (vars : List (VmVar Double)) (v : VmVar Double)
      → vars_fit vars ≡ true
      → fits_name v.name ≡ true
      → vars_fit (vars ++ v ∷ []) ≡ true
  unfolding vars_fit
  vars_fit-append [] v h h' = ground (arith, h, h')
  vars_fit-append (u ∷ vars) v h h' = ground (arith, h, h', vars_fit-append vars v)

  qbits_fit-append :
      (qs : List (VmQbit Double)) (q : VmQbit Double)
      → qbits_fit qs ≡ true
      → qbit_fits q ≡ true
      → qbits_fit (qs ++ q ∷ []) ≡ true
  unfolding qbits_fit
  qbits_fit-append [] q h h' = ground (arith, h, h')
  qbits_fit-append (p ∷ qs) q h h' = ground (arith, h, h', qbits_fit-append qs q)

  -- A change of a qubit that keeps its texts within their arrays.
  abbrev KeepsTexts : (VmQbit Double → VmQbit Double) → Type 0
  KeepsTexts f = (q : VmQbit Double) → qbit_fits q ≡ true → qbit_fits (f q) ≡ true

  qbits_fit-change_qbit :
      (name : Text) (f : VmQbit Double → VmQbit Double) (qs : List (VmQbit Double))
      → KeepsTexts f
      → qbits_fit qs ≡ true
      → qbits_fit (change_qbit name f qs) ≡ true
  unfolding change_qbit qbits_fit
  qbits_fit-change_qbit name f [] k h = refl
  qbits_fit-change_qbit name f (q ∷ qs) k h =
      ground (arith, h, k q, qbits_fit-change_qbit name f qs k)

  link-KeepsTexts : (other : Text) → fits_name other ≡ true → KeepsTexts (link other)
  link-KeepsTexts other fits q h = ground (arith, fits, h)

  set_var-InBounds :
      (name : Text) (x : Double) (vm : Vm Double)
      → fits_name name ≡ true
      → InBounds vm
      → InBounds (set_var name x vm)
  unfolding set_var
  set_var-InBounds name x vm fits v = ground (
    arith,
    v,
    fits,
    length-put_var name x vm.vars,
    vars_fit-put_var name x vm.vars,
    length-append vm.vars (new_var name x ∷ []),
    vars_fit-append vm.vars (new_var name x) v.var_names fits,
  )

  join_qbits-qbits :
      (left right : Text) (q : VmQbit Double) (vm : Vm Double)
      → length (join_qbits left right q vm).qbits ≡ length vm.qbits
  unfolding join_qbits
  join_qbits-qbits left right q vm =
      length-change_qbit right (copy_state q) _
      ∙ length-change_qbit right (link left) _
      ∙ length-change_qbit left (link right) vm.qbits

  join_qbits-InBounds :
      (left right : Text) (q : VmQbit Double) (vm : Vm Double)
      → fits_name left ≡ true
      → fits_name right ≡ true
      → InBounds vm
      → InBounds (join_qbits left right q vm)
  unfolding join_qbits
  join_qbits-InBounds left right q vm fl fr v = record {
    vars = v.vars;
    qbits = omega (arith, join_qbits-qbits left right q vm, v.qbits);
    qmsg_text = v.qmsg_text;
    qmsg_bits = v.qmsg_bits;
    var_names = v.var_names;
    qbit_names =
        qbits_fit-change_qbit right (copy_state q) _ (λ p h. h)
          (qbits_fit-change_qbit right (link left) _ (link-KeepsTexts left fl) (
            qbits_fit-change_qbit left (link right) vm.qbits (link-KeepsTexts right fr)
              v.qbit_names));
  }

  cnot_qbits-InBounds :
      (left right : Text) (vm : Vm Double)
      → fits_name left ≡ true
      → fits_name right ≡ true
      → InBounds vm
      → InBounds (cnot_qbits left right vm)
  unfolding cnot_qbits
  cnot_qbits-InBounds left right vm fl fr v = elim (Option-cases (find_qbit left vm.qbits)) [
    | inl e ↦ rw (e, cnot_qbits) (ground (arith, v))
    | inr (q, e) ↦
        rw (e, cnot_qbits) (ground (arith, v, join_qbits-InBounds left right q vm fl fr v))
  ]

  qmsg_set-InBounds : (text : Text) (vm : Vm Double) → InBounds vm → InBounds (qmsg_set text vm)
  unfolding qmsg_set
  qmsg_set-InBounds [] vm v = ground (arith, v)
  qmsg_set-InBounds (c ∷ text) vm v = ground (arith, v, length-take (qmsg_max_chars - 1) (c ∷ text))

  qmsg_encode-InBounds : (vm : Vm Double) → InBounds vm → InBounds (qmsg_encode vm)
  unfolding qmsg_encode
  qmsg_encode-InBounds vm v = ground (arith, v, length-encode_digits vm.qmsg_text 0)

  qmsg_rest-InBounds :
      (vm : Vm Double)
      → InBounds vm
      → InBounds (qmsg_measure vm) × InBounds (qmsg_print_register vm) × InBounds (qmsg_decode vm)
  unfolding qmsg_measure qmsg_print_register qmsg_decode
  qmsg_rest-InBounds vm v = (ground (arith, v), ground (arith, v), ground (arith, v))

  vm_say-InBounds : (text : Text) (vm : Vm Double) → InBounds vm → InBounds (vm_say text vm)
  unfolding vm_say print_qbit
  vm_say-InBounds text vm v = ground (arith, v, qmsg_rest-InBounds vm v)

  run_safe_action-InBounds :
      (text : Text) (vm : Vm Double) → InBounds vm → InBounds (run_safe_action text vm)
  unfolding run_safe_action
  run_safe_action-InBounds text vm v = ground (arith, v)

  entangle_qbits-InBounds :
      (left right : Text) (vm : Vm Double)
      → fits_name left ≡ true
      → fits_name right ≡ true
      → InBounds vm
      → InBounds (entangle_qbits left right vm)
  unfolding entangle_qbits
  entangle_qbits-InBounds left right vm fl fr v = elim (Option-cases (find_qbit left vm.qbits)) [
    | inl e ↦ rw (e, entangle_qbits) (ground (arith, v))
    | inr (q, e) ↦
        rw (e, entangle_qbits) (ground (arith, v, join_qbits-InBounds left right q vm fl fr v))
  ]

  -- One qubit is changed, and fields that have no bound.
  change-InBounds :
      (name : Text) (f : VmQbit Double → VmQbit Double) (vm : Vm Double)
      → KeepsTexts f
      → InBounds vm
      → InBounds (record vm { qbits = change_qbit name f vm.qbits })
  change-InBounds name f vm k v = record {
    vars = v.vars;
    qbits = omega (arith, length-change_qbit name f vm.qbits, v.qbits);
    qmsg_text = v.qmsg_text;
    qmsg_bits = v.qmsg_bits;
    var_names = v.var_names;
    qbit_names = qbits_fit-change_qbit name f vm.qbits k v.qbit_names;
  }

module _ (F : Float64) (C : CLibrary F) where
  open F use {Double}

  set_state-InBounds :
      (name state : Text) (vm : Vm Double) → InBounds vm → InBounds (set_state F C name state vm)
  unfolding set_state
  set_state-InBounds name state vm v = elim (Option-cases (amplitudes_of F C state)) [
    | inl e ↦
        rw (e, set_state)
          (ground (
            arith,
            change-InBounds name (set_amplitudes F C (F.of_u64 1) (F.of_u64 0)) vm (λ q h. h) v,
          ))
    | inr ((a, b), e) ↦
        rw (e, set_state)
          (ground (arith, change-InBounds name (set_amplitudes F C a b) vm (λ q h. h) v))
  ]

  create_qbit-InBounds :
      (name state : Text) (vm : Vm Double)
      → fits_name name ≡ true
      → InBounds vm
      → InBounds (create_qbit F C name state vm)
  unfolding create_qbit
  create_qbit-InBounds name state vm fits v =
      let grown : Vm Double = record vm { qbits = vm.qbits ++ new_qbit F C name ∷ [] } in
      let room : length vm.qbits < max_vm_qbits → InBounds grown = λ h. record {
        vars = v.vars;
        qbits = omega (arith, length-append vm.qbits (new_qbit F C name ∷ []), h);
        qmsg_text = v.qmsg_text;
        qmsg_bits = v.qmsg_bits;
        var_names = v.var_names;
        qbit_names =
            qbits_fit-append vm.qbits (new_qbit F C name) v.qbit_names (ground (arith, fits));
      } in
      ground (
        arith,
        v,
        set_state-InBounds name state vm v,
        λ (h : length vm.qbits < max_vm_qbits). set_state-InBounds name state grown (room h),
      )

  do_hadamard-InBounds :
      (name : Text) (vm : Vm Double) → InBounds vm → InBounds (do_hadamard F C name vm)
  unfolding do_hadamard
  do_hadamard-InBounds name vm v =
      ground (arith, v, change-InBounds name (hadamard F C) vm (λ q h. h) v)

  measure-InBounds :
      (q : VmQbit Double) (vm : Vm Double) → InBounds vm → InBounds (measure F C q vm)
  unfolding measure
  measure-InBounds q vm v =
      ground (
        arith,
        change-InBounds q.name (collapse F C (picks_one F C vm.rand_calls q)) vm (λ p h. h) v,
      )

  measure_linked-InBounds :
      (q : VmQbit Double) (vm : Vm Double) → InBounds vm → InBounds (measure_linked F C q vm)
  unfolding measure_linked
  measure_linked-InBounds q vm v =
      let vm1 = measure F C q vm in
      let one = picks_one F C vm.rand_calls q in
      let v1 : InBounds vm1 = measure-InBounds q vm v in
      elim (Option-cases (find_qbit q.entangled_with vm1.qbits)) [
        | inl e ↦ rw (e, measure_linked) (ground (arith, v1))
        | inr (partner, e) ↦
            rw (e, measure_linked)
              (ground
                (arith, v1, change-InBounds partner.name (collapse F C one) vm1 (λ q h. h) v1))
      ]

  do_measure-InBounds :
      (name : Text) (vm : Vm Double) → InBounds vm → InBounds (do_measure F C name vm)
  unfolding do_measure
  do_measure-InBounds name vm v = elim (Option-cases (find_qbit name vm.qbits)) [
    | inl e ↦ rw (e, do_measure) (ground (arith, v, qmsg_rest-InBounds vm v))
    | inr (q, e) ↦
        rw (e, do_measure)
          (ground (arith, v, qmsg_rest-InBounds vm v, measure_linked-InBounds q vm v))
  ]

  perform_op-InBounds :
      (op : OpCode) (ins : Instruction) (vm : Vm Double)
      → fits_name ins.arg1 ≡ true
      → fits_name ins.arg2 ≡ true
      → InBounds vm
      → InBounds (perform_op F C op ins vm)
  unfolding perform_op
  perform_op-InBounds op_say ins vm f1 f2 v = vm_say-InBounds ins.arg1 vm v
  perform_op-InBounds op_let ins vm f1 f2 v = set_var-InBounds ins.arg1 (C.atof ins.arg2) vm f1 v
  perform_op-InBounds op_qbit ins vm f1 f2 v = create_qbit-InBounds ins.arg1 ins.arg2 vm f1 v
  perform_op-InBounds op_hadamard ins vm f1 f2 v = do_hadamard-InBounds ins.arg1 vm v
  perform_op-InBounds op_cnot ins vm f1 f2 v = cnot_qbits-InBounds ins.arg1 ins.arg2 vm f1 f2 v
  perform_op-InBounds op_entangle ins vm f1 f2 v =
      entangle_qbits-InBounds ins.arg1 ins.arg2 vm f1 f2 v
  perform_op-InBounds op_measure ins vm f1 f2 v = do_measure-InBounds ins.arg1 vm v
  perform_op-InBounds op_qmsg ins vm f1 f2 v = qmsg_set-InBounds ins.arg1 vm v
  perform_op-InBounds op_encode_qmsg ins vm f1 f2 v = ground (arith, v, qmsg_encode-InBounds vm v)
  perform_op-InBounds op_decode_qmsg ins vm f1 f2 v = ground (arith, v, qmsg_rest-InBounds vm v)
  perform_op-InBounds op_safe_action ins vm f1 f2 v = run_safe_action-InBounds ins.arg1 vm v
  perform_op-InBounds op ins vm f1 f2 v = v

  test_check-InBounds :
      (ins : Instruction) (vm : Vm Double) → InBounds vm → InBounds (test_check F C ins vm).1
  unfolding test_check
  test_check-InBounds ins vm v = ground (arith, v)

  vm-Keeps : Keeps (vm_effects F C) HasTexts InBounds
  vm-Keeps = record {
    perform = λ ins s fits h.
        perform_op-InBounds ins.op ins s (ground (arith, fits.0)) (ground (arith, fits.1)) h;
    test = test_check-InBounds;
    report = λ fault s h. ground (arith, h);
  }

  -- Whatever the instructions, compiled or not, and whether the run stops or not: if their texts end
  -- within their arrays, then from a state within the machine's arrays run_bytecode stays within them
  -- in every round that it comes to and behind it, with at most 64 variables, 32 qubits and 64 open
  -- repeats, names and partners' names of less than 64 bytes, a message of less than 128 and digits
  -- of less than 1025 bytes.
  pub Steps-InBounds :
      (code : Code) (vm : Vm Double) (m : Machine (Vm Double))
      → AllCode HasTexts code
      → InBounds vm
      → Steps (vm_effects F C) code (machine 0 [] vm) m
      → (InBounds m.state × (length m.frames ≤ max_frames))
        × InBounds (turn_state (step (vm_effects F C) code m))
        × (length (turn_frames (step (vm_effects F C) code m)) ≤ max_frames)
  Steps-InBounds code vm m fit v steps =
      let here = Steps-keeps (vm_effects F C) HasTexts InBounds vm-Keeps code fit steps v in
      let frames = Steps-frames (vm_effects F C) code steps (omega arith) in
      (
        (here, frames),
        step-keeps (vm_effects F C) HasTexts InBounds vm-Keeps code fit m here,
        step-frames (vm_effects F C) code m frames,
      )

  -- The same for the state in which a run ends.
  pub run_bytecode-InBounds :
      (fuel : ℕ) (code : Code) (vm vm' : Vm Double)
      → AllCode HasTexts code
      → InBounds vm
      → run_bytecode F C fuel code vm ≡ some vm'
      → InBounds vm'
  unfolding run_bytecode
  run_bytecode-InBounds fuel code vm vm' fit v e =
      run-keeps (vm_effects F C) HasTexts InBounds vm-Keeps fuel code (machine 0 [] vm) vm' fit v e
