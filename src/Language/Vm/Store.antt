-- ===== src/Language/Vm/Store.antt =====
-- The variables and the qubits of src/vm/byte_vm.c: find_var to measure_linked.
use qbit_nova_c.Base.{
  ℕ, ◌+◌, pos, negsuc, Bool, true, false, Option, none, some, List, [], ◌∷◌, ◌++◌, length, Text,
  codes, same, leb, if◌then◌else◌,
}
use qbit_nova_c.Float.{Float64}
use qbit_nova_c.Language.Vm.{
  CLibrary, Vm, VmVar, VmQbit, print, max_vm_vars, max_vm_qbits, variable_limit, qbit_limit,
  unknown_state, qbit_result, qbit_amplitudes, cnot_missing, cnot_done, entangle_missing,
  entangle_done, collapsed,
}

module _ {Double : Type 0} where
  unfoldable pub find_var : Text → List (VmVar Double) → Option (VmVar Double)
  find_var name [] = none
  find_var name (v ∷ vars) = if same v.name name then some v else find_var name vars

  -- The first variable of the name is written.
  unfoldable pub put_var : Text → Double → List (VmVar Double) → List (VmVar Double)
  put_var name value [] = []
  put_var name value (v ∷ vars) =
      if same v.name name then record v { value = value } ∷ vars else v ∷ put_var name value vars

  abbrev pub new_var : Text → Double → VmVar Double
  new_var name value = record { name = name; value = value }

  unfoldable pub set_var : Text → Double → Vm Double → Vm Double
  unfolding find_var put_var
  set_var name value vm = elim (find_var name vm.vars) [
    | some _ ↦ record vm { vars = put_var name value vm.vars }
    | none ↦
        if leb max_vm_vars (length vm.vars)
        then print variable_limit vm
        else record vm { vars = vm.vars ++ new_var name value ∷ [] }
  ]

  unfoldable pub find_qbit : Text → List (VmQbit Double) → Option (VmQbit Double)
  find_qbit name [] = none
  find_qbit name (q ∷ qbits) = if same q.name name then some q else find_qbit name qbits

  -- The element that find_qbit points to is changed.
  unfoldable pub change_qbit :
      Text → (VmQbit Double → VmQbit Double) → List (VmQbit Double) → List (VmQbit Double)
  change_qbit name f [] = []
  change_qbit name f (q ∷ qbits) =
      if same q.name name then f q ∷ qbits else q ∷ change_qbit name f qbits

  abbrev pub is_found : Option (VmQbit Double) → Bool
  is_found none = false
  is_found (some _) = true

  unfoldable pub print_qbit : VmQbit Double → Vm Double → Vm Double
  print_qbit q = print (if q.measured then qbit_result q.result else qbit_amplitudes q.a q.b)

  abbrev pub link : Text → VmQbit Double → VmQbit Double
  link other q = record q { entangled_with = other }

  -- target->a = control->a, and the lines after it
  abbrev pub copy_state : VmQbit Double → VmQbit Double → VmQbit Double
  copy_state from q = record q { a = from.a; b = from.b; measured = false; result = pos 0 }

  -- The part that cnot_qbits and entangle_qbits have in common.
  unfoldable pub join_qbits : (left right : Text) → VmQbit Double → Vm Double → Vm Double
  unfolding change_qbit
  join_qbits left right q vm = record vm {
    qbits =
        change_qbit right (copy_state q)
          (change_qbit right (link left) (change_qbit left (link right) vm.qbits));
  }

  unfoldable pub cnot_qbits : (control target : Text) → Vm Double → Vm Double
  unfolding find_qbit join_qbits
  cnot_qbits control target vm = elim (find_qbit control vm.qbits) [
    | none ↦ print (cnot_missing control target) vm
    | some q ↦
        if is_found (find_qbit target vm.qbits)
        then print (cnot_done control target) (join_qbits control target q vm)
        else print (cnot_missing control target) vm
  ]

  unfoldable pub entangle_qbits : (left right : Text) → Vm Double → Vm Double
  unfolding find_qbit join_qbits
  entangle_qbits left right vm = elim (find_qbit left vm.qbits) [
    | none ↦ print (entangle_missing left right) vm
    | some q ↦
        if is_found (find_qbit right vm.qbits)
        then print (entangle_done left right) (join_qbits left right q vm)
        else print (entangle_missing left right) vm
  ]

module _ (F : Float64) (C : CLibrary F) where
  open F use {Double, of_u64, add, sub, mul, div, sqrt, lt}

  abbrev pub one_half : Double
  one_half = div (of_u64 1) (sqrt (of_u64 2))

  -- The amplitudes of the four states that have a name.
  unfoldable pub amplitudes_of : Text → Option (Double × Double)
  amplitudes_of state =
      if same state (codes "|0>")
      then some (of_u64 1, of_u64 0)
      else if same state (codes "|1>")
      then some (of_u64 0, of_u64 1)
      else if same state (codes "|+>")
      then some (one_half, one_half)
      else if same state (codes "|->")
      then some (one_half, div (C.of_int (negsuc 0)) (sqrt (of_u64 2)))
      else none

  abbrev pub new_qbit : Text → VmQbit Double
  new_qbit name = record {
    name = name;
    a = of_u64 0;
    b = of_u64 0;
    measured = false;
    result = pos 0;
    entangled_with = [];
  }

  abbrev pub set_amplitudes : Double → Double → VmQbit Double → VmQbit Double
  set_amplitudes a b q = record q { a = a; b = b; measured = false; result = negsuc 0 }

  -- The qubit is there: its amplitudes are set.
  unfoldable pub set_state : (name state : Text) → Vm Double → Vm Double
  unfolding change_qbit amplitudes_of
  set_state name state vm = elim (amplitudes_of state) [
    | some (a, b) ↦ record vm { qbits = change_qbit name (set_amplitudes a b) vm.qbits }
    | none ↦
        print (unknown_state state)
          (record vm { qbits = change_qbit name (set_amplitudes (of_u64 1) (of_u64 0)) vm.qbits })
  ]

  unfoldable pub create_qbit : (name state : Text) → Vm Double → Vm Double
  unfolding find_qbit set_state
  create_qbit name state vm =
      if is_found (find_qbit name vm.qbits)
      then set_state name state vm
      else (if leb max_vm_qbits (length vm.qbits)
          then print qbit_limit vm
          else set_state name state (record vm { qbits = vm.qbits ++ new_qbit name ∷ [] }))

  unfoldable pub hadamard : VmQbit Double → VmQbit Double
  hadamard q = record q {
    a = div (add q.a q.b) (sqrt (of_u64 2));
    b = div (sub q.a q.b) (sqrt (of_u64 2));
    measured = false;
    result = negsuc 0;
  }

  -- A qubit that is known to be in state `one` or not.
  abbrev pub collapse : (one : Bool) → VmQbit Double → VmQbit Double
  collapse one q = record q {
    result = if one then pos 1 else pos 0;
    measured = true;
    a = if one then of_u64 0 else of_u64 1;
    b = if one then of_u64 1 else of_u64 0;
  }

  -- r > prob0, for the n-th call of rand()
  unfoldable pub picks_one : ℕ → VmQbit Double → Bool
  picks_one n q = lt (mul q.a q.a) (C.random n)

  unfoldable pub measure : VmQbit Double → Vm Double → Vm Double
  unfolding change_qbit picks_one
  measure q vm = record vm {
    qbits = change_qbit q.name (collapse (picks_one vm.rand_calls q)) vm.qbits;
    rand_calls = vm.rand_calls + 1;
  }

  -- The measurement, and the collapse of the partner if there is one.
  unfoldable pub measure_linked : VmQbit Double → Vm Double → Vm Double
  unfolding measure find_qbit change_qbit picks_one
  measure_linked q vm =
      let one = picks_one vm.rand_calls q in
      let vm1 = measure q vm in
      if same q.entangled_with [] then vm1 else elim (find_qbit q.entangled_with vm1.qbits) [
        | none ↦ vm1
        | some partner ↦
            print (collapsed q.name partner.name (if one then pos 1 else pos 0))
              (record vm1 { qbits = change_qbit partner.name (collapse one) vm1.qbits })
      ]
