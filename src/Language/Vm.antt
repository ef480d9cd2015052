-- ===== src/Language/Vm.antt =====
-- src/vm/byte_vm.c: the state of the machine, and the loop on its own effects. Each printf is a
-- Message with the values that it prints.
pub mod Store
pub mod Qmsg
pub mod Branches
pub mod Bounds
pub mod Packet
pub mod Links
pub mod Programs
use qbit_nova_c.Base.{ℕ, ℤ, Bool, Text, List, ◌∷◌, ◌++◌, []}
use qbit_nova_c.Float.{Float64}
use qbit_nova_c.Language.Control.{Fault}

abbrev pub max_vm_vars : ℕ
max_vm_vars = 64

abbrev pub max_vm_qbits : ℕ
max_vm_qbits = 32

-- sizeof(name), and of entangled_with
abbrev pub name_size : ℕ
name_size = 64

-- The functions of the C library that the machine calls: conversions, a comparison, and the
-- quotient of the n-th call of rand() and RAND_MAX.
pub record CLibrary (F : Float64) : Type 0 where
  pub of_int : ℤ → F.Double
  pub equal : F.Double → F.Double → Bool
  pub atof : Text → F.Double
  pub random : ℕ → F.Double

pub data Message (Double : Type 0) : Type 0 where
  variable_limit qbit_limit : Message Double
  unknown_state : Text → Message Double
  qbit_result : ℤ → Message Double
  qbit_amplitudes : (a b : Double) → Message Double
  variable_value : Double → Message Double
  said : Text → Message Double
  qbit_not_found : Text → Message Double
  cnot_missing cnot_done entangle_missing entangle_done : (left right : Text) → Message Double
  collapsed : (from to : Text) (result : ℤ) → Message Double
  check_not_found check_operator : Text → Message Double
  qmsg_empty qmsg_not_loaded qmsg_early_measure qmsg_early_view qmsg_early_decode : Message Double
  qmsg_unmeasured : Message Double
  qmsg_message qmsg_digits qmsg_register qmsg_decoded : Text → Message Double
  qmsg_packet qmsg_measured_bits : ℕ → Message Double
  qmsg_encode_target qmsg_decode_target : Text → Message Double
  action_allowed action_blocked action_dispatched : Text → Message Double
  loop_fault : Fault → Message Double

pub record VmVar (Double : Type 0) : Type 0 where
  pub name : Text
  pub value : Double

pub record VmQbit (Double : Type 0) : Type 0 where
  pub name : Text
  pub a : Double
  pub b : Double
  pub measured : Bool
  pub result : ℤ
  pub entangled_with : Text

-- The static variables of the file, the calls of rand() so far, and what is printed, oldest first.
-- The arrays are the lists of their first var_count and qbit_count elements.
pub record Vm (Double : Type 0) : Type 0 where
  pub vars : List (VmVar Double)
  pub qbits : List (VmQbit Double)
  pub qmsg_text : Text
  pub qmsg_bits : Text
  pub qmsg_loaded : Bool
  pub qmsg_encoded : Bool
  pub qmsg_measured : Bool
  pub rand_calls : ℕ
  pub output : List (Message Double)

abbrev pub print : {Double : Type 0} → Message Double → Vm Double → Vm Double
print message vm = record vm { output = vm.output ++ message ∷ [] }
