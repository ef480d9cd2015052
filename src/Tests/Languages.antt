-- ===== src/Tests/Languages.antt =====
-- The language: the tree of `repeat 2: say hi`, its code, and the machine's qubits.
use qbit_nova_c.Base.{
  ℕ, ◌≡◌, ◌≤◌, refl, arith, ℤ, pos, Bool, true, false, not, ◌&&◌, ◌||◌, some, [], ◌∷◌, Text, codes,
  take, same, length, zero, suc,
}
use qbit_nova_c.Tests.Doubles.{two_values}
use qbit_nova_c.Language.Ast.{Ast, null, node, node_repeat, node_say, node_string}
use qbit_nova_c.Language.Bytecode.{Code, instruction, op_repeat, op_say, op_end}
use qbit_nova_c.Language.Compiler.{compile, compile_node, emit}
use qbit_nova_c.Language.Compiler.Fits.{Fits}
use qbit_nova_c.Language.Control.Steps.{Steps, here, more}
use qbit_nova_c.Language.Control.Invariants.{AllCode, turn_state, turn_frames}
use qbit_nova_c.Language.Control.{
  Machine, machine, max_frames, run, step, dispatch, do_repeat, do_end, find_end,
}
use qbit_nova_c.Language.Meaning.{repeat_depth, execute}
use qbit_nova_c.Language.Vm.{CLibrary, Vm, VmQbit, said}
use qbit_nova_c.Language.Vm.Store.{find_qbit, find_var, measure_linked}
use qbit_nova_c.Language.Vm.Qmsg.{qmsg_set, qmsg_encode}
use qbit_nova_c.Language.Vm.Branches.{run_bytecode, vm_effects, perform_op, vm_say}
use qbit_nova_c.Language.Vm.Bounds.{InBounds, HasTexts, vars_fit, qbits_fit, Steps-InBounds}
use qbit_nova_c.Language.Vm.Packet.{read_digits, read-qmsg_encode}
use qbit_nova_c.Language.Vm.Links.{measure_linked-agree}
use qbit_nova_c.Language.Vm.Programs.{run_bytecode-compile}

abbrev pub two_library : CLibrary two_values
two_library = record {
  of_int = λ n. true;
  equal = λ a b. (a && b) || not (a || b);
  atof = λ text. true;
  random = λ n. false;
}

abbrev pub two : Text → ℤ
two text = pos 2

abbrev program : Ast
program =
    node node_repeat (codes "2") null null
      (node node_say [] (node node_string (codes "hi") null null null null) null null null) null

abbrev program_code : Code
program_code =
    instruction op_repeat [] [] (pos 2)
    ∷ instruction op_say (codes "hi") [] (pos 0)
    ∷ instruction op_end [] [] (pos 0)
    ∷ []

program-compiles : compile two program [] ≡ some program_code
unfolding compile compile_node emit
program-compiles = refl

program-shallow : repeat_depth program ≤ max_frames
unfolding repeat_depth
program-shallow = omega arith

abbrev bell_half : Text → Text → VmQbit Bool
bell_half name other = record {
  name = name;
  a = true;
  b = true;
  measured = false;
  result = pos 0;
  entangled_with = other;
}

abbrev pub bell : Vm Bool
bell = record {
  vars = [];
  qbits = bell_half (codes "a") (codes "b") ∷ bell_half (codes "b") (codes "a") ∷ [];
  qmsg_text = [];
  qmsg_bits = [];
  qmsg_loaded = false;
  qmsg_encoded = false;
  qmsg_measured = false;
  rand_calls = 0;
  output = [];
}

bell-InBounds : InBounds bell
unfolding vars_fit qbits_fit
bell-InBounds = ground arith

-- Two rounds of the repeat are two lines of output.
program_runs :
    run_bytecode two_values two_library 8 program_code bell
    ≡ some (record bell { output = said (codes "hi") ∷ said (codes "hi") ∷ [] })
unfolding run_bytecode run step dispatch do_repeat do_end find_end perform_op vm_say same find_qbit
    find_var
program_runs = refl

run_bytecode-compile_example :
    (fuel : ℕ) × (run_bytecode two_values two_library fuel program_code bell
      ≡ some (execute two (vm_effects two_values two_library) program bell))
run_bytecode-compile_example =
    run_bytecode-compile two_values two_library two program program_code program-compiles
      program-shallow bell

empty-Fits : Fits []
empty-Fits = ground arith

-- The machine behind the first instruction.
abbrev repeating : Machine (Vm Bool)
repeating = machine 1 (record { repeat_start = 0; repeat_end = 2; repeat_left = 2 } ∷ []) bell

repeating-Steps :
    Steps (vm_effects two_values two_library) program_code (machine 0 [] bell) repeating
unfolding step dispatch do_repeat find_end
repeating-Steps = more refl here

-- The three texts of the code end within their arrays.
program_code-HasTexts : AllCode HasTexts program_code
program_code-HasTexts zero ins e = ground (arith, e)
program_code-HasTexts (suc zero) ins e = ground (arith, e)
program_code-HasTexts (suc (suc zero)) ins e = ground (arith, e)
program_code-HasTexts (suc (suc (suc i))) ins e = ground (arith, e)

Steps-InBounds_example :
    (InBounds bell × (length repeating.frames ≤ max_frames))
    × InBounds (turn_state (step (vm_effects two_values two_library) program_code repeating))
    × (length (turn_frames (step (vm_effects two_values two_library) program_code repeating))
        ≤ max_frames)
Steps-InBounds_example =
    Steps-InBounds two_values two_library program_code bell repeating program_code-HasTexts
      bell-InBounds repeating-Steps

read-qmsg_encode_example :
    (read_digits (qmsg_encode (qmsg_set (codes "hi") bell)).qmsg_bits ≡ take 127 (codes "hi"))
    × ((qmsg_encode (qmsg_set (codes "hi") bell)).qmsg_text ≡ take 127 (codes "hi"))
    × ((qmsg_encode (qmsg_set (codes "hi") bell)).qmsg_encoded ≡ true)
    × ((qmsg_encode (qmsg_set (codes "hi") bell)).qmsg_measured ≡ false)
read-qmsg_encode_example =
    read-qmsg_encode (codes "hi") bell (λ e. ground (arith, e)) (ground arith)

found_a : find_qbit (codes "a") bell.qbits ≡ some (bell_half (codes "a") (codes "b"))
unfolding find_qbit same
found_a = refl

found_b : find_qbit (codes "b") bell.qbits ≡ some (bell_half (codes "b") (codes "a"))
unfolding find_qbit same
found_b = refl

abbrev measured_bell : Vm Bool
measured_bell = measure_linked two_values two_library (bell_half (codes "a") (codes "b")) bell

measure_linked-agree_example :
    (q' p' : VmQbit Bool) × (find_qbit (codes "a") measured_bell.qbits ≡ some q')
    × (find_qbit (codes "b") measured_bell.qbits ≡ some p')
    × (q'.measured ≡ true)
    × (p'.measured ≡ true)
    × (q'.result ≡ p'.result)
    × (q'.a ≡ p'.a)
    × (q'.b ≡ p'.b)
measure_linked-agree_example =
    measure_linked-agree two_values two_library (bell_half (codes "a") (codes "b"))
      (bell_half (codes "b") (codes "a")) bell found_a (λ e. ground (arith, e))
      (λ e. ground (arith, e)) found_b
