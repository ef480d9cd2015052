-- ===== src/Language/Vm/Programs.antt =====
-- Compiled programs on the machine.
use qbit_nova_c.Base.{ℕ, ◌≤◌, ◌≡◌, ℤ, Text, some, []}
use qbit_nova_c.Float.{Float64}
use qbit_nova_c.Language.Ast.{Ast}
use qbit_nova_c.Language.Bytecode.{Code}
use qbit_nova_c.Language.Control.{max_frames}
use qbit_nova_c.Language.Meaning.{execute, repeat_depth}
use qbit_nova_c.Language.Compiler.{compile}
use qbit_nova_c.Language.Compiler.Correct.{run-compile}
use qbit_nova_c.Language.Vm.{CLibrary, Vm}
use qbit_nova_c.Language.Vm.Branches.{vm_effects, run_bytecode}

module _ (F : Float64) (C : CLibrary F) (atoi : Text → ℤ) where
  -- If `compile` succeeds on a tree whose repeats nest at most 64 deep, run_bytecode on the code
  -- returns, with enough fuel, and its variables, qubits, register and output are those of the
  -- recursive execution of the tree.
  pub run_bytecode-compile :
      (t : Ast) (code : Code)
      → compile atoi t [] ≡ some code
      → repeat_depth t ≤ max_frames
      → (vm : Vm F.Double)
      → (fuel : ℕ) × (run_bytecode F C fuel code vm ≡ some (execute atoi (vm_effects F C) t vm))
  unfolding run_bytecode
  run_bytecode-compile t code e shallow vm = run-compile (vm_effects F C) atoi t code e shallow vm
