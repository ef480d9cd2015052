-- ===== src/Language/Runner.antt =====
-- main of src/qnova.c behind read_file: from source text to a run on one of the two machines. What
-- it prints itself is left out. The compiler's array is empty at the start of the process.
pub mod Texts
pub mod Programs
pub mod Total
use qbit_nova_c.Base.{
  ℕ, ℤ, Bool, true, false, ◌&&◌, ◌||◌, Option, some, none, List, [], ◌∷◌, Text, codes, ◌==◌,
  if◌then◌else◌,
}
use qbit_nova_c.Float.{Float64}
use qbit_nova_c.Language.Ast.{Ast, null, node}
use qbit_nova_c.Language.Bytecode.{Code}
use qbit_nova_c.Language.Lexer.{Token, Tokenized, tokens, tokenize}
use qbit_nova_c.Language.Parser.{Parsed, parsed, parse}
use qbit_nova_c.Language.Compiler.{compile}
use qbit_nova_c.Language.Vm.{CLibrary, Vm}
use qbit_nova_c.Language.Vm.Branches.{run_bytecode}
use qbit_nova_c.Language.State2.{Vm2, run_state2_bytecode}

-- strstr(text, part) != NULL
unfoldable pub starts_with : (part text : Text) → Bool
starts_with [] text = true
starts_with (c ∷ part) [] = false
starts_with (c ∷ part) (d ∷ text) = (c == d) && starts_with part text

unfoldable pub contains : (text part : Text) → Bool
unfolding starts_with
contains [] part = starts_with part []
contains (c ∷ text) part = starts_with part (c ∷ text) || contains text part

unfoldable pub wants_state2 : Text → Bool
unfolding contains
wants_state2 source = contains source (codes "@quantum.state2")

-- tree->body
abbrev pub body_of : Ast → Ast
body_of null = null
body_of (node _ _ _ _ body _) = body

unfoldable pub compile_parsed : (atoi : Text → ℤ) → Parsed → Option Code
compile_parsed atoi (parsed tree rest) = compile atoi (body_of tree) []
compile_parsed atoi _ = none

unfoldable pub parse_tokenized : (atoi : Text → ℤ) → Tokenized → Option Code
unfolding compile_parsed parse
parse_tokenized atoi (tokens toks) = compile_parsed atoi (parse toks)
parse_tokenized atoi _ = none

-- The code of a source text; `none` where the source leaves an array on the way.
unfoldable pub source_code : (atoi : Text → ℤ) → Text → Option Code
unfolding parse_tokenized tokenize
source_code atoi source = parse_tokenized atoi (tokenize source)

pub data Outcome (Double : Type 0) : Type 0 where
  ran_vm : Vm Double → Outcome Double
  ran_state2 : Vm2 Double → Outcome Double
  outside_array : Outcome Double
  out_of_fuel : Outcome Double

module _ (F : Float64) (C : CLibrary F) (atoi : Text → ℤ) where
  open F use {Double}

  abbrev pub vm_outcome : Option (Vm Double) → Outcome Double
  vm_outcome (some vm) = ran_vm vm
  vm_outcome none = Outcome.out_of_fuel

  abbrev pub run_code : (fuel : ℕ) → (state2 : Bool) → Vm Double → Option Code → Outcome Double
  run_code fuel state2 vm none = outside_array
  run_code fuel true vm (some code) = ran_state2 (run_state2_bytecode F C vm.rand_calls code)
  run_code fuel false vm (some code) = vm_outcome (run_bytecode F C fuel code vm)

  unfoldable pub run_source : (fuel : ℕ) → Text → Vm Double → Outcome Double
  unfolding wants_state2 source_code
  run_source fuel source vm = run_code fuel (wants_state2 source) vm (source_code atoi source)
