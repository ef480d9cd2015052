-- ===== src/Language/Runner/Programs.antt =====
-- From the source text of a program to what the program does.
use qbit_nova_c.Base.{
  ℕ, ◌<◌, ◌≤◌, ◌≡◌, ◌∙◌, refl, ap, ℤ, Bool, false, some, [], Text, codes, length,
}
use qbit_nova_c.Float.{Float64}
use qbit_nova_c.Language.Bytecode.{Code}
use qbit_nova_c.Language.Compiler.{compile}
use qbit_nova_c.Language.Control.{max_frames}
use qbit_nova_c.Language.Lexer.{token_eof, max_tokens}
use qbit_nova_c.Language.Lexer.RoundTrip.{tokenize-Writes}
use qbit_nova_c.Language.Meaning.{execute, repeat_depth}
use qbit_nova_c.Language.Parser.RoundTrip.{parse-tokens_of}
use qbit_nova_c.Language.Source.{Stmts, IsProgram, tokens_of, trees_of, source_of, tok}
use qbit_nova_c.Language.Vm.{CLibrary, Vm}
use qbit_nova_c.Language.Vm.Branches.{vm_effects}
use qbit_nova_c.Language.Vm.Programs.{run_bytecode-compile}
use qbit_nova_c.Language.Runner.{
  wants_state2, compile_parsed, parse_tokenized, source_code, ran_vm, run_code, vm_outcome,
  run_source,
}
use qbit_nova_c.Language.Runner.Texts.{source_of-Writes}

-- Lexer, parser and compiler together: the code of a program's text is that of its statements.
source_code-source_of :
    (atoi : Text → ℤ) (ss : Stmts)
    → IsProgram ss
    → length (tokens_of ss) < max_tokens
    → source_code atoi (source_of ss) ≡ compile atoi (trees_of ss) []
unfolding source_code parse_tokenized compile_parsed
source_code-source_of atoi ss h few =
    ap (parse_tokenized atoi)
      (tokenize-Writes (tokens_of ss) (source_of ss) (source_of-Writes ss h) few)
    ∙ ap (compile_parsed atoi) (parse-tokens_of ss (tok token_eof (codes "EOF")) h refl)

module _ (F : Float64) (C : CLibrary F) (atoi : Text → ℤ) where
  -- From text to effect: the source text of a program, of fewer than 1024 tokens, whose statements
  -- compile, with repeats at most 64 deep, and which does not ask for the two-qubit machine, is read,
  -- compiled and run, and with enough fuel it does what the recursive execution of its tree does.
  pub run_source-source_of :
      (ss : Stmts) (code : Code)
      → IsProgram ss
      → length (tokens_of ss) < max_tokens
      → compile atoi (trees_of ss) [] ≡ some code
      → repeat_depth (trees_of ss) ≤ max_frames
      → wants_state2 (source_of ss) ≡ false
      → (vm : Vm F.Double)
      → (fuel : ℕ) × (run_source F C atoi fuel (source_of ss) vm
          ≡ ran_vm (execute atoi (vm_effects F C) (trees_of ss) vm))
  unfolding run_source
  run_source-source_of ss code h few compiles shallow plain vm =
      let (fuel, runs) = run_bytecode-compile F C atoi (trees_of ss) code compiles shallow vm in
      (
        fuel,
        ap (λ (b : Bool). run_code F C atoi fuel b vm (source_code atoi (source_of ss))) plain
            ∙ ap (run_code F C atoi fuel false vm) (source_code-source_of atoi ss h few ∙ compiles)
            ∙ ap (vm_outcome F C atoi) runs,
      )
