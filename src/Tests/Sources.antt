-- ===== src/Tests/Sources.antt =====
-- From source text to a run: the program `repeat 2 { say "hi" }`.
use qbit_nova_c.Base.{
  List, ℕ, ◌<◌, ◌≤◌, ◌≡◌, ◌⊎◌, refl, arith, pos, true, false, some, [], ◌∷◌, ◌++◌, codes, length,
}
use qbit_nova_c.Tests.Doubles.{two_values}
use qbit_nova_c.Tests.Languages.{two_library, two, bell}
use qbit_nova_c.Language.Ast.{Ast, null, node, node_program}
use qbit_nova_c.Language.Bytecode.{Code, instruction, op_repeat, op_say, op_end}
use qbit_nova_c.Language.Compiler.{compile, compile_node, emit}
use qbit_nova_c.Language.Control.{max_frames}
use qbit_nova_c.Language.Lexer.{
  overflow, Token, tokens, tokenize, token_eof, token_repeat, max_tokens,
}
use qbit_nova_c.Language.Lexer.RoundTrip.{tokenize-Writes}
use qbit_nova_c.Language.Meaning.{execute, repeat_depth}
use qbit_nova_c.Language.Parser.{parsed, past_end, parse}
use qbit_nova_c.Language.Parser.RoundTrip.{parse-tokens_of, parse_unclosed}
use qbit_nova_c.Language.Runner.{wants_state2, contains, starts_with, run_source, ran_vm}
use qbit_nova_c.Language.Runner.Programs.{run_source-source_of}
use qbit_nova_c.Language.Runner.Texts.{source_of-Writes}
use qbit_nova_c.Language.Runner.Total.{tokenize-parse-end}
use qbit_nova_c.Language.Source.{
  Stmts, no_stmts, stmt, repeat, say_text, IsProgram, IsStmt, tokens_of, tail_tokens, trees_of,
  tree_of, source_of, put_all, put, tok, number, left_brace,
}
use qbit_nova_c.Language.State2.{run_state2_bytecode}
use qbit_nova_c.Language.State2.Bell.{PairLaws, bell_code, run_state2_bytecode-bell}
use qbit_nova_c.Language.Vm.Branches.{vm_effects}

abbrev greeting : Stmts
greeting = stmt (say_text (codes "hi")) no_stmts

abbrev greetings : Stmts
greetings = stmt (repeat (codes "2") greeting) no_stmts

greeting-IsProgram : IsProgram greeting
unfolding IsProgram IsStmt
greeting-IsProgram = (((refl, (refl, tt)), omega arith), tt)

greetings-IsProgram : IsProgram greetings
unfolding IsProgram IsStmt
greetings-IsProgram =
    ((((λ e. ground (arith, e)), (refl, tt), omega arith), greeting-IsProgram), tt)

abbrev greetings_code : Code
greetings_code =
    instruction op_repeat [] [] (pos 2)
    ∷ instruction op_say (codes "hi") [] (pos 0)
    ∷ instruction op_end [] [] (pos 0)
    ∷ []

few_tokens : length (tokens_of greetings) < max_tokens
unfolding tokens_of tail_tokens
few_tokens = omega arith

compiles : compile two (trees_of greetings) [] ≡ some greetings_code
unfolding compile compile_node emit trees_of tree_of
compiles = refl

shallow : repeat_depth (trees_of greetings) ≤ max_frames
unfolding repeat_depth trees_of tree_of
shallow = omega arith

plain : wants_state2 (source_of greetings) ≡ false
unfolding wants_state2 contains starts_with put_all put
plain = refl

run_source-source_of_example :
    (fuel : ℕ) × (run_source two_values two_library two fuel (source_of greetings) bell
      ≡ ran_vm (execute two (vm_effects two_values two_library) (trees_of greetings) bell))
run_source-source_of_example =
    run_source-source_of two_values two_library two greetings greetings_code greetings-IsProgram
      few_tokens compiles shallow plain bell

tokenize-Writes_example :
    tokenize (source_of greetings)
    ≡ tokens (tokens_of greetings ++ tok token_eof (codes "EOF") ∷ [])
tokenize-Writes_example =
    tokenize-Writes (tokens_of greetings) (source_of greetings)
      (source_of-Writes greetings greetings-IsProgram) few_tokens

abbrev eof : Token
eof = tok token_eof (codes "EOF")

parse-tokens_of_example :
    parse (tokens_of greetings ++ eof ∷ [])
    ≡ parsed (node node_program (codes "program") null null (trees_of greetings) null) (eof ∷ [])
parse-tokens_of_example = parse-tokens_of greetings eof greetings-IsProgram refl

parse_unclosed_example :
    parse (
      tok token_repeat (codes "repeat")
      ∷ number (codes "2")
      ∷ left_brace
      ∷ (tokens_of greeting ++ eof ∷ []))
    ≡ past_end
parse_unclosed_example = parse_unclosed (codes "2") greeting eof greeting-IsProgram refl

tokenize-parse-end_example :
    (((ts : List Token) × (tokenize (source_of greetings) ≡ tokens ts))
      ⊎ (tokenize (source_of greetings) ≡ overflow))
    × (((tree : Ast) × (rest : List Token) × (parse (tokens_of greetings ++ eof ∷ [])
            ≡ parsed tree rest))
        ⊎ (parse (tokens_of greetings ++ eof ∷ []) ≡ past_end))
tokenize-parse-end_example =
    tokenize-parse-end (source_of greetings) (tokens_of greetings ++ eof ∷ [])

two_values-PairLaws : PairLaws two_values
two_values-PairLaws = record {
  add_zero_zero = refl;
  sub_zero_zero = refl;
  div_zero_root = refl;
  mul_zero_zero = refl;
  add_sum_zero = elim [ true ↦ refl | false ↦ refl ];
}

run_state2_bytecode-bell_example :
    (((run_state2_bytecode two_values two_library 0
          (bell_code (codes "a") (codes "b") (codes "a"))).state.result
        ≡ 0)
      ⊎ ((run_state2_bytecode two_values two_library 0
            (bell_code (codes "a") (codes "b") (codes "a"))).state.result
          ≡ 3))
    × ((run_state2_bytecode two_values two_library 0
          (bell_code (codes "a") (codes "b") (codes "a"))).bit0
        ≡ (run_state2_bytecode two_values two_library 0
            (bell_code (codes "a") (codes "b") (codes "a"))).bit1)
    × ((run_state2_bytecode two_values two_library 0
          (bell_code (codes "a") (codes "b") (codes "a"))).state.measured
        ≡ true)
run_state2_bytecode-bell_example =
    run_state2_bytecode-bell two_values two_values-PairLaws two_library 0 (codes "a") (codes "b")
      (codes "a")
