-- ===== src/Language/Meaning.antt =====
-- What a syntax tree does, by recursion on the tree as in `execute` of src/vm/interpreter.c: a check
-- runs its body if the test passes, a repeat runs its body so many times. The instructions' own
-- effects are those of an Effects.
use qbit_nova_c.Base.{ℕ, zero, suc, max, ℤ, pos, Text, [], if◌then◌else◌}
use qbit_nova_c.Language.Ast.{
  NodeType, node_say, node_let, node_check, node_block, node_qbit, node_hadamard, node_measure,
  node_entangle, node_cnot, node_qmsg, node_encode_qmsg, node_decode_qmsg, node_repeat, node_action,
  Ast, null, node, text_of,
}
use qbit_nova_c.Language.Bytecode.{
  op_say, op_let, op_qbit, op_hadamard, op_measure, op_entangle, op_cnot, op_check, op_safe_action,
  op_qmsg, op_encode_qmsg, op_decode_qmsg, Instruction, instruction,
}
use qbit_nova_c.Language.Control.{Effects, rounds}

unfoldable pub iterate : {State : Type 0} → ℕ → (State → State) → State → State
iterate zero f s = s
iterate (suc n) f s = iterate n f (f s)

-- How deep repeats stand in each other.
abbrev pub body_depth : NodeType → ℕ → ℕ
body_depth node_repeat d = suc d
body_depth node_check d = d
body_depth node_block d = d
body_depth _ d = 0

unfoldable pub repeat_depth : Ast → ℕ
repeat_depth null = 0
repeat_depth (node type _ _ _ body next) =
    max (body_depth type (repeat_depth body)) (repeat_depth next)

module _ (atoi : Text → ℤ) where
  -- The comparison of a check, empty if one of its nodes is missing.
  unfoldable pub comparison : (left : Ast) → Instruction
  comparison (node _ op (node _ name _ _ _ _) (node _ number _ _ _ _) _ _) =
      instruction op_check name op (atoi number)
  comparison _ = instruction op_check [] [] (pos 0)

  module _ {State : Type 0} (E : Effects State) where
    open E use {perform, test}

    unfoldable pub execute_node :
        NodeType → (value : Text) → (left : Ast) → (body : State → State) → State → State
    unfolding iterate
    execute_node node_say value left body s =
        perform (instruction op_say (text_of left) [] (pos 0)) s
    execute_node node_let value left body s =
        perform (instruction op_let value (text_of left) (pos 0)) s
    execute_node node_qbit value left body s =
        perform (instruction op_qbit value (text_of left) (pos 0)) s
    execute_node node_hadamard value left body s =
        perform (instruction op_hadamard value [] (pos 0)) s
    execute_node node_measure value left body s =
        perform (instruction op_measure value [] (pos 0)) s
    execute_node node_entangle value left body s =
        perform (instruction op_entangle value (text_of left) (pos 0)) s
    execute_node node_cnot value left body s =
        perform (instruction op_cnot value (text_of left) (pos 0)) s
    execute_node node_qmsg value left body s =
        perform (instruction op_qmsg (text_of left) [] (pos 0)) s
    execute_node node_encode_qmsg value left body s =
        perform (instruction op_encode_qmsg value [] (pos 0)) s
    execute_node node_decode_qmsg value left body s =
        perform (instruction op_decode_qmsg value [] (pos 0)) s
    execute_node node_action value left body s =
        perform (instruction op_safe_action value [] (pos 0)) s
    execute_node node_check value left body s =
        let (pass, s') = test (comparison left) s in if pass then body s' else s'
    execute_node node_repeat value left body s = iterate (rounds (atoi value)) body s
    execute_node node_block value left body s = body s
    execute_node _ value left body s = s

    unfoldable pub execute : Ast → State → State
    unfolding execute_node
    execute null s = s
    execute (node type value left right body next) s =
        execute next (execute_node type value left (execute body) s)
