-- ===== src/Language/Compiler.antt =====
-- src/compiler/compiler.c: emit and compile. The array `bytecode` and its counter are the list of
-- the instructions emitted so far; `none` says that the source writes outside an array, or follows a
-- NULL pointer. The C function atoi is a parameter.
pub mod Correct
pub mod Fits
use qbit_nova_c.Base.{
  ℕ, ℤ, pos, Bool, ◌&&◌, Text, Option, none, some, List, [], ◌∷◌, ◌++◌, length, ltb, if◌then◌else◌,
}
use qbit_nova_c.Language.Ast.{
  NodeType, node_program, node_say, node_let, node_check, node_block, node_qbit, node_hadamard,
  node_measure, node_entangle, node_cnot, node_qmsg, node_encode_qmsg, node_decode_qmsg,
  node_repeat, node_action, Ast, null, node, text_of,
}
use qbit_nova_c.Language.Bytecode.{
  OpCode, op_say, op_let, op_qbit, op_hadamard, op_measure, op_entangle, op_cnot, op_check,
  op_repeat, op_end, op_safe_action, op_qmsg, op_encode_qmsg, op_decode_qmsg, Instruction, Code,
  instruction, max_instr, arg_size,
}

abbrev pub and_then {ℓ κ} : {A : Type ℓ} {B : Type κ} → Option A → (A → Option B) → Option B
and_then none f = none
and_then (some a) f = f a

-- An argument that is NULL leaves the field empty.
abbrev pub text_or_empty : Option Text → Text
text_or_empty none = []
text_or_empty (some t) = t

unfoldable pub emit : OpCode → (arg1 arg2 : Option Text) → ℤ → Code → Option Code
emit op arg1 arg2 value code =
    if ltb (length code) max_instr
      && (ltb (length (text_or_empty arg1)) arg_size && ltb (length (text_or_empty arg2)) arg_size)
    then some (code ++ instruction op (text_or_empty arg1) (text_or_empty arg2) value ∷ [])
    else none

-- `node->left->value`
abbrev pub value_of : Ast → Option Text
value_of null = none
value_of (node _ value _ _ _ _) = some value

module _ (atoi : Text → ℤ) where
  -- The three texts of a comparison, if all its nodes are there.
  unfoldable pub emit_check : (left : Ast) → Code → Option Code
  emit_check (node _ op (node _ name _ _ _ _) (node _ number _ _ _ _) _ _) =
      emit op_check (some name) (some op) (atoi number)
  emit_check _ = emit op_check none none (pos 0)

  -- The branches of the `switch`; `body` compiles node->body.
  unfoldable pub compile_node :
      NodeType → (value : Text) → (left : Ast) → (body : Code → Option Code) → Code → Option Code
  unfolding emit_check
  compile_node node_say value left body code =
      and_then (value_of left) λ v. emit op_say (some v) none (pos 0) code
  compile_node node_let value left body code =
      and_then (value_of left) λ v. emit op_let (some value) (some v) (pos 0) code
  compile_node node_qbit value left body code =
      and_then (value_of left) λ v. emit op_qbit (some value) (some v) (pos 0) code
  compile_node node_hadamard value left body code = emit op_hadamard (some value) none (pos 0) code
  compile_node node_measure value left body code = emit op_measure (some value) none (pos 0) code
  compile_node node_entangle value left body code =
      emit op_entangle (some value) (value_of left) (pos 0) code
  compile_node node_cnot value left body code =
      emit op_cnot (some value) (value_of left) (pos 0) code
  compile_node node_qmsg value left body code = emit op_qmsg (value_of left) none (pos 0) code
  compile_node node_encode_qmsg value left body code =
      emit op_encode_qmsg (some value) none (pos 0) code
  compile_node node_decode_qmsg value left body code =
      emit op_decode_qmsg (some value) none (pos 0) code
  compile_node node_check value left body code =
      and_then (emit_check left code) λ c. and_then (body c) (emit op_end none none (pos 0))
  compile_node node_repeat value left body code =
      and_then (emit op_repeat none none (atoi value) code)
        λ c. and_then (body c) (emit op_end none none (pos 0))
  compile_node node_action value left body code = emit op_safe_action (some value) none (pos 0) code
  compile_node node_block value left body code = body code
  compile_node _ value left body code = some code

  unfoldable pub compile : Ast → Code → Option Code
  unfolding compile_node
  compile null code = some code
  compile (node type value left right body next) code =
      and_then (compile_node type value left (compile body) code) (compile next)
