-- ===== src/Language/Ast.antt =====
-- src/parser/parser.h: the nodes of the syntax tree. A pointer to a node is `null` or a node.
use qbit_nova_c.Base.{Text, []}

pub data NodeType : Type 0 where
  node_program node_say node_let node_check node_block node_qbit node_hadamard : NodeType
  node_measure node_entangle node_cnot node_qmsg node_encode_qmsg : NodeType
  node_decode_qmsg node_repeat node_action node_binop node_string node_number : NodeType
  node_ident node_state : NodeType

pub data Ast : Type 0 where
  null : Ast
  node : (type : NodeType) (value : Text) (left right body next : Ast) → Ast

-- The value of a node, and an empty text for NULL.
abbrev pub text_of : Ast → Text
text_of null = []
text_of (node _ value _ _ _ _) = value
