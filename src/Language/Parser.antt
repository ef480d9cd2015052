-- ===== src/Language/Parser.antt =====
-- src/parser/parser.c: from tokens to the syntax tree. `toks + pos` is the list of the tokens left; a
-- read behind the last token is `past_end`. Every calloc succeeds.
pub mod RoundTrip
pub mod Total
use qbit_nova_c.Base.{
  ℕ, zero, suc, ◌+◌, Bool, true, false, List, [], ◌∷◌, Text, codes, length, take, drop,
}
use qbit_nova_c.Language.Ast.{
  NodeType, node_program, node_say, node_let, node_check, node_block, node_qbit, node_hadamard,
  node_measure, node_entangle, node_cnot, node_qmsg, node_encode_qmsg, node_decode_qmsg,
  node_repeat, node_action, node_binop, node_string, node_number, node_ident, node_state, Ast, null,
  node,
}
use qbit_nova_c.Language.Lexer.{
  TokenType, token_say, token_let, token_check, token_repeat, token_action, token_qbit,
  token_hadamard, token_measure, token_entangle, token_cnot, token_qmsg, token_encode, token_decode,
  token_string, token_rbrace, token_directive, token_eof, Token, max_text,
}

pub data Parsed : Type 0 where
  parsed : (tree : Ast) (rest : List Token) → Parsed
  past_end out_of_fuel : Parsed

-- What a function does with the tree that a call returns.
abbrev pub after : Parsed → (Ast → List Token → Parsed) → Parsed
after (parsed tree rest) next = next tree rest
after past_end next = past_end
after out_of_fuel next = out_of_fuel

-- A read through peek, advance or check_type.
abbrev pub peek : List Token → (Token → Parsed) → Parsed
peek [] next = past_end
peek (t ∷ _) next = next t

unfoldable pub new_node : NodeType → Text → Ast
new_node type value = node type (take max_text value) null null null null

unfoldable pub with_left : Ast → Ast → Ast
with_left null left = null
with_left (node type value _ right body next) left = node type value left right body next

unfoldable pub with_right : Ast → Ast → Ast
with_right null right = null
with_right (node type value left _ body next) right = node type value left right body next

unfoldable pub with_body : Ast → Ast → Ast
with_body null body = null
with_body (node type value left right _ next) body = node type value left right body next

unfoldable pub with_next : Ast → Ast → Ast
with_next null next = null
with_next (node type value left right body _) next = node type value left right body next

unfoldable pub parse_expr : List Token → Parsed
unfolding new_node with_left with_right
parse_expr toks = peek toks λ name. peek (drop 1 toks) λ op. peek (drop 2 toks) λ number.
    parsed
      (with_right (with_left (new_node node_binop op.value) (new_node node_ident name.value))
        (new_node node_number number.value))
      (drop 3 toks)

-- The argument of say and qmsg.
unfoldable pub argument : TokenType → Text → Ast
unfolding new_node
argument token_string value = new_node node_string value
argument _ value = new_node node_ident value

-- A node whose value is the next token's.
unfoldable pub named : NodeType → List Token → Parsed
unfolding new_node
named type toks = peek toks λ name. parsed (new_node type name.value) (drop 1 toks)

-- A node with a name, and a left child that stands `skip` tokens behind.
unfoldable pub pair : NodeType → (skip : ℕ) → NodeType → List Token → Parsed
unfolding new_node with_left
pair type skip left_type toks = peek toks λ name. peek (drop skip toks) λ left.
    parsed (with_left (new_node type name.value) (new_node left_type left.value))
      (drop 1 (drop skip toks))

unfoldable pub quoted : NodeType → Text → List Token → Parsed
unfolding new_node with_left argument
quoted type value toks =
    peek toks
      λ val. parsed (with_left (new_node type value) (argument val.type val.value)) (drop 1 toks)

-- parse_stmt behind the token `type`; `parse_block` parses a block.
unfoldable pub parse_stmt :
    TokenType → (value : Text) → (parse_block : List Token → Parsed) → List Token → Parsed
unfolding new_node with_left with_body parse_expr named pair quoted
parse_stmt token_say value parse_block toks = quoted node_say (codes "say") toks
parse_stmt token_let value parse_block toks = pair node_let 2 node_number toks
parse_stmt token_check value parse_block toks = after (parse_expr toks) λ expr rest.
    after (parse_block rest) λ body rest'.
      parsed (with_body (with_left (new_node node_check (codes "check")) expr) body) rest'
parse_stmt token_repeat value parse_block toks = peek toks λ count.
    after (parse_block (drop 1 toks))
      λ body rest. parsed (with_body (new_node node_repeat count.value) body) rest
parse_stmt token_qmsg value parse_block toks = quoted node_qmsg (codes "qmsg") toks
parse_stmt token_encode value parse_block toks = named node_encode_qmsg toks
parse_stmt token_decode value parse_block toks = named node_decode_qmsg toks
parse_stmt token_qbit value parse_block toks = pair node_qbit 2 node_state toks
parse_stmt token_hadamard value parse_block toks = named node_hadamard toks
parse_stmt token_measure value parse_block toks = named node_measure toks
parse_stmt token_entangle value parse_block toks = pair node_entangle 1 node_ident toks
parse_stmt token_cnot value parse_block toks = pair node_cnot 1 node_ident toks
parse_stmt token_action value parse_block toks = named node_action toks
parse_stmt _ value parse_block toks = parsed (new_node node_ident value) toks

abbrev pub closes : TokenType → Bool
closes token_rbrace = true
closes token_eof = true
closes _ = false

-- A block around its statements, behind the brace that closes it.
unfoldable pub block_of : Parsed → Parsed
unfolding new_node with_body
block_of stmts =
    after stmts
      λ body rest. parsed (with_body (new_node node_block (codes "block")) body) (drop 1 rest)

-- A statement that is read, linked to those that `parse_rest` reads behind it.
unfoldable pub link : Parsed → (parse_rest : List Token → Parsed) → Parsed
unfolding with_next
link read parse_rest =
    after read λ s rest. after (parse_rest rest) λ more rest'. parsed (with_next s more) rest'

-- The loop of parse_block: the statements up to a closing brace or the end, linked by `next`.
unfoldable pub parse_stmts : (fuel : ℕ) → List Token → Parsed
unfolding parse_stmt block_of link
parse_stmts zero toks = out_of_fuel
parse_stmts (suc fuel) toks = peek toks λ t. elim (closes t.type) [
  | true ↦ parsed null toks
  | false ↦
      link (parse_stmt t.type t.value (λ ts. block_of (parse_stmts fuel (drop 1 ts))) (drop 1 toks))
        (parse_stmts fuel)
]

unfoldable pub parse_block : (fuel : ℕ) → List Token → Parsed
unfolding parse_stmts block_of
parse_block fuel toks = block_of (parse_stmts fuel (drop 1 toks))

-- A round of the loop of `parse`: directives are skipped.
unfoldable pub loop_round :
    TokenType → Token → (parse_block parse_rest : List Token → Parsed) → List Token → Parsed
unfolding parse_stmt link
loop_round token_eof t parse_block parse_rest toks = parsed null (t ∷ toks)
loop_round token_directive t parse_block parse_rest toks = parse_rest toks
loop_round type t parse_block parse_rest toks =
    link (parse_stmt type t.value parse_block toks) parse_rest

unfoldable pub parse_loop : (fuel : ℕ) → List Token → Parsed
unfolding parse_block loop_round
parse_loop zero toks = out_of_fuel
parse_loop (suc fuel) toks =
    peek toks λ t. loop_round t.type t (parse_block fuel) (parse_loop fuel) (drop 1 toks)

unfoldable pub parse : List Token → Parsed
unfolding new_node with_body parse_loop
parse toks =
    after (parse_loop (suc (length toks)) toks)
      λ body rest. parsed (with_body (new_node node_program (codes "program")) body) rest
