-- ===== src/Language/Source.antt =====
-- The programs of the language: statements, the tokens that they are written with, and the tree that
-- stands for them. The grammar is that of the comments of src/parser/parser.c.
use qbit_nova_c.Base.{
  ℕ, ◌≤◌, ◌<◌, ◌≡◌, ◌≢◌, Bool, true, not, List, [], ◌∷◌, ◌++◌, Text, codes, length, ◌==◌, arith,
}
use qbit_nova_c.Language.Ast.{
  node_say, node_let, node_check, node_block, node_qbit, node_hadamard, node_measure, node_entangle,
  node_cnot, node_qmsg, node_encode_qmsg, node_decode_qmsg, node_repeat, node_action, node_binop,
  node_string, node_number, node_ident, node_state, NodeType, Ast, null, node,
}
use qbit_nova_c.Language.Lexer.{
  TokenType, token_say, token_let, token_check, token_repeat, token_action, token_qbit,
  token_hadamard, token_measure, token_entangle, token_cnot, token_qmsg, token_encode, token_decode,
  token_state_0, token_state_1, token_state_plus, token_state_minus, token_eq, token_gt, token_lt,
  token_gte, token_lte, token_eqeq, token_number, token_string, token_lbrace, token_rbrace, Token,
  token_at, keyword_type, is_letter, is_word, is_digit, max_text, max_number,
}

pub data Comparison : Type 0 where
  greater less equal at_least at_most : Comparison

pub data Ket : Type 0 where
  ket_0 ket_1 ket_plus ket_minus : Ket

mutual
  pub data Stmt : Type 0 where
    say_text say_name qmsg_text qmsg_name encode decode hadamard measure action : Text → Stmt
    assign : (name number : Text) → Stmt
    qbit : (name : Text) → Ket → Stmt
    entangle cnot : (left right : Text) → Stmt
    check : (name : Text) → Comparison → (number : Text) → Stmts → Stmt
    repeat : (count : Text) → Stmts → Stmt

  pub data Stmts : Type 0 where
    no_stmts : Stmts
    stmt : Stmt → Stmts → Stmts

abbrev pub comparison_text : Comparison → Text
comparison_text greater = codes ">"
comparison_text less = codes "<"
comparison_text equal = codes "=="
comparison_text at_least = codes ">="
comparison_text at_most = codes "<="

abbrev pub comparison_type : Comparison → TokenType
comparison_type greater = token_gt
comparison_type less = token_lt
comparison_type equal = token_eqeq
comparison_type at_least = token_gte
comparison_type at_most = token_lte

abbrev pub ket_text : Ket → Text
ket_text ket_0 = codes "|0>"
ket_text ket_1 = codes "|1>"
ket_text ket_plus = codes "|+>"
ket_text ket_minus = codes "|->"

abbrev pub ket_type : Ket → TokenType
ket_type ket_0 = token_state_0
ket_type ket_1 = token_state_1
ket_type ket_plus = token_state_plus
ket_type ket_minus = token_state_minus

pub comparison_text-length : (op : Comparison) → length (comparison_text op) ≤ max_text
comparison_text-length greater = omega arith
comparison_text-length less = omega arith
comparison_text-length equal = omega arith
comparison_text-length at_least = omega arith
comparison_text-length at_most = omega arith

pub ket_text-length : (ket : Ket) → length (ket_text ket) ≤ max_text
ket_text-length ket_0 = omega arith
ket_text-length ket_1 = omega arith
ket_text-length ket_plus = omega arith
ket_text-length ket_minus = omega arith

-- All tokens on the first line.
abbrev pub tok : TokenType → Text → Token
tok type value = token_at type value 1

abbrev pub word : Text → Token
word w = tok (keyword_type w) w

abbrev pub number : Text → Token
number n = tok token_number n

abbrev pub left_brace : Token
left_brace = tok token_lbrace (codes "{")

abbrev pub right_brace : Token
right_brace = tok token_rbrace (codes "}")

abbrev pub head_token : Stmt → Token
head_token (say_text _) = tok token_say (codes "say")
head_token (say_name _) = tok token_say (codes "say")
head_token (qmsg_text _) = tok token_qmsg (codes "qmsg")
head_token (qmsg_name _) = tok token_qmsg (codes "qmsg")
head_token (encode _) = tok token_encode (codes "encode")
head_token (decode _) = tok token_decode (codes "decode")
head_token (hadamard _) = tok token_hadamard (codes "hadamard")
head_token (measure _) = tok token_measure (codes "measure")
head_token (action _) = tok token_action (codes "action")
head_token (assign _ _) = tok token_let (codes "let")
head_token (qbit _ _) = tok token_qbit (codes "qbit")
head_token (entangle _ _) = tok token_entangle (codes "entangle")
head_token (cnot _ _) = tok token_cnot (codes "cnot")
head_token (check _ _ _ _) = tok token_check (codes "check")
head_token (repeat _ _) = tok token_repeat (codes "repeat")

unfoldable mutual
  pub tail_tokens : Stmt → List Token
  tail_tokens (say_text text) = tok token_string text ∷ []
  tail_tokens (say_name name) = word name ∷ []
  tail_tokens (qmsg_text text) = tok token_string text ∷ []
  tail_tokens (qmsg_name name) = word name ∷ []
  tail_tokens (encode name) = word name ∷ []
  tail_tokens (decode name) = word name ∷ []
  tail_tokens (hadamard name) = word name ∷ []
  tail_tokens (measure name) = word name ∷ []
  tail_tokens (action name) = word name ∷ []
  tail_tokens (assign name n) = word name ∷ tok token_eq (codes "=") ∷ number n ∷ []
  tail_tokens (qbit name ket) =
      word name ∷ tok token_eq (codes "=") ∷ tok (ket_type ket) (ket_text ket) ∷ []
  tail_tokens (entangle left right) = word left ∷ word right ∷ []
  tail_tokens (cnot left right) = word left ∷ word right ∷ []
  tail_tokens (check name op n body) =
      word name
      ∷ tok (comparison_type op) (comparison_text op)
      ∷ number n
      ∷ left_brace
      ∷ (tokens_of body ++ right_brace ∷ [])
  tail_tokens (repeat count body) = number count ∷ left_brace ∷ (tokens_of body ++ right_brace ∷ [])

  pub tokens_of : Stmts → List Token
  tokens_of no_stmts = []
  tokens_of (stmt s more) = head_token s ∷ (tail_tokens s ++ tokens_of more)

-- A node with a text only.
abbrev pub leaf : NodeType → Text → Ast
leaf type value = node type value null null null null

-- A statement's node in front of the next one, and the list of a program's.
unfoldable mutual
  pub tree_of : Stmt → (next : Ast) → Ast
  tree_of (say_text text) next = node node_say (codes "say") (leaf node_string text) null null next
  tree_of (say_name name) next = node node_say (codes "say") (leaf node_ident name) null null next
  tree_of (qmsg_text text) next =
      node node_qmsg (codes "qmsg") (leaf node_string text) null null next
  tree_of (qmsg_name name) next =
      node node_qmsg (codes "qmsg") (leaf node_ident name) null null next
  tree_of (encode name) next = node node_encode_qmsg name null null null next
  tree_of (decode name) next = node node_decode_qmsg name null null null next
  tree_of (hadamard name) next = node node_hadamard name null null null next
  tree_of (measure name) next = node node_measure name null null null next
  tree_of (action name) next = node node_action name null null null next
  tree_of (assign name n) next = node node_let name (leaf node_number n) null null next
  tree_of (qbit name ket) next = node node_qbit name (leaf node_state (ket_text ket)) null null next
  tree_of (entangle left right) next =
      node node_entangle left (leaf node_ident right) null null next
  tree_of (cnot left right) next = node node_cnot left (leaf node_ident right) null null next
  tree_of (check name op n body) next =
      node node_check (codes "check")
        (node node_binop (comparison_text op) (leaf node_ident name) (leaf node_number n) null null)
        null (node node_block (codes "block") null null (trees_of body) null) next
  tree_of (repeat count body) next =
      node node_repeat count null null
        (node node_block (codes "block") null null (trees_of body) null) next

  pub trees_of : Stmts → Ast
  trees_of no_stmts = null
  trees_of (stmt s more) = tree_of s (trees_of more)

-- The texts that a program can hold: words, numerals, and strings with no quote.
abbrev pub All : (ℕ → Bool) → Text → Type 0
All p [] = Unit
All p (c ∷ text) = (p c ≡ true) × All p text

abbrev pub IsName : Text → Type 0
IsName [] = ⊥
IsName (c ∷ rest) = (is_letter c ≡ true) × All is_word rest × (length rest < max_text)

abbrev pub IsNumber : Text → Type 0
IsNumber n = (n ≢ []) × All is_digit n × (length n ≤ max_number)

abbrev pub IsString : Text → Type 0
IsString text = All (λ c. not (c == b'"')) text × (length text ≤ max_text)

unfoldable mutual
  pub IsStmt : Stmt → Type 0
  IsStmt (say_text text) = IsString text
  IsStmt (say_name name) = IsName name
  IsStmt (qmsg_text text) = IsString text
  IsStmt (qmsg_name name) = IsName name
  IsStmt (encode name) = IsName name
  IsStmt (decode name) = IsName name
  IsStmt (hadamard name) = IsName name
  IsStmt (measure name) = IsName name
  IsStmt (action name) = IsName name
  IsStmt (assign name n) = IsName name × IsNumber n
  IsStmt (qbit name ket) = IsName name
  IsStmt (entangle left right) = IsName left × IsName right
  IsStmt (cnot left right) = IsName left × IsName right
  IsStmt (check name op n body) = IsName name × IsNumber n × IsProgram body
  IsStmt (repeat count body) = IsNumber count × IsProgram body

  pub IsProgram : Stmts → Type 0
  IsProgram no_stmts = Unit
  IsProgram (stmt s more) = IsStmt s × IsProgram more

-- The source text: a blank behind each token.
abbrev pub spaced : Text → Text → Text
spaced text rest = text ++ b' ' ∷ rest

abbrev pub quote : Text → Text
quote text = b'"' ∷ (text ++ b'"' ∷ [])

unfoldable mutual
  pub put : Stmt → (rest : Text) → Text
  put (say_text text) rest = spaced (codes "say") (spaced (quote text) rest)
  put (say_name name) rest = spaced (codes "say") (spaced name rest)
  put (qmsg_text text) rest = spaced (codes "qmsg") (spaced (quote text) rest)
  put (qmsg_name name) rest = spaced (codes "qmsg") (spaced name rest)
  put (encode name) rest = spaced (codes "encode") (spaced name rest)
  put (decode name) rest = spaced (codes "decode") (spaced name rest)
  put (hadamard name) rest = spaced (codes "hadamard") (spaced name rest)
  put (measure name) rest = spaced (codes "measure") (spaced name rest)
  put (action name) rest = spaced (codes "action") (spaced name rest)
  put (assign name n) rest = spaced (codes "let") (spaced name (spaced (codes "=") (spaced n rest)))
  put (qbit name ket) rest =
      spaced (codes "qbit") (spaced name (spaced (codes "=") (spaced (ket_text ket) rest)))
  put (entangle left right) rest = spaced (codes "entangle") (spaced left (spaced right rest))
  put (cnot left right) rest = spaced (codes "cnot") (spaced left (spaced right rest))
  put (check name op n body) rest = spaced (codes "check") (
      spaced name (
        spaced (comparison_text op)
          (spaced n (spaced (codes "{") (put_all body (spaced (codes "}") rest))))))
  put (repeat count body) rest =
      spaced (codes "repeat")
        (spaced count (spaced (codes "{") (put_all body (spaced (codes "}") rest))))

  pub put_all : Stmts → (rest : Text) → Text
  put_all no_stmts rest = rest
  put_all (stmt s more) rest = put s (put_all more rest)

abbrev pub source_of : Stmts → Text
source_of ss = put_all ss []
