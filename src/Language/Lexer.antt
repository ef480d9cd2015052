-- ===== src/Language/Lexer.antt =====
-- src/lexer/lexer.c and lexer.h: from source text to tokens. Characters are the codes of `unsigned
-- char` in the C locale. A buffer, or the array of tokens, that the source would write past its end is `overflow`.
pub mod RoundTrip
pub mod Total
use qbit_nova_c.Base.{
  ℕ, zero, suc, ◌+◌, Bool, true, false, not, ◌&&◌, ◌||◌, List, [], ◌∷◌, ◌++◌, Text, codes, same,
  length, take, drop, leb, ltb, ◌==◌, if◌then◌else◌,
}

pub data TokenType : Type 0 where
  token_say token_let token_check token_otherwise token_repeat token_action token_qbit : TokenType
  token_hadamard token_measure token_entangle token_cnot token_qmsg token_encode : TokenType
  token_decode token_state_0 token_state_1 token_state_plus token_state_minus : TokenType
  token_eq token_gt token_lt token_gte token_lte token_eqeq token_ident token_number : TokenType
  token_string token_lbrace token_rbrace token_directive token_eof token_unknown : TokenType

pub record Token : Type 0 where
  pub type : TokenType
  pub value : Text
  pub line : ℕ

abbrev pub max_tokens : ℕ
max_tokens = 1024

-- sizeof(buf) - 1 for a directive, a string and a word; for a number; and the bytes that strncpy copies.
abbrev pub max_text : ℕ
max_text = 255

abbrev pub max_number : ℕ
max_number = 63

abbrev pub is_space : ℕ → Bool
is_space c = c == b' ' || (leb 9 c && leb c 13)

abbrev pub is_digit : ℕ → Bool
is_digit c = leb b'0' c && leb c b'9'

abbrev pub is_letter : ℕ → Bool
is_letter c = (leb b'a' c && leb c b'z') || ((leb b'A' c && leb c b'Z') || c == b'_')

abbrev pub is_word : ℕ → Bool
is_word c = is_letter c || is_digit c

-- What the inner loops copy, and what they leave.
unfoldable pub take_while : (ℕ → Bool) → Text → Text
take_while p [] = []
take_while p (c ∷ rest) = elim (p c) [ true ↦ c ∷ take_while p rest | false ↦ [] ]

unfoldable pub drop_while : (ℕ → Bool) → Text → Text
drop_while p [] = []
drop_while p (c ∷ rest) = elim (p c) [ true ↦ drop_while p rest | false ↦ c ∷ rest ]

-- src[i], which is NUL at the end.
abbrev pub char_at : Text → ℕ
char_at [] = 0
char_at (c ∷ _) = c

unfoldable pub keyword_type : Text → TokenType
keyword_type word =
    if same word (codes "say")
    then token_say
    else if same word (codes "let")
    then token_let
    else if same word (codes "check")
    then token_check
    else if same word (codes "otherwise")
    then token_otherwise
    else if same word (codes "repeat")
    then token_repeat
    else if same word (codes "action")
    then token_action
    else if same word (codes "qbit")
    then token_qbit
    else if same word (codes "hadamard")
    then token_hadamard
    else if same word (codes "measure")
    then token_measure
    else if same word (codes "entangle")
    then token_entangle
    else if same word (codes "cnot")
    then token_cnot
    else if same word (codes "qmsg")
    then token_qmsg
    else if same word (codes "encode")
    then token_encode
    else if same word (codes "decode")
    then token_decode
    else token_ident

-- A round of the loop of `tokenize`: what is read, and what is left.
pub data Lexed : Type 0 where
  skipped newline : (rest : Text) → Lexed
  lexed : (type : TokenType) (value : Text) (rest : Text) → Lexed
  too_long : Lexed

-- A token of the text that an inner loop has copied into a buffer.
unfoldable pub copied : (limit : ℕ) → TokenType → (value rest : Text) → Lexed
copied limit type value rest = if leb (length value) limit then lexed type value rest else too_long

-- The quantum states, and a bar that starts none.
unfoldable pub lex_state : (rest : Text) → Lexed
lex_state rest =
    if char_at rest == b'0'
    then lexed token_state_0 (codes "|0>") (drop 2 rest)
    else if char_at rest == b'1'
    then lexed token_state_1 (codes "|1>") (drop 2 rest)
    else if char_at rest == b'+'
    then lexed token_state_plus (codes "|+>") (drop 2 rest)
    else if char_at rest == b'-'
    then lexed token_state_minus (codes "|->") (drop 2 rest)
    else skipped rest

unfoldable pub lex_operator : (c : ℕ) (rest : Text) → Lexed
lex_operator c rest =
    if c == b'=' && char_at rest == b'='
    then lexed token_eqeq (codes "==") (drop 1 rest)
    else if c == b'>' && char_at rest == b'='
    then lexed token_gte (codes ">=") (drop 1 rest)
    else if c == b'<' && char_at rest == b'='
    then lexed token_lte (codes "<=") (drop 1 rest)
    else if c == b'='
    then lexed token_eq (codes "=") rest
    else if c == b'>'
    then lexed token_gt (codes ">") rest
    else if c == b'<'
    then lexed token_lt (codes "<") rest
    else if c == b'{'
    then lexed token_lbrace (codes "{") rest
    else if c == b'}'
    then lexed token_rbrace (codes "}") rest
    else if is_digit c
    then copied max_number token_number (take_while is_digit (c ∷ rest))
        (drop_while is_digit (c ∷ rest))
    else if is_letter c
    then copied max_text (keyword_type (take_while is_word (c ∷ rest)))
        (take_while is_word (c ∷ rest)) (drop_while is_word (c ∷ rest))
    else skipped rest

unfoldable pub lex : (c : ℕ) (rest : Text) → Lexed
unfolding copied lex_state lex_operator
lex c rest =
    if c == b'\n'
    then newline rest
    else if is_space c
    then skipped rest
    else if c == b'@'
    then copied max_text token_directive (take_while (λ d. not (is_space d)) rest)
        (drop_while (λ d. not (is_space d)) rest)
    else if c == b'"'
    then copied max_text token_string (take_while (λ d. not (d == b'"')) rest)
        (drop 1 (drop_while (λ d. not (d == b'"')) rest))
    else if c == b'|'
    then lex_state rest
    else lex_operator c rest

pub data Tokenized : Type 0 where
  tokens : List Token → Tokenized
  overflow out_of_fuel : Tokenized

abbrev pub token_at : TokenType → Text → ℕ → Token
token_at type value line = record { type = type; value = value; line = line }

-- add_token on the array so far, and the rest of the loop.
unfoldable pub add_token :
    TokenType → Text → (line : ℕ) → List Token → (List Token → Tokenized) → Tokenized
add_token type value line toks next =
    if ltb (length toks) max_tokens
    then next (toks ++ token_at type (take max_text value) line ∷ [])
    else overflow

unfoldable pub tokenize_loop : (fuel : ℕ) → Text → (line : ℕ) → List Token → Tokenized
unfolding add_token lex
tokenize_loop zero src line toks = out_of_fuel
tokenize_loop (suc fuel) [] line toks = add_token token_eof (codes "EOF") line toks tokens
tokenize_loop (suc fuel) (c ∷ src) line toks = elim (lex c src) [
  | skipped rest ↦ tokenize_loop fuel rest line toks
  | newline rest ↦ tokenize_loop fuel rest (line + 1) toks
  | lexed type value rest ↦ add_token type value line toks (tokenize_loop fuel rest line)
  | too_long ↦ overflow
]

unfoldable pub tokenize : Text → Tokenized
unfolding tokenize_loop
tokenize src = tokenize_loop (suc (length src)) src 1 []
