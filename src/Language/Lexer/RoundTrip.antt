-- ===== src/Language/Lexer/RoundTrip.antt =====
-- The lexer reads tokens back from their text.
use mathlib.Core.List.{append_assoc}
use qbit_nova_c.Base.{
  ℕ, zero, suc, ◌+◌, ◌*◌, ◌≤◌, ◌<◌, ◌≡◌, ◌⊎◌, ◌∙◌, refl, ap, sym, arith, Bool, true, false, not,
  List, [], ◌∷◌, ◌++◌, Text, codes, length, take_all, length-append, ◌==◌,
}
use qbit_nova_c.Language.Lexer.{
  TokenType, token_string, token_number, token_eq, token_lbrace, token_rbrace, token_eof, Token,
  token_at, keyword_type, max_text, max_number, is_letter, is_digit, is_word, take_while,
  drop_while, lexed, copied, lex_state, lex_operator, lex, Tokenized, tokens, add_token,
  tokenize_loop, tokenize, max_tokens,
}
use qbit_nova_c.Language.Source.{
  All, IsName, IsNumber, IsString, Ket, ket_0, ket_1, ket_plus, ket_minus, ket_text, ket_type,
  Comparison, greater, less, equal, at_least, at_most, comparison_text, comparison_type,
  comparison_text-length, ket_text-length, tok, quote,
}

take_while-All :
    (p : ℕ → Bool) (text : Text) (stop : ℕ) (rest : Text)
    → All p text
    → p stop ≡ false
    → take_while p (text ++ stop ∷ rest) ≡ text
unfolding take_while
take_while-All p [] stop rest h stops = rw (stops, take_while) refl
take_while-All p (c ∷ text) stop rest h stops =
    rw (h.0, take_while) (ap (c ∷◌) (take_while-All p text stop rest h.1 stops))

drop_while-All :
    (p : ℕ → Bool) (text : Text) (stop : ℕ) (rest : Text)
    → All p text
    → p stop ≡ false
    → drop_while p (text ++ stop ∷ rest) ≡ stop ∷ rest
unfolding drop_while
drop_while-All p [] stop rest h stops = rw (stops, drop_while) refl
drop_while-All p (c ∷ text) stop rest h stops =
    rw (h.0, drop_while) (drop_while-All p text stop rest h.1 stops)

letter_lem : (c : ℕ) → is_letter c ≡ true → (65 ≤ c) × (c ≤ 122)
letter_lem c h = ground arith

digit_lem : (c : ℕ) → is_digit c ≡ true → (48 ≤ c) × (c ≤ 57)
digit_lem c h = ground arith

-- How the lexer splits each kind of token off the text.
lex-word :
    (c : ℕ) (cs rest : Text)
    → IsName (c ∷ cs)
    → lex c (cs ++ b' ' ∷ rest) ≡ lexed (keyword_type (c ∷ cs)) (c ∷ cs) (b' ' ∷ rest)
unfolding lex lex_operator copied
lex-word c cs rest h =
    let first : is_word c ≡ true = ground (arith, h.0) in
    ground (
      arith,
      letter_lem c h.0,
      take_while-All is_word (c ∷ cs) b' ' rest (first, h.1) refl,
      drop_while-All is_word (c ∷ cs) b' ' rest (first, h.1) refl,
      h.0,
      h.2,
    )

lex-number :
    (c : ℕ) (cs rest : Text)
    → All is_digit (c ∷ cs)
    → length (c ∷ cs) ≤ max_number
    → lex c (cs ++ b' ' ∷ rest) ≡ lexed token_number (c ∷ cs) (b' ' ∷ rest)
unfolding lex lex_operator copied
lex-number c cs rest h short = ground (
  arith,
  digit_lem c h.0,
  take_while-All is_digit (c ∷ cs) b' ' rest h refl,
  drop_while-All is_digit (c ∷ cs) b' ' rest h refl,
  short,
)

lex-string :
    (text rest : Text)
    → IsString text
    → lex b'"' ((text ++ b'"' ∷ []) ++ b' ' ∷ rest) ≡ lexed token_string text (b' ' ∷ rest)
unfolding lex copied
lex-string text rest h =
    rw
      (
        append_assoc text (b'"' ∷ []) (b' ' ∷ rest),
        take_while-All (λ c. not (c == b'"')) text b'"' (b' ' ∷ rest) h.0 refl,
        drop_while-All (λ c. not (c == b'"')) text b'"' (b' ' ∷ rest) h.0 refl,
      )
      (ground (arith, h.1))

lex-ket :
    (ket : Ket) (rest : Text)
    → (c : ℕ) × (cs : Text) × (ket_text ket ≡ c ∷ cs)
      × (lex c (cs ++ b' ' ∷ rest) ≡ lexed (ket_type ket) (ket_text ket) (b' ' ∷ rest))
unfolding lex lex_state
lex-ket ket_0 rest = (b'|', codes "0>", refl, refl)
lex-ket ket_1 rest = (b'|', codes "1>", refl, refl)
lex-ket ket_plus rest = (b'|', codes "+>", refl, refl)
lex-ket ket_minus rest = (b'|', codes "->", refl, refl)

lex-comparison :
    (op : Comparison) (rest : Text)
    → (c : ℕ) × (cs : Text) × (comparison_text op ≡ c ∷ cs)
      × (lex c (cs ++ b' ' ∷ rest) ≡ lexed (comparison_type op) (comparison_text op) (b' ' ∷ rest))
unfolding lex lex_operator
lex-comparison greater rest = (b'>', [], refl, refl)
lex-comparison less rest = (b'<', [], refl, refl)
lex-comparison equal rest = (b'=', codes "=", refl, refl)
lex-comparison at_least rest = (b'>', codes "=", refl, refl)
lex-comparison at_most rest = (b'<', codes "=", refl, refl)

-- A token, and a text that it is written with.
pub data Written : TokenType → (value shown : Text) → Type 0 where
  written_word :
      {type : TokenType} (name : Text)
      → type ≡ keyword_type name
      → IsName name
      → Written type name name
  written_number : (n : Text) → IsNumber n → Written token_number n n
  written_string :
      {shown : Text} (text : Text)
      → shown ≡ quote text
      → IsString text
      → Written token_string text shown
  written_ket :
      {type : TokenType} {value : Text} (ket : Ket)
      → type ≡ ket_type ket
      → value ≡ ket_text ket
      → Written type value value
  written_comparison :
      {type : TokenType} {value : Text} (op : Comparison)
      → type ≡ comparison_type op
      → value ≡ comparison_text op
      → Written type value value
  written_sign :
      {type : TokenType} {value : Text} (c : ℕ)
      → value ≡ c ∷ []
      → ((c ≡ b'=') × (type ≡ token_eq))
        ⊎ ((c ≡ b'{') × (type ≡ token_lbrace))
        ⊎ ((c ≡ b'}') × (type ≡ token_rbrace))
      → Written type value value

-- The first character of a written token, and how the lexer splits the token off.
lex-Written :
    {type : TokenType} {value shown : Text}
    → Written type value shown
    → (rest : Text)
    → (c : ℕ) × (cs : Text) × (shown ≡ c ∷ cs)
      × (lex c (cs ++ b' ' ∷ rest) ≡ lexed type value (b' ' ∷ rest))
      × (length value ≤ max_text)
unfolding lex lex_operator
lex-Written (written_word [] e h) rest = absurd h
lex-Written (written_word (c ∷ cs) e h) rest = (
  c,
  cs,
  refl,
  lex-word c cs rest h ∙ ap (λ (t : TokenType). lexed t (c ∷ cs) (b' ' ∷ rest)) (sym e),
  omega (arith, h.2),
)
lex-Written (written_number [] h) rest = absurd (h.0 refl)
lex-Written (written_number (c ∷ cs) h) rest =
    (c, cs, refl, lex-number c cs rest h.1 h.2, omega (arith, h.2))
lex-Written (written_string text e h) rest =
    (b'"', text ++ b'"' ∷ [], e, lex-string text rest h, h.1)
lex-Written (written_ket ket et ev) rest =
    let (c, cs, e, split) = lex-ket ket rest in
    (c, cs, ev ∙ e, split ∙ rw (et, ev) refl, omega (arith, ap length ev, ket_text-length ket))
lex-Written (written_comparison op et ev) rest =
    let (c, cs, e, split) = lex-comparison op rest in
    (
      c,
      cs,
      ev ∙ e,
      split ∙ rw (et, ev) refl,
      omega (arith, ap length ev, comparison_text-length op),
    )
lex-Written (written_sign c e signs) rest =
    (c, [], e, ground (arith, e, signs), omega (arith, ap length e))

-- A text in which each token stands in front of a blank.
pub data Writes : List Token → Text → Type 0 where
  nothing : Writes [] []
  write :
      {ts : List Token} {rest : Text} (type : TokenType) (value shown : Text)
      → Written type value shown
      → Writes ts rest
      → Writes (tok type value ∷ ts) (shown ++ b' ' ∷ rest)

add_token-room :
    (type : TokenType) (value : Text) (line : ℕ) (toks : List Token) (next : List Token → Tokenized)
    → length toks < max_tokens
    → length value ≤ max_text
    → add_token type value line toks next ≡ next (toks ++ token_at type value line ∷ [])
unfolding add_token
add_token-room type value line toks next room short =
    rw (take_all max_text value short) (ground arith)

loop-lexed :
    (fuel c : ℕ) (src value rest : Text) (type : TokenType) (line : ℕ) (toks : List Token)
    → lex c src ≡ lexed type value (b' ' ∷ rest)
    → length value ≤ max_text
    → length toks < max_tokens
    → tokenize_loop (suc (suc fuel)) (c ∷ src) line toks
      ≡ tokenize_loop fuel rest line (toks ++ token_at type value line ∷ [])
unfolding tokenize_loop
loop-lexed fuel c src value rest type line toks e short room =
    rw (e, tokenize_loop)
      (add_token-room type value line toks (λ ts. tokenize_loop fuel rest line ts) room short)

loop-Writes :
    {ts : List Token} {src : Text} (fuel : ℕ) (toks : List Token)
    → Writes ts src
    → length toks + length ts < max_tokens
    → 2 * length ts < fuel
    → tokenize_loop fuel src 1 toks ≡ tokens (toks ++ (ts ++ tok token_eof (codes "EOF") ∷ []))
unfolding tokenize_loop
loop-Writes zero toks w room enough = absurd (omega (arith, enough))
loop-Writes (suc fuel) toks nothing room enough =
    add_token-room token_eof (codes "EOF") 1 toks tokens (omega (arith, room)) (omega arith)
loop-Writes (suc zero) toks (write type value shown w ws) room enough =
    absurd (omega (arith, enough))
loop-Writes (suc (suc fuel)) toks (write {ts} {rest} type value shown w ws) room enough =
    let (c, cs, starts, split, short) = lex-Written w rest in
    let t = tok type value in
    let longer = length-append toks (t ∷ []) in
    ap (λ (text : Text). tokenize_loop (suc (suc fuel)) (text ++ b' ' ∷ rest) 1 toks) starts
    ∙ loop-lexed fuel c (cs ++ b' ' ∷ rest) value rest type 1 toks split short (omega (arith, room))
    ∙ loop-Writes fuel (toks ++ t ∷ []) ws (omega (arith, room, longer)) (omega (arith, enough))
    ∙ ap tokens (append_assoc toks (t ∷ []) (ts ++ tok token_eof (codes "EOF") ∷ []))

Writes-length : {ts : List Token} {src : Text} → Writes ts src → 2 * length ts ≤ length src
Writes-length nothing = omega arith
Writes-length (write {ts} {rest} type value shown w ws) =
    let (c, cs, starts, split, short) = lex-Written w rest in
    omega (arith, Writes-length ws, length-append shown (b' ' ∷ rest), ap length starts)

-- The lexer reads back every text in which words, numerals, strings, states, comparisons, `=` and
-- braces stand with a blank behind each, if there are fewer than 1024 of them: the tokens have the
-- types and values written, in order, on line 1, and an end token is behind them.
pub tokenize-Writes :
    (ts : List Token) (src : Text)
    → Writes ts src
    → length ts < max_tokens
    → tokenize src ≡ tokens (ts ++ tok token_eof (codes "EOF") ∷ [])
unfolding tokenize
tokenize-Writes ts src w room =
    loop-Writes (suc (length src)) [] w (omega (arith, room)) (omega (arith, Writes-length w))
