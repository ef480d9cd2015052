-- ===== src/Language/Lexer/Total.antt =====
-- The lexer's fuel, one more than the number of characters, always suffices.
use qbit_nova_c.Base.{
  ℕ, zero, suc, ◌+◌, ◌≤◌, ◌<◌, ◌≡◌, ◌≢◌, arith, Bool, true, not, List, [], ◌∷◌, ◌++◌, Text, length,
  take, drop, ◌==◌,
}
use qbit_nova_c.Language.Lexer.{
  TokenType, Token, token_at, is_space, is_digit, is_word, drop_while, Lexed, skipped, newline,
  lexed, too_long, copied, lex_state, lex_operator, lex, Tokenized, overflow, add_token,
  tokenize_loop, tokenize, max_text,
}

drop_while-length : (p : ℕ → Bool) (text : Text) → length (drop_while p text) ≤ length text
unfolding drop_while
drop_while-length p [] = omega arith
drop_while-length p (c ∷ rest) = ground (arith, drop_while-length p rest)

drop-length : (n : ℕ) (text : Text) → length (drop n text) ≤ length text
drop-length zero text = omega arith
drop-length (suc n) [] = omega arith
drop-length (suc n) (c ∷ text) = omega (arith, drop-length n text)

-- What is left after a round has at most `n` characters.
abbrev Leaves : (n : ℕ) → Lexed → Type 0
Leaves n (skipped rest) = length rest ≤ n
Leaves n (newline rest) = length rest ≤ n
Leaves n (lexed type value rest) = length rest ≤ n
Leaves n too_long = Unit

copied-Leaves :
    (n limit : ℕ) (type : TokenType) (value rest : Text)
    → length rest ≤ n
    → Leaves n (copied limit type value rest)
unfolding copied
copied-Leaves n limit type value rest h = ground (arith, h)

-- A digit or a letter that starts a word is copied.
drop_first :
    (p : ℕ → Bool) (c : ℕ) (rest : Text)
    → p c ≡ true
    → length (drop_while p (c ∷ rest)) ≤ length rest
unfolding drop_while
drop_first p c rest h = ground (arith, h, drop_while-length p rest)

lex_state-Leaves : (rest : Text) → Leaves (length rest) (lex_state rest)
unfolding lex_state
lex_state-Leaves rest = ground (arith, drop-length 2 rest)

lex_operator-Leaves : (c : ℕ) (rest : Text) → Leaves (length rest) (lex_operator c rest)
unfolding lex_operator copied
lex_operator-Leaves c rest =
    ground (arith, drop-length 1 rest, drop_first is_digit c rest, drop_first is_word c rest)

lex-Leaves : (c : ℕ) (rest : Text) → Leaves (length rest) (lex c rest)
unfolding lex copied
lex-Leaves c rest = ground (
  arith,
  lex_state-Leaves rest,
  lex_operator-Leaves c rest,
  drop_while-length (λ d. not (is_space d)) rest,
  drop-length 1 (drop_while (λ d. not (d == b'"')) rest),
  drop_while-length (λ d. not (d == b'"')) rest,
)

loop-ends :
    (fuel : ℕ) (src : Text) (line : ℕ) (toks : List Token)
    → length src < fuel
    → tokenize_loop fuel src line toks ≢ Tokenized.out_of_fuel
unfolding tokenize_loop add_token
loop-ends zero src line toks h = absurd (omega (arith, h))
loop-ends (suc fuel) [] line toks h = λ e. ground (arith, e)
loop-ends (suc fuel) (c ∷ src) line toks h =
    (elim (lex c src)
        as (λ r.
          Leaves (length src) r
          → (elim r as (λ _. Tokenized) [
            | skipped rest ↦ tokenize_loop fuel rest line toks
            | newline rest ↦ tokenize_loop fuel rest (line + 1) toks
            | lexed type value rest ↦ add_token type value line toks (tokenize_loop fuel rest line)
            | too_long ↦ overflow
          ])
            ≢ Tokenized.out_of_fuel) [
              | skipped rest ↦ λ short. loop-ends fuel rest line toks (omega (arith, h, short))
              | newline rest ↦
                  λ short. loop-ends fuel rest (line + 1) toks (omega (arith, h, short))
              | lexed type value rest ↦ λ short e. ground (
                arith,
                e,
                loop-ends fuel rest line (toks ++ token_at type (take max_text value) line ∷ [])
                    (omega (arith, h, short)),
              )
              | too_long ↦ λ _ e. ground (arith, e)
            ])
      (lex-Leaves c src)

-- The lexer always comes to an end: for every text it gives tokens, or it has more than an array holds.
pub tokenize-ends : (src : Text) → tokenize src ≢ Tokenized.out_of_fuel
unfolding tokenize
tokenize-ends src = loop-ends (suc (length src)) src 1 [] (omega arith)
