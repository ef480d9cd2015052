-- ===== src/Language/Parser/Total.antt =====
-- The parser's fuel, one more than the number of tokens, always suffices.
use mathlib.Core.Path.{subst}
use qbit_nova_c.Base.{
  ℕ, zero, suc, ◌≤◌, ◌<◌, ◌≢◌, arith, true, false, List, [], ◌∷◌, Text, codes, length, drop,
}
use qbit_nova_c.Language.Ast.{
  NodeType, Ast, null, node_say, node_qmsg, node_let, node_number, node_qbit, node_state,
  node_entangle, node_cnot, node_ident,
}
use qbit_nova_c.Language.Lexer.{
  TokenType, token_say, token_let, token_check, token_repeat, token_action, token_qbit, token_eof,
  token_directive, token_hadamard, token_measure, token_entangle, token_cnot, token_qmsg,
  token_encode, token_decode, Token,
}
use qbit_nova_c.Language.Parser.{
  Parsed, parsed, past_end, out_of_fuel, after, peek, parse_expr, named, pair, quoted, parse_stmt,
  closes, block_of, link, parse_stmts, parse_block, loop_round, parse_loop, parse,
}

-- The result is not for want of fuel, and leaves at most `n` tokens.
abbrev Within : (n : ℕ) → Parsed → Type 0
Within n (parsed tree rest) = length rest ≤ n
Within n past_end = Unit
Within n out_of_fuel = ⊥

after-Within :
    (n : ℕ) (m : ℕ) (read : Parsed) (next : Ast → List Token → Parsed)
    → Within m read
    → ((tree : Ast) (rest : List Token) → length rest ≤ m → Within n (next tree rest))
    → Within n (after read next)
after-Within n m (parsed tree rest) next h k = k tree rest h
after-Within n m past_end next h k = tt
after-Within n m out_of_fuel next h k = absurd h

peek-Within :
    (n : ℕ) (toks : List Token) (next : Token → Parsed)
    → ((t : Token) → 0 < length toks → Within n (next t))
    → Within n (peek toks next)
peek-Within n [] next k = tt
peek-Within n (t ∷ toks) next k = k t (omega arith)

length-drop : {A : Type 0} (n : ℕ) (xs : List A) → length (drop n xs) ≤ length xs
length-drop zero xs = omega arith
length-drop (suc n) [] = omega arith
length-drop (suc n) (x ∷ xs) = omega (arith, length-drop n xs)

-- A parser of blocks that keeps within the tokens it is given.
abbrev Bounded : (List Token → Parsed) → (n : ℕ) → Type 0
Bounded parse n = (toks : List Token) → length toks ≤ n → Within (length toks) (parse toks)

Within-le : (n m : ℕ) (r : Parsed) → n ≤ m → Within n r → Within m r
Within-le n m (parsed tree rest) le h = omega (arith, h, le)
Within-le n m past_end le h = tt
Within-le n m out_of_fuel le h = h

parse_expr-Within : (toks : List Token) → Within (length toks) (parse_expr toks)
unfolding parse_expr
parse_expr-Within toks = peek-Within _ toks _ λ name _.
    peek-Within _ (drop 1 toks) _ λ op _. peek-Within _ (drop 2 toks) _ λ n _. length-drop 3 toks

named-Within : (type : NodeType) (toks : List Token) → Within (length toks) (named type toks)
unfolding named
named-Within type toks = peek-Within _ toks _ λ name _. length-drop 1 toks

pair-Within :
    (type : NodeType) (skip : ℕ) (left : NodeType) (toks : List Token)
    → Within (length toks) (pair type skip left toks)
unfolding pair
pair-Within type skip left toks = peek-Within _ toks _ λ name _.
    peek-Within _ (drop skip toks) _
      λ n _. omega (arith, length-drop 1 (drop skip toks), length-drop skip toks)

quoted-Within :
    (type : NodeType) (value : Text) (toks : List Token)
    → Within (length toks) (quoted type value toks)
unfolding quoted
quoted-Within type value toks = peek-Within _ toks _ λ name _. length-drop 1 toks

parse_stmt-Within :
    (type : TokenType) (value : Text) (block : List Token → Parsed) (toks : List Token)
    → Bounded block (length toks)
    → Within (length toks) (parse_stmt type value block toks)
unfolding parse_stmt
parse_stmt-Within token_say value block toks bounded = quoted-Within node_say (codes "say") toks
parse_stmt-Within token_let value block toks bounded = pair-Within node_let 2 node_number toks
parse_stmt-Within token_check value block toks bounded =
    after-Within _ (length toks) (parse_expr toks) _ (parse_expr-Within toks) λ expr rest short.
      after-Within _ (length rest) (block rest) _ (bounded rest short)
        λ body rest' short'. omega (arith, short, short')
parse_stmt-Within token_repeat value block toks bounded = peek-Within _ toks _ λ count _.
    after-Within _ (length (drop 1 toks)) (block (drop 1 toks)) _
      (bounded (drop 1 toks) (length-drop 1 toks))
      λ body rest short. omega (arith, short, length-drop 1 toks)
parse_stmt-Within token_qmsg value block toks bounded = quoted-Within node_qmsg (codes "qmsg") toks
parse_stmt-Within token_encode value block toks bounded = named-Within _ toks
parse_stmt-Within token_decode value block toks bounded = named-Within _ toks
parse_stmt-Within token_qbit value block toks bounded = pair-Within node_qbit 2 node_state toks
parse_stmt-Within token_hadamard value block toks bounded = named-Within _ toks
parse_stmt-Within token_measure value block toks bounded = named-Within _ toks
parse_stmt-Within token_entangle value block toks bounded =
    pair-Within node_entangle 1 node_ident toks
parse_stmt-Within token_cnot value block toks bounded = pair-Within node_cnot 1 node_ident toks
parse_stmt-Within token_action value block toks bounded = named-Within _ toks
parse_stmt-Within _ value block toks bounded = omega arith

link-Within :
    (n : ℕ) (read : Parsed) (parse_rest : List Token → Parsed)
    → Within n read
    → Bounded parse_rest n
    → Within n (link read parse_rest)
unfolding link
link-Within n read parse_rest h bounded = after-Within _ n read _ h λ s rest short.
    after-Within _ (length rest) (parse_rest rest) _ (bounded rest short)
      λ more rest' short'. omega (arith, short, short')

block_of-Within : (n : ℕ) (r : Parsed) → Within n r → Within n (block_of r)
unfolding block_of
block_of-Within n r h =
    after-Within n n r _ h λ body rest short. omega (arith, length-drop 1 rest, short)

stmts-Within :
    (fuel : ℕ) (toks : List Token)
    → length toks < fuel
    → Within (length toks) (parse_stmts fuel toks)
unfolding parse_stmts
stmts-Within zero toks h = absurd (omega (arith, h))
stmts-Within (suc fuel) [] h = tt
stmts-Within (suc fuel) (t ∷ toks) h =
    let block : Bounded (λ ts. block_of (parse_stmts fuel (drop 1 ts))) (length toks) = λ ts short.
      Within-le (length (drop 1 ts)) (length ts) (block_of (parse_stmts fuel (drop 1 ts)))
        (length-drop 1 ts)
        (block_of-Within (length (drop 1 ts)) (parse_stmts fuel (drop 1 ts))
          (stmts-Within fuel (drop 1 ts) (omega (arith, h, short, length-drop 1 ts)))) in
    let linked =
      link-Within (length toks)
        (parse_stmt t.type t.value (λ ts. block_of (parse_stmts fuel (drop 1 ts))) toks)
        (parse_stmts fuel)
        (parse_stmt-Within t.type t.value (λ ts. block_of (parse_stmts fuel (drop 1 ts))) toks
          block)
        (λ ts short. stmts-Within fuel ts (omega (arith, h, short))) in
    elim (closes t.type)
      as (λ b. Within (suc (length toks)) (elim b as (λ _. Parsed) [
        | true ↦ parsed null (t ∷ toks)
        | false ↦
            link (parse_stmt t.type t.value (λ ts. block_of (parse_stmts fuel (drop 1 ts))) toks)
              (parse_stmts fuel)
      ])) [
        | true ↦ omega arith
        | false ↦ Within-le (length toks) (suc (length toks)) _ (omega arith) linked
      ]

block-Bounded : (fuel n : ℕ) → n < fuel → Bounded (parse_block fuel) n
unfolding parse_block
block-Bounded fuel n h toks short =
    Within-le (length (drop 1 toks)) (length toks) (block_of (parse_stmts fuel (drop 1 toks)))
      (length-drop 1 toks)
      (block_of-Within (length (drop 1 toks)) (parse_stmts fuel (drop 1 toks))
        (stmts-Within fuel (drop 1 toks) (omega (arith, h, short, length-drop 1 toks))))

round-Within :
    (type : TokenType) (t : Token) (block rest : List Token → Parsed) (toks : List Token)
    → Bounded block (length toks)
    → Bounded rest (length toks)
    → Within (suc (length toks)) (loop_round type t block rest toks)
unfolding loop_round
round-Within token_eof t block rest toks b r = omega arith
round-Within token_directive t block rest toks b r =
    Within-le (length toks) _ (rest toks) (omega arith) (r toks (omega arith))
round-Within type t block rest toks b r =
    Within-le (length toks) (suc (length toks)) (link (parse_stmt type t.value block toks) rest)
      (omega arith)
      (link-Within (length toks) (parse_stmt type t.value block toks) rest
        (parse_stmt-Within type t.value block toks b) r)

loop-Within :
    (fuel : ℕ) (toks : List Token)
    → length toks < fuel
    → Within (length toks) (parse_loop fuel toks)
unfolding parse_loop
loop-Within zero toks h = absurd (omega (arith, h))
loop-Within (suc fuel) [] h = tt
loop-Within (suc fuel) (t ∷ toks) h =
    round-Within t.type t (parse_block fuel) (parse_loop fuel) toks
      (block-Bounded fuel (length toks) (omega (arith, h)))
      (λ ts short. loop-Within fuel ts (omega (arith, h, short)))

-- The parser always comes to an end: on every array of tokens it returns a tree, or it reads behind
-- the last token, and its fuel never runs out.
pub parse-ends : (toks : List Token) → parse toks ≢ Parsed.out_of_fuel
unfolding parse
parse-ends toks e = subst (Within (length toks)) e (
    after-Within (length toks) (length toks) (parse_loop (suc (length toks)) toks) _
      (loop-Within (suc (length toks)) toks (omega arith)) (λ body rest short. short))
