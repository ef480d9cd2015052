-- ===== src/Language/Parser/RoundTrip.antt =====
-- The parser reads every program back from its tokens.
use mathlib.Core.List.{append_assoc}
use qbit_nova_c.Base.{
  ℕ, zero, suc, ◌≤◌, ◌<◌, ◌≡◌, ◌∙◌, refl, ap, arith, true, false, List, [], ◌∷◌, ◌++◌, Text, codes,
  length, take_all, length-append,
}
use qbit_nova_c.Language.Ast.{NodeType, Ast, null, node, node_program, node_ident, node_block}
use qbit_nova_c.Language.Lexer.{token_eof, token_repeat, Token, max_text, keyword_type}
use qbit_nova_c.Language.Source.{
  Stmt, Stmts, say_text, say_name, qmsg_text, qmsg_name, encode, decode, hadamard, measure, action,
  assign, qbit, entangle, cnot, check, repeat, no_stmts, stmt, head_token, tail_tokens, tokens_of,
  leaf, tree_of, trees_of, IsName, IsStmt, IsProgram, comparison_text, comparison_text-length,
  ket_text-length, ket_text, number, left_brace, right_brace, tok,
}
use qbit_nova_c.Language.Parser.{
  Parsed, parsed, past_end, after, new_node, with_left, with_right, with_body, with_next,
  parse_expr, argument, named, pair, quoted, parse_stmt, closes, block_of, link, parse_stmts,
  parse_block, loop_round, parse_loop, parse,
}

new_node-leaf :
    (type : NodeType) (value : Text)
    → length value ≤ max_text
    → new_node type value ≡ leaf type value
unfolding new_node
new_node-leaf type value h = ap (leaf type) (take_all max_text value h)

IsName-length : (name : Text) → IsName name → length name ≤ max_text
IsName-length [] h = absurd h
IsName-length (c ∷ rest) h = omega (arith, h.2)

argument-keyword_type : (w : Text) → argument (keyword_type w) w ≡ new_node node_ident w
unfolding argument keyword_type
argument-keyword_type w = ground arith

with_next-tree_of : (s : Stmt) (next : Ast) → with_next (tree_of s null) next ≡ tree_of s next
unfolding with_next tree_of
with_next-tree_of (say_text _) next = refl
with_next-tree_of s next = refl

-- The block of a check or a repeat, once its statements are read.
block-reads :
    (fuel : ℕ) (body : Stmts) (rest : List Token)
    → ((close : Token) (after_close : List Token)
        → closes close.type ≡ true
        → parse_stmts fuel (tokens_of body ++ close ∷ after_close)
          ≡ parsed (trees_of body) (close ∷ after_close))
    → parse_block fuel (left_brace ∷ ((tokens_of body ++ right_brace ∷ []) ++ rest))
      ≡ parsed (node node_block (codes "block") null null (trees_of body) null) rest
unfolding parse_block block_of new_node with_body
block-reads fuel body rest reads =
    ap (λ (ts : List Token). block_of (parse_stmts fuel ts))
      (append_assoc (tokens_of body) (right_brace ∷ []) rest)
    ∙ ap block_of (reads right_brace rest refl)

closes-head_token : (s : Stmt) → closes (head_token s).type ≡ false
closes-head_token (say_text _) = refl
closes-head_token s = refl

link-parsed :
    (read : Parsed) (parse_rest : List Token → Parsed) (s more : Ast) (rest rest' : List Token)
    → read ≡ parsed s rest
    → parse_rest rest ≡ parsed more rest'
    → link read parse_rest ≡ parsed (with_next s more) rest'
unfolding link
link-parsed read parse_rest s more rest rest' e e' = rw e (rw e' refl)

parse_stmts-open :
    (fuel : ℕ) (t : Token) (toks : List Token)
    → closes t.type ≡ false
    → parse_stmts (suc fuel) (t ∷ toks)
      ≡ link (parse_stmt t.type t.value (parse_block fuel) toks) (parse_stmts fuel)
unfolding parse_stmts parse_block
parse_stmts-open fuel t toks open_block = ground (arith, open_block)

mutual
  unfolding parse_stmt parse_expr named pair quoted new_node with_left with_right with_body
      tail_tokens tree_of tokens_of trees_of IsStmt IsProgram parse_stmts argument

  stmt-reads :
      (s : Stmt)
      → IsStmt s
      → (fuel : ℕ) (rest : List Token) → length (tail_tokens s) ≤ fuel
      → parse_stmt
          (head_token s).type
          (head_token s).value
          (parse_block fuel)
          (tail_tokens s ++ rest)
        ≡ parsed (tree_of s null) rest
  stmt-reads (say_text text) h fuel rest enough = rw (take_all max_text text h.1) refl
  stmt-reads (say_name name) h fuel rest enough =
      rw (argument-keyword_type name, take_all max_text name (IsName-length name h)) refl
  stmt-reads (qmsg_text text) h fuel rest enough = rw (take_all max_text text h.1) refl
  stmt-reads (qmsg_name name) h fuel rest enough =
      rw (argument-keyword_type name, take_all max_text name (IsName-length name h)) refl
  stmt-reads (encode name) h fuel rest enough =
      rw (take_all max_text name (IsName-length name h)) refl
  stmt-reads (decode name) h fuel rest enough =
      rw (take_all max_text name (IsName-length name h)) refl
  stmt-reads (hadamard name) h fuel rest enough =
      rw (take_all max_text name (IsName-length name h)) refl
  stmt-reads (measure name) h fuel rest enough =
      rw (take_all max_text name (IsName-length name h)) refl
  stmt-reads (action name) h fuel rest enough =
      rw (take_all max_text name (IsName-length name h)) refl
  stmt-reads (assign name n) h fuel rest enough =
      rw (take_all max_text name (IsName-length name h.0), take_all max_text n (omega (arith, h.1)))
        refl
  stmt-reads (qbit name ket) h fuel rest enough =
      rw
        (
          take_all max_text name (IsName-length name h),
          take_all max_text (ket_text ket) (ket_text-length ket),
        )
        refl
  stmt-reads (entangle left right) h fuel rest enough =
      rw
        (
          take_all max_text left (IsName-length left h.0),
          take_all max_text right (IsName-length right h.1),
        )
        refl
  stmt-reads (cnot left right) h fuel rest enough =
      rw
        (
          take_all max_text left (IsName-length left h.0),
          take_all max_text right (IsName-length right h.1),
        )
        refl
  stmt-reads (check name op n body) h fuel rest enough =
      let block = block-reads fuel body rest λ close r closing.
        stmts-reads body h.2 fuel close r closing
          (omega (arith, enough, length-append (tokens_of body) (right_brace ∷ []))) in
      rw
        (
          block,
          take_all max_text name (IsName-length name h.0),
          take_all max_text (comparison_text op) (comparison_text-length op),
          take_all max_text n (omega (arith, h.1)),
        )
        refl
  stmt-reads (repeat count body) h fuel rest enough =
      let block = block-reads fuel body rest λ close r closing.
        stmts-reads body h.1 fuel close r closing
          (omega (arith, enough, length-append (tokens_of body) (right_brace ∷ []))) in
      rw (block, take_all max_text count (omega (arith, h.0))) refl

  stmts-reads :
      (ss : Stmts)
      → IsProgram ss
      → (fuel : ℕ) (close : Token) (rest : List Token) → closes close.type ≡ true
      → length (tokens_of ss) < fuel
      → parse_stmts fuel (tokens_of ss ++ close ∷ rest) ≡ parsed (trees_of ss) (close ∷ rest)
  stmts-reads no_stmts h zero close rest closing enough = absurd (omega (arith, enough))
  stmts-reads no_stmts h (suc fuel) close rest closing enough = ground (arith, closing)
  stmts-reads (stmt s more) h zero close rest closing enough = absurd (omega (arith, enough))
  stmts-reads (stmt s more) h (suc fuel) close rest closing enough =
      let short = length-append (tail_tokens s) (tokens_of more) in
      let head =
        stmt-reads s h.0 fuel (tokens_of more ++ close ∷ rest) (omega (arith, enough, short)) in
      let tail = stmts-reads more h.1 fuel close rest closing (omega (arith, enough, short)) in
      ap (λ (ts : List Token). parse_stmts (suc fuel) (head_token s ∷ ts))
        (append_assoc (tail_tokens s) (tokens_of more) (close ∷ rest))
      ∙ parse_stmts-open fuel (head_token s) (tail_tokens s ++ (tokens_of more ++ close ∷ rest))
          (closes-head_token s)
      ∙ link-parsed
          (parse_stmt (head_token s).type (head_token s).value (parse_block fuel)
            (tail_tokens s ++ (tokens_of more ++ close ∷ rest)))
          (parse_stmts fuel) (tree_of s null) (trees_of more) (tokens_of more ++ close ∷ rest)
          (close ∷ rest) head tail
      ∙ ap (λ (t : Ast). parsed t (close ∷ rest)) (with_next-tree_of s (trees_of more))

parse_loop-open :
    (s : Stmt) (fuel : ℕ) (toks : List Token)
    → parse_loop (suc fuel) (head_token s ∷ toks)
      ≡ link
          (parse_stmt (head_token s).type (head_token s).value (parse_block fuel) toks)
          (parse_loop fuel)
unfolding parse_loop loop_round
parse_loop-open (say_text _) fuel toks = refl
parse_loop-open s fuel toks = refl

loop-reads :
    (ss : Stmts)
    → IsProgram ss
    → (fuel : ℕ) (end : Token) → end.type ≡ token_eof
    → length (tokens_of ss) < fuel
    → parse_loop fuel (tokens_of ss ++ end ∷ []) ≡ parsed (trees_of ss) (end ∷ [])
unfolding tokens_of trees_of IsProgram parse_loop loop_round
loop-reads no_stmts h zero end eof enough = absurd (omega (arith, enough))
loop-reads no_stmts h (suc fuel) end eof enough = ground (arith, eof)
loop-reads (stmt s more) h zero end eof enough = absurd (omega (arith, enough))
loop-reads (stmt s more) h (suc fuel) end eof enough =
    let short = length-append (tail_tokens s) (tokens_of more) in
    let toks = tokens_of more ++ end ∷ [] in
    let head = stmt-reads s h.0 fuel toks (omega (arith, enough, short)) in
    ap (λ (ts : List Token). parse_loop (suc fuel) (head_token s ∷ ts))
      (append_assoc (tail_tokens s) (tokens_of more) (end ∷ []))
    ∙ parse_loop-open s fuel (tail_tokens s ++ toks)
    ∙ link-parsed
        (parse_stmt (head_token s).type (head_token s).value (parse_block fuel)
          (tail_tokens s ++ toks))
        (parse_loop fuel) (tree_of s null) (trees_of more) toks (end ∷ []) head
        (loop-reads more h.1 fuel end eof (omega (arith, enough, short)))
    ∙ ap (λ (t : Ast). parsed t (end ∷ [])) (with_next-tree_of s (trees_of more))

-- The parser reads every program back from its tokens with an end token behind them: the tree is a
-- program node whose body is the list of the statements' trees, and all tokens but the end are used.
pub parse-tokens_of :
    (ss : Stmts) (end : Token)
    → IsProgram ss
    → end.type ≡ token_eof
    → parse (tokens_of ss ++ end ∷ [])
      ≡ parsed (node node_program (codes "program") null null (trees_of ss) null) (end ∷ [])
unfolding parse new_node with_body
parse-tokens_of ss end h eof =
    ap
      (λ (r : Parsed).
        after r λ body rest. parsed (with_body (new_node node_program (codes "program")) body) rest)
      (loop-reads ss h (suc (length (tokens_of ss ++ end ∷ []))) end eof
        (omega (arith, length-append (tokens_of ss) (end ∷ []))))

-- A repeat whose block is not closed makes the parser read behind the last token, whatever
-- statements the block holds.
pub parse_unclosed :
    (count : Text) (ss : Stmts) (end : Token)
    → IsProgram ss
    → end.type ≡ token_eof
    → parse
        (tok token_repeat (codes "repeat") ∷ number count ∷ left_brace ∷ (tokens_of ss ++ end ∷ []))
      ≡ past_end
unfolding parse parse_loop loop_round parse_stmt parse_block block_of link
parse_unclosed count ss end h eof =
    rw
      (stmts-reads ss h (suc (suc (suc (length (tokens_of ss ++ end ∷ []))))) end [] (ap closes eof)
        (omega (arith, length-append (tokens_of ss) (end ∷ []))))
      refl
