-- ===== src/Language/Runner/Texts.antt =====
-- The source text of a program is written token by token, with a blank behind each.
use mathlib.Core.List.{append_assoc, append-nil}
use mathlib.Core.Path.{subst}
use qbit_nova_c.Base.{◌≡◌, refl, sym, inl, inr, same, List, [], ◌∷◌, ◌++◌, Text, codes, arith}
use qbit_nova_c.Language.Lexer.{
  TokenType, token_say, token_let, token_check, token_repeat, token_action, token_qbit,
  token_hadamard, token_measure, token_entangle, token_cnot, token_qmsg, token_encode, token_decode,
  keyword_type, Token, token_eq, token_string, token_number, token_lbrace, token_rbrace,
}
use qbit_nova_c.Language.Lexer.RoundTrip.{
  Writes, nothing, write, written_word, written_number, written_string, written_ket,
  written_comparison, written_sign,
}
use qbit_nova_c.Language.Source.{
  Stmt, Stmts, say_text, say_name, qmsg_text, qmsg_name, encode, decode, hadamard, measure, action,
  assign, qbit, entangle, cnot, check, repeat, no_stmts, stmt, head_token, tail_tokens, tokens_of,
  IsName, IsNumber, IsString, IsStmt, IsProgram, Comparison, Ket, comparison_text, comparison_type,
  ket_text, ket_type, word, number, tok, left_brace, right_brace, quote, spaced, put, put_all,
  source_of,
}

module _ {ts : List Token} {rest : Text} (w : Writes ts rest) where
  name-Writes : (name : Text) → IsName name → Writes (word name ∷ ts) (spaced name rest)
  name-Writes name h = write (keyword_type name) name name (written_word name refl h) w

  number-Writes : (n : Text) → IsNumber n → Writes (number n ∷ ts) (spaced n rest)
  number-Writes n h = write token_number n n (written_number n h) w

  string-Writes :
      (text : Text) → IsString text → Writes (tok token_string text ∷ ts) (spaced (quote text) rest)
  string-Writes text h = write token_string text (quote text) (written_string text refl h) w

  ket-Writes :
      (ket : Ket) → Writes (tok (ket_type ket) (ket_text ket) ∷ ts) (spaced (ket_text ket) rest)
  ket-Writes ket = write (ket_type ket) (ket_text ket) (ket_text ket) (written_ket ket refl refl) w

  comparison-Writes :
      (op : Comparison)
      → Writes
          (tok (comparison_type op) (comparison_text op) ∷ ts)
          (spaced (comparison_text op) rest)
  comparison-Writes op =
      write (comparison_type op) (comparison_text op) (comparison_text op)
        (written_comparison op refl refl) w

  eq-Writes : Writes (tok token_eq (codes "=") ∷ ts) (spaced (codes "=") rest)
  eq-Writes = write token_eq (codes "=") (codes "=") (written_sign b'=' refl (inl (refl, refl))) w

  left_brace-Writes : Writes (left_brace ∷ ts) (spaced (codes "{") rest)
  left_brace-Writes =
      write token_lbrace (codes "{") (codes "{") (written_sign b'{' refl (inr (inl (refl, refl)))) w

  right_brace-Writes : Writes (right_brace ∷ ts) (spaced (codes "}") rest)
  right_brace-Writes =
      write token_rbrace (codes "}") (codes "}") (written_sign b'}' refl (inr (inr (refl, refl)))) w

  keyword-Writes :
      (type : TokenType) (name : Text)
      → type ≡ keyword_type name
      → IsName name
      → Writes (tok type name ∷ ts) (spaced name rest)
  keyword-Writes type name e h = write type name name (written_word name e h) w

mutual
  unfolding tail_tokens tokens_of put put_all IsStmt IsProgram keyword_type same

  put-Writes :
      (s : Stmt)
      → IsStmt s
      → (ts : List Token) (rest : Text) → Writes ts rest
      → Writes (head_token s ∷ (tail_tokens s ++ ts)) (put s rest)
  put-Writes (say_text text) h ts rest w =
      keyword-Writes (string-Writes w text h) token_say (codes "say") refl (ground arith)
  put-Writes (say_name name) h ts rest w =
      keyword-Writes (name-Writes w name h) token_say (codes "say") refl (ground arith)
  put-Writes (qmsg_text text) h ts rest w =
      keyword-Writes (string-Writes w text h) token_qmsg (codes "qmsg") refl (ground arith)
  put-Writes (qmsg_name name) h ts rest w =
      keyword-Writes (name-Writes w name h) token_qmsg (codes "qmsg") refl (ground arith)
  put-Writes (encode name) h ts rest w =
      keyword-Writes (name-Writes w name h) token_encode (codes "encode") refl (ground arith)
  put-Writes (decode name) h ts rest w =
      keyword-Writes (name-Writes w name h) token_decode (codes "decode") refl (ground arith)
  put-Writes (hadamard name) h ts rest w =
      keyword-Writes (name-Writes w name h) token_hadamard (codes "hadamard") refl (ground arith)
  put-Writes (measure name) h ts rest w =
      keyword-Writes (name-Writes w name h) token_measure (codes "measure") refl (ground arith)
  put-Writes (action name) h ts rest w =
      keyword-Writes (name-Writes w name h) token_action (codes "action") refl (ground arith)
  put-Writes (assign name n) h ts rest w =
      keyword-Writes (name-Writes (eq-Writes (number-Writes w n h.1)) name h.0) token_let
        (codes "let") refl (ground arith)
  put-Writes (qbit name ket) h ts rest w =
      keyword-Writes (name-Writes (eq-Writes (ket-Writes w ket)) name h) token_qbit (codes "qbit")
        refl (ground arith)
  put-Writes (entangle left right) h ts rest w =
      keyword-Writes (name-Writes (name-Writes w right h.1) left h.0) token_entangle
        (codes "entangle") refl (ground arith)
  put-Writes (cnot left right) h ts rest w =
      keyword-Writes (name-Writes (name-Writes w right h.1) left h.0) token_cnot (codes "cnot") refl
        (ground arith)
  put-Writes (check name op n body) h ts rest w =
      let block = left_brace-Writes (
        put_all-Writes body h.2 (right_brace ∷ ts) (spaced (codes "}") rest)
          (right_brace-Writes w)) in
      subst
        (λ (b : List Token).
          Writes
            (head_token (check name op n body)
              ∷ word name
              ∷ tok (comparison_type op) (comparison_text op)
              ∷ number n
              ∷ left_brace
              ∷ b)
            (put (check name op n body) rest))
        (sym (append_assoc (tokens_of body) (right_brace ∷ []) ts))
        (keyword-Writes (name-Writes (comparison-Writes (number-Writes block n h.1) op) name h.0)
          token_check (codes "check") refl (ground arith))
  put-Writes (repeat count body) h ts rest w =
      let block = left_brace-Writes (
        put_all-Writes body h.1 (right_brace ∷ ts) (spaced (codes "}") rest)
          (right_brace-Writes w)) in
      subst
        (λ (b : List Token).
          Writes (head_token (repeat count body) ∷ number count ∷ left_brace ∷ b)
            (put (repeat count body) rest))
        (sym (append_assoc (tokens_of body) (right_brace ∷ []) ts))
        (keyword-Writes (number-Writes block count h.0) token_repeat (codes "repeat") refl
          (ground arith))

  put_all-Writes :
      (ss : Stmts)
      → IsProgram ss
      → (ts : List Token) (rest : Text) → Writes ts rest
      → Writes (tokens_of ss ++ ts) (put_all ss rest)
  put_all-Writes no_stmts h ts rest w = w
  put_all-Writes (stmt s more) h ts rest w =
      subst (λ (toks : List Token). Writes (head_token s ∷ toks) (put s (put_all more rest)))
        (sym (append_assoc (tail_tokens s) (tokens_of more) ts))
        (put-Writes s h.0 (tokens_of more ++ ts) (put_all more rest)
          (put_all-Writes more h.1 ts rest w))

pub source_of-Writes : (ss : Stmts) → IsProgram ss → Writes (tokens_of ss) (source_of ss)
source_of-Writes ss h =
    subst (λ (toks : List Token). Writes toks (source_of ss)) (append-nil (tokens_of ss))
      (put_all-Writes ss h [] [] nothing)
