-- ===== src/Language/Compiler/Fits.antt =====
-- What `compile` emits fits the arrays of the source.
use qbit_nova_c.Base.{
  ◌≤◌, ◌<◌, ◌≡◌, ℤ, pos, Text, Option, some, none, [], ◌∷◌, ◌++◌, length, length-append, arith,
}
use mathlib.Core.Path.{subst}
use qbit_nova_c.Language.Ast.{
  NodeType, node_say, node_let, node_check, node_block, node_qbit, node_hadamard, node_measure,
  node_entangle, node_cnot, node_qmsg, node_encode_qmsg, node_decode_qmsg, node_repeat, node_action,
  Ast, null, node,
}
use qbit_nova_c.Language.Bytecode.{
  OpCode, Instruction, Code, instruction, max_instr, arg_size, op_check, op_end, op_repeat, op_say,
  op_let, op_qbit,
}
use qbit_nova_c.Language.Compiler.{
  and_then, text_or_empty, emit, value_of, emit_check, compile_node, compile,
}
use qbit_nova_c.Language.Compiler.Correct.{and_then-eq_some}

-- Both texts leave room for the terminating NUL.
abbrev pub TextsFit : Code → Type 0
TextsFit [] = Unit
TextsFit (ins ∷ code) = (length ins.arg1 < arg_size) × (length ins.arg2 < arg_size) × TextsFit code

pub record Fits (code : Code) : Type 0 where
  pub few : length code ≤ max_instr
  pub texts : TextsFit code

TextsFit-snoc :
    (code : Code) (ins : Instruction)
    → TextsFit code
    → length ins.arg1 < arg_size
    → length ins.arg2 < arg_size
    → TextsFit (code ++ ins ∷ [])
TextsFit-snoc [] ins t h1 h2 = (h1, h2, tt)
TextsFit-snoc (i ∷ code) ins t h1 h2 = (t.0, t.1, TextsFit-snoc code ins t.2 h1 h2)

emit-Fits :
    (op : OpCode) (arg1 arg2 : Option Text) (v : ℤ) (code out : Code)
    → Fits code
    → emit op arg1 arg2 v code ≡ some out
    → Fits out
unfolding emit
emit-Fits op arg1 arg2 v code out f h =
    let ins = instruction op (text_or_empty arg1) (text_or_empty arg2) v in
    ground (arith, f.few, length-append code (ins ∷ []), TextsFit-snoc code ins f.texts)

module _ (atoi : Text → ℤ) where
  emit_check-Fits :
      (left : Ast) (code out : Code) → Fits code → emit_check atoi left code ≡ some out → Fits out
  unfolding emit_check
  emit_check-Fits (node _ op (node _ name _ _ _ _) (node _ number _ _ _ _) _ _) code out f e =
      emit-Fits op_check (some name) (some op) (atoi number) code out f e
  emit_check-Fits left code out f e = emit-Fits op_check none none (pos 0) code out f e

  -- A block: its first instruction, its body and its END.
  block-Fits :
      (first body : Code → Option Code) (code out : Code)
      → ((c o : Code) → Fits c → first c ≡ some o → Fits o)
      → ((c o : Code) → Fits c → body c ≡ some o → Fits o)
      → Fits code
      → and_then (first code) (λ c. and_then (body c) (emit op_end none none (pos 0))) ≡ some out
      → Fits out
  block-Fits first body code out hf hb f e =
      let (c, h1, h) = and_then-eq_some (first code) _ e in
      let (b, h2, h3) = and_then-eq_some (body c) _ h in
      emit-Fits op_end none none (pos 0) b out (hb c b (hf code c f h1) h2) h3

  left-Fits :
      (op : OpCode) (arg1 arg2 : Text → Option Text) (left : Ast) (code out : Code)
      → Fits code
      → and_then (value_of left) (λ v. emit op (arg1 v) (arg2 v) (pos 0) code) ≡ some out
      → Fits out
  left-Fits op arg1 arg2 null code out f e = absurd (cc)
  left-Fits op arg1 arg2 (node _ v _ _ _ _) code out f e =
      emit-Fits op (arg1 v) (arg2 v) (pos 0) code out f e

  node-Fits :
      (type : NodeType) (value : Text) (left : Ast) (body : Code → Option Code)
      → ((c o : Code) → Fits c → body c ≡ some o → Fits o)
      → (code out : Code) → Fits code
      → compile_node atoi type value left body code ≡ some out
      → Fits out
  unfolding compile_node
  node-Fits node_say value left body ih code out f e =
      left-Fits op_say (λ v. some v) (λ _. none) left code out f e
  node-Fits node_let value left body ih code out f e =
      left-Fits op_let (λ _. some value) (λ v. some v) left code out f e
  node-Fits node_qbit value left body ih code out f e =
      left-Fits op_qbit (λ _. some value) (λ v. some v) left code out f e
  node-Fits node_hadamard value left body ih code out f e = emit-Fits _ _ _ _ code out f e
  node-Fits node_measure value left body ih code out f e = emit-Fits _ _ _ _ code out f e
  node-Fits node_entangle value left body ih code out f e = emit-Fits _ _ _ _ code out f e
  node-Fits node_cnot value left body ih code out f e = emit-Fits _ _ _ _ code out f e
  node-Fits node_qmsg value left body ih code out f e = emit-Fits _ _ _ _ code out f e
  node-Fits node_encode_qmsg value left body ih code out f e = emit-Fits _ _ _ _ code out f e
  node-Fits node_decode_qmsg value left body ih code out f e = emit-Fits _ _ _ _ code out f e
  node-Fits node_action value left body ih code out f e = emit-Fits _ _ _ _ code out f e
  node-Fits node_check value left body ih code out f e =
      block-Fits (emit_check atoi left) body code out (emit_check-Fits left) ih f e
  node-Fits node_repeat value left body ih code out f e =
      block-Fits (emit op_repeat none none (atoi value)) body code out
        (emit-Fits op_repeat none none (atoi value)) ih f e
  node-Fits node_block value left body ih code out f e = ih code out f e
  node-Fits _ value left body ih code out f e = subst Fits (cc) f

  -- Code that `compile` finishes has at most 1024 instructions, and each text of an instruction has
  -- less than 64 bytes.
  pub compile-Fits :
      (t : Ast) (code out : Code) → Fits code → compile atoi t code ≡ some out → Fits out
  unfolding compile
  compile-Fits null code out f e = subst Fits (cc) f
  compile-Fits (node type value left right body next) code out f e =
      let (mid, h1, h2) = and_then-eq_some _ (compile atoi next) e in
      compile-Fits next mid out
        (node-Fits type value left (compile atoi body) (compile-Fits body) code mid f h1) h2
