-- ===== src/Language/Compiler/Correct.antt =====
-- Compiled code, run by the machine's loop, does what the syntax tree says.
use qbit_nova_c.Base.{
  ℕ, ◌+◌, ◌≤◌, ◌≡◌, ◌∙◌, refl, ap, sym, ℤ, pos, true, Text, Option, some, none, [], ◌∷◌, ◌++◌,
  length, arith, get_elem?-length,
}
use mathlib.Core.List.{append_assoc, append-nil}
use mathlib.Core.Path.{subst}
use qbit_nova_c.Language.Ast.{
  NodeType, node_say, node_let, node_check, node_block, node_qbit, node_hadamard, node_measure,
  node_entangle, node_cnot, node_qmsg, node_encode_qmsg, node_decode_qmsg, node_repeat, node_action,
  Ast, null, node, text_of,
}
use qbit_nova_c.Language.Bytecode.{
  OpCode, op_say, op_let, op_qbit, op_hadamard, op_measure, op_entangle, op_cnot, op_check,
  op_repeat, op_end, op_safe_action, op_qmsg, op_encode_qmsg, op_decode_qmsg, Instruction, Code,
  instruction,
}
use qbit_nova_c.Language.Control.{Effects, machine, step, run, max_frames}
use qbit_nova_c.Language.Control.Steps.{is_plain, Steps-run}
use qbit_nova_c.Language.Control.Segments.{Segment, empty-Segment, append-Segment, plain-Segment}
use qbit_nova_c.Language.Control.Blocks.{block, check-Segment, repeat-Segment}
use qbit_nova_c.Language.Meaning.{body_depth, repeat_depth, comparison, execute_node, execute}
use qbit_nova_c.Language.Compiler.{
  and_then, text_or_empty, emit, value_of, emit_check, compile_node, compile,
}

emit-eq_some :
    (op : OpCode) (arg1 arg2 : Option Text) (v : ℤ) (code out : Code)
    → emit op arg1 arg2 v code ≡ some out
    → out ≡ code ++ instruction op (text_or_empty arg1) (text_or_empty arg2) v ∷ []
unfolding emit
emit-eq_some op arg1 arg2 v code out h = ground arith

pub and_then-eq_some :
    {A B : Type 0} (m : Option A) (f : A → Option B) {b : B}
    → and_then m f ≡ some b
    → (a : A) × (m ≡ some a) × (f a ≡ some b)
and_then-eq_some none f h = absurd (cc)
and_then-eq_some (some a) f h = (a, refl, h)

module _ {State : Type 0} (E : Effects State) (atoi : Text → ℤ) where
  -- What is emitted for a tree, behind the code that is there.
  record Emitted (code out : Code) (d : ℕ) (f : State → State) : Type 0 where
    seg : Code
    appended : out ≡ code ++ seg
    runs : Segment E seg d f

  Emitted-one :
      (op : OpCode) (arg1 arg2 : Option Text) (code out : Code)
      → is_plain op ≡ true
      → emit op arg1 arg2 (pos 0) code ≡ some out
      → Emitted code out 0
          (E.perform (instruction op (text_or_empty arg1) (text_or_empty arg2) (pos 0)))
  Emitted-one op arg1 arg2 code out h e = record {
    seg = instruction op (text_or_empty arg1) (text_or_empty arg2) (pos 0) ∷ [];
    appended = emit-eq_some op arg1 arg2 (pos 0) code out e;
    runs = plain-Segment E _ h;
  }

  -- An instruction that takes the text of node->left, which must be there.
  Emitted-left :
      (op : OpCode) (arg1 : Text → Option Text) (arg2 : Text → Option Text) (left : Ast)
      (code out : Code)
      → is_plain op ≡ true
      → and_then (value_of left) (λ v. emit op (arg1 v) (arg2 v) (pos 0) code) ≡ some out
      → Emitted code out 0 (
          E.perform (
            instruction op
              (text_or_empty (arg1 (text_of left)))
              (text_or_empty (arg2 (text_of left)))
              (pos 0)))
  Emitted-left op arg1 arg2 null code out h e = absurd (cc)
  Emitted-left op arg1 arg2 (node _ v _ _ _ _) code out h e =
      Emitted-one op (arg1 v) (arg2 v) code out h e

  text_or_empty-value_of : (t : Ast) → text_or_empty (value_of t) ≡ text_of t
  text_or_empty-value_of null = refl
  text_or_empty-value_of (node _ _ _ _ _ _) = refl

  abbrev end_ins : Instruction
  end_ins = instruction op_end [] [] (pos 0)

  emit_check-eq_some :
      (left : Ast) (code out : Code)
      → emit_check atoi left code ≡ some out
      → out ≡ code ++ comparison atoi left ∷ []
  unfolding emit_check comparison
  emit_check-eq_some (node _ op (node _ name _ _ _ _) (node _ number _ _ _ _) _ _) code out e =
      emit-eq_some op_check (some name) (some op) (atoi number) code out e
  emit_check-eq_some left code out e = emit-eq_some op_check none none (pos 0) code out e

  comparison-op : (left : Ast) → (comparison atoi left).op ≡ op_check
  unfolding comparison
  comparison-op (node _ op (node _ name _ _ _ _) (node _ number _ _ _ _) _ _) = refl
  comparison-op left = refl

  -- An instruction in front of a block, its body, and the END.
  emitted-block :
      (o : Instruction) (code c b out seg : Code)
      → c ≡ code ++ o ∷ []
      → b ≡ c ++ seg
      → out ≡ b ++ end_ins ∷ []
      → out ≡ code ++ block o seg end_ins
  emitted-block o code c b out seg hc hb ho = simp (ho, hb, hc, append_assoc) refl

  node-Emitted :
      (type : NodeType) (value : Text) (left : Ast) (body : Code → Option Code) (d : ℕ)
      (f : State → State)
      → ((c o : Code) → body c ≡ some o → Emitted c o d f)
      → (code out : Code) → compile_node atoi type value left body code ≡ some out
      → Emitted code out (body_depth type d) (execute_node atoi E type value left f)
  unfolding compile_node execute_node
  node-Emitted node_say value left body d f ih code out e =
      Emitted-left op_say (λ v. some v) (λ _. none) left code out refl e
  node-Emitted node_let value left body d f ih code out e =
      Emitted-left op_let (λ _. some value) (λ v. some v) left code out refl e
  node-Emitted node_qbit value left body d f ih code out e =
      Emitted-left op_qbit (λ _. some value) (λ v. some v) left code out refl e
  node-Emitted node_hadamard value left body d f ih code out e =
      Emitted-one op_hadamard (some value) none code out refl e
  node-Emitted node_measure value left body d f ih code out e =
      Emitted-one op_measure (some value) none code out refl e
  node-Emitted node_entangle value left body d f ih code out e =
      subst (λ (t : Text). Emitted code out 0 (E.perform (instruction op_entangle value t (pos 0))))
        (text_or_empty-value_of left)
        (Emitted-one op_entangle (some value) (value_of left) code out refl e)
  node-Emitted node_cnot value left body d f ih code out e =
      subst (λ (t : Text). Emitted code out 0 (E.perform (instruction op_cnot value t (pos 0))))
        (text_or_empty-value_of left)
        (Emitted-one op_cnot (some value) (value_of left) code out refl e)
  node-Emitted node_qmsg value left body d f ih code out e =
      subst (λ (t : Text). Emitted code out 0 (E.perform (instruction op_qmsg t [] (pos 0))))
        (text_or_empty-value_of left) (Emitted-one op_qmsg (value_of left) none code out refl e)
  node-Emitted node_encode_qmsg value left body d f ih code out e =
      Emitted-one op_encode_qmsg (some value) none code out refl e
  node-Emitted node_decode_qmsg value left body d f ih code out e =
      Emitted-one op_decode_qmsg (some value) none code out refl e
  node-Emitted node_action value left body d f ih code out e =
      Emitted-one op_safe_action (some value) none code out refl e
  node-Emitted node_check value left body d f ih code out e =
      let (c, h1, h) = and_then-eq_some _ _ e in
      let (b, h2, h3) = and_then-eq_some (body c) _ h in
      let x = ih c b h2 in
      record {
        seg = block (comparison atoi left) x.seg end_ins;
        appended =
            emitted-block (comparison atoi left) code c b out x.seg
              (emit_check-eq_some left code c h1) x.appended
              (emit-eq_some op_end none none (pos 0) b out h3);
        runs = check-Segment E (comparison atoi left) end_ins (comparison-op left) refl x.runs;
      }
  node-Emitted node_repeat value left body d f ih code out e =
      let (c, h1, h) = and_then-eq_some _ _ e in
      let (b, h2, h3) = and_then-eq_some (body c) _ h in
      let x = ih c b h2 in
      let o = instruction op_repeat [] [] (atoi value) in
      record {
        seg = block o x.seg end_ins;
        appended =
            emitted-block o code c b out x.seg
              (emit-eq_some op_repeat none none (atoi value) code c h1) x.appended
              (emit-eq_some op_end none none (pos 0) b out h3);
        runs = repeat-Segment E o end_ins refl refl x.runs;
      }
  node-Emitted node_block value left body d f ih code out e = ih code out e
  node-Emitted _ value left body d f ih code out e = record {
    seg = [];
    appended = ground (arith, append-nil code);
    runs = empty-Segment E 0;
  }

  compile-Emitted :
      (t : Ast) (code out : Code)
      → compile atoi t code ≡ some out
      → Emitted code out (repeat_depth t) (execute atoi E t)
  unfolding compile repeat_depth execute
  compile-Emitted null code out e = record {
    seg = [];
    appended = ground (arith, append-nil code);
    runs = empty-Segment E 0;
  }
  compile-Emitted (node type value left right body next) code out e =
      let (mid, h1, h2) = and_then-eq_some _ (compile atoi next) e in
      let x =
        node-Emitted type value left (compile atoi body) (repeat_depth body) (execute atoi E body)
          (compile-Emitted body) code mid h1 in
      let y = compile-Emitted next mid out h2 in
      record {
        seg = x.seg ++ y.seg;
        appended =
            y.appended ∙ ap (λ (c : Code). c ++ y.seg) x.appended ∙ append_assoc code x.seg y.seg;
        runs = append-Segment E x.runs y.runs;
      }

  run-At-end :
      (code : Code) (p : ℕ) (s : State) → p ≡ length code → run E 1 code (machine p [] s) ≡ some s
  unfolding run step
  run-At-end code p s h = rw (h, get_elem?-length code, run, step) refl

  -- If `compile` succeeds on a tree whose repeats nest at most 64 deep, the loop of run_bytecode on
  -- the code stops, and with the state that the recursive execution of the tree gives: with enough
  -- fuel it neither runs on nor returns early with a message of its own.
  pub run-compile :
      (t : Ast) (code : Code)
      → compile atoi t [] ≡ some code
      → repeat_depth t ≤ max_frames
      → (s : State) → (fuel : ℕ) × (run E fuel code (machine 0 [] s) ≡ some (execute atoi E t s))
  run-compile t code e shallow s =
      let x = compile-Emitted t [] code e in
      Steps-run E code 1
        (x.runs.runs code [] 0 [] s
          (record {
            before = [];
            length_before = refl;
            splits = x.appended ∙ sym (append-nil x.seg);
          })
          (omega arith) tt)
        (run-At-end code (0 + length x.seg) (execute atoi E t s)
          (omega (arith, ap length x.appended)))
