-- ===== src/Language/Control/Blocks.antt =====
-- A CHECK or a REPEAT with its body and its END.
use mathlib.Core.List.{append_assoc}
use qbit_nova_c.Base.{
  ℕ, zero, suc, ◌+◌, ◌≤◌, ◌<◌, ◌≡◌, ◌∙◌, refl, ap, sym, Bool, true, false, some, List, [], ◌∷◌,
  ◌++◌, length, length-append, arith, ◌==◌, if◌then◌else◌, ltb, Bool-cases, inl, inr,
}
use qbit_nova_c.Language.Bytecode.{OpCode, op_check, op_repeat, op_end, Instruction, Code}
use qbit_nova_c.Language.Control.{
  step, Effects, Frame, machine, next, find_end, block_end, is_end, next_depth, dispatch, do_check,
  do_repeat, do_end, max_frames, rounds,
}
use qbit_nova_c.Language.Control.Steps.{
  At, At-block_end, Steps, here, more, Steps-trans, arrive, step-At,
}
use qbit_nova_c.Language.Control.Segments.{Beyond, Beyond-le, Placed, Segment, find_end-next}
use qbit_nova_c.Language.Meaning.{iterate}

abbrev pub block : Instruction → Code → Instruction → Code
block open_ins body end_ins = open_ins ∷ (body ++ end_ins ∷ [])

abbrev pub is_opener : OpCode → Bool
is_opener op_check = true
is_opener op_repeat = true
is_opener _ = false

opener-closed :
    (op : OpCode) → is_opener op ≡ true → (k : ℕ) → (is_end op ≡ false) × (next_depth op k ≡ k + 1)
opener-closed op_check h k = (refl, refl)
opener-closed op_repeat h k = (refl, refl)
opener-closed op_end h k = cc
opener-closed _ h k = cc

-- The END of the block that is looked for.
find_end-found :
    (ins : Instruction) (rest : Code) (i : ℕ) → ins.op ≡ op_end → find_end (ins ∷ rest) 0 i ≡ some i
unfolding find_end
find_end-found ins rest i h = rw (h, find_end) refl

-- The END of a block inside it.
find_end-inner :
    (ins : Instruction) (rest : Code) (k i : ℕ)
    → ins.op ≡ op_end
    → find_end (ins ∷ rest) (k + 1) i ≡ find_end rest k (i + 1)
find_end-inner ins rest k i h =
    find_end-next ins rest (k + 1) i (ground arith)
    ∙ ap (λ (d : ℕ). find_end rest d (i + 1)) (rw h (omega arith))

block_assoc :
    (o : Instruction) (body : Code) (e : Instruction) (rest : Code)
    → block o body e ++ rest ≡ o ∷ (body ++ e ∷ rest)
block_assoc o body e rest = ap (λ (c : Code). o ∷ c) (append_assoc body (e ∷ []) rest)

block-closed :
    (o e : Instruction) (body : Code)
    → is_opener o.op ≡ true
    → e.op ≡ op_end
    → ((rest : Code) (k i : ℕ) → find_end (body ++ rest) k i ≡ find_end rest k (i + length body))
    → (rest : Code) (k i : ℕ)
    → find_end (block o body e ++ rest) k i ≡ find_end rest k (i + length (block o body e))
block-closed o e body ho he closed rest k i =
    ap (λ (c : Code). find_end c k i) (block_assoc o body e rest)
    ∙ find_end-next o (body ++ e ∷ rest) k i (rw ((opener-closed o.op ho k).0) refl)
    ∙ ap (λ (d : ℕ). find_end (body ++ e ∷ rest) d (i + 1)) (opener-closed o.op ho k).1
    ∙ closed (e ∷ rest) (k + 1) (i + 1)
    ∙ find_end-inner e rest k (i + 1 + length body) he
    ∙ ap (find_end rest k) (omega (arith, length-append body (e ∷ [])))

-- The places of the parts of a block that stands at `p`.
module _ (o e : Instruction) (body : Code) {code post : Code} {p : ℕ}
    (at : Placed code p (block o body e) post) where
  At-open : At code p o (body ++ e ∷ post)
  At-open = record {
    before = at.before;
    length_before = at.length_before;
    splits = at.splits ∙ ap (λ (c : Code). at.before ++ c) (block_assoc o body e post);
  }

  at_body : Placed code (p + 1) body (e ∷ post)
  at_body = record {
    before = at.before ++ o ∷ [];
    length_before = omega (arith, at.length_before, length-append at.before (o ∷ []));
    splits =
        at.splits
        ∙ ap (λ (c : Code). at.before ++ c) (block_assoc o body e post)
        ∙ sym (append_assoc at.before (o ∷ []) (body ++ e ∷ post));
  }

  At-end : At code (p + 1 + length body) e post
  At-end = record {
    before = at_body.before ++ body;
    length_before = omega (arith, at_body.length_before, length-append at_body.before body);
    splits = at_body.splits ∙ sym (append_assoc at_body.before body (e ∷ post));
  }

  block_end-At :
      ((rest : Code) (k i : ℕ) → find_end (body ++ rest) k i ≡ find_end rest k (i + length body))
      → e.op ≡ op_end
      → block_end code p ≡ some (p + 1 + length body)
  block_end-At closed he =
      At-block_end At-open
      ∙ closed (e ∷ post) 0 (p + 1)
      ∙ find_end-found e post (p + 1 + length body) he

module _ {State : Type 0} (E : Effects State) where
  -- An END that is not that of the innermost repeat does nothing.
  end-Steps :
      (code post : Code) (p : ℕ) (e : Instruction) (frames : List Frame) (s : State)
      → e.op ≡ op_end
      → At code p e post
      → Beyond frames (p + 1)
      → Steps E code (machine p frames s) (machine (p + 1) frames s)
  unfolding dispatch do_end
  end-Steps code post p e [] s he at beyond = more (step-At E code [] s at ∙ rw he refl) here
  end-Steps code post p e (f ∷ outer) s he at beyond =
      more (step-At E code (f ∷ outer) s at ∙ rw he (ground arith)) here

  check-run :
      (o : Instruction) (code : Code) (p : ℕ) (frames : List Frame) (s : State) (target : ℕ)
      → o.op ≡ op_check
      → block_end code p ≡ some target
      → dispatch E o.op o code (machine p frames s)
        ≡ next (machine ((if (E.test o s).0 then p else target) + 1) frames (E.test o s).1)
  unfolding dispatch do_check
  check-run o code p frames s target ho found = rw (ho, found, do_check) refl

  -- A check runs its body or goes behind its END.
  pub check-Segment :
      (o e : Instruction) {body : Code} {d : ℕ} {f : State → State}
      → o.op ≡ op_check
      → e.op ≡ op_end
      → Segment E body d f
      → Segment E
          (block o body e)
          d
          (λ s. if (E.test o s).0 then f (E.test o s).1 else (E.test o s).1)
  check-Segment o e {body} {d} {f} ho he x = record {
    closed = block-closed o e body (rw ho refl) he x.closed;
    runs = λ code post p frames s at room beyond.
        let after = (E.test o s).1 in
        let first = λ (b : Bool) (h : (E.test o s).0 ≡ b).
          step-At E code frames s (At-open o e body at)
          ∙ check-run o code p frames s (p + 1 + length body) ho
              (block_end-At o e body at x.closed he)
          ∙ ap
              (λ (c : Bool).
                next (machine ((if c then p else p + 1 + length body) + 1) frames after))
              h in
        let chosen = λ (b : Bool) (h : (E.test o s).0 ≡ b).
          ap (λ (c : Bool). if c then f after else after) h in
        let lengths = length-append body (e ∷ []) in
        elim (Bool-cases (E.test o s).0) [
          | inl pass ↦
              arrive E code
                (more (first true pass) (
                  Steps-trans E code
                    (x.runs code (e ∷ post) (p + 1) frames after (at_body o e body at) room
                      (Beyond-le frames (omega (arith, lengths)) beyond))
                    (end-Steps code post (p + 1 + length body) e frames (f after) he
                      (At-end o e body at) (Beyond-le frames (omega (arith, lengths)) beyond))))
                (omega (arith, lengths)) (sym (chosen true pass))
          | inr fail ↦
              arrive E code (more (first false fail) here) (omega (arith, lengths))
                (sym (chosen false fail))
        ];
  }

  abbrev frame : (p q left : ℕ) → Frame
  frame p q left = record { repeat_start = p; repeat_end = q; repeat_left = left }

  -- The END of the innermost repeat: back to its first instruction, or out of it.
  repeat_end-step :
      (code post : Code) (p q left : ℕ) (e : Instruction) (frames : List Frame) (s : State)
      → e.op ≡ op_end
      → At code q e post
      → step E code (machine q (frame p q (suc left) ∷ frames) s) ≡ (
          if ltb 0 left
          then next (machine (p + 1) (frame p q left ∷ frames) s)
          else next (machine (q + 1) frames s))
  unfolding dispatch do_end
  repeat_end-step code post p q left e frames s he at =
      step-At E code (frame p q (suc left) ∷ frames) s at ∙ rw he (ground arith)

  repeat-round :
      (o e : Instruction) (body : Code) (d : ℕ) (f : State → State) (code post : Code) (p : ℕ)
      (frames : List Frame)
      → Segment E body d f
      → Placed code p (block o body e) post
      → suc (length frames) + d ≤ max_frames
      → (left : ℕ) (s : State)
      → Steps E code
          (machine (p + 1) (frame p (p + 1 + length body) (suc left) ∷ frames) s)
          (machine (p + 1 + length body) (frame p (p + 1 + length body) (suc left) ∷ frames) (f s))
  repeat-round o e body d f code post p frames x at room left s =
      x.runs code (e ∷ post) (p + 1) (frame p (p + 1 + length body) (suc left) ∷ frames) s
        (at_body o e body at) room (omega arith)

  -- The rounds that are left, from the first instruction of the body.
  repeat-rounds :
      (o e : Instruction) (body : Code) (d : ℕ) (f : State → State) (code post : Code) (p : ℕ)
      (frames : List Frame)
      → e.op ≡ op_end
      → Segment E body d f
      → Placed code p (block o body e) post
      → suc (length frames) + d ≤ max_frames
      → (left : ℕ) (s : State)
      → Steps E code
          (machine (p + 1) (frame p (p + 1 + length body) (suc left) ∷ frames) s)
          (machine (p + 1 + length body + 1) frames (iterate (suc left) f s))
  unfolding iterate
  repeat-rounds o e body d f code post p frames he x at room zero s =
      Steps-trans E code (repeat-round o e body d f code post p frames x at room 0 s)
        (more (repeat_end-step code post p _ 0 e frames (f s) he (At-end o e body at)) here)
  repeat-rounds o e body d f code post p frames he x at room (suc n) s =
      Steps-trans E code (repeat-round o e body d f code post p frames x at room (suc n) s) (
        more
          (repeat_end-step code post p _ (suc n) e frames (f s) he (At-end o e body at)
            ∙ ground arith)
          (repeat-rounds o e body d f code post p frames he x at room n (f s)))

  repeat-run :
      (o : Instruction) (code : Code) (p : ℕ) (frames : List Frame) (s : State) (q : ℕ)
      → o.op ≡ op_repeat
      → block_end code p ≡ some q
      → length frames < max_frames
      → dispatch E o.op o code (machine p frames s) ≡ (
          if rounds o.value == 0
          then next (machine (q + 1) frames s)
          else next (machine (p + 1) (frame p q (rounds o.value) ∷ frames) s))
  unfolding dispatch do_repeat
  repeat-run o code p frames s q ho found room = rw (ho, found, do_repeat) (ground arith)

  -- A repeat runs its body as often as its value says.
  pub repeat-Segment :
      (o e : Instruction) {body : Code} {d : ℕ} {f : State → State}
      → o.op ≡ op_repeat
      → e.op ≡ op_end
      → Segment E body d f
      → Segment E (block o body e) (suc d) (iterate (rounds o.value) f)
  unfolding iterate
  repeat-Segment o e {body} {d} {f} ho he x = record {
    closed = block-closed o e body (rw ho refl) he x.closed;
    runs = λ code post p frames s at room beyond.
        let q = p + 1 + length body in
        let lengths = length-append body (e ∷ []) in
        let first : (n : ℕ)
            → rounds o.value ≡ n
            → step E code (machine p frames s) ≡ (
                if n == 0
                then next (machine (q + 1) frames s)
                else next (machine (p + 1) (frame p q n ∷ frames) s)) =
          λ n h.
            step-At E code frames s (At-open o e body at)
            ∙ repeat-run o code p frames s q ho (block_end-At o e body at x.closed he) (omega arith)
            ∙ ap
                (λ (k : ℕ).
                  if k == 0
                  then next (machine (q + 1) frames s)
                  else next (machine (p + 1) (frame p q k ∷ frames) s))
                h in
        let go : (n : ℕ)
            → rounds o.value ≡ n
            → Steps E code (machine p frames s)
                (machine (p + length (block o body e)) frames (iterate n f s)) =
          elim [
            | zero ↦ λ h. arrive E code (more (first 0 h) here) (omega (arith, lengths)) refl
            | suc n ↦ λ h.
                arrive E code
                  (more (first (suc n) h ∙ ground arith)
                    (repeat-rounds o e body d f code post p frames he x at (omega arith) n s))
                  (omega (arith, lengths)) refl
          ] in
        go (rounds o.value) refl;
  }
