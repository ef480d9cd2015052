-- ===== src/Language/Control/Segments.antt =====
-- Stretches of code that the loop runs from their first to behind their last instruction.
use mathlib.Core.List.{append_assoc}
use qbit_nova_c.Base.{
  ℕ, max, ◌+◌, ◌≤◌, ◌≡◌, ◌∙◌, refl, ap, sym, true, false, List, [], ◌∷◌, ◌++◌, length,
  length-append, arith, ◌==◌, ◌&&◌,
}
use qbit_nova_c.Language.Bytecode.{OpCode, op_check, op_repeat, op_end, Instruction, Code}
use qbit_nova_c.Language.Control.{Effects, Frame, machine, find_end, is_end, next_depth, max_frames}
use qbit_nova_c.Language.Control.Steps.{Steps, here, Steps-trans, arrive, is_plain, plain-Steps}

-- The innermost repeat ends at or behind position `n`.
abbrev pub Beyond : List Frame → ℕ → Type 0
Beyond [] n = Unit
Beyond (f ∷ _) n = n ≤ f.repeat_end

-- Where a stretch stands in the code.
pub record Placed (code : Code) (p : ℕ) (seg : Code) (post : Code) : Type 0 where
  pub before : Code
  pub length_before : p ≡ length before
  pub splits : code ≡ before ++ (seg ++ post)

-- The scans pass over the stretch, and the loop runs it with effect `f`, given room for `d` more
-- nested repeats.
pub record Segment {State : Type 0} (E : Effects State) (seg : Code) (d : ℕ) (f : State → State)
    : Type 0 where
  pub closed :
      (rest : Code) (k i : ℕ) → find_end (seg ++ rest) k i ≡ find_end rest k (i + length seg)
  pub runs :
      (code post : Code) (p : ℕ) (frames : List Frame) (s : State)
      → Placed code p seg post
      → length frames + d ≤ max_frames
      → Beyond frames (p + length seg)
      → Steps E code (machine p frames s) (machine (p + length seg) frames (f s))

pub Beyond-le : (frames : List Frame) {m n : ℕ} → m ≤ n → Beyond frames n → Beyond frames m
Beyond-le [] h b = tt
Beyond-le (f ∷ _) h b = omega arith

module _ {State : Type 0} (E : Effects State) where
  pub empty-Segment : (d : ℕ) → Segment E [] d (λ s. s)
  empty-Segment d = record {
    closed = λ rest k i. ap (find_end rest k) (omega arith);
    runs = λ code post p frames s at room beyond. arrive E code here (omega arith) refl;
  }

  pub append-Segment :
      {a b : Code} {d e : ℕ} {f g : State → State}
      → Segment E a d f
      → Segment E b e g
      → Segment E (a ++ b) (max d e) (λ s. g (f s))
  append-Segment {a} {b} {d} {e} {f} {g} x y = record {
    closed = λ rest k i.
        ap (λ (c : Code). find_end c k i) (append_assoc a b rest)
        ∙ x.closed (b ++ rest) k i
        ∙ y.closed rest k (i + length a)
        ∙ ap (find_end rest k) (omega (arith, length-append a b));
    runs = λ code post p frames s at room beyond.
        arrive E code
          (Steps-trans E code
            (x.runs code (b ++ post) p frames s
              (record {
                before = at.before;
                length_before = at.length_before;
                splits = at.splits ∙ ap (λ (c : Code). at.before ++ c) (append_assoc a b post);
              })
              (omega arith) (Beyond-le frames (omega (arith, length-append a b)) beyond))
            (y.runs code post (p + length a) frames (f s)
              (record {
                before = at.before ++ a;
                length_before = omega (arith, at.length_before, length-append at.before a);
                splits =
                    at.splits
                    ∙ ap (λ (c : Code). at.before ++ c) (append_assoc a b post)
                    ∙ sym (append_assoc at.before a (b ++ post));
              })
              (omega arith) (Beyond-le frames (omega (arith, length-append a b)) beyond)))
          (omega (arith, length-append a b)) refl;
  }

-- An instruction that does not close the block looked for is passed over.
pub find_end-next :
    (ins : Instruction) (rest : Code) (k i : ℕ)
    → (is_end ins.op && (k == 0)) ≡ false
    → find_end (ins ∷ rest) k i ≡ find_end rest (next_depth ins.op k) (i + 1)
unfolding find_end
find_end-next ins rest k i h = rw (h, find_end) refl

plain-closed :
    (op : OpCode) → is_plain op ≡ true → (k : ℕ) → (is_end op ≡ false) × (next_depth op k ≡ k)
plain-closed op_check h k = cc
plain-closed op_repeat h k = cc
plain-closed op_end h k = cc
plain-closed op h k = (refl, refl)

pub plain-Segment :
    {State : Type 0} (E : Effects State) (ins : Instruction)
    → is_plain ins.op ≡ true
    → Segment E (ins ∷ []) 0 (E.perform ins)
plain-Segment E ins h = record {
  closed = λ rest k i.
      find_end-next ins rest k i (rw ((plain-closed ins.op h k).0) refl)
      ∙ ap (λ (d : ℕ). find_end rest d (i + 1)) (plain-closed ins.op h k).1;
  runs = λ code post p frames s at room beyond.
      plain-Steps E code frames s
        (record { before = at.before; length_before = at.length_before; splits = at.splits }) h;
}
