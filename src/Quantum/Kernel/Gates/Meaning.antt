-- ===== src/Quantum/Kernel/Gates/Meaning.antt =====
-- What the gate loops compute: each gate as a function of the digits of the basis state's index.
use native.Mathlib.Nat.{pow-le-pow_right, mod-eq_of_lt}
use qbit_nova_c.Base.{
  sym, inl, inr, ap, ℕ, ◌+◌, ◌-◌, ◌^◌, ◌<◌, ◌≤◌, ◌≡◌, ◌≢◌, ◌∙◌, Bool, true, false, some, ◌==◌,
  if◌then◌else◌, arith, ◌⊎◌,
}
use qbit_nova_c.Base.Bits.{
  bit, bit-lt, two-pow-pos, bit_and-pow, bit_or-pow, bit-add_pow_self, bit-sub_pow_self, le_of_bit,
  bit-add_pow_ne, add_pow-lt,
}
use qbit_nova_c.Quantum.Kernel.{Complex, Kernel, kernel_ready, qubit_mask, shift_one, max_qubits}
use qbit_nova_c.Quantum.Kernel.Gates.{test_mask, not_set, controlled, pair_loop, swap_pair}
use qbit_nova_c.Quantum.Kernel.Gates.Pairs.{pair_loop_cell, pair_cell}

-- A kernel as qcpu_kernel_init leaves it, with its array `a`.
pub record IsReady {Double : Type 0} (k : Kernel Double) (a : ℕ → Complex Double) : Type 0 where
  pub some_qubit : 0 < k.qubit_count
  pub few_qubits : k.qubit_count ≤ max_qubits
  pub states : k.state_count ≡ 2 ^ k.qubit_count
  pub array : k.amplitudes ≡ some a

pub shift_one_lem : (k : ℕ) → k < 64 → shift_one k ≡ 2 ^ k
unfolding shift_one
shift_one_lem k h =
    let top : 2 ^ k ≤ 2 ^ 63 = pow-le-pow_right (omega arith) {j = 63} (omega arith) in
    mod-eq_of_lt (omega arith)

-- Qubit 0 is the most significant digit.
abbrev pub position : ℕ → ℕ → ℕ
position n qubit = n - 1 - qubit

-- The index with digit `p` turned over.
unfoldable pub flip : ℕ → ℕ → ℕ
flip p j = if bit p j == 1 then j - 2 ^ p else j + 2 ^ p

pub test_mask-pow : (p i : ℕ) → test_mask i (2 ^ p) ≡ (bit p i == 1)
test_mask-pow p i = ground (arith, bit_and-pow p i, bit-lt p i, two-pow-pos p)

pub bit_cases : (p i : ℕ) → (bit p i ≡ 0) ⊎ (bit p i ≡ 1)
bit_cases p i = ground (arith, bit-lt p i)

module _ {Double : Type 0} {k : Kernel Double} {a : ℕ → Complex Double} (r : IsReady k a) where
  open r use {some_qubit, few_qubits, states, array}

  pub IsReady-ready : kernel_ready k ≡ true
  unfolding kernel_ready
  IsReady-ready = rw (array, kernel_ready) (ground (arith, shift_one_lem k.qubit_count))

  pub qubit_mask_lem : (q : ℕ) → q < k.qubit_count → qubit_mask k q ≡ 2 ^ position k.qubit_count q
  unfolding qubit_mask
  qubit_mask_lem q h = shift_one_lem (position k.qubit_count q) (omega arith)

-- A loop that skips the cells whose digit `p` is set meets each pair at most once.
module _ (test : ℕ → Bool) (p : ℕ) (clear : (i : ℕ) → test i ≡ true → bit p i ≡ 0) where
  apart : (i : ℕ) → test i ≡ true → test (i + 2 ^ p) ≡ false
  apart i h = ground (arith, clear (i + 2 ^ p), bit-add_pow_self p i (clear i h))

  masked_cell :
      {A : Type 0} (f : A → A → A × A) (a : ℕ → A) (count j : ℕ)
      → pair_loop count test (2 ^ p) f a j ≡ pair_cell test (2 ^ p) f a count j
  masked_cell f a =
      pair_loop_cell test (2 ^ p) f a (two-pow-pos p) (λ i h. bit_or-pow p i (clear i h)) apart

not_set_clear : (p i : ℕ) → not_set (2 ^ p) i ≡ true → bit p i ≡ 0
not_set_clear p i h = ground (arith, test_mask-pow p i, bit_cases p i)

controlled_clear : (c p i : ℕ) → controlled (2 ^ c) (2 ^ p) i ≡ true → bit p i ≡ 0
controlled_clear c p i h = ground (arith, test_mask-pow p i, bit_cases p i)

-- A loop over all pairs: each cell from its own value and that of its partner.
module _ {A : Type 0} (f : A → A → A × A) (a : ℕ → A) (n p j : ℕ) (fits : j < 2 ^ n) where
  pub plain_cell :
      pair_loop (2 ^ n) (not_set (2 ^ p)) (2 ^ p) f a j
      ≡ (if bit p j == 1 then (f (a (flip p j)) (a j)).1 else (f (a j) (a (flip p j))).0)
  unfolding flip
  plain_cell =
      masked_cell (not_set (2 ^ p)) p (not_set_clear p) f a (2 ^ n) j
      ∙ ground (
        arith,
        test_mask-pow p j,
        test_mask-pow p (j - 2 ^ p),
        bit_cases p j,
        le_of_bit p j,
        bit-sub_pow_self p j,
        bit-add_pow_self p (j - 2 ^ p),
        two-pow-pos p,
      )

  pub controlled_cell :
      (c : ℕ)
      → c ≢ p
      → pair_loop (2 ^ n) (controlled (2 ^ c) (2 ^ p)) (2 ^ p) swap_pair a j
        ≡ (if bit c j == 1 then a (flip p j) else a j)
  unfolding flip
  controlled_cell c ne =
      masked_cell (controlled (2 ^ c) (2 ^ p)) p (controlled_clear c p) swap_pair a (2 ^ n) j
      ∙ ground (
        arith,
        test_mask-pow p j,
        test_mask-pow c j,
        test_mask-pow p (j - 2 ^ p),
        test_mask-pow c (j - 2 ^ p),
        bit_cases p j,
        bit_cases c j,
        bit_cases p (j - 2 ^ p),
        le_of_bit p j,
        bit-sub_pow_self p j,
        bit-add_pow_self p (j - 2 ^ p),
        bit-add_pow_ne c p (j - 2 ^ p) ne,
        two-pow-pos p,
      )

pub flip-lt : (p n j : ℕ) → p < n → j < 2 ^ n → flip p j < 2 ^ n
unfolding flip
flip-lt p n j lt fits = ground (arith, bit_cases p j, add_pow-lt p n j lt fits)

pub flip-flip : (p j : ℕ) → flip p (flip p j) ≡ j
unfolding flip
flip-flip p j =
    ground (arith, bit_cases p j, le_of_bit p j, bit-sub_pow_self p j, bit-add_pow_self p j)

-- Turning one digit over leaves every other digit.
pub bit-flip_ne : (r p j : ℕ) → r ≢ p → bit r (flip p j) ≡ bit r j
unfolding flip
bit-flip_ne r p j ne =
    let below : bit p j ≡ 1 → (j - 2 ^ p) + 2 ^ p ≡ j = λ e. omega (arith, le_of_bit p j e) in
    elim (bit_cases p j) [
      | inl e ↦ rw e (bit-add_pow_ne r p j ne e)
      | inr e ↦ rw e (
          sym (bit-add_pow_ne r p (j - 2 ^ p) ne (bit-sub_pow_self p j e))
          ∙ ap (λ (i : ℕ). bit r i) (below e))
    ]
