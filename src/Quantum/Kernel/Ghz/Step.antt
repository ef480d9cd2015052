-- ===== src/Quantum/Kernel/Ghz/Step.antt =====
-- One CX of the chain on a state with two cells.
use native.Mathlib.Nat.{pow-suc}
use qbit_nova_c.Base.{ℕ, zero, suc, ◌+◌, ◌/◌, ◌^◌, ◌<◌, ◌≡◌, ◌||◌, ◌==◌, if◌then◌else◌, arith}
use qbit_nova_c.Base.Bits.{bit, bit-zero, bit-add_pow_ne, two-pow-pos}
use qbit_nova_c.Quantum.Kernel.Gates.Meaning.{flip, flip-flip}

-- `peak` in the cells 0 and `top`, `rest` elsewhere.
abbrev pub two_states : {A : Type 0} → A → A → ℕ → ℕ → A
two_states peak rest top j = if j == 0 || j == top then peak else rest

flip-clear : (p j : ℕ) → bit p j ≡ 0 → flip p j ≡ j + 2 ^ p
unfolding flip
flip-clear p j h = ground arith

-- With the control digit `p + 1` set in `top` and the target digit `p` clear, the gate moves `top`
-- to `top + 2 ^ p`.
pub two_states-grow :
    {A : Type 0} (peak rest : A) (p top j : ℕ)
    → bit (suc p) top ≡ 1
    → bit p top ≡ 0
    → (if bit (suc p) j == 1
        then two_states peak rest top (flip p j)
        else two_states peak rest top j)
      ≡ two_states peak rest (top + 2 ^ p) j
two_states-grow peak rest p top j control target = ground (
  arith,
  flip-flip p j,
  flip-flip p 0,
  flip-flip p top,
  flip-clear p 0 (bit-zero p),
  flip-clear p top target,
  bit-zero (suc p),
  bit-add_pow_ne (suc p) p 0 (λ e. omega arith) (bit-zero p),
  bit-add_pow_ne (suc p) p top (λ e. omega arith) target,
  two-pow-pos p,
)

-- `top` has the digits from `p` up to `n - 1`.
pub top-bit : (p n top : ℕ) → p < n → top + 2 ^ p ≡ 2 ^ n → bit p top ≡ 1
unfolding bit
top-bit p zero top lt e = absurd (omega arith)
top-bit zero (suc n) top lt e = omega (arith, pow-suc 2 n)
top-bit (suc p) (suc n) top lt e =
    top-bit p n (top / 2) (omega arith) (omega (arith, pow-suc 2 n, pow-suc 2 p))

pub below-bit : (p n top : ℕ) → suc p < n → top + 2 ^ suc p ≡ 2 ^ n → bit p top ≡ 0
unfolding bit
below-bit p zero top lt e = absurd (omega arith)
below-bit zero (suc n) top lt e = omega (arith, pow-suc 2 n)
below-bit (suc p) (suc n) top lt e =
    below-bit p n (top / 2) (omega arith) (omega (arith, pow-suc 2 n, pow-suc 2 (suc p)))
