-- ===== src/Base/Bits.antt =====
-- Bit facts at every width: `bit p i` is digit `p` of `i`, and `bit_and`, `bit_or` with the mask
-- `2 ^ p` read and set it.
mod Step
use Prim.Native.Nat.{
  ℕ, zero, suc, ◌+◌, ◌-◌, ◌*◌, ◌/◌, ◌%◌, ◌^◌, ◌≤◌, ◌<◌, min, max, bit_and, bit_or,
}
use mathlib.Core.Path.{◌≡◌, refl, ap}
use mathlib.Core.Logic.{◌≢◌}
use native.Mathlib.Omega.{arith}
use native.Mathlib.Nat.{pow-suc, one-le-pow}
use Step.{bit_and_step, bit_or_step, bit_and-zero, bit_or-zero, bit_or-zero_left}

unfoldable pub bit : ℕ → ℕ → ℕ
bit zero i = i % 2
bit (suc p) i = bit p (i / 2)

pub bit-lt : (p i : ℕ) → bit p i < 2
unfolding bit
bit-lt zero i = omega arith
bit-lt (suc p) i = bit-lt p (i / 2)

pub two-pow-pos : (p : ℕ) → 0 < 2 ^ p
two-pow-pos p = one-le-pow p 2 (omega arith)

-- The mask test `i & (1 << p)`.
pub bit_and-pow : (p i : ℕ) → bit_and i (2 ^ p) ≡ bit p i * 2 ^ p
unfolding bit
bit_and-pow zero i = omega (arith, bit_and_step i 1, bit_and-zero (i / 2))
bit_and-pow (suc p) i = ground (
  arith,
  bit_and_step i (2 ^ suc p),
  pow-suc 2 p,
  bit_and-pow p (i / 2),
  ap (λ (t : ℕ). bit p (i / 2) * t) (pow-suc 2 p),
)

-- Setting a digit that is clear adds the mask.
pub bit_or-pow : (p i : ℕ) → bit p i ≡ 0 → bit_or i (2 ^ p) ≡ i + 2 ^ p
unfolding bit
bit_or-pow zero i h = omega (arith, bit_or_step i 1, bit_or-zero (i / 2))
bit_or-pow (suc p) i h =
    ground (arith, bit_or_step i (2 ^ suc p), pow-suc 2 p, bit_or-pow p (i / 2))

pub bit-add_pow_self : (p i : ℕ) → bit p i ≡ 0 → bit p (i + 2 ^ p) ≡ 1
unfolding bit
bit-add_pow_self zero i h = omega arith
bit-add_pow_self (suc p) i h =
    let e : (i + 2 ^ suc p) / 2 ≡ i / 2 + 2 ^ p = omega (arith, pow-suc 2 p) in
    rw e (bit-add_pow_self p (i / 2) h)

-- A digit that is set can be taken off.
pub le_of_bit : (p i : ℕ) → bit p i ≡ 1 → 2 ^ p ≤ i
unfolding bit
le_of_bit zero i h = omega arith
le_of_bit (suc p) i h = omega (arith, le_of_bit p (i / 2) h, pow-suc 2 p)

pub bit-sub_pow_self : (p i : ℕ) → bit p i ≡ 1 → bit p (i - 2 ^ p) ≡ 0
unfolding bit
bit-sub_pow_self zero i h = omega arith
bit-sub_pow_self (suc p) i h =
    let e : (i - 2 ^ suc p) / 2 ≡ i / 2 - 2 ^ p = omega (arith, pow-suc 2 p) in
    rw e (bit-sub_pow_self p (i / 2) h)

-- The other digits stay.
pub bit-add_pow_ne : (r p i : ℕ) → r ≢ p → bit p i ≡ 0 → bit r (i + 2 ^ p) ≡ bit r i
unfolding bit
bit-add_pow_ne zero zero i ne h = absurd (ne refl)
bit-add_pow_ne zero (suc p) i ne h = omega (arith, pow-suc 2 p)
bit-add_pow_ne (suc r) zero i ne h = let e : (i + 1) / 2 ≡ i / 2 = omega arith in rw e
bit-add_pow_ne (suc r) (suc p) i ne h =
    let e : (i + 2 ^ suc p) / 2 ≡ i / 2 + 2 ^ p = omega (arith, pow-suc 2 p) in
    rw e (bit-add_pow_ne r p (i / 2) (λ q. ne (ap suc q)) h)

-- Setting a clear digit below the width stays below the width.
pub add_pow-lt : (p n i : ℕ) → p < n → i < 2 ^ n → bit p i ≡ 0 → i + 2 ^ p < 2 ^ n
unfolding bit
add_pow-lt p zero i lt fits h = absurd (omega arith)
add_pow-lt zero (suc n) i lt fits h = omega (arith, pow-suc 2 n)
add_pow-lt (suc p) (suc n) i lt fits h =
    let half : i / 2 < 2 ^ n = omega (arith, pow-suc 2 n) in
    omega (arith, add_pow-lt p n (i / 2) (omega arith) half h, pow-suc 2 n, pow-suc 2 p)

pub bit-zero : (p : ℕ) → bit p 0 ≡ 0
unfolding bit
bit-zero zero = refl
bit-zero (suc p) = bit-zero p

-- Digit `p` of a multiple of `2 ^ p`.
pub bit-mul_pow : (p v : ℕ) → bit p (2 ^ p * v) ≡ v % 2
unfolding bit
bit-mul_pow zero v = omega arith
bit-mul_pow (suc p) v =
    let e : 2 ^ suc p * v / 2 ≡ 2 ^ p * v = omega (arith, ap (λ (t : ℕ). t * v) (pow-suc 2 p)) in
    rw e (bit-mul_pow p v)

-- A field shifted above `lo` joins it by `|` as by `+`.
pub bit_or-shift : (k lo b : ℕ) → lo < 2 ^ k → bit_or lo (b * 2 ^ k) ≡ lo + b * 2 ^ k
bit_or-shift zero lo b h =
    omega (arith, bit_or-zero_left (b * 2 ^ zero), ap (λ (t : ℕ). bit_or t (b * 1)) lo_zero)
  where
    lo_zero : lo ≡ 0
    lo_zero = omega arith
bit_or-shift (suc k) lo b h = ground (
  arith,
  bit_or_step lo (b * 2 ^ suc k),
  pow-suc 2 k,
  ap (λ (t : ℕ). b * t) (pow-suc 2 k),
  bit_or-shift k (lo / 2) b,
)
