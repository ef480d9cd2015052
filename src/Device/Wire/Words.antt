-- ===== src/Device/Wire/Words.antt =====
-- put_u16_le, put_u32_le, put_u64_le and their readers. `>> 8 * k` is `/ 2 ^ (8 * k)`, the cast to
-- uint8_t is `% 256`, and `|` is `bit_or`. The bytes read are below 256, so no shift overflows.
use qbit_nova_c.Base.{
  ℕ, zero, suc, ◌+◌, ◌*◌, ◌/◌, ◌%◌, ◌^◌, ◌<◌, ◌≡◌, ◌∙◌, ap, List, [], ◌∷◌, ◌++◌, get_or, bit_or,
  arith,
}
use qbit_nova_c.Base.Bits.{bit_or-shift}

-- The byte at an offset; the decoders read inside the packet only.
abbrev byte : List ℕ → ℕ → ℕ
byte input i = get_or input i 0

unfoldable pub put_u16_le : ℕ → List ℕ
put_u16_le v = (v % 256) ∷ (v / 2 ^ 8 % 256) ∷ []

unfoldable pub put_u32_le : ℕ → List ℕ
put_u32_le v = (v % 256) ∷ (v / 2 ^ 8 % 256) ∷ (v / 2 ^ 16 % 256) ∷ (v / 2 ^ 24 % 256) ∷ []

put_loop : (rounds index : ℕ) → ℕ → List ℕ
put_loop zero index v = []
put_loop (suc n) index v = (v / 2 ^ (index * 8) % 256) ∷ put_loop n (index + 1) v

unfoldable pub put_u64_le : ℕ → List ℕ
unfolding put_loop
put_u64_le v = put_loop 8 0 v

unfoldable pub get_u16_le : List ℕ → ℕ
get_u16_le input = bit_or (byte input 0) (byte input 1 * 2 ^ 8)

unfoldable pub get_u32_le : List ℕ → ℕ
get_u32_le input =
    bit_or (bit_or (bit_or (byte input 0) (byte input 1 * 2 ^ 8)) (byte input 2 * 2 ^ 16))
      (byte input 3 * 2 ^ 24)

get_loop : (rounds index : ℕ) → List ℕ → (value : ℕ) → ℕ
get_loop zero index input value = value
get_loop (suc n) index input value =
    get_loop n (index + 1) input (bit_or value (byte input index * 2 ^ (index * 8)))

unfoldable pub get_u64_le : List ℕ → ℕ
unfolding get_loop
get_u64_le input = get_loop 8 0 input 0

-- One more byte above a value that is known.
next_byte : (k lo b : ℕ) {acc : ℕ} → acc ≡ lo → lo < 2 ^ k → bit_or acc (b * 2 ^ k) ≡ lo + b * 2 ^ k
next_byte k lo b e h = ap (λ (t : ℕ). bit_or t (b * 2 ^ k)) e ∙ bit_or-shift k lo b h

pub get-put_u16 : (v : ℕ) (rest : List ℕ) → v < 2 ^ 16 → get_u16_le (put_u16_le v ++ rest) ≡ v
unfolding get_u16_le put_u16_le
get-put_u16 v rest h = omega (arith, bit_or-shift 8 (v % 256) (v / 2 ^ 8 % 256) (omega arith))

pub get-put_u32 : (v : ℕ) (rest : List ℕ) → v < 2 ^ 32 → get_u32_le (put_u32_le v ++ rest) ≡ v
unfolding get_u32_le put_u32_le
get-put_u32 v rest h = next_byte 24 (v % 2 ^ 24) (v / 2 ^ 24 % 256) e24 (omega arith) ∙ omega arith
  where
    e16 : bit_or (v % 256) (v / 2 ^ 8 % 256 * 2 ^ 8) ≡ v % 2 ^ 16
    e16 = bit_or-shift 8 (v % 256) (v / 2 ^ 8 % 256) (omega arith) ∙ omega arith

    e24 :
        bit_or (bit_or (v % 256) (v / 2 ^ 8 % 256 * 2 ^ 8)) (v / 2 ^ 16 % 256 * 2 ^ 16) ≡ v % 2 ^ 24
    e24 = next_byte 16 (v % 2 ^ 16) (v / 2 ^ 16 % 256) e16 (omega arith) ∙ omega arith

-- `j` is `k + 8`; both premises are linear at numerals.
join_byte :
    (k j v : ℕ) {acc : ℕ}
    → v % 2 ^ k < 2 ^ k
    → v % 2 ^ k + v / 2 ^ k % 256 * 2 ^ k ≡ v % 2 ^ j
    → acc ≡ v % 2 ^ k
    → bit_or acc (v / 2 ^ k % 256 * 2 ^ k) ≡ v % 2 ^ j
join_byte k j v lt step e = next_byte k (v % 2 ^ k) (v / 2 ^ k % 256) e lt ∙ step

pub get-put_u64 : (v : ℕ) (rest : List ℕ) → v < 2 ^ 64 → get_u64_le (put_u64_le v ++ rest) ≡ v
unfolding get_u64_le put_u64_le
get-put_u64 v rest h =
    (join_byte 56 64 v (omega arith) (omega arith) (
      join_byte 48 56 v (omega arith) (omega arith) (
        join_byte 40 48 v (omega arith) (omega arith) (
          join_byte 32 40 v (omega arith) (omega arith) (
            join_byte 24 32 v (omega arith) (omega arith) (
              join_byte 16 24 v (omega arith) (omega arith) (
                join_byte 8 16 v (omega arith) (omega arith)
                  (join_byte 0 8 v (omega arith) (omega arith) (omega arith)))))))))
    ∙ omega arith
