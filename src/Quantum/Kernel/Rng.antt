-- ===== src/Quantum/Kernel/Rng.antt =====
-- qcpu_rng_next: the xorshift64* generator on uint64_t.
use qbit_nova_c.Base.{ℕ, ◌*◌, ◌/◌, ◌%◌, ◌^◌, if◌then◌else◌, ◌==◌, bit_xor}
use qbit_nova_c.Quantum.Kernel.{Kernel, default_seed}

-- The three lines `value ^= value >> 12; value ^= value << 25; value ^= value >> 27`.
abbrev shift_12 : ℕ → ℕ
shift_12 v = bit_xor v (v / 2 ^ 12)

abbrev shift_25 : ℕ → ℕ
shift_25 v = bit_xor v (v * 2 ^ 25 % 2 ^ 64)

abbrev shift_27 : ℕ → ℕ
shift_27 v = bit_xor v (v / 2 ^ 27)

unfoldable pub rng_value : ℕ → ℕ
rng_value state = shift_27 (shift_25 (shift_12 (if state == 0 then default_seed else state)))

-- The number drawn, and the kernel with its new state.
unfoldable pub rng_next : {Double : Type 0} → Kernel Double → ℕ × Kernel Double
unfolding rng_value
rng_next k =
    let value = rng_value k.rng_state in
    (value * 2685821657736338717 % 2 ^ 64, record k { rng_state = value })
