-- ===== src/Float.antt =====
-- The C type `double` and the operations that the sources apply to it (src/quantum/qcpu_kernel.c,
-- src/device/qcpu_device_wire.c): the compiler and the C library give them, so they are a
-- parameter, and so are the IEEE-754 facts that a result relies on.
use qbit_nova_c.Base.{ℕ, ◌<◌, ◌^◌, ◌≡◌, Bool}

pub record Float64 : Type 1 where
  pub Double : Type 0
  pub of_u64 : ℕ → Double  -- the conversion from uint64_t, and the literals
  pub add : Double → Double → Double
  pub sub : Double → Double → Double
  pub mul : Double → Double → Double
  pub div : Double → Double → Double
  pub sqrt : Double → Double
  pub abs : Double → Double
  pub is_finite : Double → Bool
  pub lt : Double → Double → Bool
  pub le : Double → Double → Bool
  pub to_bits : Double → ℕ  -- memcpy into a uint64_t
  pub of_bits : ℕ → Double  -- memcpy from a uint64_t

-- What memcpy between `double` and `uint64_t` does: the pattern is 64 bits and stands for one value.
pub record BitCopy (F : Float64) : Type 0 where
  pub to_bits_lt : (d : F.Double) → F.to_bits d < 2 ^ 64
  pub of_bits_to_bits : (d : F.Double) → F.of_bits (F.to_bits d) ≡ d
