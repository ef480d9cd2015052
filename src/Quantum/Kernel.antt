-- ===== src/Quantum/Kernel.antt =====
-- src/quantum/qcpu_kernel.c and qcpu_kernel.h: the kernel's state, its start and its reset.
-- The amplitude array is `none` where the pointer is NULL, and else a function from the index, of
-- which the cells below `state_count` exist. A NULL kernel pointer fails every operation's first
-- test with `err_argument`, as a kernel that is not ready does, and has no state to model. Whether
-- calloc succeeds is an argument. size_t has 64 bits.
pub mod Rng
pub mod Gates
pub mod Start
pub mod Ghz
pub mod Sample
use qbit_nova_c.Base.{
  ℕ, ◌-◌, ◌%◌, ◌^◌, Bool, true, false, not, ◌&&◌, ◌||◌, Option, none, some, leb, ◌==◌,
  if◌then◌else◌,
}
use mathlib.Core.Option
use qbit_nova_c.Float.{Float64}

abbrev pub max_qubits : ℕ
max_qubits = 20

pub data Status : Type 0 where
  ok err_argument err_range err_alloc err_state : Status

-- double complex
pub record Complex (Double : Type 0) : Type 0 where
  pub re : Double
  pub im : Double

pub record Kernel (Double : Type 0) : Type 0 where
  pub qubit_count : ℕ
  pub state_count : ℕ
  pub amplitudes : Option (ℕ → Complex Double)
  pub rng_state : ℕ
  pub measured : Bool
  pub measured_state : ℕ

abbrev pub default_seed : ℕ
default_seed = 0x9e3779b97f4a7c15

-- (size_t)1U << k
unfoldable pub shift_one : ℕ → ℕ
shift_one k = 2 ^ k % 2 ^ 64

-- One cell of the array is written.
unfoldable pub store : {A : Type 0} → (ℕ → A) → ℕ → A → ℕ → A
store f i a j = if j == i then a else f j

module _ {Double : Type 0} where
  unfoldable pub kernel_ready : Kernel Double → Bool
  kernel_ready k = elim k.amplitudes [
    | none ↦ false
    | some _ ↦ not (k.qubit_count == 0) && (k.state_count == shift_one k.qubit_count)
  ]

  unfoldable pub qubit_mask : Kernel Double → ℕ → ℕ
  qubit_mask k qubit = shift_one (k.qubit_count - 1 - qubit)

  -- memset of the whole structure to 0
  abbrev pub cleared : Kernel Double
  cleared = record {
    qubit_count = 0;
    state_count = 0;
    amplitudes = none;
    rng_state = 0;
    measured = false;
    measured_state = 0;
  }

  unfoldable pub kernel_free : Kernel Double → Kernel Double
  kernel_free k = cleared

  -- The array in place of the one that is there.
  unfoldable pub change :
      ((ℕ → Complex Double) → ℕ → Complex Double) → Kernel Double → Kernel Double
  change f k = record k { amplitudes = Option.map f k.amplitudes }

module _ (F : Float64) where
  open F use {Double, of_u64}

  abbrev pub zero_amplitude : Complex Double
  zero_amplitude = record { re = of_u64 0; im = of_u64 0 }

  -- 1.0 + 0.0 * I
  abbrev pub one_amplitude : Complex Double
  one_amplitude = record { re = of_u64 1; im = of_u64 0 }

  -- memset of the array to 0, and 1.0 at one index
  unfoldable pub basis_state : ℕ → ℕ → Complex Double
  unfolding store
  basis_state state = store (λ _. zero_amplitude) state one_amplitude

  unfoldable pub kernel_reset : Kernel Double → Status × Kernel Double
  unfolding kernel_ready change basis_state
  kernel_reset k =
      if kernel_ready k
      then (ok, record (change (λ _. basis_state 0) k) { measured = false; measured_state = 0 })
      else (err_argument, k)

  unfoldable pub kernel_init :
      (allocated : Bool) → Kernel Double → (qubit_count seed : ℕ) → Status × Kernel Double
  unfolding kernel_reset shift_one
  kernel_init allocated k qubit_count seed =
      if qubit_count == 0 || (not (leb qubit_count max_qubits) || leb 64 qubit_count)
      then (err_range, k)
      else (if allocated
          then kernel_reset (record {
            qubit_count = qubit_count;
            state_count = shift_one qubit_count;
            amplitudes = some (λ _. zero_amplitude);
            rng_state = if seed == 0 then default_seed else seed;
            measured = false;
            measured_state = 0;
          })
          else (err_alloc, cleared))
