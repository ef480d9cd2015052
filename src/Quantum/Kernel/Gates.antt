-- ===== src/Quantum/Kernel/Gates.antt =====
-- qcpu_kernel_apply_h, _x and _cx: loops over the basis states that change a pair of cells in place.
mod Pairs
pub mod Meaning
pub mod Effect
use qbit_nova_c.Base.{
  ℕ, ◌+◌, ◌-◌, Bool, true, false, not, ◌&&◌, ◌||◌, ltb, ◌==◌, if◌then◌else◌, bit_and, bit_or,
}
use qbit_nova_c.Base.Loops.{for_range}
use qbit_nova_c.Float.{Float64}
use qbit_nova_c.Quantum.Kernel.{
  Status, ok, err_argument, err_range, Complex, Kernel, kernel_ready, qubit_mask, change, store,
}

-- (index & mask) != 0
abbrev pub test_mask : ℕ → ℕ → Bool
test_mask index mask = not (bit_and index mask == 0)

-- One round: `continue` where the test fails, else both cells of the pair are written from the
-- values that they had.
pair_round : {A : Type 0} → (ℕ → Bool) → ℕ → (A → A → A × A) → ℕ → (ℕ → A) → ℕ → A
unfolding store
pair_round test mask f index amplitudes =
    if test index
    then (let paired = bit_or index mask in
        let (first, second) = f (amplitudes index) (amplitudes paired) in
        store (store amplitudes index first) paired second)
    else amplitudes

unfoldable pub pair_loop : {A : Type 0} → ℕ → (ℕ → Bool) → ℕ → (A → A → A × A) → (ℕ → A) → ℕ → A
unfolding for_range pair_round
pair_loop count test mask f = for_range count (pair_round test mask f)

abbrev pub swap_pair : {A : Type 0} → A → A → A × A
swap_pair first second = (second, first)

abbrev pub not_set : ℕ → ℕ → Bool
not_set mask index = not (test_mask index mask)

abbrev pub controlled : ℕ → ℕ → ℕ → Bool
controlled control_mask target_mask index =
    test_mask index control_mask && not_set target_mask index

module _ {Double : Type 0} where
  unfoldable pub apply_x : Kernel Double → ℕ → Status × Kernel Double
  unfolding kernel_ready qubit_mask change pair_loop
  apply_x k qubit =
      if kernel_ready k
      then (if ltb qubit k.qubit_count
          then (let mask = qubit_mask k qubit in
              let k' = change (pair_loop k.state_count (not_set mask) mask swap_pair) k in
              (ok, record k' { measured = false }))
          else (err_range, k))
      else (err_argument, k)

  unfoldable pub apply_cx : Kernel Double → (control target : ℕ) → Status × Kernel Double
  unfolding kernel_ready qubit_mask change pair_loop
  apply_cx k control target =
      if kernel_ready k
      then (if ltb control k.qubit_count && (ltb target k.qubit_count && not (control == target))
          then (let control_mask = qubit_mask k control in
              let target_mask = qubit_mask k target in
              let k' =
                change
                  (pair_loop k.state_count (controlled control_mask target_mask) target_mask
                    swap_pair)
                  k in
              (ok, record k' { measured = false }))
          else (err_range, k))
      else (err_argument, k)

module _ (F : Float64) where
  open F use {Double, of_u64, add, sub, mul, div, sqrt}

  -- 1.0 / sqrt(2.0)
  abbrev pub scale : Double
  scale = div (of_u64 1) (sqrt (of_u64 2))

  -- (first + second) * scale and (first - second) * scale, part by part
  abbrev pub hadamard_pair : Complex Double → Complex Double → Complex Double × Complex Double
  hadamard_pair first second = (
    record { re = mul (add first.re second.re) scale; im = mul (add first.im second.im) scale },
    record { re = mul (sub first.re second.re) scale; im = mul (sub first.im second.im) scale },
  )

  unfoldable pub apply_h : Kernel Double → ℕ → Status × Kernel Double
  unfolding kernel_ready qubit_mask change pair_loop
  apply_h k qubit =
      if kernel_ready k
      then (if ltb qubit k.qubit_count
          then (let mask = qubit_mask k qubit in
              let k' = change (pair_loop k.state_count (not_set mask) mask hadamard_pair) k in
              (ok, record k' { measured = false }))
          else (err_range, k))
      else (err_argument, k)
