-- ===== src/Quantum/Kernel/Sample.antt =====
-- qcpu_kernel_norm, _validate, _sample, _measure and _run_shots: the squared amplitudes as a
-- distribution over the basis states.
pub mod Choice
pub mod Shots
pub mod Collapse
pub mod GhzNorm
use qbit_nova_c.Base.{
  ℕ, zero, suc, ◌+◌, ◌/◌, ◌%◌, ◌^◌, Bool, true, false, not, ◌||◌, Option, none, some, ◌==◌,
  if◌then◌else◌,
}
use qbit_nova_c.Base.Loops.{for_range}
use qbit_nova_c.Float.{Float64}
use qbit_nova_c.Quantum.Kernel.{
  Status, ok, err_argument, err_alloc, err_state, Complex, Kernel, kernel_ready, store, change,
  zero_amplitude, basis_state,
}
use qbit_nova_c.Quantum.Kernel.Rng.{rng_next}

pub record ShotResult : Type 0 where
  pub shots : ℕ
  pub state_count : ℕ
  pub counts : Option (ℕ → ℕ)

-- qcpu_shot_result_free, and the memset at the start of run_shots
abbrev pub no_result : ShotResult
no_result = record { shots = 0; state_count = 0; counts = none }

-- counts[state] += 1U, on uint64_t
unfoldable pub count_state : (ℕ → ℕ) → ℕ → ℕ → ℕ
unfolding store
count_state counts state = store counts state ((counts state + 1) % 2 ^ 64)

module _ (F : Float64) where
  open F use {Double, of_u64, add, sub, mul, div, abs, is_finite, lt, le}

  abbrev pub probability : Complex Double → Double
  probability c = add (mul c.re c.re) (mul c.im c.im)

  -- The cell of a kernel that is ready.
  abbrev pub cell : Kernel Double → ℕ → Complex Double
  cell k i = elim k.amplitudes [ none ↦ zero_amplitude F | some a ↦ a i ]

  unfoldable pub kernel_norm : Kernel Double → Double
  unfolding kernel_ready for_range
  kernel_norm k =
      if kernel_ready k
      then for_range k.state_count (λ index norm. add norm (probability (cell k index))) (of_u64 0)
      else of_u64 0

  unfoldable pub kernel_validate : Kernel Double → (tolerance : Double) → Status
  kernel_validate k tolerance =
      if not (kernel_ready k) || le tolerance (of_u64 0)
      then err_argument
      else (if not (is_finite (kernel_norm k))
            || lt tolerance (abs (sub (kernel_norm k) (of_u64 1)))
          then err_state
          else ok)

  -- (double)(value >> 11) * (1.0 / 9007199254740992.0)
  unfoldable pub rng_unit : Kernel Double → Double × Kernel Double
  unfolding rng_next
  rng_unit k =
      let (value, k') = rng_next k in
      (mul (of_u64 (value / 2 ^ 11)) (div (of_u64 1) (of_u64 9007199254740992)), k')

  -- The loop of qcpu_kernel_sample from `index`, with the rounds that are left; `none` if it ends
  -- without a return.
  unfoldable pub scan :
      (a : ℕ → Complex Double) (count : ℕ) (threshold : Double)
      → (rounds index : ℕ) → (cumulative : Double) → Option ℕ
  scan a count threshold zero index cumulative = none
  scan a count threshold (suc n) index cumulative =
      let sum = add cumulative (probability (a index)) in
      let rest = scan a count threshold n (index + 1) sum in
      if lt threshold sum || (index + 1 == count) then some index else rest

  -- The status, `*state` and the kernel with its generator advanced.
  unfoldable pub kernel_sample : Kernel Double → (state : ℕ) → Status × ℕ × Kernel Double
  unfolding kernel_ready scan
  kernel_sample k state =
      if kernel_ready k
      then (let (threshold, k') = rng_unit k in
          elim (scan (cell k) k.state_count threshold k.state_count 0 (of_u64 0)) [
            | some index ↦ (ok, index, k')
            | none ↦ (err_state, state, k')
          ])
      else (err_argument, state, k)

  -- The kernel after the collapse onto one state.
  abbrev pub collapsed : Kernel Double → ℕ → Kernel Double
  collapsed k state = record (change (λ _. basis_state F state) k) {
    measured = true;
    measured_state = state;
  }

  -- The status, `*measured_state` (`none` if it is not written) and the kernel. The out pointer is
  -- not NULL.
  unfoldable pub kernel_measure : Kernel Double → Status × Option ℕ × Kernel Double
  unfolding kernel_ready change
  kernel_measure k =
      if kernel_ready k
      then (let (status, state, k') = kernel_sample k 0 in
          elim status [ ok ↦ (ok, some state, collapsed k' state) | failed ↦ (failed, none, k') ])
      else (err_argument, none, k)

  -- The loop of qcpu_kernel_run_shots: status, kernel and counts.
  unfoldable pub shots_loop :
      (rounds : ℕ) → Kernel Double → (counts : ℕ → ℕ) → Status × Kernel Double × (ℕ → ℕ)
  shots_loop zero k counts = (ok, k, counts)
  shots_loop (suc n) k counts =
      let (status, state, k') = kernel_sample k 0 in
      let rest = shots_loop n k' (count_state counts state) in
      elim status [ ok ↦ rest | failed ↦ (failed, k', counts) ]

  -- The result pointer is not NULL; `allocated` says whether calloc of the counts succeeds.
  unfoldable pub kernel_run_shots :
      (allocated : Bool)
      → Kernel Double
      → (shots : ℕ) → ShotResult
      → Status × ShotResult × Kernel Double
  unfolding kernel_ready
  kernel_run_shots allocated k shots result =
      if not (kernel_ready k) || shots == 0
      then (err_argument, result, k)
      else (if allocated
          then (let (status, k', counts) = shots_loop shots k (λ _. 0) in
              elim status [
                | ok ↦ (
                  ok,
                  record { shots = shots; state_count = k.state_count; counts = some counts },
                  k',
                )
                | failed ↦ (failed, no_result, k')
              ])
          else (err_alloc, no_result, k))
