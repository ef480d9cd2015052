-- ===== src/Device/Daemon/Ghz.antt =====
-- What the daemon answers to a RUN_GHZ request that is in range.
use qbit_nova_c.Base.{
  ℕ, zero, suc, ◌-◌, ◌^◌, ◌<◌, ◌≤◌, ◌≡◌, ◌≢◌, ◌⊎◌, ◌∙◌, sym, refl, ap, true, false, some, arith,
}
use mathlib.Core.Path.{subst}
use qbit_nova_c.Float.{Float64}
use qbit_nova_c.Device.Protocol.{
  DeviceRequest, DeviceResponse, DeviceStatus, status_code, max_qubits, max_shots, response_magic,
  protocol_version, command_run_ghz, command_status,
}
use qbit_nova_c.Quantum.Kernel.{ok, Complex, Kernel, kernel_init}
use qbit_nova_c.Quantum.Kernel.Start.{kernel_init-IsReady}
use qbit_nova_c.Quantum.Kernel.Gates.Meaning.{IsReady, IsReady-ready}
use qbit_nova_c.Quantum.Kernel.Ghz.{apply_ghz}
use qbit_nova_c.Quantum.Kernel.Ghz.Cells.{GateLaws, HasTwoStates, apply_ghz-cells}
use qbit_nova_c.Quantum.Kernel.Sample.{
  kernel_validate, kernel_run_shots, kernel_measure, kernel_norm, ShotResult, no_result,
}
use qbit_nova_c.Quantum.Kernel.Sample.Choice.{SumLaws}
use qbit_nova_c.Quantum.Kernel.Sample.Shots.{seeded, seeded-IsReady, kernel_run_shots-two_states}
use qbit_nova_c.Quantum.Kernel.Sample.Collapse.{NormLaws, kernel_measure-two_states}
use qbit_nova_c.Quantum.Kernel.Sample.GhzNorm.{ghz_norm, kernel_norm-two_states}
use qbit_nova_c.Device.Daemon.{
  Memory, Outcome, tolerance, invalid_results, shoot, run_kernel, process_run_ghz, response_init,
  device_flags, process_request,
}

-- The IEEE-754 facts that a run relies on: exact sums and products of 0.0, 1.0 and 1.0 / sqrt(2.0),
-- and a GHZ state whose computed norm is finite and within 1e-12 of 1.0.
pub record RunLaws (F : Float64) : Type 0 where
  pub gates : GateLaws F
  pub sums : SumLaws F
  pub norms : NormLaws F
  pub tolerance_positive : F.le (tolerance F) (F.of_u64 0) ≡ false
  pub norm_finite : F.is_finite (ghz_norm F) ≡ true
  pub norm_close : F.lt (tolerance F) (F.abs (F.sub (ghz_norm F) (F.of_u64 1))) ≡ false

abbrev both : Memory
both = record { amplitudes = true; counts = true }

-- If only the first and the last state were counted, no result is invalid.
invalid_results-zero :
    (n final : ℕ) (counts : ℕ → ℕ)
    → ((j : ℕ) → j ≢ 0 → j ≢ final → counts j ≡ 0)
    → invalid_results n final counts ≡ 0
unfolding invalid_results
invalid_results-zero zero final counts none_else = refl
invalid_results-zero (suc n) final counts none_else =
    ground (arith, invalid_results-zero n final counts none_else, none_else n)

module _ (F : Float64) (laws : RunLaws F) where
  open F use {Double, of_u64}
  open laws use {gates, sums, norms, tolerance_positive, norm_finite, norm_close}

  validate_ghz :
      (k : Kernel Double) {a : ℕ → Complex Double}
      → IsReady k a
      → HasTwoStates F k.qubit_count (2 ^ k.qubit_count - 1) a
      → kernel_validate F k (tolerance F) ≡ ok
  unfolding kernel_validate
  validate_ghz k r cells =
      rw (IsReady-ready r, kernel_norm-two_states F sums k r cells) (ground arith)

  shoot-run :
      (k k1 k2 : Kernel Double) (shots m : ℕ) (result : ShotResult) (counts : ℕ → ℕ)
      → result.counts ≡ some counts
      → kernel_run_shots F true k shots no_result ≡ (ok, result, k1)
      → kernel_measure F k1 ≡ (ok, some m, k2)
      → shoot F both k shots
        ≡ some (record {
          kernel = k2;
          counts = counts;
          state_count = result.state_count;
          measured_state = m;
        })
  unfolding shoot
  shoot-run k k1 k2 shots m result counts filled run measure = ground arith

  -- The kernel calls of a run on `n` qubits all succeed.
  record Run (n : ℕ) (o : Outcome F) : Type 0 where
    states : o.kernel.state_count ≡ 2 ^ n
    ends : (o.measured_state ≡ 0) ⊎ (o.measured_state ≡ 2 ^ n - 1)
    counted : (j : ℕ) → j ≢ 0 → j ≢ 2 ^ n - 1 → o.counts j ≡ 0
    norm : kernel_norm F o.kernel ≡ of_u64 1

  shoot-Run :
      (k : Kernel Double) {a : ℕ → Complex Double} (shots : ℕ)
      → IsReady k a
      → HasTwoStates F k.qubit_count (2 ^ k.qubit_count - 1) a
      → 0 < shots
      → shots ≤ max_shots
      → (o : Outcome F) × (shoot F both k shots ≡ some o) × Run k.qubit_count o
  shoot-Run k {a} shots r cells pos few =
      let (s', counts, run, none_else) =
        kernel_run_shots-two_states F sums k shots no_result r cells pos (omega arith) in
      let k1 = seeded F k s' in
      let (m, k2, measure, collapse, ends) =
        kernel_measure-two_states F sums norms k1 (seeded-IsReady F k s' r) cells in
      let result : ShotResult = record {
        shots = shots;
        state_count = k.state_count;
        counts = some counts;
      } in
      (
        record { kernel = k2; counts = counts; state_count = k.state_count; measured_state = m },
        shoot-run k k1 k2 shots m result counts refl run measure,
        record {
          states = collapse.ready.states ∙ ap (λ (n : ℕ). 2 ^ n) collapse.same_size;
          ends = ends;
          counted = none_else;
          norm = collapse.norm;
        },
      )

  run_kernel-shoot :
      (junk k k1 : Kernel Double) (q shots seed : ℕ)
      → kernel_init F true junk q seed ≡ (ok, k)
      → apply_ghz F k ≡ (ok, k1)
      → kernel_validate F k1 (tolerance F) ≡ ok
      → run_kernel F both junk q shots seed ≡ shoot F both k1 shots
  unfolding run_kernel
  run_kernel-shoot junk k k1 q shots seed init ghz valid = ground arith

  run_kernel-Run :
      (junk : Kernel Double) (q shots seed : ℕ)
      → 0 < q
      → q ≤ max_qubits
      → 0 < shots
      → shots ≤ max_shots
      → (o : Outcome F) × (run_kernel F both junk q shots seed ≡ some o) × Run q o
  run_kernel-Run junk q shots seed some_qubit few_qubits some_shot few_shots =
      let (k, init, r, size, _, _) = kernel_init-IsReady F junk q seed some_qubit few_qubits in
      let (b, ghz, cells) = apply_ghz-cells F gates k r in
      let k1 : Kernel Double = record k {
        amplitudes = some b;
        measured = false;
        measured_state = 0;
      } in
      let r1 : IsReady k1 b = record {
        some_qubit = r.some_qubit;
        few_qubits = r.few_qubits;
        states = r.states;
        array = refl;
      } in
      let (o, shot, run) = shoot-Run k1 shots r1 cells some_shot few_shots in
      (
        o,
        run_kernel-shoot junk k k1 q shots seed init ghz (validate_ghz k1 r1 cells) ∙ shot,
        subst (λ n. Run n o) size run,
      )

  process_run_ghz-run :
      (junk : Kernel Double) (request : DeviceRequest) (response : DeviceResponse Double)
      (o : Outcome F)
      → 0 < request.qubits
      → request.qubits ≤ max_qubits
      → 0 < request.shots
      → request.shots ≤ max_shots
      → run_kernel F both junk request.qubits request.shots request.seed ≡ some o
      → process_run_ghz F both junk request response ≡ record response {
        status = 0;
        qubits = request.qubits;
        basis_states = o.kernel.state_count;
        shots = request.shots;
        measured_state = o.measured_state;
        invalid_results = invalid_results o.state_count (o.kernel.state_count - 1) o.counts;
        norm = kernel_norm F o.kernel;
      }
  unfolding process_run_ghz
  process_run_ghz-run junk request response o some_qubit few_qubits some_shot few_shots e =
      ground arith

  -- A valid answer: both magic fields set, the four flags, the sizes of the request, all shots and
  -- the measured state among the two states of a GHZ measurement, and a norm of exactly 1.0.
  pub record Answers (request : DeviceRequest) (response : DeviceResponse Double) : Type 0 where
    pub magic : response.magic ≡ response_magic
    pub version : response.version ≡ protocol_version
    pub status : response.status ≡ status_code DeviceStatus.ok
    pub flags : response.flags ≡ device_flags
    pub qubits : response.qubits ≡ request.qubits
    pub basis_states : response.basis_states ≡ 2 ^ request.qubits
    pub shots : response.shots ≡ request.shots
    pub measured_state :
        (response.measured_state ≡ 0) ⊎ (response.measured_state ≡ 2 ^ request.qubits - 1)
    pub invalid_results : response.invalid_results ≡ 0
    pub norm : response.norm ≡ of_u64 1

  process_run_ghz-Answers :
      (junk : Kernel Double) (request : DeviceRequest)
      → 0 < request.qubits
      → request.qubits ≤ max_qubits
      → 0 < request.shots
      → request.shots ≤ max_shots
      → Answers request (process_run_ghz F both junk request (response_init F))
  unfolding response_init
  process_run_ghz-Answers junk request some_qubit few_qubits some_shot few_shots =
      let (o, run, valid) =
        run_kernel-Run junk request.qubits request.shots request.seed some_qubit few_qubits
          some_shot few_shots in
      let answer =
        process_run_ghz-run junk request (response_init F) o some_qubit few_qubits some_shot
          few_shots run in
      let invalid =
        invalid_results-zero o.state_count (o.kernel.state_count - 1) o.counts (λ j first last.
          valid.counted j first (λ e. last (e ∙ ap (λ (n : ℕ). n - 1) (sym valid.states)))) in
      subst (Answers request) (sym answer) (record {
        magic = refl;
        version = refl;
        status = refl;
        flags = refl;
        qubits = refl;
        basis_states = valid.states;
        shots = refl;
        measured_state = valid.ends;
        invalid_results = invalid;
        norm = valid.norm;
      })

  process_request-run :
      (junk : Kernel Double) (request : DeviceRequest)
      → request.command ≡ command_run_ghz
      → process_request F both junk request ≡ process_run_ghz F both junk request (response_init F)
  unfolding process_request
  process_request-run junk request e = ground arith

  -- With memory for both arrays, the daemon answers a RUN_GHZ request for 1 to 20 qubits and 1 to
  -- 100 shots with status OK, the sizes asked for, no invalid result, the all-zero or the all-one
  -- state as the measured one, and a norm of exactly 1.0. Relies on RunLaws.
  pub process_request-Answers :
      (junk : Kernel Double) (request : DeviceRequest)
      → request.command ≡ command_run_ghz
      → 0 < request.qubits
      → request.qubits ≤ max_qubits
      → 0 < request.shots
      → request.shots ≤ max_shots
      → Answers request
          (process_request F (record { amplitudes = true; counts = true }) junk request)
  process_request-Answers junk request e some_qubit few_qubits some_shot few_shots =
      subst (Answers request) (sym (process_request-run junk request e))
        (process_run_ghz-Answers junk request some_qubit few_qubits some_shot few_shots)

module _ (F : Float64) where
  open F use {Double}

  -- Any other request gets a response without results: OK for STATUS, BAD_COMMAND for a command
  -- that is not known, RANGE for a run whose qubits are not 1 to 20 or whose shots are not 1 to 100.
  pub process_request-no_run :
      (memory : Memory) (junk : Kernel Double) (request : DeviceRequest)
      → (request.command ≡ command_status
          → process_request F memory junk request ≡ record (response_init F) { status = 0 })
        × (request.command ≢ command_status
            → request.command ≢ command_run_ghz
            → process_request F memory junk request ≡ record (response_init F) { status = 3 })
        × (request.command ≡ command_run_ghz
            → ((request.qubits ≡ 0) ⊎ (max_qubits < request.qubits))
              ⊎ ((request.shots ≡ 0) ⊎ (max_shots < request.shots))
            → process_request F memory junk request ≡ record (response_init F) { status = 4 })
  unfolding process_request process_run_ghz
  process_request-no_run memory junk request =
      (λ e. ground arith, λ no_status no_run. ground arith, λ e out. ground arith)
