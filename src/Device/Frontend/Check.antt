-- ===== src/Device/Frontend/Check.antt =====
-- The frontend's two gates: which exchanges it admits, and which backend responses it accepts.
use native.Mathlib.Nat.{pow-le-pow_right, mod-eq_of_lt}
use qbit_nova_c.Base.Bits.{two-pow-pos}
use qbit_nova_c.Base.{
  ℕ, ◌+◌, ◌-◌, ◌%◌, ◌^◌, ◌<◌, ◌≤◌, ◌≡◌, ◌≢◌, ◌⊎◌, ◌↔◌, true, false, some, none, arith, bit_and,
}
use qbit_nova_c.Uapi.{
  Request, Response, Exchange, zero_response, no_error, request_magic, response_magic,
  protocol_version, max_qubits, max_shots, command_status, command_run_ghz, required_flags,
  status_ok,
}
use qbit_nova_c.Device.Frontend.{
  Mock, timespec_to_ns, validate_backend_response, check_request, effective_timeout, max_timeout_ns,
  prevalidate, admit, reject,
}

-- A response that a backend may give with result 0: the magic number and version, status OK, the
-- four flags, the sizes of the request, a norm of at most 1.0, and for a run the number of basis
-- states, the all-zero or all-one state and no invalid result.
pub record Acceptable (q : Request) (r : Response) : Type 0 where
  pub magic : r.magic ≡ response_magic
  pub version : r.version ≡ protocol_version
  pub status : r.status ≡ status_ok
  pub flags : bit_and r.flags required_flags ≡ required_flags
  pub qubits : r.qubits ≡ q.qubits
  pub shots : r.shots ≡ q.shots
  pub norm : r.norm_q32_32 ≤ 2 ^ 32
  pub states : q.command ≡ command_run_ghz → r.basis_states ≡ 2 ^ q.qubits
  pub measured :
      q.command ≡ command_run_ghz → (r.measured_state ≡ 0) ⊎ (r.measured_state ≡ 2 ^ q.qubits - 1)
  pub invalid : q.command ≡ command_run_ghz → r.invalid_results ≡ 0

pow_small : (n : ℕ) → n ≤ max_qubits → (2 ^ n % 2 ^ 64 ≡ 2 ^ n) × (0 < 2 ^ n)
pow_small n h =
    let top : 2 ^ n ≤ 2 ^ 20 = pow-le-pow_right (omega arith) {j = 20} h in
    (mod-eq_of_lt (omega arith), two-pow-pos n)

pow_top : (n : ℕ) → n ≤ max_qubits → (2 ^ n % 2 ^ 64 + 2 ^ 64 - 1) % 2 ^ 64 ≡ 2 ^ n - 1
pow_top n h =
    let top : 2 ^ n ≤ 2 ^ 20 = pow-le-pow_right (omega arith) {j = 20} h in
    omega (arith, pow_small n h)

-- For a request of at most 20 qubits, a backend response is accepted exactly when it is acceptable.
pub validate_backend_response-Acceptable :
    (q : Request) (r : Response)
    → q.qubits ≤ max_qubits
    → ((validate_backend_response q r).error_number ≡ no_error) ↔ Acceptable q r
unfolding validate_backend_response
validate_backend_response-Acceptable q r few = (
  λ h. ground (arith, pow_small q.qubits few, pow_top q.qubits few),
  λ h. ground (arith, pow_small q.qubits few, pow_top q.qubits few),
)

-- A request that is well-formed and in range for its command.
pub record InRange (q : Request) : Type 0 where
  pub magic : q.magic ≡ request_magic
  pub version : q.version ≡ protocol_version
  pub sizes :
      ((q.command ≡ command_status) × (q.qubits ≡ 0) × (q.shots ≡ 0))
      ⊎ ((q.command ≡ command_run_ghz)
          × (0 < q.qubits)
          × (q.qubits ≤ max_qubits)
          × (0 < q.shots)
          × (q.shots ≤ max_shots))

check_request-InRange : (q : Request) → ((check_request q).error_number ≡ no_error) ↔ InRange q
unfolding check_request
check_request-InRange q = (λ h. ground arith, λ h. ground arith)

-- What must hold of the mock and the exchange at the time `sec`, `nsec` for an exchange to start.
pub record Admissible (m : Mock) (e : Exchange) (sec nsec : ℕ) : Type 0 where
  pub session_open : m.session_open ≡ true
  pub request : InRange e.request
  pub bounded : effective_timeout e.timeout_ns ≤ max_timeout_ns
  pub no_overflow : timespec_to_ns sec nsec + effective_timeout e.timeout_ns < 2 ^ 64
  pub not_busy : m.busy ≡ false
  pub attached : m.backend_attached ≡ true
  pub has_exchange : m.backend_ops.exchange ≢ none

timespec_to_ns-lt : (sec nsec : ℕ) → timespec_to_ns sec nsec < 2 ^ 64
unfolding timespec_to_ns
timespec_to_ns-lt sec nsec = omega arith

-- With a clock that can be read, an exchange is admitted exactly when the session is open, the request is well-formed and in range,
-- the timeout (1 s for 0) is at most 5 s and does not overflow the clock, no exchange runs and a
-- backend with an exchange function is attached.
pub prevalidate-Admissible :
    (m : Mock) (e : Exchange) (sec nsec : ℕ)
    → ((prevalidate m (some e) (some (sec, nsec))).error_number ≡ no_error)
      ↔ Admissible m e sec nsec
unfolding prevalidate admit reject
prevalidate-Admissible m e sec nsec = (
  λ h. ground (arith, check_request-InRange e.request, timespec_to_ns-lt sec nsec),
  λ h. ground (arith, check_request-InRange e.request, timespec_to_ns-lt sec nsec),
)

-- An admitted exchange leaves the mock as it was, clears the caller's response, and its deadline is
-- the time now plus the timeout.
pub prevalidate-deadline :
    (m : Mock) (e : Exchange) (sec nsec : ℕ)
    → Admissible m e sec nsec
    → prevalidate m (some e) (some (sec, nsec)) ≡ record {
      mock = m;
      exchange = some (record e { response = zero_response });
      error_number = no_error;
      deadline_ns = timespec_to_ns sec nsec + effective_timeout e.timeout_ns;
    }
unfolding prevalidate admit
prevalidate-deadline m e sec nsec h =
    ground (arith, check_request-InRange e.request, timespec_to_ns-lt sec nsec)
