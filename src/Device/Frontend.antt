-- ===== src/Device/Frontend.antt =====
-- src/device/qcpu_mock_frontend.c: the device that a client opens. Each function here is a stretch
-- of code that runs under `mock->mutex`, or a helper of one. The backend's two functions, the clock
-- and the memory allocator are given by their results.
pub mod Check
pub mod Exchanges
pub mod Outcome
pub mod NormWord
pub mod Queries
pub mod System
use qbit_nova_c.Base.{
  ℕ, ◌+◌, ◌-◌, ◌*◌, ◌%◌, ◌^◌, Bool, true, false, not, ◌&&◌, ◌||◌, Option, none, some, ltb, leb,
  ◌==◌, if◌then◌else◌, bit_and,
}
use mathlib.Core.Option
use qbit_nova_c.Uapi.{
  Request, Response, Exchange, zero_response, Errno, no_error, einval, ebusy, eproto,
  eprotonosupport, eopnotsupp, erange, eio, enodev, etimedout, ecanceled, request_magic,
  response_magic, protocol_version, max_qubits, max_shots, command_status, command_run_ghz,
  required_flags, status_ok, status_bad_magic, status_bad_version, status_bad_command, status_range,
  status_kernel, status_io, status_backend_absent, status_busy, status_timeout, status_canceled,
  device_offline, device_idle, device_busy,
}

abbrev pub default_timeout_ns : ℕ
default_timeout_ns = 1_000_000_000

abbrev pub max_timeout_ns : ℕ
max_timeout_ns = 5_000_000_000

-- struct qcpu_backend_ops, by the address of each function: `none` is NULL.
pub record BackendOps : Type 0 where
  pub exchange : Option ℕ
  pub cancel : Option ℕ

-- The fields of struct qcpu_mock that the exchange protocol reads or writes. Tasks are numbered.
pub record Mock : Type 0 where
  pub backend_ops : BackendOps
  pub backend_context : ℕ
  pub backend_attached : Bool
  pub session_open : Bool
  pub busy : Bool
  pub cancel_requested : Bool
  pub cancel_sent : Bool
  pub lock_fd : Option ℕ
  pub active_task : Option ℕ
  pub device_state : ℕ
  pub last_errno : Errno
  pub last_protocol_status : ℕ
  pub completed_requests : ℕ  -- uint64_t
  pub failed_requests : ℕ  -- uint64_t

-- struct qcpu_exchange_task; `backend_result` is the negated int, so 0 is `no_error`.
pub record Task : Type 0 where
  pub references : ℕ
  pub backend_ops : BackendOps
  pub backend_context : ℕ
  pub request : Request
  pub response : Response
  pub absolute_deadline_ns : ℕ
  pub backend_result : Errno
  pub done : Bool
  pub caller_abandoned : Bool

unfoldable pub timespec_to_ns : (sec nsec : ℕ) → ℕ
timespec_to_ns sec nsec = (sec * 1_000_000_000 + nsec) % 2 ^ 64

-- qcpu_set_failure_response on an exchange that is not NULL
unfoldable pub set_failure_response : Exchange → (protocol_status : ℕ) → Exchange
set_failure_response e protocol_status = record e {
  response = record {
    magic = response_magic;
    version = protocol_version;
    status = protocol_status % 2 ^ 16;
    flags = required_flags;
    qubits = e.request.qubits;
    basis_states = 0;
    shots = e.request.shots;
    measured_state = 0;
    invalid_results = 0;
    norm_q32_32 = 0;
  };
}

unfoldable pub record_result : Mock → Errno → ℕ → Mock
record_result m error_number protocol_status = record m {
  last_errno = error_number;
  last_protocol_status = protocol_status;
}

unfoldable pub status_to_errno : ℕ → Errno
status_to_errno s =
    if s == status_ok
    then no_error
    else if s == status_bad_magic
    then eproto
    else if s == status_bad_version
    then eprotonosupport
    else if s == status_bad_command
    then eopnotsupp
    else if s == status_range
    then erange
    else if s == status_kernel || s == status_io
    then eio
    else if s == status_backend_absent
    then enodev
    else if s == status_busy
    then ebusy
    else if s == status_timeout
    then etimedout
    else if s == status_canceled
    then ecanceled
    else eio

unfoldable pub status_known : ℕ → Bool
status_known s = leb s status_canceled

-- The new state, and whether the backend's cancel function is to be called.
unfoldable pub request_cancel : Mock → Mock × Bool
request_cancel m = if not m.busy || m.cancel_sent then (m, false) else (
  record m { cancel_requested = true; cancel_sent = true },
  (elim m.backend_ops.cancel [ none ↦ false | some _ ↦ true ]),
)

unfoldable pub finalize_exchange : Mock → (offline success : Bool) → Errno → ℕ → Mock
unfolding record_result
finalize_exchange m offline success error_number protocol_status =
    record (record_result m error_number protocol_status) {
      completed_requests =
          if success then (m.completed_requests + 1) % 2 ^ 64 else m.completed_requests;
      failed_requests = if success then m.failed_requests else (m.failed_requests + 1) % 2 ^ 64;
      busy = false;
      cancel_requested = false;
      cancel_sent = false;
      device_state = if offline || not m.backend_attached then device_offline else device_idle;
    }

-- What qcpu_validate_backend_response stores: `*error_number` (`no_error` if it returns 0),
-- `*protocol_status` and `*offline`.
pub record Verdict : Type 0 where
  pub error_number : Errno
  pub protocol_status : ℕ
  pub offline : Bool

abbrev pub failure : Errno → ℕ → Verdict
failure e s = record { error_number = e; protocol_status = s; offline = false }

abbrev pub success : Verdict
success = record { error_number = no_error; protocol_status = status_ok; offline = false }

validate_ghz_response : Request → Response → Verdict
validate_ghz_response q r =
    if not (r.basis_states == 2 ^ q.qubits % 2 ^ 64)
    then failure eio status_kernel
    else if not (r.measured_state == 0)
        && not (r.measured_state == (2 ^ q.qubits % 2 ^ 64 + 2 ^ 64 - 1) % 2 ^ 64)
    then failure eio status_kernel
    else if not (r.invalid_results == 0)
    then failure eio status_kernel
    else success

unfoldable pub validate_backend_response : Request → Response → Verdict
unfolding validate_ghz_response status_known status_to_errno
validate_backend_response q r =
    if not (r.magic == response_magic)
    then failure eio status_io
    else if not (r.version == protocol_version)
    then failure eio status_io
    else if not (status_known r.status)
    then failure eio status_io
    else if not (r.status == status_ok)
    then record {
      error_number = status_to_errno r.status;
      protocol_status = r.status;
      offline = r.status == status_backend_absent;
    }
    else if not (bit_and r.flags required_flags == required_flags)
    then failure eio status_io
    else if not (r.qubits == q.qubits) || not (r.shots == q.shots)
    then failure eio status_io
    else if ltb (2 ^ 32) r.norm_q32_32
    then failure eio status_kernel
    else if q.command == command_run_ghz
    then validate_ghz_response q r
    else success

-- What qcpu_prevalidate_exchange_locked leaves: `error_number` is `no_error` if it returns 0, and
-- only then is the deadline meant.
pub record Admission : Type 0 where
  pub mock : Mock
  pub exchange : Option Exchange
  pub error_number : Errno
  pub deadline_ns : ℕ

-- `goto reject`
unfoldable pub reject : Mock → Option Exchange → Errno → ℕ → Admission
unfolding record_result
reject m e error_number protocol_status = record {
  mock = record_result m error_number protocol_status;
  exchange = Option.map (λ x. set_failure_response x protocol_status) e;
  error_number = error_number;
  deadline_ns = 0;
}

-- The tests on the request, in the order of the source: the error and the protocol status.
unfoldable pub check_request : Request → Verdict
check_request q =
    if not (q.magic == request_magic)
    then failure eproto status_bad_magic
    else if not (q.version == protocol_version)
    then failure eprotonosupport status_bad_version
    else if not (q.command == command_status) && not (q.command == command_run_ghz)
    then failure eopnotsupp status_bad_command
    else if q.command == command_status
    then (if not (q.qubits == 0) || not (q.shots == 0)
        then failure erange status_range
        else success)
    else if q.qubits == 0 || (ltb max_qubits q.qubits || (q.shots == 0 || ltb max_shots q.shots))
    then failure erange status_range
    else success

-- timeout_ns, with the default for 0
unfoldable pub effective_timeout : ℕ → ℕ
effective_timeout timeout_ns = if timeout_ns == 0 then default_timeout_ns else timeout_ns

-- The tests that follow on the clock and the state of the mock. `now` is what clock_gettime stores,
-- `none` if it fails.
unfoldable pub admit : Mock → Exchange → (now : Option (ℕ × ℕ)) → Admission
admit m e now =
    let timeout_ns = effective_timeout e.timeout_ns in
    if ltb max_timeout_ns timeout_ns then reject m (some e) erange status_range else elim now [
      | none ↦ reject m (some e) eio status_io
      | some (sec, nsec) ↦
          let now_ns = timespec_to_ns sec nsec in
          if ltb (2 ^ 64 - 1 - now_ns) timeout_ns
          then reject m (some e) erange status_range
          else (if m.busy
              then reject m (some e) ebusy status_busy
              else (if not m.backend_attached
                    || (elim m.backend_ops.exchange [ none ↦ true | some _ ↦ false ])
                  then reject (record m { device_state = device_offline }) (some e) enodev
                      status_backend_absent
                  else record {
                    mock = m;
                    exchange = some e;
                    error_number = no_error;
                    deadline_ns = now_ns + timeout_ns;
                  }))
    ]

prevalidate_open : Mock → Option Exchange → (now : Option (ℕ × ℕ)) → Admission
prevalidate_open m none now = record {
  mock = record_result m einval status_range;
  exchange = none;
  error_number = einval;
  deadline_ns = 0;
}
prevalidate_open m (some e) now =
    let cleared = record e { response = zero_response } in
    let verdict = check_request e.request in
    elim verdict.error_number [
      | no_error ↦ admit m cleared now
      | error ↦ reject m (some cleared) error verdict.protocol_status
    ]

-- qcpu_prevalidate_exchange_locked
unfoldable pub prevalidate : Mock → Option Exchange → (now : Option (ℕ × ℕ)) → Admission
unfolding prevalidate_open
prevalidate m e now =
    if m.session_open then prevalidate_open m e now else reject m e ebusy status_busy
