-- ===== src/Device/Frontend/Exchanges.antt =====
-- qcpu_exchange_ioctl and qcpu_exchange_worker, one stretch under the mutex at a time, and the
-- other operations on the device.
use qbit_nova_c.Base.{
  ℕ, ◌+◌, ◌%◌, ◌^◌, Bool, true, false, not, ◌&&◌, ◌||◌, Option, none, some, ◌==◌, if◌then◌else◌,
}
use qbit_nova_c.Uapi.{
  Exchange, Response, zero_response, Errno, no_error, einval, ebusy, eio, enodev, etimedout,
  ecanceled, status_ok, status_io, status_backend_absent, status_timeout, status_canceled,
  device_offline, device_idle, device_busy,
}
use qbit_nova_c.Device.Frontend.{
  BackendOps, Mock, Task, Verdict, failure, set_failure_response, record_result, status_to_errno,
  status_known, request_cancel, finalize_exchange, validate_backend_response,
}

-- The task as it is filled before the worker starts.
unfoldable pub new_task : Mock → Exchange → (deadline_ns : ℕ) → Task
new_task m e deadline_ns = record {
  references = 2;
  backend_ops = m.backend_ops;
  backend_context = m.backend_context;
  request = e.request;
  response = zero_response;
  absolute_deadline_ns = deadline_ns;
  backend_result = no_error;
  done = false;
  caller_abandoned = false;
}

unfoldable pub start_exchange : Mock → (task : ℕ) → Mock
start_exchange m task = record m {
  busy = true;
  cancel_requested = false;
  cancel_sent = false;
  device_state = device_busy;
  active_task = some task;
}

-- A failure of calloc, of the thread attributes or of pthread_create: no task is left.
unfoldable pub fail_start : Mock → Exchange → Errno → Mock × Exchange
unfolding finalize_exchange
fail_start m e error_number = (
  finalize_exchange (record m { active_task = none }) false false error_number status_io,
  set_failure_response e status_io,
)

-- The worker's stretch after the backend's exchange returned `result` and filled `response`.
unfoldable pub finish_task : Task → (result : Errno) → Response → Task
finish_task t result response = record t {
  response = response;
  backend_result = result;
  done = true;
}

same_task : Option ℕ → ℕ → Bool
same_task none t = false
same_task (some s) t = s == t

is_enodev : Errno → Bool
is_enodev enodev = true
is_enodev _ = false

unfoldable pub finish_worker : Mock → (id : ℕ) → Task → (result : Errno) → Mock
unfolding same_task is_enodev
finish_worker m id t result =
    if t.caller_abandoned && same_task m.active_task id
    then record m {
      active_task = none;
      busy = false;
      cancel_requested = false;
      cancel_sent = false;
      device_state =
          if not m.backend_attached || is_enodev result then device_offline else device_idle;
    }
    else m

is_ecanceled : Errno → Bool
is_ecanceled ecanceled = true
is_ecanceled _ = false

-- The branches on a backend result: 0, then -ENODEV, -ETIMEDOUT, -ECANCELED, then the status.
backend_verdict : Task → Verdict
backend_verdict t = elim t.backend_result [
  | no_error ↦ validate_backend_response t.request t.response
  | enodev ↦ record {
    error_number = enodev;
    protocol_status = status_backend_absent;
    offline = true;
  }
  | etimedout ↦ failure etimedout status_timeout
  | ecanceled ↦ failure ecanceled status_canceled
  | _ ↦
      if status_known t.response.status && not (t.response.status == status_ok)
      then record {
        error_number = status_to_errno t.response.status;
        protocol_status = t.response.status;
        offline = t.response.status == status_backend_absent;
      }
      else failure eio status_io
]

unfoldable pub exchange_verdict : (timed_out : Bool) → Mock → Task → Verdict
unfolding backend_verdict is_ecanceled
exchange_verdict timed_out m t =
    if timed_out
    then failure etimedout status_timeout
    else (if m.cancel_requested || is_ecanceled t.backend_result
        then failure ecanceled status_canceled
        else backend_verdict t)

-- The response and the counters by the error that was found.
unfoldable pub deliver : Errno → Verdict → Mock → Task → Exchange → Mock × Exchange × Errno
deliver no_error v m t e = (
  finalize_exchange m v.offline true no_error v.protocol_status,
  record e { response = t.response },
  no_error,
)
deliver error v m t e = (
  finalize_exchange m v.offline false error v.protocol_status,
  set_failure_response e v.protocol_status,
  error,
)

-- The last stretch of qcpu_exchange_ioctl for a task that is done: the mock, the caller's exchange
-- and the error (`no_error` if the call returns 0).
unfoldable pub finish_exchange :
    (timed_out : Bool) → Mock → Task → Exchange → Mock × Exchange × Errno
finish_exchange timed_out m t e =
    let v = exchange_verdict timed_out m t in
    deliver v.error_number v (record m { active_task = none }) t e

-- The stretch for a task that is not done when the grace period ends.
unfoldable pub abandon_exchange : Mock → Task → Exchange → Mock × Task × Exchange
unfolding record_result
abandon_exchange m t e = (
  record_result (record m { failed_requests = (m.failed_requests + 1) % 2 ^ 64 }) etimedout
      status_timeout,
  record t { caller_abandoned = true },
  set_failure_response e status_timeout,
)

-- How pthread_cond_timedwait returned.
pub data WaitResult : Type 0 where
  woken timed_out interrupted failed : WaitResult

-- After one wait: whether the loop is left with `timed_out` set, as the two tests behind the wait
-- say. The first names the task's `done`, the second does not.
unfoldable pub wait_gives_up : WaitResult → (done : Bool) → Bool
wait_gives_up r done =
    (elim r [ timed_out ↦ not done | _ ↦ false ])
    || (elim r [ woken ↦ false | interrupted ↦ false | _ ↦ true ])

-- qcpu_mock_set_backend on a mock that is not NULL; the names are not modelled.
unfoldable pub set_backend : Mock → Option BackendOps → (context : ℕ) → Mock × Errno
set_backend m ops context = if m.busy then (m, ebusy) else elim ops [
  | none ↦ (
    record m {
      backend_ops = record { exchange = none; cancel = none };
      backend_context = 0;
      backend_attached = false;
      device_state = device_offline;
    },
    no_error,
  )
  | some o ↦ elim o.exchange [
    | none ↦ (m, einval)
    | some _ ↦ (
      record m {
        backend_ops = o;
        backend_context = context;
        backend_attached = true;
        device_state = device_idle;
      },
      no_error,
    )
  ]
]

-- qcpu_mock_open: `locked` is the descriptor that open, fchmod and flock give, or their error.
unfoldable pub open_session : Mock → (opened : Option ℕ) → (error : Errno) → Mock × Errno
open_session m opened error = if m.session_open then (m, ebusy) else elim opened [
  | none ↦ (m, error)
  | some descriptor ↦ (record m { lock_fd = some descriptor; session_open = true }, no_error)
]

abandoned : Option Task → Bool
abandoned none = false
abandoned (some t) = t.caller_abandoned

-- The first stretch of qcpu_mock_close: refuse, or go on, after a cancel request if an exchange runs.
-- `active` is the task that active_task points to.
unfoldable pub begin_close : Mock → (active : Option Task) → Mock × Errno
unfolding request_cancel abandoned
begin_close m active =
    if not m.session_open
    then (m, einval)
    else (if m.busy && abandoned active
        then (m, ebusy)
        else (if m.busy then ((request_cancel m).0, no_error) else (m, no_error)))

-- Its last stretch, once no exchange runs.
unfoldable pub end_close : Mock → Mock
end_close m = record m { lock_fd = none; session_open = false }

-- qcpu_mock_destroy refuses while a session or an exchange is there.
unfoldable pub may_destroy : Mock → Bool
may_destroy m = not (m.session_open || m.busy)
