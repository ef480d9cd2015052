-- ===== src/Tests/Exchanging.antt =====
-- src/device/qcpu_mock_frontend.c: the frontend's theorems at a mock with a session open, and at a
-- run in which one caller has started an exchange.
use qbit_nova_c.Base.{ℕ, ◌^◌, ◌≡◌, ◌≢◌, ◌⊎◌, ◌↔◌, ◌∙◌, refl, ap, true, false, none, some, arith}
use qbit_nova_c.Uapi.{
  Request, Response, Exchange, zero_response, no_error, request_magic, response_magic,
  protocol_version, command_run_ghz, required_flags, status_ok, device_idle, device_busy,
}
use qbit_nova_c.Device.Frontend.{
  Admission, BackendOps, Mock, Task, prevalidate, validate_backend_response, timespec_to_ns,
  effective_timeout,
}
use qbit_nova_c.Device.Frontend.Exchanges.{new_task, start_exchange, open_session, finish_exchange}
use qbit_nova_c.Device.Frontend.Check.{
  Acceptable, validate_backend_response-Acceptable, Admissible, prevalidate-Admissible,
  prevalidate-deadline,
}
use qbit_nova_c.Device.Frontend.Outcome.{
  Fails, Succeeds, finish_exchange-succeeds, finish_exchange-effect,
}
use qbit_nova_c.Device.Frontend.System.{
  outside, waiting, System, update, enter, quiet, start, Reach, begin, later, created,
}
use qbit_nova_c.Device.Frontend.System.Mocks.{is_some}
use qbit_nova_c.Device.Frontend.System.Threads.{task_of}
use qbit_nova_c.Device.Frontend.System.Safety.{one_exchange, device_consistent, busy_has_owner}

abbrev backend : BackendOps
backend = record { exchange = some 1; cancel = some 2 }

abbrev idle : Mock
idle = record {
  backend_ops = backend;
  backend_context = 0;
  backend_attached = true;
  session_open = true;
  busy = false;
  cancel_requested = false;
  cancel_sent = false;
  lock_fd = some 3;
  active_task = none;
  device_state = device_idle;
  last_errno = no_error;
  last_protocol_status = status_ok;
  completed_requests = 0;
  failed_requests = 0;
}

abbrev run_request : Request
run_request = record {
  magic = request_magic;
  version = protocol_version;
  command = command_run_ghz;
  qubits = 3;
  shots = 10;
  seed = 42;
}

abbrev run_exchange : Exchange
run_exchange = record { request = run_request; timeout_ns = 0; response = zero_response }

abbrev run_response : Response
run_response = record {
  magic = response_magic;
  version = protocol_version;
  status = status_ok;
  flags = required_flags;
  qubits = 3;
  basis_states = 8;
  shots = 10;
  measured_state = 7;
  invalid_results = 0;
  norm_q32_32 = 2 ^ 32;
}

abbrev done_task : Task
done_task = record {
  references = 2;
  backend_ops = backend;
  backend_context = 0;
  request = run_request;
  response = run_response;
  absolute_deadline_ns = 0;
  backend_result = no_error;
  done = true;
  caller_abandoned = false;
}

validate_backend_response-Acceptable_example :
    ((validate_backend_response run_request run_response).error_number ≡ no_error)
    ↔ Acceptable run_request run_response
validate_backend_response-Acceptable_example =
    validate_backend_response-Acceptable run_request run_response (omega arith)

prevalidate-Admissible_example :
    ((prevalidate idle (some run_exchange) (some (5, 0))).error_number ≡ no_error)
    ↔ Admissible idle run_exchange 5 0
prevalidate-Admissible_example = prevalidate-Admissible idle run_exchange 5 0

idle-Admissible : Admissible idle run_exchange 5 0
unfolding timespec_to_ns effective_timeout
idle-Admissible = ground arith

finish_exchange-succeeds_example :
    ((finish_exchange false idle done_task run_exchange).2 ≡ no_error) ↔ (
      (false ≡ false)
      × (false ≡ false)
      × (no_error ≡ no_error)
      × Acceptable run_request run_response)
finish_exchange-succeeds_example =
    finish_exchange-succeeds false idle done_task run_exchange (omega arith)

finish_exchange-effect_example :
    (((finish_exchange false idle done_task run_exchange).2 ≡ no_error)
      × Succeeds idle
          (finish_exchange false idle done_task run_exchange).0
          done_task
          (finish_exchange false idle done_task run_exchange).1)
    ⊎ (((finish_exchange false idle done_task run_exchange).2 ≢ no_error)
        × Fails idle
            (finish_exchange false idle done_task run_exchange).0
            (finish_exchange false idle done_task run_exchange).1)
finish_exchange-effect_example = finish_exchange-effect false idle done_task run_exchange

abbrev opened : System
opened = record {
  mock = (open_session (created (some backend) 0) (some 3) no_error).0;
  tasks = λ _. done_task;
  next_task = 0;
  pc = λ _. outside;
}

opened-idle : opened.mock ≡ idle
unfolding open_session created
opened-idle = refl

abbrev running : System
running = record {
  mock = start_exchange opened.mock 0;
  tasks = update opened.tasks 0 (
      new_task opened.mock run_exchange
        (prevalidate opened.mock (some run_exchange) (some (5, 0))).deadline_ns);
  next_task = 1;
  pc = update opened.pc 0 (waiting 0 run_exchange);
}

opened-admits : (prevalidate opened.mock (some run_exchange) (some (5, 0))).error_number ≡ no_error
opened-admits =
    ap (λ (m : Mock). (prevalidate m (some run_exchange) (some (5, 0))).error_number) opened-idle
    ∙ ap (λ (a : Admission). a.error_number)
        (prevalidate-deadline idle run_exchange 5 0 idle-Admissible)

running-Reach : Reach (some backend) 0 (λ _. done_task) running
running-Reach =
    later (later begin (quiet (enter (some 3) no_error)))
      (start 0 run_exchange (some (5, 0)) refl opened-admits)

running-busy : running.mock.busy ≡ true
unfolding start_exchange
running-busy = refl

one_exchange_example : (◌≡◌ {A = ℕ} 0 0) × (◌≡◌ {A = ℕ} 0 0) × (running.mock.busy ≡ true)
one_exchange_example = one_exchange running-Reach 0 0 0 0 refl refl

device_consistent_example :
    (running.mock.busy ≡ is_some running.mock.active_task)
    × ((running.mock.busy ≡ true) ↔ (running.mock.device_state ≡ device_busy))
    × (running.mock.busy ≡ false → running.mock.cancel_requested ≡ false)
    × (running.mock.session_open ≡ is_some running.mock.lock_fd)
device_consistent_example = device_consistent running-Reach

busy_has_owner_example :
    (t : ℕ) × (running.mock.active_task ≡ some t)
    × ((((running.tasks t).caller_abandoned ≡ true) × ((running.tasks t).done ≡ false))
        ⊎ ((i : ℕ) × (task_of (running.pc i) ≡ some t)))
busy_has_owner_example = busy_has_owner running-Reach running-busy
