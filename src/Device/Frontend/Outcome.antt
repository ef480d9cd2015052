-- ===== src/Device/Frontend/Outcome.antt =====
-- What qcpu_exchange_ioctl gives its caller, and what it does to the counters.
use qbit_nova_c.Base.{
  ◌+◌, ◌%◌, ◌^◌, ◌≤◌, ◌≡◌, ◌≢◌, ◌⊎◌, ◌↔◌, ◌∙◌, sym, refl, Bool, false, none, arith,
}
use qbit_nova_c.Uapi.{Exchange, Request, Response, Errno, no_error, max_qubits, status_ok}
use qbit_nova_c.Device.Frontend.{
  Mock, Task, Verdict, finalize_exchange, record_result, set_failure_response,
  validate_backend_response, status_known, status_to_errno,
}
use qbit_nova_c.Device.Frontend.Exchanges.{finish_exchange, exchange_verdict, deliver}
use qbit_nova_c.Device.Frontend.Check.{Acceptable, validate_backend_response-Acceptable}

-- A call that failed: one more failed request, and a response that says so and carries no result.
pub record Fails (m m' : Mock) (e : Exchange) : Type 0 where
  pub failed : m'.failed_requests ≡ (m.failed_requests + 1) % 2 ^ 64
  pub completed : m'.completed_requests ≡ m.completed_requests
  pub status : e.response.status ≢ status_ok
  pub basis : e.response.basis_states ≡ 0
  pub norm : e.response.norm_q32_32 ≡ 0

-- A call that succeeded: one more completed request, and the backend's response.
pub record Succeeds (m m' : Mock) (t : Task) (e : Exchange) : Type 0 where
  pub completed : m'.completed_requests ≡ (m.completed_requests + 1) % 2 ^ 64
  pub failed : m'.failed_requests ≡ m.failed_requests
  pub response : e.response ≡ t.response

validate-status :
    (q : Request) (r : Response)
    → (validate_backend_response q r).error_number ≢ no_error
    → (validate_backend_response q r).protocol_status % 2 ^ 16 ≢ status_ok
unfolding validate_backend_response
validate-status q r h = ground arith

-- The verdict has a status of its own for every error.
verdict-status :
    (b : Bool) (m : Mock) (t : Task)
    → (exchange_verdict b m t).error_number ≢ no_error
    → (exchange_verdict b m t).protocol_status % 2 ^ 16 ≢ status_ok
unfolding exchange_verdict status_known status_to_errno
verdict-status b m t h = ground (arith, validate-status t.request t.response)

verdict-no_error :
    (b : Bool) (m : Mock) (t : Task)
    → ((exchange_verdict b m t).error_number ≡ no_error) ↔ (
        (b ≡ false)
        × (m.cancel_requested ≡ false)
        × (t.backend_result ≡ no_error)
        × ((validate_backend_response t.request t.response).error_number ≡ no_error))
unfolding exchange_verdict status_known status_to_errno
verdict-no_error b m t = (λ h. ground arith, λ h. ground arith)

deliver-error :
    (error : Errno) (v : Verdict) (m : Mock) (t : Task) (e : Exchange)
    → (deliver error v m t e).2 ≡ error
unfolding deliver
deliver-error no_error v m t e = refl
deliver-error error v m t e = refl

finish-error :
    (b : Bool) (m : Mock) (t : Task) (e : Exchange)
    → (finish_exchange b m t e).2 ≡ (exchange_verdict b m t).error_number
unfolding finish_exchange
finish-error b m t e =
    deliver-error (exchange_verdict b m t).error_number (exchange_verdict b m t)
      (record m { active_task = none }) t e

-- A call whose task is done returns 0 exactly when its wait did not time out, nobody asked to cancel,
-- the backend returned 0, and the response is acceptable for the request.
pub finish_exchange-succeeds :
    (b : Bool) (m : Mock) (t : Task) (e : Exchange)
    → t.request.qubits ≤ max_qubits
    → ((finish_exchange b m t e).2 ≡ no_error) ↔ (
        (b ≡ false)
        × (m.cancel_requested ≡ false)
        × (t.backend_result ≡ no_error)
        × Acceptable t.request t.response)
finish_exchange-succeeds b m t e few = (
  λ h.
      let (p, q, u, w) = (verdict-no_error b m t).0 (sym (finish-error b m t e) ∙ h) in
      (p, q, u, (validate_backend_response-Acceptable t.request t.response few).0 w),
  λ h.
      let (p, q, u, w) = h in
      finish-error b m t e
      ∙ (verdict-no_error b m t).1
          (p, q, u, (validate_backend_response-Acceptable t.request t.response few).1 w),
)

deliver-effect :
    (error : Errno) (v : Verdict) (m : Mock) (t : Task) (e : Exchange)
    → (error ≢ no_error → v.protocol_status % 2 ^ 16 ≢ status_ok)
    → ((error ≡ no_error) × Succeeds m (deliver error v m t e).0 t (deliver error v m t e).1)
      ⊎ ((error ≢ no_error) × Fails m (deliver error v m t e).0 (deliver error v m t e).1)
unfolding deliver finalize_exchange record_result set_failure_response
deliver-effect no_error v m t e h = ground arith
deliver-effect error v m t e h = ground arith

-- Every call whose task is done either succeeds or fails, by the error it returns: it hands on the
-- backend's response and counts as completed, or its response has an error status and no result and
-- it counts as failed.
pub finish_exchange-effect :
    (b : Bool) (m : Mock) (t : Task) (e : Exchange)
    → (((finish_exchange b m t e).2 ≡ no_error)
        × Succeeds m (finish_exchange b m t e).0 t (finish_exchange b m t e).1)
      ⊎ (((finish_exchange b m t e).2 ≢ no_error)
          × Fails m (finish_exchange b m t e).0 (finish_exchange b m t e).1)
unfolding finish_exchange
finish_exchange-effect b m t e = ground (
  arith,
  deliver-error (exchange_verdict b m t).error_number (exchange_verdict b m t)
      (record m { active_task = none }) t e,
  deliver-effect (exchange_verdict b m t).error_number (exchange_verdict b m t)
      (record m { active_task = none }) t e (verdict-status b m t),
)
