-- ===== src/Device/Frontend/System/Mocks.antt =====
-- What every stretch keeps of the mock's own fields.
use qbit_nova_c.Base.{ℕ, ◌<◌, ◌≡◌, ◌⊎◌, Bool, true, false, Option, some, none, arith, refl}
use qbit_nova_c.Uapi.{Exchange, Errno, no_error, device_busy, device_offline, zero_response}
use qbit_nova_c.Device.Frontend.{
  Mock, Task, Verdict, prevalidate, admit, reject, request_cancel, finalize_exchange, record_result,
}
use qbit_nova_c.Device.Frontend.Exchanges.{
  start_exchange, fail_start, finish_worker, finish_exchange, exchange_verdict, deliver,
  abandon_exchange, set_backend, open_session, begin_close, end_close,
}
use qbit_nova_c.Device.Frontend.System.{Quiet, refuse, no_start, replace, enter, closing, close}

abbrev pub is_some : {A : Type 0} → Option A → Bool
is_some none = false
is_some (some _) = true

pub record MockInv (m : Mock) : Type 0 where
  pub active : m.busy ≡ is_some m.active_task
  pub device :
      (m.busy ≡ true → m.device_state ≡ device_busy)
      × (m.busy ≡ false → m.device_state < device_busy)
  pub cancel : m.cancel_requested ≡ m.cancel_sent
  pub cancel_busy : m.busy ≡ false → m.cancel_sent ≡ false
  pub lock : m.session_open ≡ is_some m.lock_fd

-- A refused exchange changes the last result, and marks a missing backend.
record Kept (m m' : Mock) : Type 0 where
  active : m'.active_task ≡ m.active_task
  busy : m'.busy ≡ m.busy
  requested : m'.cancel_requested ≡ m.cancel_requested
  sent : m'.cancel_sent ≡ m.cancel_sent
  lock : m'.lock_fd ≡ m.lock_fd
  session : m'.session_open ≡ m.session_open
  device :
      (m'.device_state ≡ m.device_state) ⊎ ((m.busy ≡ false) × (m'.device_state ≡ device_offline))

admit-Kept : (m : Mock) (e : Exchange) (now : Option (ℕ × ℕ)) → Kept m (admit m e now).mock
unfolding admit reject
admit-Kept m e none = ground arith
admit-Kept m e (some (sec, nsec)) = ground arith

prevalidate-Kept :
    (m : Mock) (e : Option Exchange) (now : Option (ℕ × ℕ)) → Kept m (prevalidate m e now).mock
unfolding prevalidate reject record_result
prevalidate-Kept m none now = ground arith
prevalidate-Kept m (some e) now =
    ground (arith, admit-Kept m (record e { response = zero_response }) now)

pub Quiet-MockInv : {m m' : Mock} → Quiet m m' → MockInv m → MockInv m'
unfolding fail_start set_backend open_session begin_close end_close
Quiet-MockInv {m} (refuse e now h) v = ground (arith, prevalidate-Kept m e now)
Quiet-MockInv (no_start e error h) v = ground arith
Quiet-MockInv (replace ops context) v = ground arith
Quiet-MockInv (enter opened error) v = ground arith
Quiet-MockInv (closing active) v = ground arith
Quiet-MockInv (close h) v = ground arith

-- A quiet stretch leaves the running task alone.
pub Quiet-active : {m m' : Mock} → Quiet m m' → MockInv m → m'.active_task ≡ m.active_task
unfolding fail_start set_backend open_session begin_close end_close
Quiet-active {m} (refuse e now h) v = (prevalidate-Kept m e now).active
Quiet-active (no_start e error h) v = ground arith
Quiet-active (replace ops context) v = ground arith
Quiet-active (enter opened error) v = ground arith
Quiet-active (closing active) v = ground arith
Quiet-active (close h) v = ground arith

pub start-MockInv : (m : Mock) (t : ℕ) → MockInv m → MockInv (start_exchange m t)
unfolding start_exchange
start-MockInv m t v = ground arith

pub request_cancel-MockInv : (m : Mock) → MockInv m → MockInv (request_cancel m).0
unfolding request_cancel
request_cancel-MockInv m v = ground arith

pub finish_worker-MockInv :
    (m : Mock) (id : ℕ) (t : Task) (result : Errno)
    → MockInv m
    → MockInv (finish_worker m id t result)
unfolding finish_worker
finish_worker-MockInv m id t result v = ground arith

finalize-MockInv :
    (m : Mock) (offline success : Bool) (e : Errno) (p : ℕ)
    → m.active_task ≡ none
    → m.session_open ≡ is_some m.lock_fd
    → MockInv (finalize_exchange m offline success e p)
unfolding finalize_exchange
finalize-MockInv m offline success e p gone lock = ground arith

deliver-MockInv :
    (error : Errno) (v : Verdict) (m : Mock) (t : Task) (e : Exchange)
    → m.active_task ≡ none
    → m.session_open ≡ is_some m.lock_fd
    → MockInv (deliver error v m t e).0
unfolding deliver
deliver-MockInv no_error v m t e gone lock =
    finalize-MockInv m v.offline true no_error v.protocol_status gone lock
deliver-MockInv error v m t e gone lock =
    finalize-MockInv m v.offline false error v.protocol_status gone lock

-- A finished exchange leaves no task running.
deliver-active :
    (error : Errno) (v : Verdict) (m : Mock) (t : Task) (e : Exchange)
    → (deliver error v m t e).0.active_task ≡ m.active_task
unfolding deliver finalize_exchange
deliver-active no_error v m t e = refl
deliver-active error v m t e = refl

pub finish-active :
    (b : Bool) (m : Mock) (t : Task) (e : Exchange) → (finish_exchange b m t e).0.active_task ≡ none
unfolding finish_exchange
finish-active b m t e =
    deliver-active (exchange_verdict b m t).error_number (exchange_verdict b m t)
      (record m { active_task = none }) t e

pub finish-MockInv :
    (b : Bool) (m : Mock) (t : Task) (e : Exchange)
    → MockInv m
    → MockInv (finish_exchange b m t e).0
unfolding finish_exchange
finish-MockInv b m t e v =
    deliver-MockInv (exchange_verdict b m t).error_number (exchange_verdict b m t)
      (record m { active_task = none }) t e refl v.lock

pub abandon-MockInv :
    (m : Mock) (t : Task) (e : Exchange) → MockInv m → MockInv (abandon_exchange m t e).0
unfolding abandon_exchange
abandon-MockInv m t e v = ground arith
