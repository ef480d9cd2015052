-- ===== src/Device/Frontend/System.antt =====
-- The device with any number of calling threads and one worker thread for each task, interleaved in
-- any order: a step is one stretch of src/device/qcpu_mock_frontend.c under the mutex. A caller that
-- waits on the condition variable, or is outside the mutex between two stretches, holds its task and
-- its exchange.
pub mod Mocks
pub mod Threads
pub mod Safety
use qbit_nova_c.Base.{
  ℕ, suc, ◌+◌, ◌<◌, ◌≡◌, ◌≢◌, Bool, true, false, Option, some, none, ◌==◌, if◌then◌else◌,
}
use qbit_nova_c.Uapi.{Exchange, Response, Errno, no_error, device_idle, device_offline, status_ok}
use qbit_nova_c.Device.Frontend.{BackendOps, Mock, Task, Admission, prevalidate, request_cancel}
use qbit_nova_c.Device.Frontend.Exchanges.{
  new_task, start_exchange, fail_start, finish_task, finish_worker, finish_exchange,
  abandon_exchange, WaitResult, wait_gives_up, set_backend, open_session, begin_close, end_close,
}

-- Where a calling thread stands in qcpu_exchange_ioctl.
pub data Pc : Type 0 where
  outside : Pc
  waiting : (task : ℕ) → Exchange → Pc
  collecting : (task : ℕ) → (timed_out : Bool) → Exchange → Pc

pub record System : Type 0 where
  pub mock : Mock
  pub tasks : ℕ → Task
  pub next_task : ℕ
  pub pc : ℕ → Pc

abbrev pub update : {A : Type 0} → (ℕ → A) → ℕ → A → ℕ → A
update f i a j = if j == i then a else f j

-- The stretches that neither start nor end an exchange.
pub data Quiet (m : Mock) : Mock → Type 0 where
  refuse :
      (e : Option Exchange) (now : Option (ℕ × ℕ))
      → (prevalidate m e now).error_number ≢ no_error
      → Quiet m (prevalidate m e now).mock
  no_start : (e : Exchange) (error : Errno) → m.busy ≡ false → Quiet m (fail_start m e error).0
  replace : (ops : Option BackendOps) (context : ℕ) → Quiet m (set_backend m ops context).0
  enter : (opened : Option ℕ) (error : Errno) → Quiet m (open_session m opened error).0
  closing : (active : Option Task) → Quiet m (begin_close m active).0
  close : m.busy ≡ false → Quiet m (end_close m)

pub data Step (s : System) : System → Type 0 where
  quiet : {m : Mock} → Quiet s.mock m → Step s (record s { mock = m })
  start :
      (i : ℕ) (e : Exchange) (now : Option (ℕ × ℕ))
      → s.pc i ≡ outside
      → (prevalidate s.mock (some e) now).error_number ≡ no_error
      → Step s (record {
        mock = start_exchange s.mock s.next_task;
        tasks =
            update s.tasks s.next_task
              (new_task s.mock e (prevalidate s.mock (some e) now).deadline_ns);
        next_task = suc s.next_task;
        pc = update s.pc i (waiting s.next_task e);
      })
  work :
      (t : ℕ) (result : Errno) (response : Response)
      → t < s.next_task
      → (s.tasks t).done ≡ false
      → Step s (record s {
        mock = finish_worker s.mock t (s.tasks t) result;
        tasks = update s.tasks t (finish_task (s.tasks t) result response);
      })
  leave :
      (i t : ℕ) (e : Exchange)
      → s.pc i ≡ waiting t e
      → (s.tasks t).done ≡ true
      → Step s (record s { pc = update s.pc i (collecting t false e) })
  give_up :
      (i t : ℕ) (e : Exchange) (r : WaitResult)
      → s.pc i ≡ waiting t e
      → wait_gives_up r (s.tasks t).done ≡ true
      → Step s
          (record s { mock = (request_cancel s.mock).0; pc = update s.pc i (collecting t true e) })
  finish :
      (i t : ℕ) (b : Bool) (e : Exchange)
      → s.pc i ≡ collecting t b e
      → (s.tasks t).done ≡ true
      → Step s (record s {
        mock = (finish_exchange b s.mock (s.tasks t) e).0;
        pc = update s.pc i outside;
      })
  abandon :
      (i t : ℕ) (e : Exchange)
      → s.pc i ≡ collecting t true e
      → (s.tasks t).done ≡ false
      → Step s (record s {
        mock = (abandon_exchange s.mock (s.tasks t) e).0;
        tasks = update s.tasks t (abandon_exchange s.mock (s.tasks t) e).1;
        pc = update s.pc i outside;
      })

-- The mock that qcpu_mock_create makes: with a backend that has an exchange function, or with none.
unfoldable pub created : Option BackendOps → (context : ℕ) → Mock
created ops context = record {
  backend_ops = elim ops [ none ↦ record { exchange = none; cancel = none } | some o ↦ o ];
  backend_context = elim ops [ none ↦ 0 | some _ ↦ context ];
  backend_attached = elim ops [ none ↦ false | some _ ↦ true ];
  session_open = false;
  busy = false;
  cancel_requested = false;
  cancel_sent = false;
  lock_fd = none;
  active_task = none;
  device_state = elim ops [ none ↦ device_offline | some _ ↦ device_idle ];
  last_errno = no_error;
  last_protocol_status = status_ok;
  completed_requests = 0;
  failed_requests = 0;
}

abbrev pub init : Option BackendOps → ℕ → (ℕ → Task) → System
init ops context tasks = record {
  mock = created ops context;
  tasks = tasks;
  next_task = 0;
  pc = λ _. outside;
}

pub data Reach (ops : Option BackendOps) (context : ℕ) (tasks : ℕ → Task) : System → Type 0 where
  begin : Reach ops context tasks (init ops context tasks)
  later : {s t : System} → Reach ops context tasks s → Step s t → Reach ops context tasks t
