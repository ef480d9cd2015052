-- ===== src/Device/Frontend/System/Safety.antt =====
-- What holds of every run of the device, with any number of callers.
use qbit_nova_c.Base.{ℕ, refl, ◌≡◌, ◌⊎◌, ◌↔◌, ◌∙◌, sym, true, false, Option, some, none, arith}
use qbit_nova_c.Uapi.{device_busy}
use qbit_nova_c.Device.Frontend.{BackendOps, Task}
use qbit_nova_c.Device.Frontend.System.{System, Reach}
use qbit_nova_c.Device.Frontend.System.Mocks.{is_some}
use qbit_nova_c.Device.Frontend.System.Threads.{task_of, Inv, Reach-Inv}

some_task : (o : Option ℕ) → is_some o ≡ true → (t : ℕ) × (o ≡ some t)
some_task none h = ground arith
some_task (some t) h = (t, refl)

module _ {ops : Option BackendOps} {context : ℕ} {tasks : ℕ → Task} {s : System}
    (r : Reach ops context tasks s) where
  -- In every reachable state at most one caller is inside an exchange: two callers that hold a task
  -- are the same caller, the task they hold is the same, and while one is there the device is busy.
  pub one_exchange :
      (i j t u : ℕ)
      → task_of (s.pc i) ≡ some t
      → task_of (s.pc j) ≡ some u
      → (i ≡ j) × (t ≡ u) × (s.mock.busy ≡ true)
  one_exchange i j t u p q =
      let v : Inv s = Reach-Inv r in
      ground (arith, v.unique i j t u p q, v.owner i t p, v.owner j u q, v.mock.active)

  -- In every reachable state the device is busy exactly when a task is recorded as active, and then
  -- the reported state is BUSY; otherwise the reported state is not BUSY and no cancel is pending;
  -- the lock file is held exactly while a session is open.
  pub device_consistent :
      (s.mock.busy ≡ is_some s.mock.active_task)
      × ((s.mock.busy ≡ true) ↔ (s.mock.device_state ≡ device_busy))
      × (s.mock.busy ≡ false → s.mock.cancel_requested ≡ false)
      × (s.mock.session_open ≡ is_some s.mock.lock_fd)
  device_consistent = let v : Inv s = Reach-Inv r in ground (arith, v.mock)

  -- In every reachable state a busy device has someone left who makes it idle again: the active task
  -- is abandoned with its worker still running, or a caller holds it.
  pub busy_has_owner :
      s.mock.busy ≡ true
      → (t : ℕ) × (s.mock.active_task ≡ some t)
        × ((((s.tasks t).caller_abandoned ≡ true) × ((s.tasks t).done ≡ false))
            ⊎ ((i : ℕ) × (task_of (s.pc i) ≡ some t)))
  busy_has_owner busy =
      let v : Inv s = Reach-Inv r in
      let (t, e) = some_task s.mock.active_task (sym v.mock.active ∙ busy) in (t, e, v.covered t e)
