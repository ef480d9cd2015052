-- ===== src/Device/Frontend/System/Threads.antt =====
-- Which thread owns the running task: kept by every step.
use qbit_nova_c.Base.{
  ℕ, suc, ◌<◌, ◌≡◌, ◌⊎◌, ◌∙◌, inl, inr, refl, sym, Bool, true, false, Option, some, none, arith,
}
use qbit_nova_c.Uapi.{Exchange, Errno, Response, no_error, zero_response}
use qbit_nova_c.Device.Frontend.{Mock, Task, BackendOps, prevalidate, admit, reject, request_cancel}
use qbit_nova_c.Device.Frontend.Exchanges.{
  new_task, start_exchange, finish_task, finish_worker, finish_exchange, abandon_exchange,
}
use qbit_nova_c.Device.Frontend.System.{
  Pc, outside, waiting, collecting, System, update, Step, quiet, start, work, leave, give_up,
  finish, abandon, Reach, begin, later, init, created,
}
use qbit_nova_c.Device.Frontend.System.Mocks.{
  MockInv, Quiet-MockInv, Quiet-active, start-MockInv, request_cancel-MockInv,
  finish_worker-MockInv, finish-MockInv, finish-active, abandon-MockInv,
}

abbrev pub task_of : Pc → Option ℕ
task_of outside = none
task_of (waiting t e) = some t
task_of (collecting t b e) = some t

pub record Inv (s : System) : Type 0 where
  pub mock : MockInv s.mock
  pub fresh : (t : ℕ) → s.mock.active_task ≡ some t → t < s.next_task
  pub owner :
      (i t : ℕ)
      → task_of (s.pc i) ≡ some t
      → (s.mock.active_task ≡ some t) × ((s.tasks t).caller_abandoned ≡ false)
  pub unique : (i j t u : ℕ) → task_of (s.pc i) ≡ some t → task_of (s.pc j) ≡ some u → i ≡ j
  pub covered :
      (t : ℕ)
      → s.mock.active_task ≡ some t
      → (((s.tasks t).caller_abandoned ≡ true) × ((s.tasks t).done ≡ false))
        ⊎ ((i : ℕ) × (task_of (s.pc i) ≡ some t))

admit-not_busy :
    (m : Mock) (e : Exchange) (now : Option (ℕ × ℕ))
    → (admit m e now).error_number ≡ no_error
    → m.busy ≡ false
unfolding admit reject
admit-not_busy m e none h = ground arith
admit-not_busy m e (some (sec, nsec)) h = ground arith

prevalidate-not_busy :
    (m : Mock) (e : Exchange) (now : Option (ℕ × ℕ))
    → (prevalidate m (some e) now).error_number ≡ no_error
    → m.busy ≡ false
unfolding prevalidate reject
prevalidate-not_busy m e now h =
    ground (arith, admit-not_busy m (record e { response = zero_response }) now)

-- A stretch that changes neither the running task nor the tasks' marks nor who holds which task.
same_threads :
    {s : System} (m : Mock) (pc : ℕ → Pc)
    → Inv s
    → MockInv m
    → m.active_task ≡ s.mock.active_task
    → ((i : ℕ) → task_of (pc i) ≡ task_of (s.pc i))
    → Inv (record s { mock = m; pc = pc })
same_threads {s} m pc v mi active same = record {
  mock = mi;
  fresh = λ t e. v.fresh t (sym active ∙ e);
  owner =
      λ i t e. (active ∙ (v.owner i t (sym (same i) ∙ e)).0, (v.owner i t (sym (same i) ∙ e)).1);
  unique = λ i j t u p q. v.unique i j t u (sym (same i) ∙ p) (sym (same j) ∙ q);
  covered = λ t e. elim (v.covered t (sym active ∙ e)) [
    | inl g ↦ inl g
    | inr (i, h) ↦ inr (i, same i ∙ h)
  ];
}

nobody : {s : System} → Inv s → s.mock.busy ≡ false → (i t : ℕ) → ¬ (task_of (s.pc i) ≡ some t)
nobody {s} v idle i t e = ground (arith, v.owner i t e, v.mock.active)

start-Inv :
    {s : System} (i : ℕ) (e : Exchange) (d : ℕ)
    → Inv s
    → s.mock.busy ≡ false
    → Inv (record {
      mock = start_exchange s.mock s.next_task;
      tasks = update s.tasks s.next_task (new_task s.mock e d);
      next_task = suc s.next_task;
      pc = update s.pc i (waiting s.next_task e);
    })
unfolding start_exchange new_task
start-Inv {s} i e d v idle = record {
  mock = start-MockInv s.mock s.next_task v.mock;
  fresh = λ t h. ground arith;
  owner = λ j t h. ground (arith, nobody v idle j t);
  unique = λ j k t u p q. ground (arith, nobody v idle j t, nobody v idle k u);
  covered = λ t h. inr (i, ground arith);
}

finish-Inv :
    {s : System} (i t : ℕ) (b : Bool) (e : Exchange)
    → Inv s
    → s.pc i ≡ collecting t b e
    → Inv
        (record s { mock = (finish_exchange b s.mock (s.tasks t) e).0; pc = update s.pc i outside })
finish-Inv {s} i t b e v here = record {
  mock = finish-MockInv b s.mock (s.tasks t) e v.mock;
  fresh = λ u h. ground (arith, finish-active b s.mock (s.tasks t) e);
  owner = λ j u h. ground (arith, v.unique i j t u);
  unique = λ j k u w p q. ground (arith, v.unique j k u w);
  covered = λ u h. ground (arith, finish-active b s.mock (s.tasks t) e);
}

abandon-Inv :
    {s : System} (i t : ℕ) (e : Exchange)
    → Inv s
    → s.pc i ≡ collecting t true e
    → (s.tasks t).done ≡ false
    → Inv (record s {
      mock = (abandon_exchange s.mock (s.tasks t) e).0;
      tasks = update s.tasks t (abandon_exchange s.mock (s.tasks t) e).1;
      pc = update s.pc i outside;
    })
unfolding abandon_exchange
abandon-Inv {s} i t e v here running = record {
  mock = abandon-MockInv s.mock (s.tasks t) e v.mock;
  fresh = λ u h. v.fresh u h;
  owner = λ j u h. ground (arith, v.unique i j t u);
  unique = λ j k u w p q. ground (arith, v.unique j k u w);
  covered = λ u h. ground (arith, v.owner i t, v.covered u h);
}

work-Inv :
    {s : System} (t : ℕ) (result : Errno) (response : Response)
    → Inv s
    → (s.tasks t).done ≡ false
    → Inv (record s {
      mock = finish_worker s.mock t (s.tasks t) result;
      tasks = update s.tasks t (finish_task (s.tasks t) result response);
    })
unfolding finish_worker finish_task
work-Inv {s} t result response v running = record {
  mock = finish_worker-MockInv s.mock t (s.tasks t) result v.mock;
  fresh = λ u h. ground (arith, v.fresh u);
  owner = λ j u h. ground (arith, v.owner j u h);
  unique = v.unique;
  covered = λ u h. ground (arith, v.covered u);
}

step_pc :
    (s : System) (i : ℕ) (p : Pc)
    → task_of p ≡ task_of (s.pc i)
    → (j : ℕ) → task_of (update s.pc i p j) ≡ task_of (s.pc j)
step_pc s i p h j = ground arith

request_cancel-active : (m : Mock) → (request_cancel m).0.active_task ≡ m.active_task
unfolding request_cancel
request_cancel-active m = ground arith

Step-Inv : {s t : System} → Step s t → Inv s → Inv t
Step-Inv {s} (quiet {m} q) v =
    same_threads m s.pc v (Quiet-MockInv q v.mock) (Quiet-active q v.mock) (λ i. refl)
Step-Inv {s} (start i e now here ok) v =
    start-Inv i e (prevalidate s.mock (some e) now).deadline_ns v
      (prevalidate-not_busy s.mock e now ok)
Step-Inv (work t result response made running) v = work-Inv t result response v running
Step-Inv {s} (leave i t e here done) v =
    same_threads s.mock (update s.pc i (collecting t false e)) v v.mock refl
      (step_pc s i (collecting t false e) (ground arith))
Step-Inv {s} (give_up i t e r here gives) v =
    same_threads (request_cancel s.mock).0 (update s.pc i (collecting t true e)) v
      (request_cancel-MockInv s.mock v.mock) (request_cancel-active s.mock)
      (step_pc s i (collecting t true e) (ground arith))
Step-Inv (finish i t b e here done) v = finish-Inv i t b e v here
Step-Inv (abandon i t e here running) v = abandon-Inv i t e v here running

init-Inv : (ops : Option BackendOps) (context : ℕ) (tasks : ℕ → Task) → Inv (init ops context tasks)
unfolding created
init-Inv ops context tasks = record {
  mock = ground arith;
  fresh = λ t h. ground arith;
  owner = λ i t h. ground arith;
  unique = λ i j t u p q. ground arith;
  covered = λ t h. ground arith;
}

pub Reach-Inv :
    {ops : Option BackendOps} {context : ℕ} {tasks : ℕ → Task} {s : System}
    → Reach ops context tasks s
    → Inv s
Reach-Inv {ops} {context} {tasks} begin = init-Inv ops context tasks
Reach-Inv (later r s) = Step-Inv s (Reach-Inv r)
