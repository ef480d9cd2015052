-- ===== src/Device/Adapter/Cancel/Safe.antt =====
-- The adapter's descriptor and cancel request in every reachable state.
use qbit_nova_c.Base.{ℕ, ◌≡◌, ◌⊎◌, inl, inr, Bool, true, false, Option, some, none, arith}
use qbit_nova_c.Uapi.{ecanceled}
use qbit_nova_c.Device.Adapter.Cancel.{
  adapter_begin, adapter_register_fd, adapter_finish, adapter_cancel, Place, outside, begun,
  connected, registered, closing, returning, exchange_of, AdapterSystem, adapter_created,
  AdapterStep, begin, fail, connect, register, finish, close, leave, cancel, other_open,
  other_close, AdapterReach, start, later,
}

-- The descriptor that a caller holds, and whether it is between begin and finish.
abbrev pub held : Place → Option ℕ
held outside = none
held begun = none
held (connected fd) = some fd
held (registered fd) = some fd
held (closing fd result) = some fd
held (returning result) = none

abbrev pub is_inside : Place → Bool
is_inside outside = false
is_inside begun = true
is_inside (connected fd) = true
is_inside (registered fd) = true
is_inside (closing fd result) = false
is_inside (returning result) = false

pub record Inv (s : AdapterSystem) : Type 0 where
  pub owner : (fd : ℕ) → s.adapter.active_fd ≡ some fd → (i : ℕ) × (s.place i ≡ registered fd)
  pub holds : (i fd : ℕ) → held (s.place i) ≡ some fd → s.descriptors fd ≡ exchange_of i
  pub unique : (i j : ℕ) → is_inside (s.place i) ≡ true → is_inside (s.place j) ≡ true → i ≡ j
  pub is_active : (i : ℕ) → is_inside (s.place i) ≡ true → s.adapter.active ≡ true

created-Inv : Inv adapter_created
unfolding adapter_created
created-Inv = record {
  owner = λ fd e. absurd (cc);
  holds = λ i fd e. absurd (cc);
  unique = λ i j p q. absurd (cc);
  is_active = λ i p. absurd (cc);
}

AdapterStep-Inv : {s s' : AdapterSystem} → AdapterStep s s' → Inv s → Inv s'
unfolding adapter_begin adapter_register_fd adapter_finish adapter_cancel
AdapterStep-Inv {s} (begin i there free) v = record {
  owner = λ fd e. ground (arith, e);
  holds = λ j fd e. ground (arith, e, v.holds j fd);
  unique = λ j k p q. ground (arith, v.is_active j, v.is_active k);
  is_active = λ j p. ground (arith, free);
}
AdapterStep-Inv {s} (fail i result there) v = record {
  owner = λ fd e. absurd (cc);
  holds = λ j fd e. ground (arith, e, v.holds j fd);
  unique = λ j k p q. ground (arith, v.unique j k);
  is_active = λ j p. ground (arith, v.unique i j);
}
AdapterStep-Inv {s} (connect i fd there free) v = record {
  owner = λ fd' e. let (j, h) = v.owner fd' e in (j, ground (arith, h, there));
  holds = λ j fd' e. ground (arith, e, v.holds j fd', free);
  unique = λ j k p q. ground (arith, v.unique j k, there);
  is_active = λ j p. ground (arith, v.is_active j, v.is_active i, there);
}
AdapterStep-Inv {s} (register i fd there) v = record {
  owner = λ fd' e. (i, ground (arith, e));
  holds = λ j fd' e. ground (arith, e, there, v.holds j fd');
  unique = λ j k p q. ground (arith, v.unique j k, there);
  is_active = λ j p. ground (arith, v.is_active j, v.is_active i, there);
}
AdapterStep-Inv {s} (finish i fd result there) v = record {
  owner = λ fd' e. absurd (cc);
  holds = λ j fd' e. ground (arith, e, there, v.holds j fd');
  unique = λ j k p q. ground (arith, v.unique j k, there);
  is_active = λ j p. ground (arith, v.unique i j, there);
}
AdapterStep-Inv {s} (close i fd result there) v = record {
  owner = λ fd' e. let (j, h) = v.owner fd' e in (j, ground (arith, h, there));
  holds = λ j fd' e. ground (arith, e, there, v.holds j fd', v.holds i fd);
  unique = λ j k p q. ground (arith, v.unique j k, there);
  is_active = λ j p. ground (arith, v.is_active j, there);
}
AdapterStep-Inv {s} (leave i result there) v = record {
  owner = λ fd' e. let (j, h) = v.owner fd' e in (j, ground (arith, h, there));
  holds = λ j fd' e. ground (arith, e, v.holds j fd');
  unique = λ j k p q. ground (arith, v.unique j k);
  is_active = λ j p. ground (arith, v.is_active j);
}
AdapterStep-Inv {s} cancel v = record {
  owner = λ fd e. v.owner fd (ground (arith, e));
  holds = v.holds;
  unique = v.unique;
  is_active = λ j p. ground (arith, v.is_active j p);
}
AdapterStep-Inv {s} (other_open fd free) v = record {
  owner = v.owner;
  holds = λ j fd' e. ground (arith, v.holds j fd' e, free);
  unique = v.unique;
  is_active = v.is_active;
}
AdapterStep-Inv {s} (other_close fd there) v = record {
  owner = v.owner;
  holds = λ j fd' e. ground (arith, v.holds j fd' e, there);
  unique = v.unique;
  is_active = v.is_active;
}

AdapterReach-Inv : {s : AdapterSystem} → AdapterReach s → Inv s
AdapterReach-Inv start = created-Inv
AdapterReach-Inv (later r e) = AdapterStep-Inv e (AdapterReach-Inv r)

-- In every reachable state, a descriptor that qcpu_qcpud_cancel shuts down is the one that the active
-- exchange has registered and still holds: it is never one that was closed, or that the rest of
-- the process has opened under the same number.
pub cancel_hits_exchange :
    (s : AdapterSystem)
    → AdapterReach s
    → (fd : ℕ) → (adapter_cancel s.adapter).0 ≡ some fd
    → (i : ℕ) × (s.place i ≡ registered fd) × (s.descriptors fd ≡ exchange_of i)
unfolding adapter_cancel
cancel_hits_exchange s reach fd e =
    let v = AdapterReach-Inv reach in
    let (i, here) = v.owner fd (ground (arith, e)) in (i, here, v.holds i fd (ground (arith, here)))

-- In every reachable state, once the exchange that a caller has begun is asked to cancel, no step of
-- any caller or of the rest of the process takes the request back: behind the step the exchange is
-- still running and still cancelled, or it is about to return ECANCELED, whatever it had as result.
pub cancel_holds :
    (s s' : AdapterSystem) (i : ℕ)
    → AdapterReach s
    → is_inside (s.place i) ≡ true
    → s.adapter.cancel_requested ≡ true
    → AdapterStep s s'
    → ((is_inside (s'.place i) ≡ true) × (s'.adapter.cancel_requested ≡ true))
      ⊎ ((fd : ℕ) × (s'.place i ≡ closing fd ecanceled))
      ⊎ (s'.place i ≡ returning ecanceled)
unfolding adapter_begin adapter_register_fd adapter_finish adapter_cancel
cancel_holds s s' i reach inside asked (begin j there free) =
    inl (ground (arith, inside, (AdapterReach-Inv reach).is_active i inside, free))
cancel_holds s s' i reach inside asked (fail j result there) =
    inr (inr (ground (arith, inside, asked, there, (AdapterReach-Inv reach).unique i j inside)))
cancel_holds s s' i reach inside asked (connect j fd there free) =
    inl (ground (arith, inside, asked, there))
cancel_holds s s' i reach inside asked (register j fd there) =
    inl (ground (arith, inside, asked, there))
cancel_holds s s' i reach inside asked (finish j fd result there) =
    inr (inl (fd, ground (arith, inside, asked, there, (AdapterReach-Inv reach).unique i j inside)))
cancel_holds s s' i reach inside asked (close j fd result there) =
    inl (ground (arith, inside, asked, there))
cancel_holds s s' i reach inside asked (leave j result there) =
    inl (ground (arith, inside, asked, there))
cancel_holds s s' i reach inside asked cancel = inl (ground (arith, inside, asked))
cancel_holds s s' i reach inside asked (other_open fd free) = inl (inside, asked)
cancel_holds s s' i reach inside asked (other_close fd there) = inl (inside, asked)
