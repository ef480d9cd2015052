-- ===== src/Device/Adapter/Cancel.antt =====
-- src/device/qcpu_qcpud_adapter.c: the active exchange, its descriptor and the request to cancel it,
-- in every interleaving of callers of qcpu_qcpud_exchange, of qcpu_qcpud_cancel, and of the rest of
-- the process, which opens and closes descriptors of its own. A step is one stretch under the mutex or one system
-- call; what connect, write and read give is left open, and so is the result that they lead to.
pub mod Safe
use qbit_nova_c.Base.{ℕ, ◌≡◌, Bool, true, false, Option, none, some, if◌then◌else◌}
use qbit_nova_c.Device.Frontend.System.{update}
use qbit_nova_c.Uapi.{Errno, no_error, ebusy, ecanceled}

-- active_fd is `none` for -1; the path of the socket never changes.
pub record Adapter : Type 0 where
  pub active_fd : Option ℕ
  pub active : Bool
  pub cancel_requested : Bool

unfoldable pub adapter_begin : Adapter → Errno × Adapter
adapter_begin a =
    if a.active
    then (ebusy, a)
    else (no_error, record { active_fd = none; active = true; cancel_requested = false })

-- The return, the descriptor that is shut down, and the adapter.
unfoldable pub adapter_register_fd : Adapter → ℕ → Bool × Option ℕ × Adapter
adapter_register_fd a fd = (
  a.cancel_requested,
  if a.cancel_requested then some fd else none,
  record a { active_fd = some fd },
)

-- Up to the close, which is a step of its own.
unfoldable pub adapter_finish : Adapter → Errno → Errno × Adapter
adapter_finish a result = (
  if a.cancel_requested then ecanceled else result,
  record { active_fd = none; active = false; cancel_requested = false },
)

-- The descriptor that is shut down, and the adapter.
unfoldable pub adapter_cancel : Adapter → Option ℕ × Adapter
adapter_cancel a =
    if a.active then (a.active_fd, record a { cancel_requested = true }) else (none, a)

-- Where a caller stands in qcpu_qcpud_exchange: before it, behind begin, connect or register_fd, or
-- behind the stretch of finish under the mutex or the close, with the result that it will return.
pub data Place : Type 0 where
  outside begun : Place
  connected registered : (fd : ℕ) → Place
  closing : (fd : ℕ) (result : Errno) → Place
  returning : (result : Errno) → Place

-- What a descriptor number of the process stands for.
pub data Use : Type 0 where
  closed elsewhere : Use
  exchange_of : (caller : ℕ) → Use

pub record AdapterSystem : Type 0 where
  pub adapter : Adapter
  pub place : ℕ → Place
  pub descriptors : ℕ → Use

-- qcpu_qcpud_adapter_create.
unfoldable pub adapter_created : AdapterSystem
adapter_created = record {
  adapter = record { active_fd = none; active = false; cancel_requested = false };
  place = λ i. outside;
  descriptors = λ fd. elsewhere;
}

pub data AdapterStep : AdapterSystem → AdapterSystem → Type 0 where
  begin :
      {s : AdapterSystem} (i : ℕ)
      → s.place i ≡ outside
      → (adapter_begin s.adapter).0 ≡ no_error
      → AdapterStep s
          (record s { adapter = (adapter_begin s.adapter).1; place = update s.place i begun })
  -- A return before a descriptor is there.
  fail :
      {s : AdapterSystem} (i : ℕ) (result : Errno)
      → s.place i ≡ begun
      → AdapterStep s (record s {
        adapter = (adapter_finish s.adapter result).1;
        place = update s.place i (returning (adapter_finish s.adapter result).0);
      })
  connect :
      {s : AdapterSystem} (i fd : ℕ)
      → s.place i ≡ begun
      → s.descriptors fd ≡ closed
      → AdapterStep s (record s {
        place = update s.place i (connected fd);
        descriptors = update s.descriptors fd (exchange_of i);
      })
  register :
      {s : AdapterSystem} (i fd : ℕ)
      → s.place i ≡ connected fd
      → AdapterStep s (record s {
        adapter = (adapter_register_fd s.adapter fd).2;
        place = update s.place i (registered fd);
      })
  finish :
      {s : AdapterSystem} (i fd : ℕ) (result : Errno)
      → s.place i ≡ registered fd
      → AdapterStep s (record s {
        adapter = (adapter_finish s.adapter result).1;
        place = update s.place i (closing fd (adapter_finish s.adapter result).0);
      })
  close :
      {s : AdapterSystem} (i fd : ℕ) (result : Errno)
      → s.place i ≡ closing fd result
      → AdapterStep s (record s {
        place = update s.place i (returning result);
        descriptors = update s.descriptors fd closed;
      })
  leave :
      {s : AdapterSystem} (i : ℕ) (result : Errno)
      → s.place i ≡ returning result
      → AdapterStep s (record s { place = update s.place i outside })
  cancel : {s : AdapterSystem} → AdapterStep s (record s { adapter = (adapter_cancel s.adapter).1 })
  -- The rest of the process.
  other_open :
      {s : AdapterSystem} (fd : ℕ)
      → s.descriptors fd ≡ closed
      → AdapterStep s (record s { descriptors = update s.descriptors fd elsewhere })
  other_close :
      {s : AdapterSystem} (fd : ℕ)
      → s.descriptors fd ≡ elsewhere
      → AdapterStep s (record s { descriptors = update s.descriptors fd closed })

pub data AdapterReach : AdapterSystem → Type 0 where
  start : AdapterReach adapter_created
  later : {s s' : AdapterSystem} → AdapterReach s → AdapterStep s s' → AdapterReach s'
