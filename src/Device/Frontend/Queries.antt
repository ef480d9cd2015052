-- ===== src/Device/Frontend/Queries.antt =====
-- src/device/qcpu_mock_frontend.c: qcpu_fill_caps and qcpu_fill_status, which answer the two queries of
-- qcpu_mock_ioctl, and qcpu_copy_text. The structures are those of include/uapi/qcpu_device_uapi.h.
use qbit_nova_c.Base.{
  ℕ, zero, suc, ◌-◌, ◌≤◌, ◌≡◌, ◌≢◌, refl, ap, true, false, Option, some, none, List, [], ◌∷◌, ◌++◌,
  Text, length, length-append, take, ◌==◌, if◌then◌else◌, arith,
}
use qbit_nova_c.Uapi.{Errno, protocol_version, max_qubits, max_shots, required_flags}
use qbit_nova_c.Device.Frontend.{Mock}

abbrev pub abi_version : ℕ
abi_version = 1

abbrev pub max_inflight : ℕ
max_inflight = 1

abbrev pub backend_name_bytes : ℕ
backend_name_bytes = 32

abbrev pub driver_version_bytes : ℕ
driver_version_bytes = 16

-- struct qcpu_uapi_caps_v1 without its reserved bytes, which stay zero
pub record Caps : Type 0 where
  pub abi_version : ℕ
  pub protocol_version : ℕ
  pub max_qubits : ℕ
  pub max_shots : ℕ
  pub max_inflight : ℕ
  pub flags : ℕ
  pub backend : List ℕ
  pub driver_version : List ℕ

pub record StatusReport : Type 0 where
  pub device_state : ℕ
  pub active_client_sessions : ℕ
  pub last_errno : Errno
  pub last_protocol_status : ℕ
  pub completed_requests : ℕ
  pub failed_requests : ℕ

unfoldable pub zeros : ℕ → List ℕ
zeros zero = []
zeros (suc n) = 0 ∷ zeros n

-- qcpu_copy_text: the bytes of the destination, of `size` bytes; `none` is the NULL pointer.
unfoldable pub copy_text : (size : ℕ) → Option Text → List ℕ
unfolding zeros
copy_text zero source = []
copy_text (suc size) none = zeros (suc size)
copy_text (suc size) (some text) = take size text ++ zeros (suc size - length (take size text))

unfoldable pub fill_caps : (backend_name driver_version : Text) → Caps
unfolding copy_text
fill_caps backend_name driver_version = record {
  abi_version = abi_version;
  protocol_version = protocol_version;
  max_qubits = max_qubits;
  max_shots = max_shots;
  max_inflight = max_inflight;
  flags = required_flags;
  backend = copy_text backend_name_bytes (some backend_name);
  driver_version = copy_text driver_version_bytes (some driver_version);
}

unfoldable pub fill_status : Mock → StatusReport
fill_status m = record {
  device_state = m.device_state;
  active_client_sessions = if m.session_open then 1 else 0;
  last_errno = m.last_errno;
  last_protocol_status = m.last_protocol_status;
  completed_requests = m.completed_requests;
  failed_requests = m.failed_requests;
}

-- The text that a client reads from the bytes of a field.
unfoldable pub c_string : List ℕ → Text
c_string [] = []
c_string (c ∷ bytes) = elim (c == 0) [ true ↦ [] | false ↦ c ∷ c_string bytes ]

unfoldable pub HasNoNul : Text → Type 0
HasNoNul [] = Unit
HasNoNul (c ∷ text) = (c ≢ 0) × HasNoNul text

length-zeros : (n : ℕ) → length (zeros n) ≡ n
unfolding zeros
length-zeros zero = refl
length-zeros (suc n) = omega (arith, length-zeros n)

length-take_le : (n : ℕ) (text : Text) → length (take n text) ≤ n
length-take_le zero text = omega arith
length-take_le (suc n) [] = omega arith
length-take_le (suc n) (c ∷ text) = omega (arith, length-take_le n text)

c_string-zeros : (n : ℕ) → c_string (zeros n) ≡ []
unfolding zeros c_string
c_string-zeros zero = refl
c_string-zeros (suc n) = refl

c_string-take :
    (n m : ℕ) (text : Text) → HasNoNul text → c_string (take n text ++ zeros m) ≡ take n text
unfolding c_string HasNoNul
c_string-take zero m text h = c_string-zeros m
c_string-take (suc n) m [] h = c_string-zeros m
c_string-take (suc n) m (c ∷ text) h =
    let clear : (c == 0) ≡ false = ground (arith, h.0) in
    rw (clear, c_string) (ap (c ∷◌) (c_string-take n m text h.1))

-- A text with no NUL is copied into a field of at least one byte without leaving it: all bytes of the
-- field are written, and a client reads the text back, cut to what fits in front of the final NUL.
pub c_string-copy_text :
    (size : ℕ) (text : Text)
    → HasNoNul text
    → (length (copy_text (suc size) (some text)) ≡ suc size)
      × (c_string (copy_text (suc size) (some text)) ≡ take size text)
unfolding copy_text
c_string-copy_text size text h = (
  omega (
    arith,
    length-append (take size text) (zeros (suc size - length (take size text))),
    length-zeros (suc size - length (take size text)),
    length-take_le size text,
  ),
  c_string-take size (suc size - length (take size text)) text h,
)
