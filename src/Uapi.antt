-- ===== src/Uapi.antt =====
-- include/uapi/qcpu_device_uapi.h: constants and structures that a client of the device sees.
use qbit_nova_c.Base.{ℕ}

abbrev pub request_magic : ℕ
request_magic = 0x51445631

abbrev pub response_magic : ℕ
response_magic = 0x51525631

abbrev pub protocol_version : ℕ
protocol_version = 1

abbrev pub max_qubits : ℕ
max_qubits = 20

abbrev pub max_shots : ℕ
max_shots = 100

abbrev pub command_status : ℕ
command_status = 1

abbrev pub command_run_ghz : ℕ
command_run_ghz = 2

-- QCPU_UAPI_STATUS_…
abbrev pub status_ok : ℕ
status_ok = 0

abbrev pub status_bad_magic : ℕ
status_bad_magic = 1

abbrev pub status_bad_version : ℕ
status_bad_version = 2

abbrev pub status_bad_command : ℕ
status_bad_command = 3

abbrev pub status_range : ℕ
status_range = 4

abbrev pub status_kernel : ℕ
status_kernel = 5

abbrev pub status_io : ℕ
status_io = 6

abbrev pub status_backend_absent : ℕ
status_backend_absent = 7

abbrev pub status_busy : ℕ
status_busy = 8

abbrev pub status_timeout : ℕ
status_timeout = 9

abbrev pub status_canceled : ℕ
status_canceled = 10

-- The four flags together, QCPU_MOCK_REQUIRED_FLAGS of src/device/qcpu_mock_frontend.h.
abbrev pub required_flags : ℕ
required_flags = 15

-- QCPU_UAPI_DEVICE_…
abbrev pub device_offline : ℕ
device_offline = 0

abbrev pub device_idle : ℕ
device_idle = 1

abbrev pub device_busy : ℕ
device_busy = 2

pub record Request : Type 0 where
  pub magic : ℕ  -- __u32
  pub version : ℕ  -- __u16
  pub command : ℕ  -- __u16
  pub qubits : ℕ  -- __u32
  pub shots : ℕ  -- __u32
  pub seed : ℕ  -- __u64

pub record Response : Type 0 where
  pub magic : ℕ  -- __u32
  pub version : ℕ  -- __u16
  pub status : ℕ  -- __u16
  pub flags : ℕ  -- __u32
  pub qubits : ℕ  -- __u32
  pub basis_states : ℕ  -- __u64
  pub shots : ℕ  -- __u64
  pub measured_state : ℕ  -- __u64
  pub invalid_results : ℕ  -- __u64
  pub norm_q32_32 : ℕ  -- __u64

abbrev pub zero_response : Response
zero_response = record {
  magic = 0;
  version = 0;
  status = 0;
  flags = 0;
  qubits = 0;
  basis_states = 0;
  shots = 0;
  measured_state = 0;
  invalid_results = 0;
  norm_q32_32 = 0;
}

pub record Exchange : Type 0 where
  pub request : Request
  pub timeout_ns : ℕ  -- __u64
  pub response : Response

-- The errno values that the device code names; 0 is `no_error`, and any other code that a call
-- reports is `other`.
pub data Errno : Type 0 where
  no_error einval ebusy eproto eprotonosupport eopnotsupp erange eio enodev etimedout : Errno
  ecanceled enomem : Errno
  other : ℕ → Errno
