-- ===== src/Device/Protocol.antt =====
-- src/device/qcpu_device_protocol.h: constants, requests and responses of the device protocol.
use qbit_nova_c.Base.{ℕ}

abbrev pub protocol_version : ℕ
protocol_version = 1

abbrev pub request_magic : ℕ
request_magic = 0x51445631

abbrev pub response_magic : ℕ
response_magic = 0x51525631

abbrev pub max_qubits : ℕ
max_qubits = 20

abbrev pub max_shots : ℕ
max_shots = 100

abbrev pub command_status : ℕ
command_status = 1

abbrev pub command_run_ghz : ℕ
command_run_ghz = 2

pub data DeviceStatus : Type 0 where
  ok bad_magic bad_version bad_command range kernel io : DeviceStatus

-- The value of the enumerator, as it is cast to `uint16_t`.
abbrev pub status_code : DeviceStatus → ℕ
status_code ok = 0
status_code bad_magic = 1
status_code bad_version = 2
status_code bad_command = 3
status_code range = 4
status_code kernel = 5
status_code io = 6

-- The four flags, 1 << 0 to 1 << 3.
abbrev pub flag_software_virtual_qcpu : ℕ
flag_software_virtual_qcpu = 1

abbrev pub flag_classical_host : ℕ
flag_classical_host = 2

abbrev pub flag_physical_qpu_absent : ℕ
flag_physical_qpu_absent = 4

abbrev pub flag_q0_most_significant : ℕ
flag_q0_most_significant = 8

pub record DeviceRequest : Type 0 where
  pub magic : ℕ  -- uint32_t
  pub version : ℕ  -- uint16_t
  pub command : ℕ  -- uint16_t
  pub qubits : ℕ  -- uint32_t
  pub shots : ℕ  -- uint32_t
  pub seed : ℕ  -- uint64_t

pub record DeviceResponse (Double : Type 0) : Type 0 where
  pub magic : ℕ  -- uint32_t
  pub version : ℕ  -- uint16_t
  pub status : ℕ  -- uint16_t
  pub flags : ℕ  -- uint32_t
  pub qubits : ℕ  -- uint32_t
  pub basis_states : ℕ  -- uint64_t
  pub shots : ℕ  -- uint64_t
  pub measured_state : ℕ  -- uint64_t
  pub invalid_results : ℕ  -- uint64_t
  pub norm : Double
