-- ===== src/Device/Adapter.antt =====
-- src/device/qcpu_qcpud_adapter.c: the translations between the frontend's structures and the
-- daemon's. A negated errno is an Errno, 0 is `no_error`. The exchange over the
-- socket is Exchange, the state that a cancel changes Cancel.
pub mod Delivery
pub mod Cancel
pub mod Exchange
use qbit_nova_c.Base.{ℕ, ◌≡◌, Bool, not, Option, none, some, ◌==◌, if◌then◌else◌, bit_and, bit_or}
use qbit_nova_c.Uapi
use qbit_nova_c.Uapi.{
  Request, Response, Errno, no_error, eproto, eprotonosupport, eopnotsupp, erange, eio, status_ok,
  status_bad_magic, status_bad_version, status_bad_command, status_range, status_kernel, status_io,
}
use qbit_nova_c.Device.Protocol.{
  DeviceRequest, DeviceResponse, DeviceStatus, status_code, request_magic, protocol_version,
  command_status, command_run_ghz, flag_software_virtual_qcpu, flag_classical_host,
  flag_physical_qpu_absent, flag_q0_most_significant,
}
use qbit_nova_c.Float.{Float64}
use qbit_nova_c.Device.Frontend.NormWord.{LongDouble, norm_to_q32_32}

unfoldable pub adapter_status : ℕ → ℕ
adapter_status s =
    if s == status_code DeviceStatus.ok
    then status_ok
    else if s == status_code DeviceStatus.bad_magic
    then status_bad_magic
    else if s == status_code DeviceStatus.bad_version
    then status_bad_version
    else if s == status_code DeviceStatus.bad_command
    then status_bad_command
    else if s == status_code DeviceStatus.range
    then status_range
    else if s == status_code DeviceStatus.kernel
    then status_kernel
    else status_io

unfoldable pub adapter_status_result : ℕ → Errno
adapter_status_result s =
    if s == status_ok
    then no_error
    else if s == status_bad_magic
    then eproto
    else if s == status_bad_version
    then eprotonosupport
    else if s == status_bad_command
    then eopnotsupp
    else if s == status_range
    then erange
    else eio

-- Each flag of the daemon and the bit of the interface that it sets.
unfoldable pub adapter_flags : ℕ → ℕ
adapter_flags flags =
    let software = if bit_and flags flag_software_virtual_qcpu == 0 then 0 else 1 in
    let host = if bit_and flags flag_classical_host == 0 then software else bit_or software 2 in
    let absent = if bit_and flags flag_physical_qpu_absent == 0 then host else bit_or host 4 in
    if bit_and flags flag_q0_most_significant == 0 then absent else bit_or absent 8

-- The result and `*translated`, which is cleared first.
unfoldable pub translate_request : Request → Errno × DeviceRequest
translate_request q =
    let empty : DeviceRequest = record {
      magic = request_magic;
      version = protocol_version;
      command = 0;
      qubits = 0;
      shots = 0;
      seed = 0;
    } in
    let filled : ℕ → DeviceRequest = λ command. record empty {
      command = command;
      qubits = q.qubits;
      shots = q.shots;
      seed = q.seed;
    } in
    if q.command == Uapi.command_status
    then (no_error, filled command_status)
    else if q.command == Uapi.command_run_ghz
    then (no_error, filled command_run_ghz)
    else (eopnotsupp, empty)

module _ (F : Float64) (L : LongDouble F) where
  open F use {Double}

  -- The result and `*response`.
  unfoldable pub translate_response : DeviceResponse Double → Errno × Response
  unfolding adapter_status adapter_flags
  translate_response s =
      let response : Response = record {
        magic = Uapi.response_magic;
        version = Uapi.protocol_version;
        status = adapter_status s.status;
        flags = adapter_flags s.flags;
        qubits = s.qubits;
        basis_states = s.basis_states;
        shots = s.shots;
        measured_state = s.measured_state;
        invalid_results = s.invalid_results;
        norm_q32_32 = 0;
      } in
      elim (norm_to_q32_32 F L s.norm) [
        | none ↦ (eio, record response { status = status_kernel })
        | some norm ↦
            (adapter_status_result response.status, record response { norm_q32_32 = norm })
      ]
