-- ===== src/Tests/Runs.antt =====
-- Requests to src/device/qcpud.c, and memory for them.
use qbit_nova_c.Base.{ℕ, true, arith}
use qbit_nova_c.Device.Protocol.{DeviceRequest, request_magic, protocol_version, command_run_ghz}
use qbit_nova_c.Device.Wire.RoundTrip.{RequestFits}
use qbit_nova_c.Device.Daemon.{Memory}

abbrev pub enough : Memory
enough = record { amplitudes = true; counts = true }

abbrev pub request_of : (qubits : ℕ) → DeviceRequest
request_of qubits = record {
  magic = request_magic;
  version = protocol_version;
  command = command_run_ghz;
  qubits = qubits;
  shots = 10;
  seed = 42;
}

pub request_of_3-RequestFits : RequestFits (request_of 3)
request_of_3-RequestFits = record {
  magic = omega arith;
  version = omega arith;
  command = omega arith;
  qubits = omega arith;
  shots = omega arith;
  seed = omega arith;
}
