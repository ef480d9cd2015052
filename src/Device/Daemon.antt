-- ===== src/Device/Daemon.antt =====
-- src/device/qcpud.c: how the daemon answers a request. The socket, the signals and the loop over
-- connections are operating-system calls and are not modelled; serve_packet is serve_connection
-- between the bytes read and the bytes to write, and Connection is all of it. Whether the two callocs of a run succeed is an argument.
pub mod Ghz
pub mod Serve
pub mod Connection
use qbit_nova_c.Base.{
  ℕ, zero, suc, ◌+◌, ◌-◌, ◌%◌, ◌^◌, Bool, true, not, ◌&&◌, ◌||◌, Option, none, some, List, leb,
  ◌==◌, if◌then◌else◌, length, bit_or,
}
use qbit_nova_c.Base.Loops.{for_range}
use qbit_nova_c.Float.{Float64}
use qbit_nova_c.Device.Protocol.{
  DeviceStatus, status_code, DeviceRequest, DeviceResponse, response_magic, protocol_version,
  max_qubits, max_shots, command_status, command_run_ghz, flag_software_virtual_qcpu,
  flag_classical_host, flag_physical_qpu_absent, flag_q0_most_significant,
}
use qbit_nova_c.Device.Wire.{decode_request, encode_response}
use qbit_nova_c.Quantum.Kernel.{Status, ok, Kernel, kernel_init}
use qbit_nova_c.Quantum.Kernel.Ghz.{apply_ghz}
use qbit_nova_c.Quantum.Kernel.Sample.{
  ShotResult, no_result, kernel_validate, kernel_run_shots, kernel_measure, kernel_norm,
}

unfoldable pub device_flags : ℕ
device_flags =
    bit_or (bit_or (bit_or flag_software_virtual_qcpu flag_classical_host) flag_physical_qpu_absent)
      flag_q0_most_significant

-- The callocs of qcpu_kernel_init and of qcpu_kernel_run_shots.
pub record Memory : Type 0 where
  pub amplitudes : Bool
  pub counts : Bool

-- The loop that adds up the counts of all states but the first and the last.
unfoldable pub invalid_results : (state_count final_state : ℕ) → (ℕ → ℕ) → ℕ
unfolding for_range
invalid_results state_count final_state counts =
    for_range state_count
      (λ state invalid.
        if not (state == 0) && not (state == final_state)
        then (invalid + counts state) % 2 ^ 64
        else invalid)
      0

module _ (F : Float64) where
  open F use {Double, of_u64, div}

  -- 1e-12
  abbrev pub tolerance : Double
  tolerance = div (of_u64 1) (of_u64 1_000_000_000_000)

  unfoldable pub response_init : DeviceResponse Double
  unfolding device_flags
  response_init = record {
    magic = response_magic;
    version = protocol_version;
    status = 0;
    flags = device_flags;
    qubits = 0;
    basis_states = 0;
    shots = 0;
    measured_state = 0;
    invalid_results = 0;
    norm = of_u64 0;
  }

  abbrev pub with_status : DeviceResponse Double → DeviceStatus → DeviceResponse Double
  with_status r s = record r { status = status_code s }

  -- What the kernel calls of a run give when each of them returns QCPU_OK: the kernel as the
  -- measurement leaves it, the counts and the measured state.
  pub record Outcome : Type 0 where
    pub kernel : Kernel Double
    pub counts : ℕ → ℕ
    pub state_count : ℕ
    pub measured_state : ℕ

  -- qcpu_kernel_run_shots and qcpu_kernel_measure
  unfoldable pub shoot : Memory → Kernel Double → (shots : ℕ) → Option Outcome
  shoot memory k shots =
      let (status, result, k1) = kernel_run_shots F memory.counts k shots no_result in
      let (status', measured, k2) = kernel_measure F k1 in
      elim status [
        | ok ↦ elim status' [
          | ok ↦ elim result.counts [
            | none ↦ none
            | some c ↦ elim measured [
              | none ↦ none
              | some m ↦ some (record {
                kernel = k2;
                counts = c;
                state_count = result.state_count;
                measured_state = m;
              })
            ]
          ]
          | _ ↦ none
        ]
        | _ ↦ none
      ]

  -- All kernel calls of a run, from qcpu_kernel_init on an uninitialised structure.
  unfoldable pub run_kernel : Memory → Kernel Double → (qubits shots seed : ℕ) → Option Outcome
  run_kernel memory junk qubits shots seed =
      let (status, k) = kernel_init F memory.amplitudes junk qubits seed in
      let (status', k1) = apply_ghz F k in
      elim status [
        | ok ↦ elim status' [
          | ok ↦ elim (kernel_validate F k1 tolerance) [ ok ↦ shoot memory k1 shots | _ ↦ none ]
          | _ ↦ none
        ]
        | _ ↦ none
      ]

  unfoldable pub process_run_ghz :
      Memory → Kernel Double → DeviceRequest → DeviceResponse Double → DeviceResponse Double
  process_run_ghz memory junk request response =
      if request.qubits == 0
        || (not (leb request.qubits max_qubits)
            || (request.shots == 0 || not (leb request.shots max_shots)))
      then with_status response DeviceStatus.range
      else elim (run_kernel memory junk request.qubits request.shots request.seed) [
        | none ↦ with_status response DeviceStatus.kernel
        | some o ↦ record response {
          status = status_code DeviceStatus.ok;
          qubits = request.qubits;
          basis_states = o.kernel.state_count;
          shots = request.shots;
          measured_state = o.measured_state;
          invalid_results = invalid_results o.state_count (o.kernel.state_count - 1) o.counts;
          norm = kernel_norm F o.kernel;
        }
      ]

  unfoldable pub process_request : Memory → Kernel Double → DeviceRequest → DeviceResponse Double
  process_request memory junk request =
      if request.command == command_status
      then with_status response_init DeviceStatus.ok
      else (if request.command == command_run_ghz
          then process_run_ghz memory junk request response_init
          else with_status response_init DeviceStatus.bad_command)

  -- serve_connection from the packet that was read to the packet that is written.
  unfoldable pub serve_packet : Memory → Kernel Double → (packet : List ℕ) → Option (List ℕ)
  serve_packet memory junk packet =
      let (status, request) = decode_request true (some packet) (length packet) in
      let failed = (encode_response F true (some (with_status response_init status))).1 in
      elim status [
        | DeviceStatus.ok ↦ elim request [
          | none ↦ none
          | some r ↦ (encode_response F true (some (process_request memory junk r))).1
        ]
        | _ ↦ failed
      ]
