-- ===== src/Device/Daemon/Serve.antt =====
-- serve_connection of src/device/qcpud.c: from the packet of a client to the packet it gets back.
use qbit_nova_c.Base.{ℕ, ◌^◌, ◌<◌, ◌≤◌, ◌≡◌, ◌∙◌, ap, true, some, List, arith}
use native.Mathlib.Nat.{pow-le-pow_right}
use qbit_nova_c.Float.{Float64, BitCopy}
use qbit_nova_c.Device.Protocol.{
  DeviceRequest, DeviceResponse, DeviceStatus, max_qubits, max_shots, request_magic,
  protocol_version, command_run_ghz,
}
use qbit_nova_c.Quantum.Kernel.{Kernel}
use qbit_nova_c.Device.Wire.{
  request_bytes, response_bytes, decode_response, check_request, check_response, encode_response,
  response_wire_size,
}
use qbit_nova_c.Device.Wire.RoundTrip.{
  RequestFits, ResponseFits, decode-encode_request, decode-encode_response,
}
use qbit_nova_c.Device.Daemon.{Memory, process_request, serve_packet, device_flags}
use qbit_nova_c.Device.Daemon.Ghz.{RunLaws, Answers, process_request-Answers}

module _ (F : Float64) where
  open F use {Double}

  -- A request whose header is right is processed, and the answer is encoded.
  serve_packet-processes :
      (memory : Memory) (junk : Kernel Double) (r : DeviceRequest)
      → RequestFits r
      → r.magic ≡ request_magic
      → r.version ≡ protocol_version
      → serve_packet F memory junk (request_bytes r)
        ≡ some (response_bytes F (process_request F memory junk r))
  unfolding serve_packet encode_response check_request
  serve_packet-processes memory junk r fits magic version =
      ground (arith, decode-encode_request r fits)

  module _ (copy : BitCopy F) (laws : RunLaws F) where
    Answers-ResponseFits :
        (r : DeviceRequest) (response : DeviceResponse Double)
        → RequestFits r
        → r.qubits ≤ max_qubits
        → Answers F laws r response
        → ResponseFits response
    unfolding device_flags
    Answers-ResponseFits r response fits few a =
        let top : 2 ^ r.qubits ≤ 2 ^ 20 = pow-le-pow_right (omega arith) {j = 20} few in
        ground (arith, a, fits)

    Answers-check :
        (r : DeviceRequest) (response : DeviceResponse Double)
        → Answers F laws r response
        → check_response F response ≡ DeviceStatus.ok
    unfolding check_response
    Answers-check r response a = ground (arith, a)

    -- A client that sends the 24 bytes of a RUN_GHZ request for 1 to 20 qubits and 1 to 100 shots gets
    -- a packet back that decodes, with verdict OK, to a valid answer to that request: status OK,
    -- the sizes asked for, one of the two GHZ states and a norm of exactly 1.0. Memory is there, and
    -- the result relies on RunLaws and BitCopy.
    pub serve_packet-Answers :
        (junk : Kernel Double) (r : DeviceRequest)
        → RequestFits r
        → r.magic ≡ request_magic
        → r.version ≡ protocol_version
        → r.command ≡ command_run_ghz
        → 0 < r.qubits
        → r.qubits ≤ max_qubits
        → 0 < r.shots
        → r.shots ≤ max_shots
        → (packet : List ℕ) × (response : DeviceResponse Double) × (serve_packet F
              (record { amplitudes = true; counts = true })
              junk
              (request_bytes r)
            ≡ some packet)
          × (decode_response F true (some packet) response_wire_size
              ≡ (DeviceStatus.ok, some response))
          × Answers F laws r response
    serve_packet-Answers junk r fits magic version command some_qubit few_qubits some_shot
          few_shots =
        let response = process_request F (record { amplitudes = true; counts = true }) junk r in
        let a : Answers F laws r response =
          process_request-Answers F laws junk r command some_qubit few_qubits some_shot few_shots in
        let back =
          decode-encode_response F copy response
            (Answers-ResponseFits r response fits few_qubits a) in
        (
          response_bytes F response,
          response,
          serve_packet-processes (record { amplitudes = true; counts = true }) junk r fits magic
              version,
          back.2 ∙ ap (λ (s : DeviceStatus). (s, some response)) (Answers-check r response a),
          a,
        )
