-- ===== src/Device/Adapter/Delivery.antt =====
-- From a request of the frontend through the adapter, the packets and the daemon to the response
-- that the frontend checks.
use qbit_nova_c.Base.{ℕ, ◌^◌, ◌<◌, ◌≡◌, ◌∙◌, ap, refl, true, some, List, arith}
use qbit_nova_c.Uapi.{Request, no_error, command_run_ghz}
use qbit_nova_c.Float.{Float64, BitCopy}
use qbit_nova_c.Quantum.Kernel.{Kernel}
use qbit_nova_c.Device.Protocol
use qbit_nova_c.Device.Protocol.{DeviceRequest, DeviceResponse, DeviceStatus}
use qbit_nova_c.Device.Wire.{request_bytes, decode_response, response_wire_size}
use qbit_nova_c.Device.Wire.RoundTrip.{RequestFits}
use qbit_nova_c.Device.Daemon.{serve_packet, device_flags}
use qbit_nova_c.Device.Daemon.Ghz.{RunLaws, Answers}
use qbit_nova_c.Device.Daemon.Serve.{serve_packet-Answers}
use qbit_nova_c.Device.Frontend.Check.{Acceptable, InRange}
use qbit_nova_c.Device.Frontend.NormWord.{LongDouble, UnitLaws, norm_to_q32_32, norm_to_q32_32-one}
use qbit_nova_c.Device.Adapter.{
  translate_request, translate_response, adapter_status, adapter_status_result, adapter_flags,
}

-- The daemon's request for a run.
abbrev pub run_of : Request → DeviceRequest
run_of q = record {
  magic = Protocol.request_magic;
  version = Protocol.protocol_version;
  command = Protocol.command_run_ghz;
  qubits = q.qubits;
  shots = q.shots;
  seed = q.seed;
}

translate_request-run :
    (q : Request) → q.command ≡ command_run_ghz → translate_request q ≡ (no_error, run_of q)
unfolding translate_request
translate_request-run q e = ground arith

run_of-RequestFits :
    (q : Request)
    → InRange q
    → q.seed < 2 ^ 64
    → q.command ≡ command_run_ghz
    → RequestFits (run_of q)
run_of-RequestFits q v seed e = ground (arith, v.sizes)

module _ (F : Float64) (L : LongDouble F) (laws : RunLaws F) (unit : UnitLaws F L) where
  open F use {Double}

  translated :
      (q : Request) (s : DeviceResponse Double)
      → Answers F laws (run_of q) s
      → ((translate_response F L s).0 ≡ no_error) × Acceptable q (translate_response F L s).1
  unfolding translate_response adapter_status adapter_flags adapter_status_result device_flags
  translated q s a =
      let norm : norm_to_q32_32 F L s.norm ≡ some (2 ^ 32) =
        ap (λ (d : Double). norm_to_q32_32 F L d) a.norm ∙ norm_to_q32_32-one F L unit in
      ground (arith, norm, a)

  -- A RUN_GHZ request that the frontend admits is answered end to end, given memory, BitCopy, RunLaws
  -- and UnitLaws: the adapter's packet makes the daemon send a packet that decodes with verdict OK,
  -- the adapter translates it with result 0, and the frontend finds the outcome acceptable.
  pub delivery-Acceptable :
      BitCopy F
      → (junk : Kernel Double) (q : Request) → InRange q
      → q.command ≡ command_run_ghz
      → q.seed < 2 ^ 64
      → (r : DeviceRequest) × (packet : List ℕ) × (s : DeviceResponse Double) × (translate_request q
          ≡ (no_error, r))
        × (serve_packet F (record { amplitudes = true; counts = true }) junk (request_bytes r)
            ≡ some packet)
        × (decode_response F true (some packet) response_wire_size ≡ (DeviceStatus.ok, some s))
        × ((translate_response F L s).0 ≡ no_error)
        × Acceptable q (translate_response F L s).1
  delivery-Acceptable copy junk q v command seed =
      let (packet, s, served, decoded, a) =
        serve_packet-Answers F copy laws junk (run_of q) (run_of-RequestFits q v seed command) refl
          refl refl (ground (arith, v.sizes)) (ground (arith, v.sizes)) (ground (arith, v.sizes))
          (ground (arith, v.sizes)) in
      let (done, fine) = translated q s a in
      (run_of q, packet, s, translate_request-run q command, served, decoded, done, fine)
