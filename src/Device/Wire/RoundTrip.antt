-- ===== src/Device/Wire/RoundTrip.antt =====
-- Packets of src/device/qcpu_device_wire.c: a decoder inverts its encoder.
use qbit_nova_c.Base.{
  ℕ, ◌^◌, ◌<◌, ◌≡◌, ◌↔◌, ◌≢◌, none, ◌∙◌, refl, ap, true, some, List, [], length, drop, arith, false,
}
use qbit_nova_c.Float.{Float64, BitCopy}
use qbit_nova_c.Device.Protocol.{
  ok, io, DeviceRequest, DeviceResponse, request_magic, protocol_version,
}
use qbit_nova_c.Device.Wire.{
  encode_request, decode_request, check_request, request_bytes, request_fields, encode_response,
  decode_response, check_response, response_bytes, response_fields, request_wire_size,
  response_wire_size,
}
use qbit_nova_c.Device.Wire.Words.{
  put_u16_le, put_u32_le, put_u64_le, get_u16_le, get_u32_le, get-put_u16, get-put_u32, get-put_u64,
}

-- Each field lies in the range of its C type.
pub record RequestFits (r : DeviceRequest) : Type 0 where
  pub magic : r.magic < 2 ^ 32
  pub version : r.version < 2 ^ 16
  pub command : r.command < 2 ^ 16
  pub qubits : r.qubits < 2 ^ 32
  pub shots : r.shots < 2 ^ 32
  pub seed : r.seed < 2 ^ 64

pub record ResponseFits {Double : Type 0} (r : DeviceResponse Double) : Type 0 where
  pub magic : r.magic < 2 ^ 32
  pub version : r.version < 2 ^ 16
  pub status : r.status < 2 ^ 16
  pub flags : r.flags < 2 ^ 32
  pub qubits : r.qubits < 2 ^ 32
  pub basis_states : r.basis_states < 2 ^ 64
  pub shots : r.shots < 2 ^ 64
  pub measured_state : r.measured_state < 2 ^ 64
  pub invalid_results : r.invalid_results < 2 ^ 64

request_fields-bytes : (r : DeviceRequest) → RequestFits r → request_fields (request_bytes r) ≡ r
unfolding request_fields request_bytes put_u16_le put_u32_le put_u64_le
request_fields-bytes r f = λ i. record {
  magic = get-put_u32 r.magic (drop 4 (request_bytes r)) f.magic i;
  version = get-put_u16 r.version (drop 6 (request_bytes r)) f.version i;
  command = get-put_u16 r.command (drop 8 (request_bytes r)) f.command i;
  qubits = get-put_u32 r.qubits (drop 12 (request_bytes r)) f.qubits i;
  shots = get-put_u32 r.shots (drop 16 (request_bytes r)) f.shots i;
  seed = get-put_u64 r.seed [] f.seed i;
}

-- Encoding a request whose fields fit their C types fills the 24 bytes of the packet, and decoding
-- those bytes gives back the request and the verdict on its magic number and version.
pub decode-encode_request :
    (r : DeviceRequest)
    → RequestFits r
    → (encode_request true (some r) ≡ (ok, some (request_bytes r)))
      × (length (request_bytes r) ≡ request_wire_size)
      × (decode_request true (some (request_bytes r)) request_wire_size ≡ (check_request r, some r))
unfolding encode_request decode_request request_bytes put_u16_le put_u32_le put_u64_le
decode-encode_request r f =
    (refl, refl, ap (λ (q : DeviceRequest). (check_request q, some q)) (request_fields-bytes r f))

pub request_bytes-length : (r : DeviceRequest) → length (request_bytes r) ≡ request_wire_size
unfolding request_bytes put_u16_le put_u32_le put_u64_le
request_bytes-length r = refl

pub response_bytes-length :
    (F : Float64) (r : DeviceResponse F.Double) → length (response_bytes F r) ≡ response_wire_size
unfolding response_bytes put_u16_le put_u32_le put_u64_le
response_bytes-length F r = refl

module _ (F : Float64) (copy : BitCopy F) where
  open F use {Double}
  open copy use {to_bits_lt, of_bits_to_bits}

  response_fields-bytes :
      (r : DeviceResponse Double) → ResponseFits r → response_fields F (response_bytes F r) ≡ r
  unfolding response_fields response_bytes put_u16_le put_u32_le put_u64_le
  response_fields-bytes r f = λ i. record {
    magic = get-put_u32 r.magic (drop 4 (response_bytes F r)) f.magic i;
    version = get-put_u16 r.version (drop 6 (response_bytes F r)) f.version i;
    status = get-put_u16 r.status (drop 8 (response_bytes F r)) f.status i;
    flags = get-put_u32 r.flags (drop 12 (response_bytes F r)) f.flags i;
    qubits = get-put_u32 r.qubits (drop 16 (response_bytes F r)) f.qubits i;
    basis_states = get-put_u64 r.basis_states (drop 24 (response_bytes F r)) f.basis_states i;
    shots = get-put_u64 r.shots (drop 32 (response_bytes F r)) f.shots i;
    measured_state = get-put_u64 r.measured_state (drop 40 (response_bytes F r)) f.measured_state i;
    invalid_results =
        get-put_u64 r.invalid_results (drop 48 (response_bytes F r)) f.invalid_results i;
    norm =
        (ap F.of_bits (get-put_u64 (F.to_bits r.norm) [] (to_bits_lt r.norm))
            ∙ of_bits_to_bits r.norm)
          i;
  }

  -- Encoding a response whose fields fit their C types fills the 56 bytes of the packet, and
  -- decoding those bytes gives back the response, its norm included, and the verdict on its magic
  -- number and version.
  pub decode-encode_response :
      (r : DeviceResponse Double)
      → ResponseFits r
      → (encode_response F true (some r) ≡ (ok, some (response_bytes F r)))
        × (length (response_bytes F r) ≡ response_wire_size)
        × (decode_response F true (some (response_bytes F r)) response_wire_size
            ≡ (check_response F r, some r))
  unfolding encode_response decode_response response_bytes put_u16_le put_u32_le put_u64_le
  decode-encode_response r f = (
    refl,
    refl,
    ap (λ (q : DeviceResponse Double). (check_response F q, some q)) (response_fields-bytes r f),
  )

-- A NULL pointer, or a buffer whose size is not 24, is refused as an I/O error and nothing is
-- stored; a request is accepted exactly when its 24 bytes hold the request magic and version 1.
pub decode_request-accepts :
    (input : List ℕ) (n : ℕ)
    → (decode_request false (some input) n ≡ (io, none))
      × (decode_request true none n ≡ (io, none))
      × (n ≢ request_wire_size → decode_request true (some input) n ≡ (io, none))
      × (((decode_request true (some input) n).0 ≡ ok) ↔ (
          (n ≡ request_wire_size)
          × (get_u32_le input ≡ request_magic)
          × (get_u16_le (drop 4 input) ≡ protocol_version)))
unfolding decode_request
decode_request-accepts input n = (refl, refl, λ ne. ground arith, ground arith)
