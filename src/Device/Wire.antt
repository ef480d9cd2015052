-- ===== src/Device/Wire.antt =====
-- src/device/qcpu_device_wire.c: the little-endian packets. The encoders write consecutive fields
-- that cover the whole output array, so its contents are the concatenation of the fields. A pointer
-- that may be NULL is an `Option`; the output buffer of an encoder is `true` if it is not NULL.
pub mod Words
pub mod RoundTrip
use qbit_nova_c.Base.{
  ℕ, ◌+◌, Bool, true, false, Option, none, some, List, ◌++◌, drop, length, ◌==◌, if◌then◌else◌,
}
use qbit_nova_c.Float.{Float64}
use qbit_nova_c.Device.Protocol.{
  DeviceStatus, ok, bad_magic, bad_version, io, DeviceRequest, DeviceResponse, request_magic,
  response_magic, protocol_version,
}
use Words.{put_u16_le, put_u32_le, put_u64_le, get_u16_le, get_u32_le, get_u64_le}

abbrev pub request_wire_size : ℕ
request_wire_size = 24

abbrev pub response_wire_size : ℕ
response_wire_size = 56

unfoldable pub request_bytes : DeviceRequest → List ℕ
request_bytes r =
    put_u32_le r.magic
    ++ (put_u16_le r.version
        ++ (put_u16_le r.command
            ++ (put_u32_le r.qubits ++ (put_u32_le r.shots ++ put_u64_le r.seed))))

pub request_fields : List ℕ → DeviceRequest
request_fields input = record {
  magic = get_u32_le input;
  version = get_u16_le (drop 4 input);
  command = get_u16_le (drop 6 input);
  qubits = get_u32_le (drop 8 input);
  shots = get_u32_le (drop 12 input);
  seed = get_u64_le (drop 16 input);
}

-- The status, and what the call leaves in the output array: `none` if it writes nothing.
unfoldable pub encode_request : Bool → Option DeviceRequest → DeviceStatus × Option (List ℕ)
unfolding request_bytes
encode_request false request = (io, none)
encode_request true none = (io, none)
encode_request true (some r) = (ok, some (request_bytes r))

unfoldable pub check_request : DeviceRequest → DeviceStatus
check_request r =
    if r.magic == request_magic
    then (if r.version == protocol_version then ok else bad_version)
    else bad_magic

-- The status, and what the call leaves in `*request`: `none` if it writes nothing.
unfoldable pub decode_request :
    Bool → Option (List ℕ) → (input_size : ℕ) → DeviceStatus × Option DeviceRequest
unfolding request_fields check_request
decode_request false input n = (io, none)
decode_request true none n = (io, none)
decode_request true (some input) n =
    if n == request_wire_size
    then (let r = request_fields input in (check_request r, some r))
    else (io, none)

module _ (F : Float64) where
  open F use {Double, to_bits, of_bits}

  unfoldable pub response_bytes : DeviceResponse Double → List ℕ
  response_bytes r =
      put_u32_le r.magic
      ++ (put_u16_le r.version
          ++ (put_u16_le r.status
              ++ (put_u32_le r.flags
                  ++ (put_u32_le r.qubits
                      ++ (put_u64_le r.basis_states
                          ++ (put_u64_le r.shots
                              ++ (put_u64_le r.measured_state
                                  ++ (put_u64_le r.invalid_results
                                      ++ put_u64_le (to_bits r.norm)))))))))

  pub response_fields : List ℕ → DeviceResponse Double
  response_fields input = record {
    magic = get_u32_le input;
    version = get_u16_le (drop 4 input);
    status = get_u16_le (drop 6 input);
    flags = get_u32_le (drop 8 input);
    qubits = get_u32_le (drop 12 input);
    basis_states = get_u64_le (drop 16 input);
    shots = get_u64_le (drop 24 input);
    measured_state = get_u64_le (drop 32 input);
    invalid_results = get_u64_le (drop 40 input);
    norm = of_bits (get_u64_le (drop 48 input));
  }

  unfoldable pub encode_response :
      Bool → Option (DeviceResponse Double) → DeviceStatus × Option (List ℕ)
  unfolding response_bytes
  encode_response false response = (io, none)
  encode_response true none = (io, none)
  encode_response true (some r) = (ok, some (response_bytes r))

  unfoldable pub check_response : DeviceResponse Double → DeviceStatus
  check_response r =
      if r.magic == response_magic
      then (if r.version == protocol_version then ok else bad_version)
      else bad_magic

  unfoldable pub decode_response :
      Bool → Option (List ℕ) → (input_size : ℕ) → DeviceStatus × Option (DeviceResponse Double)
  unfolding response_fields check_response
  decode_response false input n = (io, none)
  decode_response true none n = (io, none)
  decode_response true (some input) n =
      if n == response_wire_size
      then (let r = response_fields input in (check_response r, some r))
      else (io, none)
