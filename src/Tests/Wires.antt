-- ===== src/Tests/Wires.antt =====
-- src/device/qcpu_device_wire.c: its theorems at packets of concrete fields.
use qbit_nova_c.Base.{◌≡◌, Bool, true, some, length, arith}
use qbit_nova_c.Device.Protocol.{
  ok, DeviceRequest, DeviceResponse, request_magic, response_magic, protocol_version,
}
use qbit_nova_c.Device.Wire.{
  encode_request, decode_request, check_request, request_bytes, encode_response, decode_response,
  check_response, response_bytes, request_wire_size, response_wire_size,
}
use qbit_nova_c.Device.Wire.RoundTrip.{
  RequestFits, ResponseFits, decode-encode_request, decode-encode_response,
}
use qbit_nova_c.Tests.Doubles.{two_values, two_values-BitCopy}

abbrev run_request : DeviceRequest
run_request = record {
  magic = request_magic;
  version = protocol_version;
  command = 2;
  qubits = 3;
  shots = 10;
  seed = 42;
}

run_request-RequestFits : RequestFits run_request
run_request-RequestFits = record {
  magic = omega arith;
  version = omega arith;
  command = omega arith;
  qubits = omega arith;
  shots = omega arith;
  seed = omega arith;
}

abbrev run_response : DeviceResponse Bool
run_response = record {
  magic = response_magic;
  version = protocol_version;
  status = 0;
  flags = 15;
  qubits = 3;
  basis_states = 8;
  shots = 10;
  measured_state = 7;
  invalid_results = 0;
  norm = true;
}

run_response-ResponseFits : ResponseFits run_response
run_response-ResponseFits = record {
  magic = omega arith;
  version = omega arith;
  status = omega arith;
  flags = omega arith;
  qubits = omega arith;
  basis_states = omega arith;
  shots = omega arith;
  measured_state = omega arith;
  invalid_results = omega arith;
}

decode-encode_request_example :
    (encode_request true (some run_request) ≡ (ok, some (request_bytes run_request)))
    × (length (request_bytes run_request) ≡ request_wire_size)
    × (decode_request true (some (request_bytes run_request)) request_wire_size
        ≡ (check_request run_request, some run_request))
decode-encode_request_example = decode-encode_request run_request run_request-RequestFits

decode-encode_response_example :
    (encode_response two_values true (some run_response)
      ≡ (ok, some (response_bytes two_values run_response)))
    × (length (response_bytes two_values run_response) ≡ response_wire_size)
    × (decode_response two_values true
          (some (response_bytes two_values run_response))
          response_wire_size
        ≡ (check_response two_values run_response, some run_response))
decode-encode_response_example =
    decode-encode_response two_values two_values-BitCopy run_response run_response-ResponseFits
