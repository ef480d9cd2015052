-- ===== src/Device/Adapter/Exchange.antt =====
-- qcpu_qcpud_exchange of src/device/qcpu_qcpud_adapter.c behind qcpu_adapter_begin: one request to
-- the daemon and its answer. What the system calls give is the record Calls, the cancel request
-- included; that it stays until qcpu_adapter_finish is Device.Adapter.Cancel.
pub mod Served
use qbit_nova_c.Base.{
  ℕ, ◌+◌, ◌-◌, ◌/◌, ◌%◌, Bool, true, not, Option, none, some, List, leb, ltb, ◌==◌, if◌then◌else◌,
}
use qbit_nova_c.Float.{Float64}
use qbit_nova_c.Uapi.{
  Request, Response, Errno, no_error, eio, enodev, etimedout, ecanceled, zero_response,
}
use qbit_nova_c.Device.Protocol.{DeviceStatus, DeviceRequest, DeviceResponse}
use qbit_nova_c.Device.Wire.{encode_request, decode_response, response_wire_size}
use qbit_nova_c.Device.Frontend.NormWord.{LongDouble}
use qbit_nova_c.Device.Transfer.{
  IoStatus, io_ok, io_timeout, Round, byte_array, read_all, write_all,
}
use qbit_nova_c.Device.Adapter.{translate_request, translate_response}

-- INT_MAX.
abbrev pub int_max : ℕ
int_max = 2147483647

-- qcpu_adapter_remaining_ms, from the reading of the clock (`none` if it fails).
unfoldable pub remaining_ms : (absolute_deadline_ns : ℕ) (now_ns : Option ℕ) → ℕ
remaining_ms absolute_deadline_ns none = 0
remaining_ms absolute_deadline_ns (some now_ns) =
    let remaining_ns = absolute_deadline_ns - now_ns in
    let remaining =
      if remaining_ns % 1000000 == 0 then remaining_ns / 1000000 else remaining_ns / 1000000 + 1 in
    if leb absolute_deadline_ns now_ns
    then 0
    else if ltb int_max remaining
    then int_max
    else remaining

-- qcpu_device_connect_unix: a descriptor, a time-out, an errno of ENOENT or ECONNREFUSED, or another.
pub data ConnectResult : Type 0 where
  connected connect_timeout connect_absent connect_failed : ConnectResult

pub record Calls : Type 0 where
  -- The clock in nanoseconds, before the connect, the write and the read.
  pub connect_ns : Option ℕ
  pub write_ns : Option ℕ
  pub read_ns : Option ℕ
  pub connection : ConnectResult
  -- The clock in milliseconds when the deadline of the write and of the read is set.
  pub write_ms : ℕ
  pub read_ms : ℕ
  pub writes : List Round
  pub shutdown_works : Bool
  pub stream : List ℕ
  pub reads : List Round
  -- cancel_requested in register_fd, behind an error, and in finish.
  pub canceled_early : Bool
  pub canceled_behind_error : Bool
  pub canceled : Bool

unfoldable pub io_result : Calls → IoStatus → Errno
io_result c status =
    if c.canceled_behind_error then ecanceled else elim status [ io_timeout ↦ etimedout | _ ↦ eio ]

-- The return of qcpu_adapter_finish, and `*response`.
unfoldable pub finished : Calls → Errno → Response → Option (Errno × Response)
finished c result response = some (if c.canceled then ecanceled else result, response)

module _ (F : Float64) (L : LongDouble F) where
  open F use {Double}

  unfoldable pub after_decode :
      Calls → DeviceStatus × Option (DeviceResponse Double) → Option (Errno × Response)
  unfolding finished
  after_decode c (DeviceStatus.ok, some s) =
      finished c (translate_response F L s).0 (translate_response F L s).1
  after_decode c (_, _) = finished c eio zero_response

  unfoldable pub after_read : Calls → Option (IoStatus × List ℕ) → Option (Errno × Response)
  unfolding io_result after_decode finished
  after_read c none = none
  after_read c (some (io_ok, wire)) =
      after_decode c (decode_response F true (some wire) response_wire_size)
  after_read c (some (status, wire)) = finished c (io_result c status) zero_response

  unfoldable pub after_write :
      (absolute_deadline_ns : ℕ) → Calls → Option (IoStatus × List ℕ) → Option (Errno × Response)
  unfolding finished io_result remaining_ms after_read byte_array
  after_write absolute_deadline_ns c none = none
  after_write absolute_deadline_ns c (some (io_ok, sent)) =
      let timeout_ms = remaining_ms absolute_deadline_ns c.read_ns in
      if not c.shutdown_works
      then finished c (if c.canceled_behind_error then ecanceled else eio) zero_response
      else if timeout_ms == 0
      then finished c etimedout zero_response
      else after_read c (
          read_all (c.read_ms + timeout_ms) response_wire_size (byte_array response_wire_size)
            c.stream c.reads)
  after_write absolute_deadline_ns c (some (status, sent)) =
      finished c (io_result c status) zero_response

  unfoldable pub after_connect :
      (absolute_deadline_ns : ℕ) (request_wire : List ℕ)
      → Calls
      → ConnectResult
      → Option (Errno × Response)
  unfolding finished remaining_ms after_write
  after_connect absolute_deadline_ns request_wire c connected =
      let timeout_ms = remaining_ms absolute_deadline_ns c.write_ns in
      if c.canceled_early
      then finished c ecanceled zero_response
      else if timeout_ms == 0
      then finished c etimedout zero_response
      else after_write absolute_deadline_ns c
          (write_all (c.write_ms + timeout_ms) request_wire c.writes)
  after_connect absolute_deadline_ns request_wire c connect_timeout =
      finished c etimedout zero_response
  after_connect absolute_deadline_ns request_wire c connect_absent = finished c enodev zero_response
  after_connect absolute_deadline_ns request_wire c connect_failed = finished c eio zero_response

  unfoldable pub after_encode :
      (absolute_deadline_ns : ℕ) → Calls → Option (List ℕ) → Option (Errno × Response)
  unfolding finished remaining_ms after_connect
  after_encode absolute_deadline_ns c none = finished c eio zero_response
  after_encode absolute_deadline_ns c (some request_wire) =
      if remaining_ms absolute_deadline_ns c.connect_ns == 0
      then finished c etimedout zero_response
      else after_connect absolute_deadline_ns request_wire c c.connection

  unfoldable pub after_translate :
      (absolute_deadline_ns : ℕ) → Calls → Errno × DeviceRequest → Option (Errno × Response)
  unfolding finished after_encode
  after_translate absolute_deadline_ns c (no_error, translated) =
      after_encode absolute_deadline_ns c (encode_request true (some translated)).1
  after_translate absolute_deadline_ns c (result, translated) = finished c result zero_response

  unfoldable pub exchange : Request → (absolute_deadline_ns : ℕ) → Calls → Option (Errno × Response)
  unfolding after_translate
  exchange request absolute_deadline_ns c =
      after_translate absolute_deadline_ns c (translate_request request)
