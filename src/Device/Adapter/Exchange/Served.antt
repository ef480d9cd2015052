-- ===== src/Device/Adapter/Exchange/Served.antt =====
-- What qcpu_qcpud_exchange returns: the deadline in milliseconds, the answer of the daemon, and a cancel.
use qbit_nova_c.Base.{
  ℕ, ◌+◌, ◌-◌, ◌*◌, ◌^◌, ◌<◌, ◌≤◌, ◌≡◌, ◌⊎◌, ◌∙◌, ap, sym, refl, true, false, Option, none, some,
  List, length, arith,
}
use qbit_nova_c.Uapi.{Request, Response, Errno, no_error, ecanceled, command_run_ghz}
use qbit_nova_c.Float.{Float64, BitCopy}
use qbit_nova_c.Quantum.Kernel.{Kernel}
use qbit_nova_c.Device.Protocol.{DeviceRequest, DeviceStatus, DeviceResponse}
use qbit_nova_c.Device.Wire.{
  request_bytes, encode_request, decode_response, request_wire_size, response_wire_size,
}
use qbit_nova_c.Device.Wire.RoundTrip.{request_bytes-length}
use qbit_nova_c.Device.Daemon.{Memory, serve_packet}
use qbit_nova_c.Device.Daemon.Ghz.{RunLaws}
use qbit_nova_c.Device.Daemon.Connection.{serve_packet-length}
use qbit_nova_c.Device.Frontend.Check.{Acceptable, InRange}
use qbit_nova_c.Device.Frontend.NormWord.{LongDouble, UnitLaws}
use qbit_nova_c.Device.Transfer.{IoStatus, io_ok, byte_array, read_all, write_all}
use qbit_nova_c.Device.Transfer.Bytes.{length-byte_array}
use qbit_nova_c.Device.Transfer.Loop.{Goes, moved_bytes}
use qbit_nova_c.Device.Transfer.Whole.{read_all-arrives, write_all-arrives}
use qbit_nova_c.Device.Adapter.{translate_request, translate_response}
use qbit_nova_c.Device.Adapter.Delivery.{delivery-Acceptable}
use qbit_nova_c.Device.Adapter.Exchange.{
  int_max, remaining_ms, ConnectResult, connected, Calls, finished, after_decode, after_read,
  after_write, after_connect, after_encode, after_translate, exchange,
}

-- qcpu_adapter_remaining_ms is 0 exactly when the clock fails or the deadline has come; otherwise it
-- is at most INT_MAX, and unless it is INT_MAX it is the time that remains, rounded up to a millisecond.
pub remaining_ms-rounds :
    (absolute_deadline_ns now_ns : ℕ)
    → (remaining_ms absolute_deadline_ns none ≡ 0)
      × (absolute_deadline_ns ≤ now_ns → remaining_ms absolute_deadline_ns (some now_ns) ≡ 0)
      × (now_ns < absolute_deadline_ns
          → (0 < remaining_ms absolute_deadline_ns (some now_ns))
            × (remaining_ms absolute_deadline_ns (some now_ns) ≤ int_max)
            × ((remaining_ms absolute_deadline_ns (some now_ns) - 1) * 1000000 + now_ns
                < absolute_deadline_ns)
            × ((remaining_ms absolute_deadline_ns (some now_ns) ≡ int_max)
                ⊎ (absolute_deadline_ns
                    ≤ remaining_ms absolute_deadline_ns (some now_ns) * 1000000 + now_ns)))
unfolding remaining_ms
remaining_ms-rounds absolute_deadline_ns now_ns =
    (refl, λ late. ground arith, λ early. (ground arith, ground arith, ground arith, ground arith))

-- Calls that end well: time is left, the socket connects, the bytes move, and nobody cancels.
pub record Undisturbed (absolute_deadline_ns : ℕ) (c : Calls) : Type 0 where
  pub connects : c.connection ≡ connected
  pub connect_left : 0 < remaining_ms absolute_deadline_ns c.connect_ns
  pub write_left : 0 < remaining_ms absolute_deadline_ns c.write_ns
  pub read_left : 0 < remaining_ms absolute_deadline_ns c.read_ns
  pub writes_go : Goes (c.write_ms + remaining_ms absolute_deadline_ns c.write_ns) c.writes
  pub writes_all : moved_bytes c.writes ≡ request_wire_size
  pub reads_go : Goes (c.read_ms + remaining_ms absolute_deadline_ns c.read_ns) c.reads
  pub reads_all : moved_bytes c.reads ≡ response_wire_size
  pub shuts : c.shutdown_works ≡ true
  pub not_early : c.canceled_early ≡ false
  pub not_canceled : c.canceled ≡ false

module _ (F : Float64) (L : LongDouble F) where
  open F use {Double}

  after_write-reads :
      (absolute_deadline_ns : ℕ) (c : Calls) (sent : List ℕ)
      → Undisturbed absolute_deadline_ns c
      → length c.stream ≡ response_wire_size
      → after_write F L absolute_deadline_ns c (some (io_ok, sent))
        ≡ after_read F L c (some (io_ok, c.stream))
  unfolding after_write
  after_write-reads absolute_deadline_ns c sent u long =
      let arrives =
        read_all-arrives (c.read_ms + remaining_ms absolute_deadline_ns c.read_ns)
          response_wire_size (byte_array response_wire_size) c.stream c.reads
          (length-byte_array response_wire_size) long u.reads_go u.reads_all in
      ground (arith, u.shuts, u.read_left, arrives)

  after_encode-reads :
      (absolute_deadline_ns : ℕ) (c : Calls) (r : DeviceRequest)
      → Undisturbed absolute_deadline_ns c
      → length c.stream ≡ response_wire_size
      → after_translate F L absolute_deadline_ns c (no_error, r)
        ≡ after_read F L c (some (io_ok, c.stream))
  unfolding after_translate after_encode after_connect encode_request
  after_encode-reads absolute_deadline_ns c r u long =
      let arrives =
        write_all-arrives (c.write_ms + remaining_ms absolute_deadline_ns c.write_ns)
          (request_bytes r) c.writes u.writes_go (u.writes_all ∙ sym (request_bytes-length r)) in
      ground (
        arith,
        u.connects,
        u.connect_left,
        u.write_left,
        u.not_early,
        arrives,
        after_write-reads absolute_deadline_ns c (request_bytes r) u long,
      )

  -- A RUN_GHZ request that the frontend admits, sent to a daemon with memory while time is left,
  -- nobody cancels, and the bytes move in any pieces, comes back with result 0 and a response that
  -- the frontend finds acceptable. The result relies on BitCopy, RunLaws and UnitLaws.
  pub exchange-Acceptable :
      BitCopy F
      → (laws : RunLaws F) → UnitLaws F L
      → (junk : Kernel Double) (q : Request) → InRange q
      → q.command ≡ command_run_ghz
      → q.seed < 2 ^ 64
      → (absolute_deadline_ns : ℕ) (c : Calls) → Undisturbed absolute_deadline_ns c
      → (r : DeviceRequest) → translate_request q ≡ (no_error, r)
      → serve_packet F (record { amplitudes = true; counts = true }) junk (request_bytes r)
        ≡ some c.stream
      → (response : Response) × (exchange F L q absolute_deadline_ns c ≡ some (no_error, response))
        × Acceptable q response
  unfolding exchange after_read after_decode finished
  exchange-Acceptable copy laws unit junk q v command seed absolute_deadline_ns c u r translates
        serves =
      let (r', packet, s, translates', serves', decodes, done, fine) =
        delivery-Acceptable F L laws unit copy junk q v command seed in
      let memory : Memory = record { amplitudes = true; counts = true } in
      let same_r : r' ≡ r = ground (arith, translates, translates') in
      let same_packet : packet ≡ c.stream = ground (arith, same_r, serves, serves') in
      (
        (translate_response F L s).1,
        ap (after_translate F L absolute_deadline_ns c) translates
            ∙ after_encode-reads absolute_deadline_ns c r u
                (serve_packet-length F memory junk (request_bytes r) c.stream serves)
            ∙ ap
                (λ (wire : List ℕ).
                  after_decode F L c (decode_response F true (some wire) response_wire_size))
                (sym same_packet)
            ∙ ap (after_decode F L c) decodes
            ∙ ground (arith, done, u.not_canceled),
        fine,
      )

  finished-canceled :
      (c : Calls) (e result : Errno) (sent response : Response)
      → c.canceled ≡ true
      → finished c e sent ≡ some (result, response)
      → result ≡ ecanceled
  unfolding finished
  finished-canceled c e result sent response asked h = ground (arith, asked, h)

  after_decode-canceled :
      (c : Calls) (d : DeviceStatus × Option (DeviceResponse Double)) (result : Errno)
      (response : Response)
      → c.canceled ≡ true
      → after_decode F L c d ≡ some (result, response)
      → result ≡ ecanceled
  unfolding after_decode finished
  after_decode-canceled c (status, o) result response asked h = ground (arith, asked, h)

  after_read-canceled :
      (c : Calls) (o : Option (IoStatus × List ℕ)) (result : Errno) (response : Response)
      → c.canceled ≡ true
      → after_read F L c o ≡ some (result, response)
      → result ≡ ecanceled
  unfolding after_read finished
  after_read-canceled c none result response asked h = absurd (cc)
  after_read-canceled c (some (status, wire)) result response asked h = ground (
    arith,
    asked,
    h,
    after_decode-canceled c (decode_response F true (some wire) response_wire_size) result response,
  )

  after_write-canceled :
      (absolute_deadline_ns : ℕ) (c : Calls) (o : Option (IoStatus × List ℕ)) (result : Errno)
      (response : Response)
      → c.canceled ≡ true
      → after_write F L absolute_deadline_ns c o ≡ some (result, response)
      → result ≡ ecanceled
  unfolding after_write finished
  after_write-canceled absolute_deadline_ns c none result response asked h = absurd (cc)
  after_write-canceled absolute_deadline_ns c (some (status, sent)) result response asked h =
      ground (
        arith,
        asked,
        h,
        after_read-canceled c
            (read_all (c.read_ms + remaining_ms absolute_deadline_ns c.read_ns) response_wire_size
              (byte_array response_wire_size) c.stream c.reads)
            result response,
      )

  after_connect-canceled :
      (absolute_deadline_ns : ℕ) (wire : List ℕ) (c : Calls) (connection : ConnectResult)
      (result : Errno) (response : Response)
      → c.canceled ≡ true
      → after_connect F L absolute_deadline_ns wire c connection ≡ some (result, response)
      → result ≡ ecanceled
  unfolding after_connect finished
  after_connect-canceled absolute_deadline_ns wire c connection result response asked h = ground (
    arith,
    asked,
    h,
    after_write-canceled absolute_deadline_ns c
        (write_all (c.write_ms + remaining_ms absolute_deadline_ns c.write_ns) wire c.writes) result
        response,
  )

  after_translate-canceled :
      (absolute_deadline_ns : ℕ) (c : Calls) (t : Errno × DeviceRequest) (result : Errno)
      (response : Response)
      → c.canceled ≡ true
      → after_translate F L absolute_deadline_ns c t ≡ some (result, response)
      → result ≡ ecanceled
  unfolding after_translate after_encode finished encode_request
  after_translate-canceled absolute_deadline_ns c (e, r) result response asked h = ground (
    arith,
    asked,
    h,
    after_connect-canceled absolute_deadline_ns (request_bytes r) c c.connection result response,
  )

  -- When the cancel request is there at qcpu_adapter_finish, every exchange that returns at all returns
  -- ECANCELED, whatever the system calls gave.
  pub exchange-canceled :
      (q : Request) (absolute_deadline_ns : ℕ) (c : Calls)
      → c.canceled ≡ true
      → (result : Errno) (response : Response)
      → exchange F L q absolute_deadline_ns c ≡ some (result, response)
      → result ≡ ecanceled
  unfolding exchange
  exchange-canceled q absolute_deadline_ns c asked result response e =
      after_translate-canceled absolute_deadline_ns c (translate_request q) result response asked e
