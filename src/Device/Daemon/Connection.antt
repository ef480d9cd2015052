-- ===== src/Device/Daemon/Connection.antt =====
-- serve_connection of src/device/qcpud.c as a whole: the request is read, answered, and the answer
-- is written. What the system calls give are the rounds of Device.Transfer; the log is left out.
use qbit_nova_c.Base.{
  Option-cases, ℕ, ◌≡◌, ◌<◌, ◌≤◌, ◌≢◌, ◌⊎◌, inl, inr, ◌∙◌, ap, sym, refl, Bool, true, false, Option,
  none, some, List, [], take, length, arith,
}
use qbit_nova_c.Float.{Float64, BitCopy}
use qbit_nova_c.Quantum.Kernel.{Kernel}
use qbit_nova_c.Device.Protocol.{
  DeviceRequest, DeviceResponse, DeviceStatus, max_qubits, max_shots, request_magic,
  protocol_version, command_run_ghz,
}
use qbit_nova_c.Device.Wire.{
  request_bytes, decode_request, decode_response, encode_response, request_wire_size,
  response_wire_size,
}
use qbit_nova_c.Device.Wire.RoundTrip.{RequestFits, request_bytes-length, response_bytes-length}
use qbit_nova_c.Device.Daemon.{Memory, serve_packet, process_request, with_status, response_init}
use qbit_nova_c.Device.Daemon.Ghz.{RunLaws, Answers}
use qbit_nova_c.Device.Daemon.Serve.{serve_packet-Answers}
use qbit_nova_c.Device.Transfer.{
  IoStatus, io_ok, io_error, io_timeout, io_stopped, Round, byte_array, read_all, write_all,
}
use qbit_nova_c.Device.Transfer.Bytes.{length-byte_array}
use qbit_nova_c.Device.Transfer.Loop.{Goes, moved_bytes}
use qbit_nova_c.Device.Transfer.Whole.{
  read_all-whole, read_all-arrives, write_all-whole, write_all-arrives,
}

-- The end of serve_connection: whether it returns 0, and the bytes that the client is sent.
unfoldable pub written : Option (IoStatus × List ℕ) → Option (Bool × List ℕ)
written none = none
written (some (io_ok, sent)) = some (true, sent)
written (some (_, sent)) = some (false, sent)

unfoldable pub reply :
    (write_deadline_ms : ℕ) (writes : List Round) → Option (List ℕ) → Option (Bool × List ℕ)
unfolding written
reply write_deadline_ms writes none = some (false, [])
reply write_deadline_ms writes (some answer) = written (write_all write_deadline_ms answer writes)

written-ok :
    (answer sent : List ℕ) (o : Option (IoStatus × List ℕ))
    → ((status : IoStatus) (bytes : List ℕ)
        → o ≡ some (status, bytes)
        → ((status ≡ io_ok) × (bytes ≡ answer))
          ⊎ ((status ≢ io_ok) × (n : ℕ) × (n < length answer) × (bytes ≡ take n answer)))
    → written o ≡ some (true, sent)
    → sent ≡ answer
unfolding written
written-ok answer sent none whole e = absurd (cc)
written-ok answer sent (some (status, bytes)) whole e = elim (whole status bytes refl) [
  | inl (ok, all) ↦ ground (arith, e, ok, all)
  | inr (fails, n, fewer, prefix) ↦ ground (arith, e, fails)
]

reply-answers :
    (write_deadline_ms : ℕ) (writes : List Round) (sent : List ℕ) (o : Option (List ℕ))
    → reply write_deadline_ms writes o ≡ some (true, sent)
    → o ≡ some sent
unfolding reply
reply-answers write_deadline_ms writes sent none e = absurd (cc)
reply-answers write_deadline_ms writes sent (some answer) e = ap some (
    sym (
      written-ok answer sent (write_all write_deadline_ms answer writes)
        (write_all-whole write_deadline_ms answer writes) e))

module _ (F : Float64) where
  open F use {Double}

  -- serve_connection behind the read.
  unfoldable pub answered :
      Memory
      → Kernel Double
      → (write_deadline_ms : ℕ) (writes : List Round) → Option (IoStatus × List ℕ)
      → Option (Bool × List ℕ)
  unfolding reply
  answered memory junk write_deadline_ms writes none = none
  answered memory junk write_deadline_ms writes (some (io_ok, packet)) =
      reply write_deadline_ms writes (serve_packet F memory junk packet)
  answered memory junk write_deadline_ms writes (some (_, packet)) = some (false, [])

  unfoldable pub serve_connection :
      Memory
      → Kernel Double
      → (read_deadline_ms : ℕ) (stream : List ℕ) (reads : List Round)
      → (write_deadline_ms : ℕ) (writes : List Round) → Option (Bool × List ℕ)
  unfolding answered byte_array
  serve_connection memory junk read_deadline_ms stream reads write_deadline_ms writes =
      answered memory junk write_deadline_ms writes
        (read_all read_deadline_ms request_wire_size (byte_array request_wire_size) stream reads)

  encode_response-length :
      (r : DeviceResponse Double) (answer : List ℕ)
      → (encode_response F true (some r)).1 ≡ some answer
      → length answer ≡ response_wire_size
  unfolding encode_response
  encode_response-length r answer e = ground (arith, response_bytes-length F r, e)

  pub serve_packet-length :
      (memory : Memory) (junk : Kernel Double) (packet answer : List ℕ)
      → serve_packet F memory junk packet ≡ some answer
      → length answer ≡ response_wire_size
  unfolding serve_packet encode_response
  serve_packet-length memory junk packet answer e =
      let (status, request) = decode_request true (some packet) (length packet) in
      let failed = encode_response-length (with_status F (response_init F) status) answer in
      elim (Option-cases request) [
        | inl absent ↦ ground (arith, e, absent, failed)
        | inr (r, present) ↦ ground (
          arith,
          e,
          present,
          failed,
          encode_response-length (process_request F memory junk r) answer,
        )
      ]

  answered-answers :
      (memory : Memory) (junk : Kernel Double) (stream : List ℕ) (write_deadline_ms : ℕ)
      → (writes : List Round) (sent : List ℕ) (o : Option (IoStatus × List ℕ))
      → ((buffer : List ℕ)
          → o ≡ some (io_ok, buffer)
          → (request_wire_size ≤ length stream) × (buffer ≡ take request_wire_size stream))
      → answered memory junk write_deadline_ms writes o ≡ some (true, sent)
      → (request_wire_size ≤ length stream)
        × (serve_packet F memory junk (take request_wire_size stream) ≡ some sent)
  unfolding answered
  answered-answers memory junk stream write_deadline_ms writes sent none whole e = absurd (cc)
  answered-answers memory junk stream write_deadline_ms writes sent (some (io_ok, buffer)) whole e =
      let (sent_all, all) = whole buffer refl in
      (
        sent_all,
        reply-answers write_deadline_ms writes sent
            (serve_packet F memory junk (take request_wire_size stream))
            (ap (λ (p : List ℕ). reply write_deadline_ms writes (serve_packet F memory junk p))
                (sym all)
              ∙ e),
      )
  answered-answers memory junk stream write_deadline_ms writes sent (some (io_error, buffer)) whole
        e =
      absurd (cc)
  answered-answers memory junk stream write_deadline_ms writes sent (some (io_timeout, buffer))
        whole e =
      absurd (cc)
  answered-answers memory junk stream write_deadline_ms writes sent (some (io_stopped, buffer))
        whole e =
      absurd (cc)

  -- Whatever the system calls give: when serve_connection returns 0, the client has sent at least 24
  -- bytes, and has been sent the whole answer to the first 24 of them, and nothing else.
  pub serve_connection-answers :
      (memory : Memory) (junk : Kernel Double) (read_deadline_ms : ℕ) (stream : List ℕ)
      (reads : List Round)
      → (write_deadline_ms : ℕ) (writes : List Round) (sent : List ℕ)
      → serve_connection memory junk read_deadline_ms stream reads write_deadline_ms writes
        ≡ some (true, sent)
      → (request_wire_size ≤ length stream)
        × (serve_packet F memory junk (take request_wire_size stream) ≡ some sent)
  unfolding serve_connection
  serve_connection-answers memory junk read_deadline_ms stream reads write_deadline_ms writes sent
        e =
      let buffer = byte_array request_wire_size in
      answered-answers memory junk stream write_deadline_ms writes sent
        (read_all read_deadline_ms request_wire_size buffer stream reads)
        (λ got ends.
          elim (read_all-whole read_deadline_ms request_wire_size buffer stream reads
            (length-byte_array request_wire_size) io_ok got ends) [
              | inl (ok, enough, all) ↦ (enough, all)
              | inr (fails, n, fewer, prefix) ↦ absurd (fails refl)
            ])
        e

  module _ (copy : BitCopy F) (laws : RunLaws F) where
    -- A RUN_GHZ request for 1 to 20 qubits and 1 to 100 shots that arrives in any number of pieces,
    -- with interruptions and waits that end with OK between them, is served: serve_connection
    -- returns 0 and the client, which takes the answer in pieces too, is sent a packet that decodes
    -- to a valid answer. Memory is there, and the result relies on RunLaws and BitCopy.
    pub serve_connection-serves :
        (junk : Kernel Double) (r : DeviceRequest)
        → RequestFits r
        → r.magic ≡ request_magic
        → r.version ≡ protocol_version
        → r.command ≡ command_run_ghz
        → 0 < r.qubits
        → r.qubits ≤ max_qubits
        → 0 < r.shots
        → r.shots ≤ max_shots
        → (read_deadline_ms : ℕ) (reads : List Round) → Goes read_deadline_ms reads
        → moved_bytes reads ≡ request_wire_size
        → (write_deadline_ms : ℕ) (writes : List Round) → Goes write_deadline_ms writes
        → moved_bytes writes ≡ response_wire_size
        → (packet : List ℕ) × (response : DeviceResponse Double) × (serve_connection
              (record { amplitudes = true; counts = true })
              junk
              read_deadline_ms
              (request_bytes r)
              reads
              write_deadline_ms
              writes
            ≡ some (true, packet))
          × (decode_response F true (some packet) response_wire_size
              ≡ (DeviceStatus.ok, some response))
          × Answers F laws r response
    unfolding serve_connection answered reply written
    serve_connection-serves junk r fits magic version command some_qubit few_qubits some_shot
          few_shots read_deadline_ms reads reads_go read_bytes write_deadline_ms writes writes_go
          write_bytes =
        let (packet, response, serves, decodes, answers) =
          serve_packet-Answers F copy laws junk r fits magic version command some_qubit few_qubits
            some_shot few_shots in
        let memory : Memory = record { amplitudes = true; counts = true } in
        let request_read =
          read_all-arrives read_deadline_ms request_wire_size (byte_array request_wire_size)
            (request_bytes r) reads (length-byte_array request_wire_size) (request_bytes-length r)
            reads_go read_bytes in
        let answer_written =
          write_all-arrives write_deadline_ms packet writes writes_go
            (write_bytes ∙ sym (serve_packet-length memory junk (request_bytes r) packet serves)) in
        (
          packet,
          response,
          ap (answered memory junk write_deadline_ms writes) request_read
              ∙ ap (reply write_deadline_ms writes) serves
              ∙ ap written answer_written,
          decodes,
          answers,
        )
