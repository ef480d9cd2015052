-- ===== src/Device/Transfer.antt =====
-- src/device/qcpu_device_io.c: reading and writing whole packets. What the system calls give is a
-- trace, one entry for each round of a loop; `none` says that the call has not returned at its end.
-- The descriptor is valid, and prepare_deadline and set_nonblocking succeed.
pub mod Bytes
pub mod Loop
pub mod Whole
use qbit_nova_c.Base.{
  ℕ, zero, suc, ◌+◌, ◌-◌, min, Bool, true, false, Option, none, some, List, [], ◌∷◌, ◌++◌, length,
  take, drop, leb, ltb, ◌==◌, if◌then◌else◌,
}

pub data IoStatus : Type 0 where
  io_ok io_error io_timeout io_stopped : IoStatus

-- The return of poll(): descriptor.revents as the three tests read it, 0, or an error.
pub data PollResult : Type 0 where
  poll_events : (invalid wanted broken : Bool) → PollResult
  poll_timeout poll_interrupted poll_failed : PollResult

-- A round of wait_until_ready: the stop flag, the clock in milliseconds (`none` if it fails) and poll().
pub record Tick : Type 0 where
  pub stopped : Bool
  pub now_ms : Option ℕ
  pub poll : PollResult

-- The status that a return of poll() gives, `none` to go on.
unfoldable pub poll_status : PollResult → Option IoStatus
poll_status (poll_events invalid wanted broken) =
    if invalid
    then some io_error
    else if wanted
    then some io_ok
    else if broken
    then some io_error
    else none
poll_status poll_timeout = some io_timeout
poll_status poll_interrupted = none
poll_status poll_failed = some io_error

unfoldable pub wait_until_ready : (deadline_ms : ℕ) → List Tick → Option IoStatus
unfolding poll_status
wait_until_ready deadline_ms [] = none
wait_until_ready deadline_ms (t ∷ ticks) =
    let rest = wait_until_ready deadline_ms ticks in
    if t.stopped then some io_stopped else elim t.now_ms [
      | none ↦ some io_error
      | some now_ms ↦
          if leb deadline_ms now_ms
          then some io_timeout
          else elim (poll_status t.poll) [ some status ↦ some status | none ↦ rest ]
    ]

-- The return of read() or send(): a positive count (that for which the socket is ready, if that many
-- bytes are asked for), 0, or an error with its errno.
pub data CallResult : Type 0 where
  moved : (count : ℕ) → CallResult
  at_end call_interrupted call_failed : CallResult
  would_block : List Tick → CallResult  -- and the wait that follows

-- A round of the loop: the stop flag, and the system call if it is not set.
pub data Round : Type 0 where
  round : (stopped : Bool) (result : CallResult) → Round

-- The data of a call that moves bytes, `read (fd, buffer + offset, length)` or the same with send():
-- from the count that the socket is ready for, the call's result and the bytes where they are then.
abbrev pub Call : Type 0 → Type 0
Call Data = (offset len count : ℕ) → Data → ℕ × Data

-- What a round does to the count of bytes and the data: go on with them, or return.
pub data Progress (Data : Type 0) : Type 0 where
  go_on : ℕ → Data → Progress Data
  return : IoStatus → Progress Data
  stuck : Progress Data

-- The memory from `offset` on is overwritten with `bytes`.
unfoldable pub store_bytes : (offset : ℕ) (bytes memory : List ℕ) → List ℕ
store_bytes offset bytes memory = take offset memory ++ bytes ++ drop (offset + length bytes) memory

-- A buffer that is filled, and the bytes of the peer that are not read yet.
pub record Reading : Type 0 where
  pub buffer : List ℕ
  pub stream : List ℕ

-- read(): at most `length` bytes of the peer are stored at `buffer + offset`.
unfoldable pub read_call : Call Reading
unfolding store_bytes
read_call offset len count r =
    let bytes = take (min count len) r.stream in
    (
      length bytes,
      record { buffer = store_bytes offset bytes r.buffer; stream = drop (length bytes) r.stream },
    )

-- send(): at most `length` bytes from `buffer + offset` on are added to what the peer is sent.
unfoldable pub send_call : (buffer : List ℕ) → Call (List ℕ)
send_call buffer offset len count sent =
    let bytes = take (min count len) (drop offset buffer) in (length bytes, sent ++ bytes)

module _ {Data : Type 0} (call : Call Data) (deadline_ms size : ℕ) where
  unfoldable pub transfer_round : (completed : ℕ) → Data → Round → Progress Data
  unfolding wait_until_ready
  transfer_round completed d (round stopped result) =
      if stopped then return io_stopped else elim result [
        | moved count ↦
            let (n, d') = call completed (size - completed) count d in
            if n == 0 then return io_error else go_on (completed + n) d'
        | at_end ↦ return io_error
        | call_interrupted ↦ go_on completed d
        | call_failed ↦ return io_error
        | would_block ticks ↦ elim (wait_until_ready deadline_ms ticks) [
          | none ↦ stuck
          | some io_ok ↦ go_on completed d
          | some status ↦ return status
        ]
      ]

  -- The loop of both functions: the status, and the data at the return.
  unfoldable pub transfer : (completed : ℕ) → Data → List Round → Option (IoStatus × Data)
  unfolding transfer_round
  transfer completed d [] = if ltb completed size then none else some (io_ok, d)
  transfer completed d (r ∷ rounds) =
      let after = λ (n : ℕ) (d' : Data). transfer n d' rounds in
      if ltb completed size
      then elim (transfer_round completed d r) [
        | go_on n d' ↦ after n d'
        | return status ↦ some (status, d)
        | stuck ↦ none
      ]
      else some (io_ok, d)

-- The caller's array is not initialised. Its bytes stand as 0 until they are stored.
unfoldable pub byte_array : (size : ℕ) → List ℕ
byte_array zero = []
byte_array (suc size) = 0 ∷ byte_array size

abbrev pub with_buffer : Option (IoStatus × Reading) → Option (IoStatus × List ℕ)
with_buffer none = none
with_buffer (some (status, r)) = some (status, r.buffer)

-- qcpu_device_read_all into `buffer`, from a peer that sends `stream`: the status and the buffer.
unfoldable pub read_all :
    (deadline_ms size : ℕ) (buffer stream : List ℕ) → List Round → Option (IoStatus × List ℕ)
unfolding transfer read_call
read_all deadline_ms size buffer stream rounds =
    with_buffer
      (transfer read_call deadline_ms size 0 (record { buffer = buffer; stream = stream }) rounds)

-- qcpu_device_write_all: the status and the bytes that the peer is sent.
unfoldable pub write_all :
    (deadline_ms : ℕ) (buffer : List ℕ) → List Round → Option (IoStatus × List ℕ)
unfolding transfer send_call
write_all deadline_ms buffer rounds =
    transfer (send_call buffer) deadline_ms (length buffer) 0 [] rounds
