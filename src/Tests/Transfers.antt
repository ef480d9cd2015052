-- ===== src/Tests/Transfers.antt =====
-- src/device: whole packets over pieces, a connection of the daemon, and an exchange of the adapter.
use qbit_nova_c.Base.{
  suc, ℕ, ◌+◌, ◌-◌, ◌*◌, ◌≡◌, ◌≢◌, ◌≤◌, ◌<◌, ◌⊎◌, refl, arith, Bool, true, false, Option, some,
  none, List, [], ◌∷◌, ◌++◌, take, drop,
}
use qbit_nova_c.Tests.Doubles.{two_values, two_values-BitCopy, two_values-RunLaws}
use qbit_nova_c.Tests.Deliveries.{halves, halves-UnitLaws, run_request, run_request-InRange}
use qbit_nova_c.Tests.Runs.{enough, request_of, request_of_3-RequestFits}
use qbit_nova_c.Uapi.{Response, no_error, ecanceled, zero_response}
use qbit_nova_c.Quantum.Kernel.{cleared}
use qbit_nova_c.Device.Protocol.{DeviceStatus, DeviceResponse}
use qbit_nova_c.Device.Wire.{
  request_bytes, decode_response, request_wire_size, response_wire_size, encode_response,
  decode_request, response_bytes, check_request, encode_request,
}
use qbit_nova_c.Device.Wire.Words.{get_u32_le, put_u16_le, put_u32_le, put_u64_le}
use qbit_nova_c.Device.Frontend.System.{update}
use qbit_nova_c.Device.Daemon.{serve_packet, with_status, response_init}
use qbit_nova_c.Device.Daemon.Ghz.{Answers}
use qbit_nova_c.Device.Daemon.Serve.{serve_packet-Answers}
use qbit_nova_c.Device.Daemon.Connection.{
  answered, reply, written, serve_connection, serve_connection-answers, serve_connection-serves,
}
use qbit_nova_c.Device.Frontend.Check.{Acceptable}
use qbit_nova_c.Device.Transfer.{
  io_ok, io_error, Round, round, moved, would_block, call_interrupted, at_end, poll_events,
  read_all, write_all, transfer, transfer_round, wait_until_ready, poll_status, read_call,
  send_call, store_bytes, byte_array,
}
use qbit_nova_c.Device.Transfer.Loop.{Goes}
use qbit_nova_c.Device.Transfer.Whole.{read_all-whole}
use qbit_nova_c.Device.Adapter.{translate_request}
use qbit_nova_c.Device.Adapter.Cancel.{
  AdapterSystem, AdapterReach, AdapterStep, start, later, begin, connect, register, finish, cancel,
  other_close, adapter_cancel, adapter_begin, adapter_register_fd, adapter_finish, outside, begun,
  connected, registered, closed, elsewhere, closing, returning, exchange_of, adapter_created,
}
use qbit_nova_c.Device.Adapter.Cancel.Safe.{is_inside, cancel_hits_exchange, cancel_holds}
use qbit_nova_c.Device.Adapter.Exchange.{
  after_translate, after_encode, after_connect, after_write, after_read, io_result, finished, Calls,
  ConnectResult, exchange, remaining_ms, int_max,
}
use qbit_nova_c.Device.Adapter.Exchange.Served.{
  remaining_ms-rounds, Undisturbed, exchange-Acceptable, exchange-canceled,
}

-- One byte, an interruption, a wait, and the rest.
abbrev pieces : ℕ → List Round
pieces rest =
    round false (moved 1)
    ∷ round false call_interrupted
    ∷ round false (
        would_block
          (record { stopped = false; now_ms = some 1; poll = poll_events false true false } ∷ []))
    ∷ round false (moved rest)
    ∷ []

pieces-Goes : (deadline_ms more : ℕ) → 1 < deadline_ms → Goes deadline_ms (pieces (suc more))
unfolding wait_until_ready poll_status
pieces-Goes deadline_ms more late = ground (arith, late)

abbrev one_byte : List ℕ
one_byte = 7 ∷ []

abbrev two_bytes : List ℕ
two_bytes = 7 ∷ 8 ∷ []

abbrev three_bytes : List ℕ
three_bytes = 7 ∷ 8 ∷ 9 ∷ []

abbrev stream : List ℕ
stream = 7 ∷ 8 ∷ 9 ∷ 10 ∷ []

abbrev three_zeros : List ℕ
three_zeros = 0 ∷ 0 ∷ 0 ∷ []

pieces-read : read_all 5 3 three_zeros stream (pieces 2) ≡ some (io_ok, three_bytes)
unfolding read_all read_call store_bytes transfer transfer_round wait_until_ready poll_status
pieces-read = refl

read_all-whole_example :
    ((io_ok ≡ io_ok) × (3 ≤ 4) × (three_bytes ≡ take 3 stream))
    ⊎ ((io_ok ≢ io_ok) × (n : ℕ) × (n < 3) × (three_bytes ≡ take n stream ++ drop n three_zeros))
read_all-whole_example =
    read_all-whole 5 3 three_zeros stream (pieces 2) refl io_ok three_bytes pieces-read

-- The peer takes one byte, and then the connection is closed.
abbrev broken : List Round
broken = round false (moved 1) ∷ round false at_end ∷ []

broken-write : write_all 5 two_bytes broken ≡ some (io_error, one_byte)
unfolding write_all send_call transfer transfer_round
broken-write = refl

broken-read : read_all 5 3 three_zeros stream broken ≡ some (io_error, 7 ∷ 0 ∷ 0 ∷ [])
unfolding read_all read_call store_bytes transfer transfer_round
broken-read = refl

serve_connection-serves_example :
    (packet : List ℕ) × (response : DeviceResponse Bool) × (serve_connection two_values enough
        cleared 5
        (request_bytes (request_of 3))
        (pieces 23)
        5
        (pieces 55)
      ≡ some (true, packet))
    × (decode_response two_values true (some packet) response_wire_size
        ≡ (DeviceStatus.ok, some response))
    × Answers two_values two_values-RunLaws (request_of 3) response
serve_connection-serves_example =
    serve_connection-serves two_values two_values-BitCopy two_values-RunLaws cleared (request_of 3)
      request_of_3-RequestFits refl refl refl (omega arith) (omega arith) (omega arith)
      (omega arith) 5 (pieces 23) (pieces-Goes 5 22 (omega arith)) refl 5 (pieces 55)
      (pieces-Goes 5 54 (omega arith)) refl

abbrev answer_of_3 : Option (List ℕ)
answer_of_3 = serve_packet two_values enough cleared (request_bytes (request_of 3))

-- A packet that is no request: 24 zeros, answered with the status for a wrong magic number.
abbrev zeros : List ℕ
zeros =
    0 ∷ 0 ∷ 0 ∷ 0 ∷ 0 ∷ 0 ∷ 0 ∷ 0 ∷ 0 ∷ 0 ∷ 0 ∷ 0 ∷ 0 ∷ 0 ∷ 0 ∷ 0 ∷ 0 ∷ 0 ∷ 0 ∷ 0 ∷ 0 ∷ 0 ∷ 0 ∷ 0
    ∷ []

abbrev refusal : List ℕ
refusal =
    response_bytes two_values
      (with_status two_values (response_init two_values) DeviceStatus.bad_magic)

zeros-served :
    serve_connection two_values enough cleared 5 zeros (pieces 23) 5 (pieces 55)
    ≡ some (true, refusal)
unfolding serve_connection answered reply written read_all write_all read_call send_call store_bytes
    byte_array transfer transfer_round wait_until_ready poll_status serve_packet decode_request
    encode_response check_request response_bytes put_u16_le put_u32_le put_u64_le get_u32_le
zeros-served = refl

serve_connection-answers_example :
    (request_wire_size ≤ 24)
    × (serve_packet two_values enough cleared (take request_wire_size zeros) ≡ some refusal)
serve_connection-answers_example =
    serve_connection-answers two_values enough cleared 5 zeros (pieces 23) 5 (pieces 55) refusal
      zeros-served

abbrev exchanging : AdapterSystem
exchanging = record {
  adapter = record { active_fd = some 3; active = true; cancel_requested = false };
  place = update (update (update (λ i. outside) 0 begun) 0 (connected 3)) 0 (registered 3);
  descriptors = update (update (λ fd. elsewhere) 3 closed) 3 (exchange_of 0);
}

exchanging-AdapterReach : AdapterReach exchanging
unfolding adapter_created adapter_begin adapter_register_fd
exchanging-AdapterReach =
    later
      (later (later (later start (other_close 3 refl)) (begin 0 refl refl)) (connect 0 3 refl refl))
      (register 0 3 refl)

shut_down : (adapter_cancel exchanging.adapter).0 ≡ some 3
unfolding adapter_cancel
shut_down = refl

cancel_hits_exchange_example :
    (i : ℕ) × (exchanging.place i ≡ registered 3) × (exchanging.descriptors 3 ≡ exchange_of i)
cancel_hits_exchange_example = cancel_hits_exchange exchanging exchanging-AdapterReach 3 shut_down

abbrev asked : AdapterSystem
asked = record exchanging {
  adapter = record { active_fd = some 3; active = true; cancel_requested = true };
}

asked-AdapterReach : AdapterReach asked
unfolding adapter_cancel
asked-AdapterReach = later exchanging-AdapterReach cancel

abbrev given_up : AdapterSystem
given_up = record asked {
  adapter = record { active_fd = none; active = false; cancel_requested = false };
  place = update asked.place 0 (closing 3 ecanceled);
}

gives_up : AdapterStep asked given_up
unfolding adapter_finish
gives_up = finish 0 3 no_error refl

cancel_holds_example :
    ((is_inside (given_up.place 0) ≡ true) × (given_up.adapter.cancel_requested ≡ true))
    ⊎ ((fd : ℕ) × (given_up.place 0 ≡ closing fd ecanceled))
    ⊎ (given_up.place 0 ≡ returning ecanceled)
cancel_holds_example = cancel_holds asked given_up 0 asked-AdapterReach refl refl gives_up

remaining_ms-rounds_example :
    (remaining_ms 2500000 none ≡ 0)
    × (2500000 ≤ 1000000 → remaining_ms 2500000 (some 1000000) ≡ 0)
    × (1000000 < 2500000
        → (0 < remaining_ms 2500000 (some 1000000))
          × (remaining_ms 2500000 (some 1000000) ≤ int_max)
          × ((remaining_ms 2500000 (some 1000000) - 1) * 1000000 + 1000000 < 2500000)
          × ((remaining_ms 2500000 (some 1000000) ≡ int_max)
              ⊎ (2500000 ≤ remaining_ms 2500000 (some 1000000) * 1000000 + 1000000)))
remaining_ms-rounds_example = remaining_ms-rounds 2500000 1000000

abbrev calls : Bool → List ℕ → Calls
calls canceled stream = record {
  connect_ns = some 1000000;
  write_ns = some 1000000;
  read_ns = some 1500000;
  connection = ConnectResult.connected;
  write_ms = 1;
  read_ms = 1;
  writes = pieces 23;
  shutdown_works = true;
  stream = stream;
  reads = pieces 55;
  canceled_early = false;
  canceled_behind_error = false;
  canceled = canceled;
}

answer_3 :
    (packet : List ℕ) × (response : DeviceResponse Bool) × (serve_packet two_values enough cleared
        (request_bytes (request_of 3))
      ≡ some packet)
    × (decode_response two_values true (some packet) response_wire_size
        ≡ (DeviceStatus.ok, some response))
    × Answers two_values two_values-RunLaws (request_of 3) response
answer_3 =
    serve_packet-Answers two_values two_values-BitCopy two_values-RunLaws cleared (request_of 3)
      request_of_3-RequestFits refl refl refl (omega arith) (omega arith) (omega arith)
      (omega arith)

run_request-translates : translate_request run_request ≡ (no_error, request_of 3)
unfolding translate_request
run_request-translates = refl

calls-Undisturbed : Undisturbed 9000000 (calls false answer_3.0)
unfolding remaining_ms wait_until_ready poll_status
calls-Undisturbed = record {
  connects = refl;
  connect_left = omega arith;
  write_left = omega arith;
  read_left = omega arith;
  writes_go = ground arith;
  writes_all = refl;
  reads_go = ground arith;
  reads_all = refl;
  shuts = refl;
  not_early = refl;
  not_canceled = refl;
}

exchange-Acceptable_example :
    (response : Response) × (exchange two_values halves run_request 9000000 (calls false answer_3.0)
      ≡ some (no_error, response))
    × Acceptable run_request response
exchange-Acceptable_example =
    exchange-Acceptable two_values halves two_values-BitCopy two_values-RunLaws halves-UnitLaws
      cleared run_request run_request-InRange refl (omega arith) 9000000 (calls false answer_3.0)
      calls-Undisturbed (request_of 3) run_request-translates answer_3.2

-- The daemon closes the connection, and a cancel is there at the end.
abbrev given_up_calls : Calls
given_up_calls = record (calls true zeros) { reads = broken }

given_up_calls-exchange :
    exchange two_values halves run_request 9000000 given_up_calls ≡ some (ecanceled, zero_response)
unfolding exchange after_translate after_encode after_connect after_write after_read finished
    translate_request remaining_ms encode_request request_bytes put_u16_le put_u32_le put_u64_le
    read_all write_all transfer transfer_round wait_until_ready poll_status send_call io_result
given_up_calls-exchange = refl

exchange-canceled_example : ecanceled ≡ ecanceled
exchange-canceled_example =
    exchange-canceled two_values halves run_request 9000000 given_up_calls refl ecanceled
      zero_response given_up_calls-exchange
