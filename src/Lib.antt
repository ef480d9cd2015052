-- ===== src/Lib.antt =====
-- The virtual QCPU of qbit-nova-c: a state-vector kernel, the daemon that runs it for clients, the
-- packets between them, the frontend through which a program reaches a backend, the small language
-- from its source text to its byte-code machine, and circuit files with their simulator.
--
-- Parts and files:
--   src/quantum/qcpu_kernel.c      Quantum/Kernel: the structure, reset and init; Kernel/Gates the gate
--     loops (qcpu_kernel_apply_h, _x, _cx), Kernel/Ghz the GHZ circuit, Kernel/Sample the norm, the
--     sampling, the measurement and the runs of shots, Kernel/Rng the generator.
--   src/device/qcpu_device_protocol.h   Device/Protocol: requests, responses, status codes.
--   src/device/qcpu_device_wire.c  Device/Wire: the little-endian packets, their words in Wire/Words.
--   src/device/qcpu_device_io.c    Device/Transfer: qcpu_device_read_all, qcpu_device_write_all and
--     wait_until_ready, over the returns of read, send, poll and the clock. Each call moves bytes between
--     the peer and the buffer at the offset and with the length that the loop passes; Transfer/Loop,
--     Transfer/Whole.
--   src/device/qcpud.c             Device/Daemon: process_request, process_run_ghz, and serve_packet
--     from packet to packet; Daemon/Connection serve_connection with its reads and writes.
--   include/uapi/qcpu_device_uapi.h     Uapi: what a client of the device sees.
--   src/device/qcpu_mock_frontend.c     Device/Frontend: admission and response checks;
--     Frontend/Exchanges one function for each stretch of qcpu_exchange_ioctl and
--     qcpu_exchange_worker under the mutex, and open, close and the change of the backend;
--     Frontend/System the threads and their interleavings; Frontend/Queries the capability and
--     status queries; Frontend/NormWord the q32.32 norm.
--   src/device/qcpu_qcpud_adapter.c     Device/Adapter: the translations of requests and responses
--     between frontend and daemon; Adapter/Exchange the exchange, one function for what follows each
--     system call; Adapter/Cancel the active exchange, its descriptor and the cancel request, in
--     every interleaving; Adapter/Delivery follows a request through all the parts.
--   src/lexer/lexer.c, src/parser/parser.c   Language/Lexer, Language/Parser: tokenize and parse, with
--     the tree of parser.h in Language/Ast. Language/Source has the programs as data, with their
--     tokens, trees and text, as a reference for both.
--   src/compiler/compiler.c, src/vm/bytecode.h   Language/Compiler, Language/Bytecode: emit, compile.
--   src/vm/byte_vm.c               Language/Control: the loop of run_bytecode, with OP_CHECK, OP_REPEAT
--     and OP_END; Language/Vm: the variables, the qubits (Vm/Store), the message register
--     (Vm/Qmsg) and the other instructions (Vm/Branches).
--   src/qnova.c                    Language/Runner: from source text to a run on one of the machines.
--   src/vm/state2_vm.c, src/quantum/state2.c   Language/State2: the machine for two qubits.
--   src/quantum/qcircuit.c         Quantum/Circuit: circuit files, their check and what is emitted;
--     Circuit/Gates the gates on the array of amplitudes and the run.
--   src/adapter/safe_adapter.c     Language/SafeAdapter: the table of actions.
--   Language/Meaning is the reference for the compiled code: what a tree does by recursion on it.
-- The daemon calls the kernel and the wire functions; the frontend stands in front of a backend, such
-- as the adapter that talks to the daemon, and checks what it returns. The lexer and the parser turn
-- a text into a tree, and the compiler turns the tree into the code that a machine runs.
--
-- State and its representation. A C structure is a record with the source's field names. The array
-- of amplitudes is an optional function of the index (`none` is the NULL pointer); a loop that
-- writes it is a loop over that function, round by round. An array with a counter is the list of its
-- used part. uint64_t and size_t wrap where the source can reach the bound, by `% 2 ^ 64`. An
-- allocation, a clock or a system call is an argument that says how it ends, and a loop of system
-- calls takes a list of them. `double` is the parameter Float64 (Float); what a result needs of
-- IEEE-754 stands in the named records GateLaws, SumLaws, NormLaws, RunLaws, UnitLaws, PairLaws,
-- HadamardLaws and BitCopy, and Tests gives an arithmetic for which all of them hold. The C
-- library's rand, atof and atoi are parameters, and so is the arithmetic on `double complex` in
-- circuits (ComplexLibrary). What a machine prints is a list of messages with the values printed.
--
-- Bounds and fuel. Loops are structural in their number of rounds, which is the bound of the source's
-- `for`, or in the list of what the system calls give. The loop of run_bytecode need not stop, so
-- Language.Control.run is on fuel; for compiled code enough fuel exists, by Language/Compiler/Correct.
-- `compile` gives none where the source would write outside an array: past 1024 instructions, or a
-- text of 64 bytes or more. The lexer has one round of fuel more than the text has characters, the
-- parser one more than there are tokens, and both are enough on every input, by Language/Runner/Total, up
-- to the first access outside an array, which is a result of its own (overflow, past_end) and where the
-- model stops. A shift by a negative number in a gate of a circuit is one too (undefined_shift). A
-- local array that is not initialised stands as zeros.
--
-- A system of threads is a shared state and a place for each caller. A step is one stretch under the
-- mutex or one system call, so any interleaving of callers, workers, and the other operations is a
-- sequence of steps (Reach, AdapterReach).
--
-- Not modelled: socket set-up, signals, files and directories, the pthread objects themselves and
-- memory release (reference counts of tasks); the interpreter, whose control of checks and repeats is
-- that of Language/Meaning; stateN.c and the command line tools; what sscanf does with a line of a
-- circuit file, and what a circuit's run prints. The header lines and the seeding of rand are left out.
pub mod Base
pub mod Float
pub mod Uapi
pub mod Quantum
pub mod Device
pub mod Language
pub mod Tests
