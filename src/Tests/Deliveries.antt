-- ===== src/Tests/Deliveries.antt =====
-- A `long double`, and a request for three qubits, for the tests of the adapter.
use qbit_nova_c.Base.{ℕ, ◌+◌, ◌*◌, ◌/◌, refl, if◌then◌else◌, arith, ltb}
use qbit_nova_c.Uapi.{Request, request_magic, protocol_version, command_run_ghz}
use qbit_nova_c.Device.Frontend.Check.{InRange}
use qbit_nova_c.Device.Frontend.NormWord.{LongDouble, UnitLaws}
use qbit_nova_c.Tests.Doubles.{two_values}

-- A `long double` as its number of halves.
abbrev pub halves : LongDouble two_values
halves = record {
  Long = ℕ;
  of_double = λ d. if d then 2 else 0;
  of_u64 = λ n. n * 2;
  half = 1;
  add = λ a b. a + b;
  mul = λ a b. a * b / 2;
  floor = λ a. a / 2 * 2;
  lt = ltb;
  to_u64 = λ a. a / 2;
}

pub halves-UnitLaws : UnitLaws two_values halves
halves-UnitLaws = record {
  one_finite = refl;
  one_positive = refl;
  one_below = refl;
  one_irreflexive = refl;
  exact = refl;
  top_positive = refl;
  top_irreflexive = refl;
  to_of = refl;
}

abbrev pub run_request : Request
run_request = record {
  magic = request_magic;
  version = protocol_version;
  command = command_run_ghz;
  qubits = 3;
  shots = 10;
  seed = 42;
}

pub run_request-InRange : InRange run_request
run_request-InRange = ground arith
