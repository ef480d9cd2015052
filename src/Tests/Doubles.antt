-- ===== src/Tests/Doubles.antt =====
-- An arithmetic with the two values 0.0 and 1.0, at which the IEEE-754 facts that the theorems rely
-- on hold: a sum is the larger value, a difference is 0.0 unless 0.0 is taken from 1.0.
use qbit_nova_c.Base.{refl, arith, Bool, true, false, not, ◌&&◌, ◌||◌, ◌==◌, if◌then◌else◌}
use qbit_nova_c.Float.{Float64, BitCopy}
use qbit_nova_c.Quantum.Kernel.Ghz.Cells.{GateLaws}
use qbit_nova_c.Quantum.Kernel.Sample.Choice.{SumLaws}
use qbit_nova_c.Quantum.Kernel.Sample.Collapse.{NormLaws}
use qbit_nova_c.Device.Daemon.Ghz.{RunLaws}

abbrev pub two_values : Float64
two_values = record {
  Double = Bool;
  of_u64 = λ n. not (n == 0);
  add = λ a b. a || b;
  sub = λ a b. a && not b;
  mul = λ a b. a && b;
  div = λ a b. a && b;
  sqrt = λ a. a;
  abs = λ a. a;
  is_finite = λ _. true;
  lt = λ a b. not a && b;
  le = λ a b. not a || b;
  to_bits = λ a. if a then 1 else 0;
  of_bits = λ n. not (n == 0);
}

pub two_values-BitCopy : BitCopy two_values
two_values-BitCopy = record {
  to_bits_lt = elim [ true ↦ ground arith | false ↦ ground arith ];
  of_bits_to_bits = elim [ true ↦ refl | false ↦ refl ];
}

pub two_values-GateLaws : GateLaws two_values
two_values-GateLaws = record {
  add_one_zero = refl;
  sub_one_zero = refl;
  add_zero_zero = refl;
  sub_zero_zero = refl;
  mul_one_scale = refl;
  mul_zero_scale = refl;
}

pub two_values-SumLaws : SumLaws two_values
two_values-SumLaws = record {
  mul_zero_zero = refl;
  add_zero_zero = refl;
  add_sum_zero = elim [ true ↦ refl | false ↦ refl ];
}

pub two_values-NormLaws : NormLaws two_values
two_values-NormLaws = record {
  mul_zero_zero = refl;
  mul_one_one = refl;
  add_zero_zero = refl;
  add_zero_one = refl;
  add_one_zero = refl;
}

pub two_values-RunLaws : RunLaws two_values
two_values-RunLaws = record {
  gates = two_values-GateLaws;
  sums = two_values-SumLaws;
  norms = two_values-NormLaws;
  tolerance_positive = refl;
  norm_finite = refl;
  norm_close = refl;
}
