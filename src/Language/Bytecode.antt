-- ===== src/Language/Bytecode.antt =====
-- src/vm/bytecode.h: instructions. `other` is a number that names no opcode.
use qbit_nova_c.Base.{ℕ, ℤ, Text, List}

abbrev pub max_instr : ℕ
max_instr = 1024

-- sizeof(arg1)
abbrev pub arg_size : ℕ
arg_size = 64

pub data OpCode : Type 0 where
  op_say op_let op_qbit op_hadamard op_measure op_entangle op_cnot op_check op_repeat : OpCode
  op_block op_end op_safe_action op_qmsg op_encode_qmsg op_decode_qmsg : OpCode
  other : ℕ → OpCode

pub record Instruction : Type 0 where
  pub op : OpCode
  pub arg1 : Text
  pub arg2 : Text
  pub value : ℤ

abbrev pub Code : Type 0
Code = List Instruction

abbrev pub instruction : OpCode → Text → Text → ℤ → Instruction
instruction op arg1 arg2 value = record { op = op; arg1 = arg1; arg2 = arg2; value = value }
