-- ===== src/Language.antt =====
-- The language of src/parser, src/compiler and src/vm: syntax trees, byte code, and the machine.
pub mod Ast
pub mod Bytecode
pub mod Lexer
pub mod Parser
pub mod Source
pub mod Compiler
pub mod Control
pub mod Meaning
pub mod Runner
pub mod SafeAdapter
pub mod State2
pub mod Vm
