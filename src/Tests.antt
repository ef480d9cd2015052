-- ===== src/Tests.antt =====
-- The theorems at concrete inputs, one module for each part of the program.
mod Doubles
mod Machine
mod Wires
mod Runs
mod Exchanging
mod Deliveries
mod Languages
mod Transfers
mod Sources
mod Circuits
