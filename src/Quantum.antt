-- ===== src/Quantum.antt =====
-- src/quantum: the state-vector kernel of the virtual QCPU.
pub mod Kernel
pub mod Circuit
