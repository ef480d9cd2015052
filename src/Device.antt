-- ===== src/Device.antt =====
-- src/device: the wire protocol of the virtual device, the daemon that serves it, the adapter that
-- speaks it and the frontend that a client opens.
pub mod Protocol
pub mod Wire
pub mod Daemon
pub mod Frontend
pub mod Adapter
pub mod Transfer
