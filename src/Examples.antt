-- ===== src/Examples.antt =====
-- Concrete states and runs.
pub mod Address
pub mod Samples
pub mod Daemon
pub mod Parts
pub mod Clients
pub mod CommandLine
pub mod Lifecycles
pub mod Restarts
pub mod Relayed
