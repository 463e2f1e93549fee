-- ===== src/Daemon.antt =====
-- daemon/cloud_glider/daemon.py: the fail-closed propagation state machine.
pub mod Config
pub mod Control
pub mod Gateway
pub mod Session
pub mod Specification
pub mod Identity
pub mod Provision
pub mod Heartbeat
pub mod Readiness
pub mod Handoff
pub mod Cycle
pub mod Run
pub mod Trace
pub mod Calls
pub mod Quiet
pub mod Gives
pub mod Exit
pub mod Lineage
pub mod Guard
pub mod Lab
mod Examples
