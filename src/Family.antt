-- ===== src/Family.antt =====
-- daemon/cloud_glider/family_daemon.py and inherited.py: independent EC2 families.
pub mod Monitor
pub mod Config
pub mod Inherited
pub mod Session
pub mod Cycle
pub mod Run
pub mod Lab
mod Examples
