-- ===== src/Ec2.antt =====
-- daemon/cloud_glider/ec2_daemon.py: the variant of the daemon that propagates EC2 instances.
pub mod Control
pub mod Session
pub mod Specification
pub mod Ownership
pub mod Provision
pub mod Authority
pub mod Retirement
pub mod Proof
pub mod Handoff
pub mod Progress
pub mod Guard
pub mod Config
pub mod Lab
mod Examples
