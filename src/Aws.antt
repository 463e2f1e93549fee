-- ===== src/Aws.antt =====
-- The AWS side of the daemon: daemon/cloud_glider/aws_sdk.py.
pub mod Attribute
pub mod Dynamo
pub mod Services
pub mod Client
pub mod Metadata
pub mod Fence
pub mod Lease
pub mod Snapshot
pub mod Current
pub mod Provisioning
pub mod Description
pub mod Stacks
pub mod Capacity
pub mod Handoff
pub mod Hold
pub mod Store
pub mod Gateway
mod Lab
mod Examples
mod Trials
