-- ===== src/Harness.antt =====
-- cad_harness/application/services/harness_service.py: the workflow service, over its adapter and its
-- stores. Each child says which methods it is about.
pub mod World
pub mod Act
pub mod Checks
pub mod Gates
pub mod Styles
pub mod Digest
pub mod Lock
pub mod Finish
pub mod Commit
pub mod Frame
mod Demo
mod Examples
pub mod Lifecycle
pub mod Approve
pub mod Rollback
