-- ===== src/Checkpoint.antt =====
-- agent/checkpoint: immutable checkpoints of a Run and the decision to resume from one.
pub mod Codes
pub mod Json
pub mod Contracts
pub mod Lifecycle
pub mod Compatibility
pub mod Store
pub mod Validator
mod Sample
mod Examples
