-- ===== src/Checkpoint/Contracts.antt =====
-- agent/checkpoint/contracts.py: the records of the checkpoint contract.
mod Records
mod Create
pub mod WellFormed
pub use Records.*
unfoldable pub use Create.*
