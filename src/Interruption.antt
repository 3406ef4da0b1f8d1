-- ===== src/Interruption.antt =====
-- agent/interruption: the intent to interrupt a Run, its phases and the policy for each reason.
pub mod Codes
pub mod Contracts
pub mod Policy
pub mod Phases
mod Examples
