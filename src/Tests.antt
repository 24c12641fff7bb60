-- ===== src/Tests.antt =====
-- Runs of the model on concrete inputs.
mod Policy
pub mod Approval
mod Graph
mod OutputQueue
mod Meeting
pub mod Deliverable
pub mod State
mod Store
pub mod Ready
mod Launch
