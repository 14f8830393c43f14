-- ===== src/Workflow.antt =====
-- The workflow machine of internal/workflow.
pub mod Flow
pub mod Snapshot
pub mod Predicate
pub mod Transitions
pub mod Settle
pub mod Initial
pub mod Effects
pub mod Machine
pub mod Plan
pub mod Graph
pub mod Validate
