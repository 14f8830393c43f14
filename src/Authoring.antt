-- ===== src/Authoring.antt =====
-- The dependency declarations and the tape of internal/authoring.
pub mod Declaration
pub mod Tape
