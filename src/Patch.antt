-- ===== src/Patch.antt =====
-- internal/patchapply: patches applied to files.
pub mod Hunks
