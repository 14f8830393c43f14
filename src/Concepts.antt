-- ===== src/Concepts.antt =====
-- Concepts: named fragments of a manifest, which are resolved, lowered to declarations and merged.
pub mod Fragment
pub mod Equality
pub mod Declarations
pub mod Resolve
pub mod Merge
pub mod Build
