-- ===== src/Identity.antt =====
-- internal/packageidentity: the names of packages.
pub mod Names
pub mod Instances
