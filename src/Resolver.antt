-- ===== src/Resolver.antt =====
-- The parts of internal/resolver that decide without the network.
pub mod Occupancy
