-- ===== src/Circuits.antt =====
-- The crate `circuits`.
pub mod Select
pub mod ObliviousSort
pub mod ChtLookup
pub mod Lowmc
mod Tests
