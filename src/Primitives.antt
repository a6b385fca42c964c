-- ===== src/Primitives.antt =====
-- The crate `primitives`.
pub mod ArrayShuffle
pub mod Permutation
pub mod Rep3
pub mod Types
pub mod Utils
pub mod Value
mod Tests
