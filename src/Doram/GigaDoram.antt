-- ===== src/Doram/GigaDoram.antt =====
-- `GigaDoram` of crates/doram/src/lib.rs on opened values, over an oblivious hash table and the
-- randomness of its protocols.
pub mod State
pub mod Target
pub mod Bottom
pub mod Rebuild
pub mod Access
pub mod Batch
pub mod Grow
pub mod Invariant
pub mod Periods
pub mod Collect
pub mod Reachable
pub mod Store
mod Tests
