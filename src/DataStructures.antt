-- ===== src/DataStructures.antt =====
-- The crate `data-structures`. A share stands for the value that it opens to.
pub mod SpeedCache
pub mod Cht
pub mod OhTable
