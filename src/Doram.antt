-- ===== src/Doram.antt =====
-- The crate `doram`.
pub mod Config
pub mod GigaDoram
