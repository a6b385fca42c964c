-- ===== src/DataStructures/OhTable.antt =====
-- crates/data-structures/src/ohtable.rs.
pub mod Params
pub mod Api
pub mod Answering
pub mod Entries
pub mod Answers
pub mod Blocks
pub mod Chain
pub mod Placed
pub mod Positions
pub mod Lookups
pub mod Built
pub mod Made
pub mod Contents
pub mod Served
pub mod Table
pub mod Distinct
pub mod Stash
pub mod Valid
pub mod Steps
pub mod New
pub mod Extract
pub mod Tables
pub mod Many
pub mod Once
pub mod Repeated
pub mod Batch
mod Tests
