-- ===== src/Lib.antt =====
-- GigaDORAM: a three-party distributed oblivious RAM.
--
-- A read or write goes to a small cache of the latest accesses, and then to a hierarchy of oblivious
-- hash tables whose sizes grow by a constant factor. When the cache is full, the levels above a
-- target are collected into a new table. The parties hold replicated shares of all addresses and
-- records, and run the same code; a query of a table asks for a dummy once the address is found.
--
-- Two views are used. The circuits and conversions between kinds of shares are modelled on shares:
-- a share is a pair of components, each a word of bits, and the theorems say to what the parties'
-- shares open. The data structures are modelled on opened values: an address is a number below
-- 2 ^ 32, a record a value with the bits of its alibi byte. mpc-core and mpc-net are the parameter
-- `Backend`; `Primitives.Rep3.Local` shows that its laws can hold. A failed assertion, an `Err` and
-- an index out of range are `none`.
--
-- Base: tests on numbers, lists over the native numbers, fallible code, powers of two, xor.
-- Primitives.Permutation: crates/primitives/src/permutation.rs. The random generator is a function
--   argument; loops over positions are structural recursion.
-- Primitives.ArrayShuffle: crates/primitives/src/array_shuffle.rs, on opened arrays.
-- Primitives.Rep3: what the crates use of mpc-core and mpc-net.
-- Primitives.Types, Utils and Value: types.rs, utils.rs and value.rs of crates/primitives/src.
-- Circuits.Select: crates/circuits/src/replace_if_dummy.rs and xy_if_xs_equal.rs.
-- Circuits.ChtLookup: the circuit of crates/circuits/src/cht_lookup.rs; the gates are the parameter
--   `FancyBinary`.
-- Circuits.ObliviousSort: crates/circuits/src/oblivious_sort.rs, on opened rows. `Positions` says where
--   the rows go, and `Placed` what the placement holds.
-- Circuits.Lowmc: common.rs, packed_u64.rs and packed_u8_lanes.rs of crates/circuits/src/lowmc, on opened
--   blocks; the round constants and masks of parameters.rs are an argument. Transpose, Sbox and Lanes
--   compare the two forms.
-- DataStructures.SpeedCache: crates/data-structures/src/speed_cache.rs.
-- DataStructures.Cht: `build` and the lookup of crates/data-structures/src/cht.rs, on opened values.
--   `Invariant` says what the depth-first search keeps; Visit, Close, Loop and Stack carry it through
--   the search, Turn and Finish through the turning of a path, and Place, Fill and Build say what the
--   placement writes.
-- DataStructures.OhTable: crates/data-structures/src/ohtable.rs. `Table` has the state and its operations;
--   `Api` is the interface of a table that the hierarchy uses, which `Tables` fills with the well-formed
--   tables of the code, and `Answering` what a client may know of its answers. Chain, Placed, Positions,
--   Lookups, Built and Made follow the entries through the build. The tag of an address, which is
--   LowMC, is a parameter.
-- Doram.Config: `GigaDoramConfig` of crates/doram/src/lib.rs. `usize` has 64 bits; the load factors
--   1.2 and 2.0 are kept in tenths.
-- Doram.GigaDoram: the hierarchy of crates/doram/src/lib.rs over an `OhTableApi`. The entries of
--   `levels` and `base_b_state_vec` for one level are one `Level`. `Invariant` says when a hierarchy is
--   well-formed; the counter of each table is tied to the digits of the levels above it. `Store` says
--   that a hierarchy stands for a function from addresses to values. `Batch` is the loop of
--   `batch_access`; its rounds draw their coins by the fuel left.
--
-- Fuel: `next_power_of_two` doubles at most as often as its argument, and `ilog2` halves at most as
-- often as its argument, which is more than enough. The loops of the cuckoo search have the number of
-- vertices as fuel: every vertex is pushed at most once, and a path to the root repeats no vertex. The
-- loop of a batch has two rounds for each operation and one more as fuel: a chunk answers an operation
-- at least, and a rebuild leaves a free slot.
--
-- Not modelled: LowMC with 128 lanes or beside the speed cache, and its tables (the tag of an address
-- is a parameter of the hierarchy); the garbling of the lookup circuit and its messages; the packing of
-- field values; timing and benchmarks.
pub mod Base
pub mod Primitives
pub mod Circuits
pub mod DataStructures
pub mod Doram
