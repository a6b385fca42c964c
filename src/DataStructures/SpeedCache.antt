-- ===== src/DataStructures/SpeedCache.antt =====
-- crates/data-structures/src/speed_cache.rs on opened values: addresses are `u32` numbers, and a
-- row of the lookup circuit is what `Circuits.Select` shows its shares to open to. `none` is a
-- failed assertion. The field `data` is `entries` here.
pub mod Spec
pub mod Fold
pub mod Query
pub mod Frame
pub mod Many
pub mod ManyFrame
pub mod Write
mod Tests
use gigadoram_rs.Base.{
  ℕ, zero, suc, ◌+◌, ◌^◌, List, [], ◌∷◌, ◌++◌, map, Option, none, some, Bool, false, ltb, leb, ◌==◌,
  if◌then◌else◌, length, take, drop, replicate, zip_with, bit_xor, ◌>>=◌, ◌>>◌, ensure,
}
use mathlib.Core.List.{foldl}
use gigadoram_rs.Primitives.Rep3.{differ}
use gigadoram_rs.Primitives.Value.{DoramValue, Record, zero_record, xor_record}

pub record SpeedCache (V : Type 0) : Type 0 where
  pub length : ℕ
  pub log_address_space_size : ℕ
  pub num_stored : ℕ
  pub addrs : List ℕ
  pub entries : List (Record V)

-- A row of the circuit's output: the address and the record where the addresses agree.
pub record Row (V : Type 0) : Type 0 where
  pub x_if_found : ℕ
  pub y_if_found : Record V
  pub found : Bool

abbrev pub select {ℓ} : {A : Type ℓ} → Bool → A → A → A
select b x y = if b then x else y

-- `reduce`: `none` for an empty list.
pub reduce {ℓ} : {A : Type ℓ} → (A → A → A) → List A → Option A
reduce op [] = none
reduce op (x ∷ xs) = some (foldl op x xs)

-- `xs[start..end].clone_from_slice(&new)`
overwrite {ℓ} : {A : Type ℓ} → ℕ → ℕ → List A → List A → List A
overwrite start end new xs = take start xs ++ (new ++ drop end xs)

module _ {V : Type 0} ⦃d : DoramValue V⦄ where
  unfoldable pub new : ℕ → ℕ → SpeedCache V
  new capacity log_address_space_size = record {
    length = capacity;
    log_address_space_size = log_address_space_size;
    num_stored = 0;
    addrs = replicate capacity (2 ^ log_address_space_size);
    entries = replicate capacity zero_record;
  }

  -- `xy_if_xs_equal_circuit`, and `is_zero_many` with `cmux_many_custom` in `query_many`.
  pub circuit_row : ℕ → ℕ → Record V → Row V
  circuit_row query_addr x y = record {
    x_if_found = select (x == query_addr) x 0;
    y_if_found = select (x == query_addr) y zero_record;
    found = x == query_addr;
  }

  -- `*x ^= x_mask ^ (found_mask & sentinel)`
  pub updated_addr : ℕ → ℕ → Row V → ℕ
  updated_addr sentinel x row = bit_xor x (bit_xor row.x_if_found (select row.found sentinel 0))

  -- `zip`: addresses without a row stay as they are.
  pub update_all : ℕ → List ℕ → List (Row V) → List ℕ
  unfolding updated_addr
  update_all sentinel [] rows = []
  update_all sentinel (x ∷ xs) [] = x ∷ xs
  update_all sentinel (x ∷ xs) (row ∷ rows) =
      updated_addr sentinel x row ∷ update_all sentinel xs rows

  pub circuit_rows : ℕ → List ℕ → List (Record V) → List (Row V)
  unfolding circuit_row
  circuit_rows query_addr = zip_with (circuit_row query_addr)

  -- The rows that a caller has computed ahead, if it hands over any.
  pub rows_for : ℕ → List ℕ → List (Record V) → Option (List (Row V)) → List (Row V)
  unfolding circuit_rows
  rows_for query_addr xs ys none = circuit_rows query_addr xs ys
  rows_for query_addr xs ys (some rows) = rows

  unfoldable pub query :
      SpeedCache V → ℕ → Option (List (Row V)) → Option (SpeedCache V × (Record V × Bool))
  unfolding rows_for update_all reduce
  query c query_addr precomputed = if c.num_stored == 0 then some (c, (zero_record, false)) else do
    let n = c.num_stored
    let rows = rows_for query_addr (take n c.addrs) (take n c.entries) precomputed
    let sentinel = 2 ^ c.log_address_space_size
    let updated = update_all sentinel (take n c.addrs) rows
    y_xor ← reduce xor_record (map (λ r. r.y_if_found) rows)
    found_xor ← reduce differ (map (λ r. r.found) rows)
    some (record c { addrs = updated ++ drop n c.addrs }, (y_xor, found_xor))

  -- The answers to the rows of each query in turn, with the addresses that they leave.
  pub answer_rows : ℕ → List ℕ → List (List (Row V)) → Option (List ℕ × List (Record V × Bool))
  unfolding update_all reduce
  answer_rows sentinel addrs [] = some (addrs, [])
  answer_rows sentinel addrs (rows ∷ rest) = do
    y_xor ← reduce xor_record (map (λ r. r.y_if_found) rows)
    found_xor ← reduce differ (map (λ r. r.found) rows)
    (left, answers) ← answer_rows sentinel (update_all sentinel addrs rows) rest
    some (left, (y_xor, found_xor) ∷ answers)

  -- `rows[query * length..(query + 1) * length]`, for each of `count` queries.
  slices : ℕ → ℕ → List (Row V) → Option (List (List (Row V)))
  slices length_for_query zero rows = some []
  slices length_for_query (suc count) rows = do
    ensure (leb length_for_query (length rows))
    rest ← slices length_for_query count (drop length_for_query rows)
    some (take length_for_query rows ∷ rest)

  flatten : List (List (Row V)) → List (Row V)
  flatten [] = []
  flatten (rows ∷ rest) = rows ++ flatten rest

  -- The rows of all queries: those handed over, or the circuit's on the addresses before any answer.
  pub all_rows :
      List ℕ
      → List ℕ
      → List (Record V)
      → Option (List (List (Row V)))
      → Option (List (List (Row V)))
  unfolding circuit_rows slices flatten
  all_rows query_addrs xs ys none = some (map (λ a. circuit_rows a xs ys) query_addrs)
  all_rows query_addrs xs ys (some rows) = do
    ensure (length rows == length query_addrs)
    slices (length xs) (length query_addrs) (flatten rows)

  unfoldable pub query_many :
      SpeedCache V
      → List ℕ
      → Option (List (List (Row V)))
      → Option (SpeedCache V × List (Record V × Bool))
  unfolding all_rows answer_rows
  query_many c query_addrs precomputed =
      if c.num_stored == 0
      then some (c, replicate (length query_addrs) (zero_record, false))
      else do
        let n = c.num_stored
        rows ← all_rows query_addrs (take n c.addrs) (take n c.entries) precomputed
        (left, answers) ← answer_rows (2 ^ c.log_address_space_size) (take n c.addrs) rows
        some (record c { addrs = left ++ drop n c.addrs }, answers)

  unfoldable pub extract : SpeedCache V → Option (List ℕ × List (Record V))
  extract c = do
    ensure (c.num_stored == c.length)
    ensure (length c.addrs == c.length)
    ensure (length c.entries == c.length)
    some (c.addrs, c.entries)

  unfoldable pub extract_stored : SpeedCache V → List ℕ × List (Record V)
  extract_stored c = (take c.num_stored c.addrs, take c.num_stored c.entries)

  unfoldable pub write : SpeedCache V → List ℕ → List (Record V) → Option (SpeedCache V)
  unfolding overwrite
  write c write_addrs write_data = do
    ensure (length write_addrs == length write_data)
    ensure (ltb c.num_stored c.length)
    ensure (leb (c.num_stored + length write_addrs) c.length)
    let start = c.num_stored
    let end = start + length write_addrs
    some (record c {
      addrs = overwrite start end write_addrs c.addrs;
      entries = overwrite start end write_data c.entries;
      num_stored = end;
    })

  unfoldable pub skip : SpeedCache V → ℕ → Option (SpeedCache V)
  skip c num_to_skip = do
    ensure (leb (c.num_stored + num_to_skip) c.length)
    some (record c { num_stored = c.num_stored + num_to_skip })

  unfoldable pub is_writeable : SpeedCache V → Bool
  is_writeable c = ltb c.num_stored c.length

  pub clear : SpeedCache V → SpeedCache V
  clear c = record c { num_stored = 0 }
