-- ===== src/DataStructures/OhTable/Answering.antt =====
-- What the hierarchy relies on when a table answers a tag.
use gigadoram_rs.Base.{ℕ, ◌^◌, ◌/◌, ◌<◌, ◌≡◌, ◌≢◌, some, Bool, true, false, if◌then◌else◌}
use gigadoram_rs.Primitives.Value.{DoramValue, Record, zero_record}
use gigadoram_rs.DataStructures.OhTable.Api.{OhTableApi}

-- What a table has for a tag: no entry, a record, or a record that a query has taken.
pub data Entry (V : Type 0) : Type 0 where
  missing : Entry V
  present : Record V → Entry V
  taken : Entry V

-- Tables that answer: a sound table with a dummy left answers a query for a tag that has no entry
-- with nothing and keeps its entries, and one for a tag with a record with this record, which it
-- takes. Tags that differ in more than their low halves have entries of their own, and so have the
-- labels of a sound table.
pub record Answering {V : Type 0} ⦃d : DoramValue V⦄ (api : OhTableApi V) : Type 1 where
  pub Sound : api.Table → Type 0
  pub entry : api.Table → ℕ → Entry V
  pub labels_apart :
      (t : api.Table) (x x' : ℕ)
      → Sound t
      → x < 2 ^ 32
      → x' < 2 ^ 32
      → x ≢ x'
      → api.prf (api.packed_key t) x' / 2 ^ 32 ≢ api.prf (api.packed_key t) x / 2 ^ 32
  pub miss :
      (t : api.Table) (q : ℕ) (use_dummy : Bool) (random : ℕ)
      → Sound t
      → api.query_count t < (api.params t).num_dummies
      → entry t (if use_dummy then random else q) ≡ missing
      → (t' : api.Table) × (api.query t q use_dummy random ≡ some (t', (zero_record, false)))
        × Sound t'
        × ((tag : ℕ) → entry t' tag ≡ entry t tag)
  pub hit :
      (t : api.Table) (q : ℕ) (use_dummy : Bool) (random : ℕ) (r : Record V)
      → Sound t
      → api.query_count t < (api.params t).num_dummies
      → entry t (if use_dummy then random else q) ≡ present r
      → (t' : api.Table) × (api.query t q use_dummy random ≡ some (t', (r, true)))
        × Sound t'
        × (entry t' (if use_dummy then random else q) ≡ taken)
        × ((tag : ℕ)
            → tag / 2 ^ 32 ≢ (if use_dummy then random else q) / 2 ^ 32
            → entry t' tag ≡ entry t tag)
