-- ===== src/DataStructures/OhTable/Api.antt =====
-- What the hierarchy uses of an oblivious hash table: its operations on opened values, and the
-- bookkeeping that they promise.
use gigadoram_rs.Base.{ℕ, suc, ◌+◌, ◌-◌, ◌≤◌, ◌<◌, ◌≡◌, List, Option, some, Bool, length}
use gigadoram_rs.Primitives.Value.{Record}
use gigadoram_rs.DataStructures.OhTable.Params.{OhTableParams}
use gigadoram_rs.DataStructures.OhTable.Table.{Request}

pub record OhTableApi (V : Type 0) : Type 1 where
  pub Table : Type 0
  -- The randomness of a build.
  pub Coins : Type 0
  -- A table's packed round keys, and the tag of an address under them.
  pub Key : Type 0
  pub prf : Key → ℕ → ℕ
  pub packed_key : Table → Key
  pub params : Table → OhTableParams
  pub query_count : Table → ℕ
  pub stash_xs : Table → List ℕ
  pub stash_ys : Table → List (Record V)
  -- `OhTable::new`, `query` with the random tag of the dummy selection, `query_many`, `extract` and
  -- `extract_untouched`. `none` is a panic.
  pub new : OhTableParams → List ℕ → List (Record V) → Coins → Option Table
  pub query : Table → ℕ → Bool → ℕ → Option (Table × (Record V × Bool))
  pub query_many : Table → List Request → Option (Table × List (Record V × Bool))
  pub extract : Table → Option (List ℕ × List (Record V))
  pub extract_untouched : Table → List ℕ × List (Record V)
  pub new_lem :
      (p : OhTableParams) (xs : List ℕ) (ys : List (Record V)) (coins : Coins) (t : Table)
      → new p xs ys coins ≡ some t
      → (params t ≡ p)
        × (query_count t ≡ 0)
        × (length (stash_xs t) ≡ p.stash_size)
        × (length (stash_ys t) ≡ p.stash_size)
  -- A query is paid for by a dummy, and changes nothing else that is public.
  pub query_lem :
      (t t' : Table) (tag : ℕ) (use_dummy : Bool) (random : ℕ) (out : Record V × Bool)
      → query t tag use_dummy random ≡ some (t', out)
      → (query_count t < (params t).num_dummies)
        × (query_count t' ≡ suc (query_count t))
        × (params t' ≡ params t)
        × (packed_key t' ≡ packed_key t)
  -- So is every request of a batch.
  pub query_many_lem :
      (t t' : Table) (requests : List Request) (answers : List (Record V × Bool))
      → query_many t requests ≡ some (t', answers)
      → (query_count t + length requests ≤ (params t).num_dummies)
        × (query_count t' ≡ query_count t + length requests)
        × (params t' ≡ params t)
        × (packed_key t' ≡ packed_key t)
        × (length answers ≡ length requests)
  -- A table gives back its untouched entries when its dummies are used up, and only then.
  pub extract_lem :
      (t : Table)
      → query_count t ≡ (params t).num_dummies
      → (xs : List ℕ) × (ys : List (Record V)) × (extract t ≡ some (xs, ys))
        × (length xs ≡ (params t).num_elements - (params t).stash_size)
        × (length ys ≡ (params t).num_elements - (params t).stash_size)
