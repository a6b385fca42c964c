-- ===== src/Doram/GigaDoram/Batch.antt =====
-- Batched accesses: `batch_read`, `batch_write`, `batch_access` and `batch_access_chunk`. The loop
-- runs on fuel, and `out_of_fuel` says that it has not ended; `failed` is a panic or an `Err`. The
-- coins of a round are those of the fuel left.
pub mod Levels
pub mod Kept
pub mod Loop
use gigadoram_rs.Base.{
  ℕ, zero, suc, ◌+◌, ◌-◌, List, [], ◌∷◌, ◌++◌, map, Option, none, some, Bool, true, false, ◌==◌,
  ltb, if◌then◌else◌, length, take, drop, replicate, zip_with, min, ◌>>=◌,
}
use gigadoram_rs.Primitives.Rep3.{differ}
use gigadoram_rs.Primitives.Value.{DoramValue, Record, xor_record, from_value}
use gigadoram_rs.DataStructures.SpeedCache
use gigadoram_rs.DataStructures.OhTable.Api.{OhTableApi}
use gigadoram_rs.DataStructures.OhTable.Table.{Request}
use gigadoram_rs.Doram.GigaDoram.State.{Level, GigaDoram}
use gigadoram_rs.Doram.GigaDoram.Target.{live_keys}
use gigadoram_rs.Doram.GigaDoram.Rebuild.{RebuildCoins, rebuild}
use gigadoram_rs.Doram.GigaDoram.Access.{Accumulated, tags, unwrap_or}

pub data Outcome (A : Type 0) : Type 0 where
  out_of_fuel : Outcome A
  failed : Outcome A
  finished : A → Outcome A

-- The next step after one that may fail.
unfoldable pub try_then : {A B : Type 0} → Option A → (A → Outcome B) → Outcome B
try_then none f = failed
try_then (some a) f = f a

unfoldable pub prepend : {S A : Type 0} → List A → Outcome (S × List A) → Outcome (S × List A)
prepend outputs out_of_fuel = out_of_fuel
prepend outputs failed = failed
prepend outputs (finished (s, rest)) = finished (s, outputs ++ rest)

-- `tags[position]` of every query, and the tags of the later positions.
unfoldable pub next_tags : List (List ℕ) → Option (List ℕ × List (List ℕ))
next_tags [] = some ([], [])
next_tags ([] ∷ rest) = none
next_tags ((q ∷ qs) ∷ rest) = do (level_qs, later) ← next_tags rest; some (q ∷ level_qs, qs ∷ later)

module _ {V : Type 0} ⦃d : DoramValue V⦄ (api : OhTableApi V) where
  -- `(k, keys)` is used if it was packed for as many queries.
  unfoldable pub keys_for :
      Option (ℕ × List (List api.Key)) → List (List api.Key) → ℕ → List (List api.Key)
  keys_for none packed count = packed
  keys_for (some (k, keys)) packed count = if k == count then keys else packed

  unfoldable pub batch_keys : GigaDoram api → ℕ → List (List api.Key)
  unfolding keys_for
  batch_keys g count =
      keys_for g.packed_batch_query_keys (replicate count (live_keys api g.levels)) count

  -- The requests to a level: the tag of each query, whether it asks for a dummy, and what the table
  -- draws for the dummy selection of the query.
  abbrev pub requests : ℕ → ℕ → List ℕ → List (Accumulated api) → (ℕ → ℕ → ℕ) → List Request
  requests level query [] accs random = []
  requests level query (q ∷ qs) [] random = []
  requests level query (q ∷ qs) (acc ∷ accs) random =
      record {
        q = q;
        use_dummy = differ (acc.y_accum.alibi level) acc.found;
        random = random level query;
      }
      ∷ requests level (suc query) qs accs random

  abbrev pub accumulate : Accumulated api → Record V × Bool → Accumulated api
  accumulate acc (y, found) = record {
    y_accum = xor_record acc.y_accum y;
    found = differ acc.found found;
  }

  -- The walk over the live levels, for all queries.
  unfoldable pub query_levels_many :
      ℕ
      → List (Level api.Table)
      → List (List ℕ)
      → (ℕ → ℕ → ℕ)
      → List (Accumulated api)
      → Option (List (Level api.Table) × List (Accumulated api))
  unfolding next_tags
  query_levels_many level [] qs random accs = some ([], accs)
  query_levels_many level (l ∷ ls) qs random accs = elim l.table [
    | none ↦ do (ls', last) ← query_levels_many (suc level) ls qs random accs; some (l ∷ ls', last)
    | some t ↦ do
      (level_qs, later) ← next_tags qs
      (t', results) ← api.query_many t (requests level 0 level_qs accs random)
      (ls', last) ← query_levels_many (suc level) ls later random (zip_with accumulate accs results)
      some (record l { table = some t' } ∷ ls', last)
  ]

  abbrev pub start : Record V × Bool → Accumulated api
  start (y, found) = record { y_accum = y; found = found }

  -- What is written for an operation, given its output.
  unfoldable pub written_record : ℕ × Option V → V → Record V
  unfolding unwrap_or
  written_record (x, write_y) output = from_value (unwrap_or write_y output)

  unfoldable pub batch_access_chunk :
      GigaDoram api → List (ℕ × Option V) → (ℕ → ℕ → ℕ) → Option (GigaDoram api × List V)
  unfolding batch_keys query_levels_many written_record SpeedCache.query_many SpeedCache.write
  batch_access_chunk g ops random = do
    let count = length ops
    let queries = map (λ op. op.0) ops
    let keys = batch_keys g count
    let qs = zip_with (tags api) keys queries
    (speed_cache, results) ← SpeedCache.query_many g.speed_cache queries none
    (levels, last) ← query_levels_many 0 g.levels qs random (map start results)
    let outputs = map (λ acc. acc.y_accum.value) last
    written ← SpeedCache.write speed_cache queries (zip_with written_record ops outputs)
    some (
      record g {
        speed_cache = written;
        levels = levels;
        packed_batch_query_keys = some (count, keys);
      },
      outputs,
    )

  -- The loop: a rebuild when the cache is full, and otherwise as many operations as there are free
  -- slots.
  unfoldable pub batch_loop :
      ℕ
      → GigaDoram api
      → List (ℕ × Option V)
      → (ℕ → RebuildCoins api)
      → (ℕ → ℕ → ℕ → ℕ)
      → Outcome (GigaDoram api × List V)
  unfolding try_then prepend rebuild batch_access_chunk
  batch_loop fuel g [] coins random = finished (g, [])
  batch_loop zero g (op ∷ ops) coins random = out_of_fuel
  batch_loop (suc fuel) g (op ∷ ops) coins random =
      let free = g.speed_cache.length - g.speed_cache.num_stored in
      let n = min (length (op ∷ ops)) free in
      elim (ltb g.speed_cache.length g.speed_cache.num_stored) [
        | true ↦ failed
        | false ↦ elim (free == 0) [
          | true ↦
              try_then (rebuild api g (coins fuel))
                (λ rebuilt. batch_loop fuel rebuilt (op ∷ ops) coins random)
          | false ↦
              try_then (batch_access_chunk g (take n (op ∷ ops)) (random fuel))
                (λ r. prepend r.1 (batch_loop fuel r.0 (drop n (op ∷ ops)) coins random))
        ]
      ]

  -- An empty batch is an error.
  unfoldable pub batch_access :
      ℕ
      → GigaDoram api
      → List (ℕ × Option V)
      → (ℕ → RebuildCoins api)
      → (ℕ → ℕ → ℕ → ℕ)
      → Outcome (GigaDoram api × List V)
  unfolding batch_loop
  batch_access fuel g [] coins random = failed
  batch_access fuel g (op ∷ ops) coins random = batch_loop fuel g (op ∷ ops) coins random

  abbrev pub batch_read :
      ℕ
      → GigaDoram api
      → List ℕ
      → (ℕ → RebuildCoins api)
      → (ℕ → ℕ → ℕ → ℕ)
      → Outcome (GigaDoram api × List V)
  batch_read fuel g xs coins random = batch_access fuel g (map (λ x. (x, none)) xs) coins random

  abbrev pub batch_write :
      ℕ
      → GigaDoram api
      → List (ℕ × V)
      → (ℕ → RebuildCoins api)
      → (ℕ → ℕ → ℕ → ℕ)
      → Outcome (GigaDoram api × List V)
  batch_write fuel g writes coins random =
      batch_access fuel g (map (λ w. (w.0, some w.1)) writes) coins random
