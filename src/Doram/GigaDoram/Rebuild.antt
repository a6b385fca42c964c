-- ===== src/Doram/GigaDoram/Rebuild.antt =====
-- A rebuild: the new table of a level with its stash put into the cache, and the pass that
-- collects the levels above it.
pub mod Collecting
pub mod Steps
pub mod Kept
use gigadoram_rs.Base.{
  ℕ, zero, suc, ◌+◌, ◌-◌, ◌*◌, ◌/◌, List, map, Option, none, some, ltb, leb, ◌==◌, if◌then◌else◌,
  length, get_elem?, set, Bool, ◌>>=◌, ◌>>◌, ensure,
}
use gigadoram_rs.Primitives.Value.{DoramValue, Record, clear_alibi, set_alibi_bit}
use gigadoram_rs.Primitives.ArrayShuffle.{ArrayShuffler}
use gigadoram_rs.DataStructures.SpeedCache
use gigadoram_rs.DataStructures.SpeedCache.{SpeedCache}
use gigadoram_rs.DataStructures.OhTable.Params
use gigadoram_rs.DataStructures.OhTable.Params.{OhTableParams}
use gigadoram_rs.DataStructures.OhTable.Api.{OhTableApi}
use gigadoram_rs.Doram.Config.{GigaDoramConfig, column_load_factor, speed_cache_size, amp_factor}
use gigadoram_rs.Doram.GigaDoram.State.{GigaDoram, num_dummies, num_elements_at}
use gigadoram_rs.Doram.GigaDoram.Target.{rebuild_target, delete_levels, extract_levels}
use gigadoram_rs.Doram.GigaDoram.Bottom.{relabel_dummies, finalize_bottom_level}

ilog2_on : ℕ → ℕ → ℕ
ilog2_on zero n = 0
ilog2_on (suc fuel) n = let rest = ilog2_on fuel (n / 2) in if leb n 1 then 0 else suc rest

-- `usize::ilog2`, which panics on 0.
unfoldable pub ilog2 : ℕ → Option ℕ
unfolding ilog2_on
ilog2 n = do ensure (ltb 0 n); some (ilog2_on n n)

-- The digit of a level that gets a table.
unfoldable pub next_digit : GigaDoramConfig → ℕ → ℕ → Option ℕ
next_digit c level digit =
    if level == c.num_levels - 1
    then some 1
    else (ensure (ltb (suc digit) (amp_factor c)) >> some (suc digit))

-- The parameters of a level's new table, for its number of entries and its new digit.
unfoldable pub level_params : GigaDoramConfig → ℕ → ℕ → ℕ → Option OhTableParams
unfolding column_load_factor ilog2 num_dummies Params.validate
level_params c level size digit = do
  log_load ← ilog2 (column_load_factor c.cht_bounds * digit / 10)
  dummies ← num_dummies c level
  let params : OhTableParams = record {
    num_elements = size;
    num_dummies = dummies;
    stash_size = c.stash_size;
    log_single_col_len = level * c.log_amp_factor + c.log_speed_cache_size + log_load + 1;
    log_address_space_size = c.log_address_space_size;
  }
  Params.validate params
  some params

module _ {V : Type 0} ⦃d : DoramValue V⦄ (api : OhTableApi V) where
  -- The randomness of a rebuild.
  pub record RebuildCoins : Type 0 where
    pub shuffler : ArrayShuffler
    pub sort_perm : List ℕ
    pub table : api.Coins

  unfoldable pub new_ohtable_of_level :
      GigaDoram api → ℕ → List ℕ → List (Record V) → api.Coins → Option (GigaDoram api)
  unfolding next_digit level_params
  new_ohtable_of_level g level xs ys coins = do
    let c = g.config
    ensure (ltb level c.num_levels)
    ensure (length xs == length ys)
    ensure (leb c.stash_size (length xs))
    l ← get_elem? g.levels level
    digit ← next_digit c level l.digit
    params ← level_params c level (length xs) digit
    table ← api.new params xs ys coins
    some (record g {
      levels = set g.levels level (record { digit = digit; table = some table });
      packed_query_key = none;
      packed_batch_query_keys = none;
    })

  unfoldable pub insert_stash : GigaDoram api → ℕ → Option (GigaDoram api)
  unfolding SpeedCache.write
  insert_stash g level = do
    l ← get_elem? g.levels level
    table ← l.table
    let stash_ys = map (λ y. set_alibi_bit y level) (api.stash_ys table)
    speed_cache ← SpeedCache.write g.speed_cache (api.stash_xs table) stash_ys
    some (record g { speed_cache = speed_cache })

  -- The entries of the level that is rebuilt: the bottom level is cleansed, and any other has its
  -- dummies labelled again.
  unfoldable pub entries_for :
      GigaDoram api
      → ℕ
      → RebuildCoins
      → List ℕ
      → List (Record V)
      → Option (List ℕ × List (Record V))
  unfolding finalize_bottom_level relabel_dummies num_elements_at
  entries_for g rebuild_to coins xs ys =
      if rebuild_to == g.config.num_levels - 1
      then finalize_bottom_level g.config g.had_initial_bottom_level coins.shuffler coins.sort_perm
          xs ys
      else do
        l ← get_elem? g.levels rebuild_to
        ensure (length xs == num_elements_at g.config rebuild_to (l.digit + 1))
        relabeled ← relabel_dummies g.config xs
        some (relabeled, ys)

  -- What the cache and the first `count` levels give back, with fresh alibi bytes.
  unfoldable pub collect : GigaDoram api → ℕ → Option (List ℕ × List (Record V))
  unfolding SpeedCache.extract extract_levels
  collect g count = do
    (cache_xs, cache_ys) ← SpeedCache.extract g.speed_cache
    (xs, ys) ← extract_levels api g.config 0 count g.levels cache_xs cache_ys
    ensure (ltb 0 (length xs))
    ensure (length xs == length ys)
    some (xs, map clear_alibi ys)

  -- The part of `rebuild` that follows the collecting loop.
  unfoldable pub rebuild_level :
      GigaDoram api → ℕ → Bool → List ℕ → List (Record V) → RebuildCoins → Option (GigaDoram api)
  unfolding entries_for delete_levels new_ohtable_of_level insert_stash SpeedCache.new
  rebuild_level g rebuild_to inclusive xs ys coins = do
    let c = g.config
    (level_xs, level_ys) ← entries_for g rebuild_to coins xs ys
    let cleared = record g {
      speed_cache = SpeedCache.new (speed_cache_size c) c.log_address_space_size;
      levels = delete_levels c 0 (rebuild_to + (if inclusive then 1 else 0)) g.levels;
      packed_query_key = none;
      packed_batch_query_keys = none;
    }
    rebuilt ← new_ohtable_of_level cleared rebuild_to level_xs level_ys coins.table
    insert_stash rebuilt rebuild_to

  unfoldable pub rebuild : GigaDoram api → RebuildCoins → Option (GigaDoram api)
  unfolding rebuild_target collect rebuild_level
  rebuild g coins = do
    (rebuild_to, inclusive) ← rebuild_target (amp_factor g.config) 0 g.levels
    (xs, ys) ← collect g (rebuild_to + (if inclusive then 1 else 0))
    rebuild_level g rebuild_to inclusive xs ys coins
