-- ===== src/Doram/GigaDoram/Tests.antt =====
-- A hierarchy of two levels over tables that keep their entries in the open, with a full cache.
use gigadoram_rs.Base.{
  some-inj, leb, leb→le, ◌≤◌, map, length-map, ℕ, suc, ◌-◌, ◌<◌, ◌≡◌, refl, subst, arith, List, [],
  ◌∷◌, replicate, Option, none, some, Bool, true, false, ltb, ◌==◌, length, resize, length-resize,
  if◌then◌else◌, get_elem?, drop, ltb→lt, ==_iff, ◌+◌,
}
use gigadoram_rs.Primitives.Value.{Record, ring_value, zero_record, from_value, set_alibi_bit}
use gigadoram_rs.Primitives.Permutation.{from_fisher_yates}
use gigadoram_rs.DataStructures.SpeedCache.Spec.{contains, pick}
use gigadoram_rs.DataStructures.OhTable.Params.{OhTableParams}
use gigadoram_rs.DataStructures.OhTable.Api.{OhTableApi}
use gigadoram_rs.DataStructures.OhTable.Table.{Request}
use gigadoram_rs.Doram.Config.{GigaDoramConfig, empirical}
use gigadoram_rs.Doram.Config.Laws
use gigadoram_rs.Doram.GigaDoram.State.{Level, GigaDoram, new, empty_level, num_elements_at}
use gigadoram_rs.Doram.GigaDoram.Target.{rebuild_target}
use gigadoram_rs.Doram.GigaDoram.Invariant.{IsValid}
use gigadoram_rs.Doram.GigaDoram.Rebuild.{RebuildCoins, rebuild, collect}
use gigadoram_rs.Doram.GigaDoram.Rebuild.Collecting.{Full, collect_lem}
use gigadoram_rs.Doram.GigaDoram.Rebuild.Kept.{Rebuilt, rebuild-IsValid}
use gigadoram_rs.Doram.GigaDoram.Batch.{Outcome, finished, batch_access}
use gigadoram_rs.Doram.GigaDoram.Batch.Loop.{Ends, batch_access-Ends}
use gigadoram_rs.Doram.GigaDoram.Reachable.{Spare, new-IsValid, query_budget}

record OpenTable : Type 0 where
  params : OhTableParams
  query_count : ℕ
  xs : List ℕ
  ys : List (Record ℕ)

abbrev next : OpenTable → OpenTable
next t = record t { query_count = suc t.query_count }

-- The entries of the stash are not found.
abbrev answer : OpenTable → ℕ → Bool → Record ℕ × Bool
answer t tag use_dummy =
    let xs = drop t.params.stash_size t.xs in
    (
      if use_dummy then zero_record else pick zero_record tag xs (drop t.params.stash_size t.ys),
      if use_dummy then false else contains tag xs,
    )

abbrev open_query : OpenTable → ℕ → Bool → ℕ → Option (OpenTable × (Record ℕ × Bool))
open_query t tag use_dummy random =
    if ltb t.query_count t.params.num_dummies then some (next t, answer t tag use_dummy) else none

abbrev open_extract : OpenTable → Option (List ℕ × List (Record ℕ))
open_extract t =
    if t.query_count == t.params.num_dummies
    then some (
      resize (t.params.num_elements - t.params.stash_size) 0 (drop t.params.stash_size t.xs),
      resize (t.params.num_elements - t.params.stash_size) zero_record
          (drop t.params.stash_size t.ys),
    )
    else none

abbrev open_key : OpenTable → ℕ
open_key t = 0

Answered : OpenTable → OpenTable → Type 0
Answered t t' =
    (t.query_count < t.params.num_dummies)
    × (t'.query_count ≡ suc t.query_count)
    × (t'.params ≡ t.params)
    × (open_key t' ≡ open_key t)

answered :
    (t t' : OpenTable) (out out' : Record ℕ × Bool) (b : Bool)
    → ltb t.query_count t.params.num_dummies ≡ b
    → if◌then◌else◌ {A = Option (OpenTable × (Record ℕ × Bool))} b (some (next t, out)) none
      ≡ some (t', out')
    → Answered t t'
unfolding Answered
answered t t' out out' true room h =
    let same : next t ≡ t' = cc in
    subst (λ u. Answered t u) same (ltb→lt _ _ room, refl, refl, refl)
answered t t' out out' false room h = cc

answered_query :
    (t t' : OpenTable) (tag : ℕ) (use_dummy : Bool) (random : ℕ) (out : Record ℕ × Bool)
    → open_query t tag use_dummy random ≡ some (t', out)
    → (t.query_count < t.params.num_dummies)
      × (t'.query_count ≡ suc t.query_count)
      × (t'.params ≡ t.params)
      × (open_key t' ≡ open_key t)
unfolding Answered
answered_query t t' tag use_dummy random out h =
    answered t t' (answer t tag use_dummy) out (ltb t.query_count t.params.num_dummies) refl h

abbrev asked : OpenTable → ℕ → OpenTable
asked t n = record t { query_count = t.query_count + n }

abbrev open_query_many : OpenTable → List Request → Option (OpenTable × List (Record ℕ × Bool))
open_query_many t rs =
    if leb (t.query_count + length rs) t.params.num_dummies
    then some (asked t (length rs), map (λ r. answer t r.q r.use_dummy) rs)
    else none

ManyAnswered : OpenTable → OpenTable → ℕ → List (Record ℕ × Bool) → Type 0
ManyAnswered t t' n answers =
    (t.query_count + n ≤ t.params.num_dummies)
    × (t'.query_count ≡ t.query_count + n)
    × (t'.params ≡ t.params)
    × (open_key t' ≡ open_key t)
    × (length answers ≡ n)

many_answered :
    (t t' : OpenTable) (rs : List Request) (answers : List (Record ℕ × Bool)) (b : Bool)
    → leb (t.query_count + length rs) t.params.num_dummies ≡ b
    → if◌then◌else◌ {A = Option (OpenTable × List (Record ℕ × Bool))} b
        (some (asked t (length rs), map (λ r. answer t r.q r.use_dummy) rs))
        none
      ≡ some (t', answers)
    → ManyAnswered t t' (length rs) answers
unfolding ManyAnswered
many_answered t t' rs answers true room h =
    subst (λ (r : OpenTable × List (Record ℕ × Bool)). ManyAnswered t r.0 (length rs) r.1)
      (some-inj h)
      (leb→le _ _ room, refl, refl, refl, length-map rs (λ r. answer t r.q r.use_dummy))
many_answered t t' rs answers false room h = cc

answered_many :
    (t t' : OpenTable) (rs : List Request) (answers : List (Record ℕ × Bool))
    → open_query_many t rs ≡ some (t', answers)
    → (t.query_count + length rs ≤ t.params.num_dummies)
      × (t'.query_count ≡ t.query_count + length rs)
      × (t'.params ≡ t.params)
      × (open_key t' ≡ open_key t)
      × (length answers ≡ length rs)
unfolding ManyAnswered
answered_many t t' rs answers h =
    many_answered t t' rs answers (leb (t.query_count + length rs) t.params.num_dummies) refl h

abbrev open_stash_xs : OpenTable → List ℕ
open_stash_xs t = resize t.params.stash_size 0 t.xs

abbrev open_stash_ys : OpenTable → List (Record ℕ)
open_stash_ys t = resize t.params.stash_size zero_record t.ys

abbrev opened_table : OhTableParams → List ℕ → List (Record ℕ) → OpenTable
opened_table p xs ys = record { params = p; query_count = 0; xs = xs; ys = ys }

opened_lem :
    (p : OhTableParams) (xs : List ℕ) (ys : List (Record ℕ)) (coins : Unit {0}) (t : OpenTable)
    → some (opened_table p xs ys) ≡ some t
    → (t.params ≡ p)
      × (t.query_count ≡ 0)
      × (length (open_stash_xs t) ≡ p.stash_size)
      × (length (open_stash_ys t) ≡ p.stash_size)
opened_lem p xs ys coins t h =
    let same : opened_table p xs ys ≡ t = cc in
    subst
      (λ (u : OpenTable).
        (u.params ≡ p)
        × (u.query_count ≡ 0)
        × (length (open_stash_xs u) ≡ p.stash_size)
        × (length (open_stash_ys u) ≡ p.stash_size))
      same (refl, refl, length-resize p.stash_size 0 xs, length-resize p.stash_size zero_record ys)

extracted_lem :
    (t : OpenTable)
    → t.query_count ≡ t.params.num_dummies
    → (xs : List ℕ) × (ys : List (Record ℕ)) × (open_extract t ≡ some (xs, ys))
      × (length xs ≡ t.params.num_elements - t.params.stash_size)
      × (length ys ≡ t.params.num_elements - t.params.stash_size)
extracted_lem t due =
    let size : ℕ = t.params.num_elements - t.params.stash_size in
    (
      resize size 0 (drop t.params.stash_size t.xs),
      resize size zero_record (drop t.params.stash_size t.ys),
      rw ((==_iff _ _).1 due),
      length-resize size 0 (drop t.params.stash_size t.xs),
      length-resize size zero_record (drop t.params.stash_size t.ys),
    )

abbrev open_tables : OhTableApi ℕ
open_tables = record {
  Table = OpenTable;
  Coins = Unit {0};
  Key = ℕ;
  prf = λ k x. x;
  packed_key = open_key;
  params = λ t. t.params;
  query_count = λ t. t.query_count;
  stash_xs = open_stash_xs;
  stash_ys = open_stash_ys;
  new = λ p xs ys coins. some (opened_table p xs ys);
  query = open_query;
  query_many = open_query_many;
  extract = open_extract;
  extract_untouched = λ t. (t.xs, t.ys);
  new_lem = opened_lem;
  query_lem = λ t t' tag use_dummy random out h. answered_query t t' tag use_dummy random out h;
  query_many_lem = λ t t' rs answers h. answered_many t t' rs answers h;
  extract_lem = λ t due. extracted_lem t due;
}

-- Four addresses, two levels, a cache of two slots of which one is for the stash.
abbrev four : GigaDoramConfig
four = record {
  log_address_space_size = 2;
  num_levels = 2;
  log_speed_cache_size = 1;
  log_amp_factor = 1;
  stash_size = 1;
  cht_bounds = empirical;
}

four-IsValid : Laws.IsValid four
four-IsValid = record {
  has_level = omega arith;
  labels_fit = omega arith;
  cache_shift = omega arith;
  amp_shift = omega arith;
  stash_fits = omega arith;
  alibi_fits = omega arith;
  size_matches = refl;
}

abbrev full_doram : GigaDoram open_tables
full_doram = record {
  config = four;
  speed_cache = record {
    length = 2;
    log_address_space_size = 2;
    num_stored = 2;
    addrs = 4 ∷ 3 ∷ [];
    entries = from_value 0 ∷ from_value 30 ∷ [];
  };
  levels = replicate 2 (empty_level open_tables);
  packed_query_key = none;
  packed_batch_query_keys = none;
  had_initial_bottom_level = false;
}

full_doram-Full : Full open_tables full_doram
full_doram-Full = record {
  valid = record {
    config_valid = four-IsValid;
    levels_length = refl;
    cache_valid = record { addrs_length = refl; entries_length = refl; stored = omega arith };
    cache_length = refl;
    cache_log = refl;
    stash_stored = omega arith;
    levels_valid = (refl, (λ _. omega arith), (refl, (λ _. omega arith), tt));
    keys_current = λ keys h. cc;
    batch_keys_current = λ count keys h. cc;
  };
  full = refl;
}

abbrev no_coins : RebuildCoins open_tables
no_coins = record {
  shuffler = record { next_shared_perm = λ id. from_fisher_yates [] };
  sort_perm = [];
  table = tt;
}

abbrev rebuilt_doram : GigaDoram open_tables
rebuilt_doram = record {
  config = four;
  speed_cache = record {
    length = 2;
    log_address_space_size = 2;
    num_stored = 1;
    addrs = 4 ∷ 4 ∷ [];
    entries = set_alibi_bit (from_value 0) 0 ∷ zero_record ∷ [];
  };
  levels =
      record {
        digit = 1;
        table = some (
            opened_table
              (record {
                num_elements = 2;
                num_dummies = 1;
                stash_size = 1;
                log_single_col_len = 2;
                log_address_space_size = 2;
              })
              (4 ∷ 3 ∷ []) (from_value 0 ∷ from_value 30 ∷ []));
      }
      ∷ empty_level open_tables
      ∷ [];
  packed_query_key = none;
  packed_batch_query_keys = none;
  had_initial_bottom_level = false;
}

-- After `write(2, 20)`: a rebuild of the first level, and the access.
abbrev written_doram : GigaDoram open_tables
written_doram = record rebuilt_doram {
  speed_cache = record {
    length = 2;
    log_address_space_size = 2;
    num_stored = 2;
    addrs = 4 ∷ 2 ∷ [];
    entries = set_alibi_bit (from_value 0) 0 ∷ from_value 20 ∷ [];
  };
  levels =
      record {
        digit = 1;
        table = some (
            next (
              opened_table
                (record {
                  num_elements = 2;
                  num_dummies = 1;
                  stash_size = 1;
                  log_single_col_len = 2;
                  log_address_space_size = 2;
                })
                (4 ∷ 3 ∷ []) (from_value 0 ∷ from_value 30 ∷ [])));
      }
      ∷ empty_level open_tables
      ∷ [];
  packed_query_key = some (0 ∷ []);
}

rebuild_run : rebuild open_tables full_doram no_coins ≡ some rebuilt_doram
unfolding rebuild
rebuild_run = refl

new-IsValid_example :
    (g : GigaDoram open_tables) × (new open_tables four ≡ some g)
    × IsValid open_tables g
    × (g.config ≡ four)
    × (g.speed_cache.num_stored ≡ 1)
new-IsValid_example = new-IsValid open_tables four four-IsValid

collect_lem_example :
    (rebuild_to : ℕ) × (inclusive : Bool) × (target : Level OpenTable) × (xs : List ℕ) × (ys : List
      (Record ℕ))
    × (rebuild_target 2 0 full_doram.levels ≡ some (rebuild_to, inclusive))
    × (get_elem? full_doram.levels rebuild_to ≡ some target)
    × (collect open_tables full_doram (rebuild_to + (if inclusive then 1 else 0)) ≡ some (xs, ys))
    × (length xs ≡ length ys)
    × (suc rebuild_to < 2
        → (length xs ≡ num_elements_at four rebuild_to (suc target.digit)) × (suc target.digit < 2))
collect_lem_example = collect_lem open_tables full_doram full_doram-Full

rebuild-IsValid_example : Rebuilt open_tables full_doram rebuilt_doram
rebuild-IsValid_example =
    rebuild-IsValid open_tables full_doram rebuilt_doram no_coins full_doram-Full rebuild_run

query_budget_example : Spare open_tables rebuilt_doram.levels
query_budget_example =
    query_budget open_tables rebuilt_doram (rebuild-IsValid_example.valid) (omega arith)

abbrev kept_order : RebuildCoins open_tables
kept_order = record {
  shuffler = record { next_shared_perm = λ id. from_fisher_yates [] };
  sort_perm = 0 ∷ 1 ∷ 2 ∷ 3 ∷ [];
  table = tt;
}

-- A batch that is longer than the cache: rebuilds run before it and inside it.
abbrev three_ops : List (ℕ × Option ℕ)
three_ops = (2, some 20) ∷ (3, none) ∷ (2, none) ∷ []

batch_outputs : Outcome (GigaDoram open_tables × List ℕ) → List ℕ
batch_outputs (finished (g, outputs)) = outputs
batch_outputs o = []

batch_access_run :
    batch_outputs
      (batch_access open_tables 7 full_doram three_ops (λ fuel. kept_order) (λ fuel op level. 99))
    ≡ 0 ∷ 30 ∷ 20 ∷ []
unfolding batch_access batch_outputs
batch_access_run = refl

batch_access-Ends_example :
    Ends open_tables full_doram 3
      (batch_access open_tables 7 full_doram three_ops (λ fuel. kept_order) (λ fuel op level. 99))
batch_access-Ends_example =
    batch_access-Ends open_tables (λ fuel. kept_order) (λ fuel op level. 99) 7 full_doram three_ops
      full_doram-Full.valid (omega arith)
