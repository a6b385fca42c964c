-- ===== src/Doram/GigaDoram/Batch/Kept.antt =====
-- A chunk of a batch keeps the hierarchy well-formed.
use gigadoram_rs.Base.{
  some-inj, ℕ, ◌+◌, ◌≤◌, ◌<◌, ◌≡◌, refl, sym, ap, subst, ◌∙◌, arith, Bool, true, false, List, map,
  Option, none, some, length, length-map, replicate, length-replicate, zip_with, length-zip_with,
  ◌==◌, ==_iff, if◌then◌else◌, >>=-eq-some,
}
use gigadoram_rs.Primitives.Value.{DoramValue, Record}
use gigadoram_rs.DataStructures.SpeedCache
use gigadoram_rs.DataStructures.SpeedCache.{SpeedCache}
use gigadoram_rs.DataStructures.SpeedCache.ManyFrame.{query_many_frame}
use gigadoram_rs.DataStructures.SpeedCache.Write.{Appended, write_lem}
use gigadoram_rs.DataStructures.OhTable.Api.{OhTableApi}
use gigadoram_rs.Doram.GigaDoram.State.{Level, GigaDoram}
use gigadoram_rs.Doram.GigaDoram.Target.{live_keys}
use gigadoram_rs.Doram.GigaDoram.Invariant.{IsValid, LevelsValid, recent}
use gigadoram_rs.Doram.GigaDoram.Access.{Accumulated, tags}
use gigadoram_rs.Doram.GigaDoram.Batch.{
  keys_for, batch_keys, start, written_record, batch_access_chunk,
}
use gigadoram_rs.Doram.GigaDoram.Batch.Levels.{query_levels_many_lem}

module _ {V : Type 0} ⦃d : DoramValue V⦄ (api : OhTableApi V) where
  keys_for_lem :
      (packed : Option (ℕ × List (List api.Key))) (keys : List api.Key) (count : ℕ)
      → ((k : ℕ) (ks : List (List api.Key)) → packed ≡ some (k, ks) → ks ≡ replicate k keys)
      → keys_for api packed (replicate count keys) count ≡ replicate count keys
  unfolding keys_for
  keys_for_lem none keys count h = refl
  keys_for_lem (some (k, ks)) keys count h = reused (k == count) refl
    where
      reused :
          (b : Bool)
          → (k == count) ≡ b
          → (if b then ks else replicate count keys) ≡ replicate count keys
      reused true e = h k ks refl ∙ ap (λ (n : ℕ). replicate n keys) ((==_iff k count).0 e)
      reused false e = refl

  -- The keys of a batch are current in a well-formed hierarchy, reused or not.
  batch_keys_lem :
      (g : GigaDoram api) (count : ℕ)
      → IsValid api g
      → batch_keys api g count ≡ replicate count (live_keys api g.levels)
  unfolding batch_keys
  batch_keys_lem g count v =
      keys_for_lem g.packed_batch_query_keys (live_keys api g.levels) count v.batch_keys_current

  -- What a chunk changes in a well-formed hierarchy.
  pub record ChunkDone (g g' : GigaDoram api) (n : ℕ) (outputs : List V) : Type 0 where
    pub valid : IsValid api g'
    pub stored : g'.speed_cache.num_stored ≡ g.speed_cache.num_stored + n
    pub same_config : g'.config ≡ g.config
    pub answered : length outputs ≡ n

  many_written :
      (c written : SpeedCache V) (xs : List ℕ) (ys : List (Record V))
      → SpeedCache.Spec.IsValid c
      → length xs ≡ length ys
      → c.num_stored < c.length
      → c.num_stored + length xs ≤ c.length
      → SpeedCache.write c xs ys ≡ some written
      → Appended c xs ys written
  many_written c written xs ys v same room fits h =
      let (c', e, appended) = write_lem c xs ys v same room fits in
      subst (λ w. Appended c xs ys w) (some-inj (sym e ∙ h)) appended

  -- A chunk that fits into the cache and returns gives one output for each operation, and leaves a
  -- well-formed hierarchy of the same configuration, with one more slot stored for each.
  pub batch_access_chunk-IsValid :
      (g g' : GigaDoram api) (ops : List (ℕ × Option V)) (random : ℕ → ℕ → ℕ) (outputs : List V)
      → IsValid api g
      → g.speed_cache.num_stored < g.speed_cache.length
      → g.speed_cache.num_stored + length ops ≤ g.speed_cache.length
      → batch_access_chunk api g ops random ≡ some (g', outputs)
      → ChunkDone g g' (length ops) outputs
  unfolding batch_access_chunk
  batch_access_chunk-IsValid g g' ops random outputs valid room fits h =
      let count = length ops in
      let queries = map (λ (op : ℕ × Option V). op.0) ops in
      let asked : length queries ≡ length ops = length-map ops (λ (op : ℕ × Option V). op.0) in
      let keys = batch_keys api g count in
      let current = batch_keys_lem g count valid in
      let qs = zip_with (tags api) keys queries in
      let ((cache, results), e1, h1) =
        >>=-eq-some {A = SpeedCache V × List (Record V × Bool)} _ _ h in
      let ((levels, last), e2, h2) =
        >>=-eq-some {A = List (Level api.Table) × List (Accumulated api)} _ _ h1 in
      let (written, e3, h3) = >>=-eq-some {A = SpeedCache V} _ _ h2 in
      let (framed, answered) =
        query_many_frame g.speed_cache cache queries results valid.cache_valid e1 in
      let queried =
        query_levels_many_lem api g.config count random 0 (recent api g) g.levels valid.levels_valid
          qs (map (start api) results) last levels
          (omega (
            arith,
            length-zip_with (tags api) keys queries,
            asked,
            ap length current,
            length-replicate count (live_keys api g.levels),
          ))
          (omega (arith, length-map results (start api), answered, asked)) e2 in
      let values = map (λ (acc : Accumulated api). acc.y_accum.value) last in
      let size : length values ≡ count =
        length-map last (λ (acc : Accumulated api). acc.y_accum.value) ∙ queried.answered in
      let records = zip_with (written_record api) ops values in
      let appended =
        many_written cache written queries records framed.valid
          (omega (arith, asked, length-zip_with (written_record api) ops values, size))
          (omega (arith, framed.count, framed.capacity, room))
          (omega (arith, framed.count, framed.capacity, fits, asked)) e3 in
      let pair = some-inj h3 in
      subst (λ (r : GigaDoram api × List V). ChunkDone g r.0 count r.1) pair
        (record {
          valid = record {
            config_valid = valid.config_valid;
            levels_length = queried.same_length ∙ valid.levels_length;
            cache_valid = appended.valid;
            cache_length = appended.capacity ∙ framed.capacity ∙ valid.cache_length;
            cache_log = appended.log_size ∙ framed.log_size ∙ valid.cache_log;
            stash_stored = omega (arith, appended.count, framed.count, valid.stash_stored);
            levels_valid =
                subst (λ (n : ℕ). LevelsValid api g.config 0 n levels)
                  (omega (arith, appended.count, framed.count, valid.stash_stored, asked))
                  queried.valid;
            keys_current = λ ks held. valid.keys_current ks held ∙ sym queried.same_keys;
            batch_keys_current = λ k ks held.
                let same = some-inj held in
                ap (λ r. r.1) (sym same)
                ∙ current
                ∙ ap (replicate count) (sym queried.same_keys)
                ∙ ap (λ (n : ℕ). replicate n (live_keys api levels)) (ap (λ r. r.0) same);
          };
          stored = omega (arith, appended.count, framed.count, asked);
          same_config = refl;
          answered = size;
        })
