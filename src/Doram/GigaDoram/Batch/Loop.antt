-- ===== src/Doram/GigaDoram/Batch/Loop.antt =====
-- The loop of a batch ends, and returns an output for each operation.
use gigadoram_rs.Base.{
  ℕ, zero, suc, ◌+◌, ◌-◌, ◌*◌, ◌≤◌, ◌<◌, ◌≡◌, refl, sym, subst, ◌∙◌, arith, true, false, ltb, ◌==◌,
  ==_iff, List, [], ◌∷◌, Option, none, some, length, length-append, take, drop, length-take,
  length-drop, min, Bool-cases, inl, inr,
}
use gigadoram_rs.Primitives.Value.{DoramValue}
use gigadoram_rs.DataStructures.OhTable.Api.{OhTableApi}
use gigadoram_rs.Doram.GigaDoram.State.{GigaDoram}
use gigadoram_rs.Doram.GigaDoram.Invariant.{IsValid}
use gigadoram_rs.Doram.GigaDoram.Rebuild.{RebuildCoins, rebuild}
use gigadoram_rs.Doram.GigaDoram.Rebuild.Collecting.{Full}
use gigadoram_rs.Doram.GigaDoram.Rebuild.Kept.{rebuild-IsValid}
use gigadoram_rs.Doram.GigaDoram.Batch.{
  Outcome, out_of_fuel, failed, finished, try_then, prepend, batch_access_chunk, batch_loop,
  batch_access,
}
use gigadoram_rs.Doram.GigaDoram.Batch.Kept.{batch_access_chunk-IsValid}

module _ {V : Type 0} ⦃d : DoramValue V⦄ (api : OhTableApi V) where
  -- How a batch of `n` operations ends: with a failure, or with a well-formed hierarchy and `n`
  -- outputs.
  abbrev pub Ends : GigaDoram api → ℕ → Outcome (GigaDoram api × List V) → Type 0
  Ends g n out_of_fuel = ⊥
  Ends g n failed = Unit {0}
  Ends g n (finished (g', outputs)) = IsValid api g' × (g'.config ≡ g.config) × (length outputs ≡ n)

  -- The rounds that may be left: two for each operation, and one more for a full cache.
  abbrev rounds : GigaDoram api → List (ℕ × Option V) → ℕ
  rounds g ops = 2 * length ops + (1 - (g.speed_cache.length - g.speed_cache.num_stored))

  Ends-prepend :
      (g g' : GigaDoram api) (m n : ℕ) (outputs : List V) (rest : Outcome (GigaDoram api × List V))
      → g'.config ≡ g.config
      → length outputs ≡ m
      → Ends g' n rest
      → Ends g (m + n) (prepend outputs rest)
  unfolding prepend
  Ends-prepend g g' m n outputs out_of_fuel same size h = elim h [ ]
  Ends-prepend g g' m n outputs failed same size h = tt
  Ends-prepend g g' m n outputs (finished (last, rest)) same size (valid, config, answered) =
      (valid, config ∙ same, omega (arith, length-append outputs rest, size, answered))

  Ends-config :
      (g g' : GigaDoram api) (n : ℕ) (o : Outcome (GigaDoram api × List V))
      → g'.config ≡ g.config
      → Ends g' n o
      → Ends g n o
  Ends-config g g' n out_of_fuel same h = h
  Ends-config g g' n failed same h = tt
  Ends-config g g' n (finished (last, rest)) same (valid, config, answered) =
      (valid, config ∙ same, answered)

  Ends-try :
      {A : Type 0} (g : GigaDoram api) (n : ℕ) (o : Option A)
      (next : A → Outcome (GigaDoram api × List V))
      → ((a : A) → o ≡ some a → Ends g n (next a))
      → Ends g n (try_then o next)
  unfolding try_then
  Ends-try g n none next h = tt
  Ends-try g n (some a) next h = h a refl

  over : (stored size : ℕ) → stored ≤ size → ltb size stored ≡ false
  over stored size h = ground arith

  module _ (coins : ℕ → RebuildCoins api) (random : ℕ → ℕ → ℕ → ℕ) where
    -- A round, before the rounds of which `again` speaks.
    module _ (fuel : ℕ)
        (again : (g : GigaDoram api) (ops : List (ℕ × Option V))
          → IsValid api g
          → rounds g ops ≤ fuel
          → Ends g (length ops) (batch_loop api fuel g ops coins random)) where
      rebuild_round :
          (g : GigaDoram api) (ops : List (ℕ × Option V))
          → IsValid api g
          → g.speed_cache.length - g.speed_cache.num_stored ≡ 0
          → 2 * length ops ≤ fuel
          → Ends g (length ops) (
              try_then
                (rebuild api g (coins fuel))
                (λ rebuilt. batch_loop api fuel rebuilt ops coins random))
      rebuild_round g ops valid no_room enough =
          Ends-try g (length ops) (rebuild api g (coins fuel)) _ λ rebuilt e.
            let full : Full api g = record {
              valid = valid;
              full = omega (arith, no_room, valid.cache_valid.stored);
            } in
            let fresh = rebuild-IsValid api g rebuilt (coins fuel) full e in
            Ends-config g rebuilt (length ops) _ fresh.same_config
              (again rebuilt ops fresh.valid (omega (arith, enough, fresh.writeable)))

      chunk_round :
          (g : GigaDoram api) (ops : List (ℕ × Option V)) (n : ℕ)
          → IsValid api g
          → n ≡ min (length ops) (g.speed_cache.length - g.speed_cache.num_stored)
          → 0 < n
          → 2 * length ops ≤ suc fuel
          → Ends g (length ops) (
              try_then
                (batch_access_chunk api g (take n ops) (random fuel))
                (λ r. prepend r.1 (batch_loop api fuel r.0 (drop n ops) coins random)))
      chunk_round g ops n valid size some_room enough =
          let chunk_size : length (take n ops) ≡ n = omega (arith, length-take n ops, size) in
          let left = length-drop n ops in
          subst
            (λ (m : ℕ). Ends g m (
              try_then (batch_access_chunk api g (take n ops) (random fuel))
                (λ r. prepend r.1 (batch_loop api fuel r.0 (drop n ops) coins random))))
            {x = length (take n ops) + length (drop n ops)} (omega (arith, chunk_size, left, size))
            (Ends-try g (length (take n ops) + length (drop n ops))
              (batch_access_chunk api g (take n ops) (random fuel)) _
              λ r e.
                let done =
                  batch_access_chunk-IsValid api g r.0 (take n ops) (random fuel) r.1 valid
                    (omega (arith, size, some_room)) (omega (arith, size, chunk_size)) e in
                Ends-prepend g r.0 (length (take n ops)) (length (drop n ops)) r.1 _
                  done.same_config done.answered
                  (again r.0 (drop n ops) done.valid
                    (omega (arith, enough, left, size, some_room))))

    full_step :
        (fuel : ℕ) (g : GigaDoram api) (op : ℕ × Option V) (ops : List (ℕ × Option V))
        → ltb g.speed_cache.length g.speed_cache.num_stored ≡ false
        → (g.speed_cache.length - g.speed_cache.num_stored == 0) ≡ true
        → batch_loop api (suc fuel) g (op ∷ ops) coins random
          ≡ try_then
              (rebuild api g (coins fuel))
              (λ rebuilt. batch_loop api fuel rebuilt (op ∷ ops) coins random)
    unfolding batch_loop
    full_step fuel g op ops ok full = rw (batch_loop, ok, full) refl

    room_step :
        (fuel : ℕ) (g : GigaDoram api) (op : ℕ × Option V) (ops : List (ℕ × Option V))
        → ltb g.speed_cache.length g.speed_cache.num_stored ≡ false
        → (g.speed_cache.length - g.speed_cache.num_stored == 0) ≡ false
        → let n = min (length (op ∷ ops)) (g.speed_cache.length - g.speed_cache.num_stored) in
          batch_loop api (suc fuel) g (op ∷ ops) coins random
          ≡ try_then
              (batch_access_chunk api g (take n (op ∷ ops)) (random fuel))
              (λ r. prepend r.1 (batch_loop api fuel r.0 (drop n (op ∷ ops)) coins random))
    unfolding batch_loop
    room_step fuel g op ops ok room = rw (batch_loop, ok, room) refl

    batch_loop_lem :
        (fuel : ℕ) (g : GigaDoram api) (ops : List (ℕ × Option V))
        → IsValid api g
        → rounds g ops ≤ fuel
        → Ends g (length ops) (batch_loop api fuel g ops coins random)
    unfolding batch_loop
    batch_loop_lem zero g [] valid enough = (valid, refl, refl)
    batch_loop_lem (suc fuel) g [] valid enough = (valid, refl, refl)
    batch_loop_lem zero g (op ∷ ops) valid enough = absurd (omega (arith, enough))
    batch_loop_lem (suc fuel) g (op ∷ ops) valid enough =
        let free = g.speed_cache.length - g.speed_cache.num_stored in
        let n = min (length (op ∷ ops)) free in
        let ok = over g.speed_cache.num_stored g.speed_cache.length valid.cache_valid.stored in
        elim (Bool-cases (free == 0)) [
          | inl full ↦
              let no_room = (==_iff free 0).0 full in
              subst (λ o. Ends g (length (op ∷ ops)) o) (sym (full_step fuel g op ops ok full))
                (rebuild_round fuel (batch_loop_lem fuel) g (op ∷ ops) valid no_room
                  (omega (arith, enough, no_room)))
          | inr room ↦
              subst (λ o. Ends g (length (op ∷ ops)) o) (sym (room_step fuel g op ops ok room))
                (chunk_round fuel (batch_loop_lem fuel) g (op ∷ ops) n valid refl
                  (some_slot free room) (omega (arith, enough)))
        ]
      where
        some_slot : (free : ℕ) → (free == 0) ≡ false → 0 < min (suc (length ops)) free
        some_slot free room = ground arith

    -- A batch ends: on fuel for two rounds for each operation and one more, a non-empty batch on a
    -- well-formed hierarchy fails in a step, or returns an output for each operation and leaves a
    -- well-formed hierarchy of the same configuration. It never runs out of fuel, also if it is
    -- longer than the cache.
    pub batch_access-Ends :
        (fuel : ℕ) (g : GigaDoram api) (ops : List (ℕ × Option V))
        → IsValid api g
        → 2 * length ops + 1 ≤ fuel
        → Ends g (length ops) (batch_access api fuel g ops coins random)
    unfolding batch_access
    batch_access-Ends fuel g [] valid enough = tt
    batch_access-Ends fuel g (op ∷ ops) valid enough =
        batch_loop_lem fuel g (op ∷ ops) valid (omega (arith, enough))
