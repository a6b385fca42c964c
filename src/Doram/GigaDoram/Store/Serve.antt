-- ===== src/Doram/GigaDoram/Store/Serve.antt =====
-- An access serves the store that the hierarchy represents.
use gigadoram_rs.Base.{
  ℕ, ◌^◌, ◌/◌, ◌<◌, ◌≡◌, ◌≢◌, inl, inr, refl, sym, ap, ◌∙◌, subst, arith, List, [], ◌∷◌, Option,
  none, some, Bool, true, false, if◌then◌else◌, ℕ_discrete,
}
use gigadoram_rs.Base.Powers.{two_pow_le}
use gigadoram_rs.Primitives.Rep3.{zero_word}
use gigadoram_rs.Primitives.Value.{DoramValue, Record, from_value, zero_record}
use gigadoram_rs.DataStructures.SpeedCache.Spec.{
  contains, AtMostOnce, stored_addrs, stored_entries, cached_record,
}
use gigadoram_rs.DataStructures.SpeedCache.Query.{query_lem}
use gigadoram_rs.DataStructures.OhTable.Api.{OhTableApi}
use gigadoram_rs.Doram.GigaDoram.State.{Level, GigaDoram}
use gigadoram_rs.Doram.GigaDoram.Target.{live_keys}
use gigadoram_rs.Doram.GigaDoram.Invariant.{IsValid}
use gigadoram_rs.Doram.GigaDoram.Access.{
  Accumulated, query_levels, query_keys, tags, unwrap_or, access,
}
use gigadoram_rs.Doram.GigaDoram.Access.Kept.{keys_lem}
use gigadoram_rs.Doram.GigaDoram.Reachable.{Spare, query_budget}
use gigadoram_rs.DataStructures.OhTable.Answering.{Answering}
use gigadoram_rs.Doram.GigaDoram.Store.{
  Shadowed, Holds, Represents, EachTable, Misses, Apart, AllSound, written,
}
use gigadoram_rs.Doram.GigaDoram.Store.Levels.{Same, Shadowed-Same, Waiting-Same}
use gigadoram_rs.Doram.GigaDoram.Store.Walk.{Walked, walk, Shadowed-walk, Waiting-walk}
use gigadoram_rs.Doram.GigaDoram.Store.Cache.{SameAt, ne-false, self-true, refresh, pick-absent}

module _ {V : Type 0} ⦃d : DoramValue V⦄ (api : OhTableApi V) (answers : Answering api) where
  -- The walk that follows the cache's answer, and the value that it finds.
  record Served (g : GigaDoram api) (random : ℕ → ℕ) (x : ℕ) (v : V) : Type 0 where
    levels : List (Level api.Table)
    last : Accumulated api
    ran :
        walk api answers random x 0 g.levels (record {
          y_accum = cached_record g.speed_cache x;
          found = contains x (stored_addrs g.speed_cache);
        })
        ≡ some (levels, last)
    value : last.y_accum.value ≡ v
    left : Walked api answers random x 0 g.levels levels

  serve :
      (g : GigaDoram api) (random : ℕ → ℕ) (x : ℕ) (v : V)
      → AllSound api answers g.levels
      → Spare api g.levels
      → Misses api answers random 0 g.levels
      → Holds api answers g x v
      → Served g random x v
  serve g random x v sound spare misses h = elim h.held [
    | inl (stored, is, shadowed) ↦
        let r = cached_record g.speed_cache x in
        let (ls', ran, left) =
          Shadowed-walk api answers random x r 0 g.levels sound spare misses shadowed in
        record {
          levels = ls';
          last = record { y_accum = r; found = true };
          ran = subst (λ b. Ran r b ls' (record { y_accum = r; found = true })) (sym stored) ran;
          value = is;
          left = left;
        }
    | inr (absent, waiting) ↦
        let r = cached_record g.speed_cache x in
        let (last, is, (ls', ran, left)) =
          Waiting-walk api answers random x v 0 g.levels sound spare misses waiting in
        record {
          levels = ls';
          last = last;
          ran =
              subst (λ b. Ran r b ls' last) (sym absent)
                (subst (λ u. Ran u false ls' last)
                  (sym (
                    pick-absent zero_record x (stored_addrs g.speed_cache)
                      (stored_entries g.speed_cache) absent))
                  ran);
          value = is;
          left = left;
        }
  ]
    where
      Ran : Record V → Bool → List (Level api.Table) → Accumulated api → Type 0
      Ran r b ls' last =
          walk api answers random x 0 g.levels (record { y_accum = r; found = b })
          ≡ some (ls', last)

  held_other :
      (g g' : GigaDoram api) (x' : ℕ) (v : V)
      → SameAt g.speed_cache g'.speed_cache x'
      → Same api answers x' g.levels g'.levels
      → Holds api answers g x' v
      → Holds api answers g' x' v
  held_other g g' x' v cache levels h = record {
    once = cache.once;
    held = elim h.held [
      | inl (stored, is, shadowed) ↦ inl (
        cache.contained ∙ stored,
        ap (λ (r : Record V). r.value) cache.record_held ∙ is,
        subst (λ (r : Record V). Shadowed api answers x' r.alibi 0 g'.levels)
            (sym cache.record_held)
            (Shadowed-Same api answers x' (cached_record g.speed_cache x').alibi 0 g.levels
              g'.levels levels shadowed),
      )
      | inr (absent, waiting) ↦ inr (
        cache.contained ∙ absent,
        Waiting-Same api answers x' v 0 g.levels g'.levels levels waiting,
      )
    ];
  }

  -- The address that was accessed is in the cache.
  held_self :
      (g : GigaDoram api) (x : ℕ) (v : V)
      → AtMostOnce x (stored_addrs g.speed_cache)
      → contains x (stored_addrs g.speed_cache) ≡ true
      → cached_record g.speed_cache x ≡ from_value v
      → Shadowed api answers x zero_word 0 g.levels
      → Holds api answers g x v
  held_self g x v once contained held shadowed = record {
    once = once;
    held = inl (
      contained,
      ap (λ (r : Record V). r.value) held,
      subst (λ (r : Record V). Shadowed api answers x r.alibi 0 g.levels) (sym held) shadowed,
    );
  }

  written_self :
      (store : ℕ → V) (x : ℕ) (write_y : Option V)
      → unwrap_or write_y (store x) ≡ written store x write_y x
  unfolding unwrap_or
  written_self store x none = refl
  written_self store x (some y) = ap (λ b. if b then y else store x) (sym (self-true x))

  written_other :
      (store : ℕ → V) (x x' : ℕ) (write_y : Option V)
      → x ≢ x'
      → written store x write_y x' ≡ store x'
  written_other store x x' none ne = refl
  written_other store x x' (some y) ne =
      ap (λ b. if b then y else store x') (ne-false x' x (λ e. ne (sym e)))

  Apart-tables :
      (x x' : ℕ)
      → x < 2 ^ 32
      → x' < 2 ^ 32
      → x ≢ x'
      → (ls : List (Level api.Table)) → AllSound api answers ls
      → Apart api answers x x' ls
  Apart-tables x x' lt lt' ne [] sound = tt
  Apart-tables x x' lt lt' ne (l ∷ ls) (sound, sounds) =
      (apart_table l.table sound, Apart-tables x x' lt lt' ne ls sounds)
    where
      apart_table :
          (o : Option api.Table)
          → EachTable api answers answers.Sound o
          → EachTable api answers
              (λ t. api.prf (api.packed_key t) x' / 2 ^ 32 ≢ api.prf (api.packed_key t) x / 2 ^ 32)
              o
      apart_table none sound = tt
      apart_table (some t) sound = answers.labels_apart t x x' sound lt lt' ne

  -- Well-formed hierarchies that represent a store serve it: while the cache has a free slot, a
  -- read or a write of an address succeeds and returns the value that the store has for it, and it
  -- leaves a hierarchy that represents the store with the address written, or the same store after
  -- a read. The tables answer, and the tags drawn for dummies are nobody's.
  pub access-Represents :
      (g : GigaDoram api) (store : ℕ → V) (x : ℕ) (write_y : Option V) (random : ℕ → ℕ)
      → IsValid api g
      → g.speed_cache.num_stored < g.speed_cache.length
      → Represents api answers g store
      → x < 2 ^ g.config.log_address_space_size
      → Misses api answers random 0 g.levels
      → (g' : GigaDoram api) × (access api g x write_y random ≡ some (g', store x))
        × Represents api answers g' (written store x write_y)
  unfolding access
  access-Represents g store x write_y random v room rep in_space misses =
      let h = rep.holds x in_space in
      let served = serve g random x (store x) rep.sound (query_budget api g v room) misses h in
      let (cache, wrote, fresh) =
        refresh g.speed_cache x (from_value (unwrap_or write_y served.last.y_accum.value))
          v.cache_valid room h.once (in_range x in_space) in
      let after : GigaDoram api = record g {
        speed_cache = cache;
        levels = served.levels;
        packed_query_key = some (query_keys api g);
      } in
      let current : query_keys api g ≡ live_keys api g.levels =
        keys_lem api g.packed_query_key g.levels v.keys_current in
      let asked = query_lem g.speed_cache x none v.cache_valid h.once (inl refl) in
      let ran =
        subst
          (λ ks.
            query_levels api 0 g.levels (tags api ks x) random (record {
              y_accum = cached_record g.speed_cache x;
              found = contains x (stored_addrs g.speed_cache);
            })
            ≡ some (served.levels, served.last))
          (sym current) served.ran in
      (
        after,
        rw (asked, ran, wrote) (ap (λ y. some (after, y)) served.value),
        record {
          sound = served.left.sound;
          holds = λ x' in_space'. elim (ℕ_discrete x x') [
            | yes same ↦
                subst (λ y. Holds api answers after y (written store x write_y y)) same
                  (held_self after x (written store x write_y x) fresh.once fresh.contained
                    (fresh.record_held
                      ∙ ap (λ y. from_value (unwrap_or write_y y)) served.value
                      ∙ ap from_value (written_self store x write_y))
                    served.left.own)
            | no other ↦
                subst (λ y. Holds api answers after x' y)
                  (sym (written_other store x x' write_y other))
                  (held_other g after x' (store x')
                    (fresh.others x' other (λ e. in_range x' in_space' (sym e))
                      (rep.holds x' in_space').once)
                    (served.left.others x' (
                      Apart-tables x x' (fits x in_space) (fits x' in_space') other g.levels
                        rep.sound))
                    (rep.holds x' in_space'))
          ];
        },
      )
    where
      in_range :
          (y : ℕ)
          → y < 2 ^ g.config.log_address_space_size
          → y ≢ 2 ^ g.speed_cache.log_address_space_size
      in_range y lt e = absurd (omega (arith, lt, e, ap (λ (n : ℕ). 2 ^ n) v.cache_log))

      fits : (y : ℕ) → y < 2 ^ g.config.log_address_space_size → y < 2 ^ 32
      fits y lt = omega (
        arith,
        lt,
        two_pow_le g.config.log_address_space_size 32 (omega (arith, v.config_valid.labels_fit)),
      )
