-- ===== src/Doram/GigaDoram/Store/Walk.antt =====
-- The walk of a query over the levels finds the first entry of the address, and takes it.
use gigadoram_rs.Base.{
  ℕ, suc, ◌<◌, ◌≡◌, inl, inr, refl, sym, ap, ◌∙◌, List, [], ◌∷◌, Option, none, some, Bool, true,
  false, if◌then◌else◌,
}
use gigadoram_rs.Primitives.Rep3.{zero_word, differ}
use gigadoram_rs.Primitives.Value.{DoramValue, Record, zero_record, xor_record}
use gigadoram_rs.DataStructures.SpeedCache.Query.{zero_xor_record, xor_record_zero}
use gigadoram_rs.DataStructures.OhTable.Api.{OhTableApi}
use gigadoram_rs.Doram.GigaDoram.State.{Level}
use gigadoram_rs.Doram.GigaDoram.Target.{live_keys}
use gigadoram_rs.Doram.GigaDoram.Access.{Accumulated, query_levels, tags}
use gigadoram_rs.Doram.GigaDoram.Reachable.{SpareTable, Spare}
use gigadoram_rs.DataStructures.OhTable.Answering.{Answering, missing}
use gigadoram_rs.Doram.GigaDoram.Store.{
  entry_of, EachTable, ShadowedTable, Shadowed, WaitingTable, Waiting, Misses, Apart, AllSound,
}
use gigadoram_rs.Doram.GigaDoram.Store.Levels.{Same}

module _ {V : Type 0} ⦃d : DoramValue V⦄ (api : OhTableApi V) (answers : Answering api)
    (random : ℕ → ℕ) (x : ℕ) where
  abbrev pub walk :
      ℕ
      → List (Level api.Table)
      → Accumulated api
      → Option (List (Level api.Table) × Accumulated api)
  walk level ls acc = query_levels api level ls (tags api (live_keys api ls) x) random acc

  -- What a walk leaves: the address has no record left, and other addresses have what they had.
  pub record Walked (level : ℕ) (ls ls' : List (Level api.Table)) : Type 0 where
    pub sound : AllSound api answers ls'
    pub own : Shadowed api answers x zero_word level ls'
    pub others : (x' : ℕ) → Apart api answers x x' ls → Same api answers x' ls ls'

  abbrev live : ℕ → api.Table → Level api.Table
  live digit t = record { digit = digit; table = some t }

  abbrev idle : ℕ → Level api.Table
  idle digit = record { digit = digit; table = none }

  tag_of : api.Table → ℕ
  tag_of t = api.prf (api.packed_key t) x

  -- One table of the walk.
  walk-live :
      (level digit : ℕ) (t t' : api.Table) (ls ls' : List (Level api.Table))
      (acc acc' last : Accumulated api) (y : Record V) (found : Bool)
      → api.query t
          (api.prf (api.packed_key t) x)
          (differ (acc.y_accum.alibi level) acc.found)
          (random level)
        ≡ some (t', (y, found))
      → (record { y_accum = xor_record acc.y_accum y; found = differ acc.found found }) ≡ acc'
      → walk (suc level) ls acc' ≡ some (ls', last)
      → walk level (live digit t ∷ ls) acc ≡ some (live digit t' ∷ ls', last)
  unfolding query_levels
  walk-live level digit t t' ls ls' acc acc' last y found asked made rest =
      let rest' : walk (suc level) ls
            (record { y_accum = xor_record acc.y_accum y; found = differ acc.found found })
          ≡ some (ls', last) =
        ap (walk (suc level) ls) made ∙ rest in
      rw (asked, rest') refl

  walk-idle :
      (level digit : ℕ) (ls ls' : List (Level api.Table)) (acc last : Accumulated api)
      → walk (suc level) ls acc ≡ some (ls', last)
      → walk level (idle digit ∷ ls) acc ≡ some (idle digit ∷ ls', last)
  unfolding query_levels
  walk-idle level digit ls ls' acc last rest = rw rest refl

  -- A tag without an entry.
  nothing :
      (t : api.Table) (use_dummy : Bool) (level : ℕ)
      → answers.Sound t
      → api.query_count t < (api.params t).num_dummies
      → answers.entry t (if use_dummy then random level else api.prf (api.packed_key t) x) ≡ missing
      → (t' : api.Table) × (api.query t (api.prf (api.packed_key t) x) use_dummy (random level)
          ≡ some (t', (zero_record, false)))
        × answers.Sound t'
        × ((x' : ℕ) → entry_of api answers t' x' ≡ entry_of api answers t x')
  nothing t use_dummy level sound spare e =
      let (t', asked, sound', same) =
        answers.miss t (api.prf (api.packed_key t) x) use_dummy (random level) sound spare e in
      let (_, _, _, same_key) = api.query_lem _ _ _ _ _ _ asked in
      (
        t',
        asked,
        sound',
        (λ x'.
            ap (λ k. answers.entry t' (api.prf k x')) same_key
            ∙ same (api.prf (api.packed_key t) x')),
      )

  -- The address has been found above, with the alibi bit `alibi` of the level.
  shadowed_query :
      (t : api.Table) (alibi : Bool) (level : ℕ)
      → answers.Sound t
      → api.query_count t < (api.params t).num_dummies
      → answers.entry t (random level) ≡ missing
      → ShadowedTable api answers x alibi t
      → (t' : api.Table) × (api.query t
            (api.prf (api.packed_key t) x)
            (differ alibi true)
            (random level)
          ≡ some (t', (zero_record, false)))
        × answers.Sound t'
        × ((x' : ℕ) → entry_of api answers t' x' ≡ entry_of api answers t x')
  shadowed_query t true level sound spare misses (inl e) = nothing t false level sound spare e
  shadowed_query t false level sound spare misses (inl e) = nothing t true level sound spare misses
  shadowed_query t true level sound spare misses (inr (e, clear)) = absurd cc
  shadowed_query t false level sound spare misses (inr (e, clear)) =
      nothing t true level sound spare misses

  at_rest :
      (t t' : api.Table) (alibi : Bool)
      → entry_of api answers t' x ≡ entry_of api answers t x
      → ShadowedTable api answers x alibi t
      → ShadowedTable api answers x false t'
  at_rest t t' alibi same (inl e) = inl (same ∙ e)
  at_rest t t' alibi same (inr (e, clear)) = inr (same ∙ e, refl)

  abbrev found_record : Record V → Accumulated api
  found_record r = record { y_accum = r; found = true }

  abbrev not_found : Accumulated api
  not_found = record { y_accum = zero_record; found = false }

  -- The walk returns, with the levels that it leaves.
  abbrev Walks : ℕ → List (Level api.Table) → Accumulated api → Accumulated api → Type 0
  Walks level ls acc last =
      (ls' : List (Level api.Table)) × (walk level ls acc ≡ some (ls', last)) × Walked level ls ls'

  ShadowedTable-walk :
      (r : Record V) (level digit : ℕ) (o : Option api.Table) (ls : List (Level api.Table))
      → EachTable api answers answers.Sound o
      → SpareTable api o
      → EachTable api answers (λ t. answers.entry t (random level) ≡ missing) o
      → EachTable api answers (ShadowedTable api answers x (r.alibi level)) o
      → Walks (suc level) ls (found_record r) (found_record r)
      → Walks level (record { digit = digit; table = o } ∷ ls) (found_record r) (found_record r)
  ShadowedTable-walk r level digit none ls sound spare misses shadowed (ls', walked, left) = (
    idle digit ∷ ls',
    walk-idle level digit ls ls' (found_record r) (found_record r) walked,
    record {
      sound = (tt, left.sound);
      own = (tt, left.own);
      others = λ x' (_, apart). (tt, left.others x' apart);
    },
  )
  ShadowedTable-walk r level digit (some t) ls sound spare misses shadowed (ls', walked, left) =
      let (t', asked, sound', same) =
        shadowed_query t (r.alibi level) level sound spare misses shadowed in
      (
        live digit t' ∷ ls',
        walk-live level digit t t' ls ls' (found_record r) (found_record r) (found_record r)
            zero_record false asked (ap found_record (xor_record_zero r)) walked,
        record {
          sound = (sound', left.sound);
          own = (at_rest t t' (r.alibi level) (same x) shadowed, left.own);
          others = λ x' (_, apart). (same x', left.others x' apart);
        },
      )

  -- Once the address has been found, no level answers.
  pub Shadowed-walk :
      (r : Record V) (level : ℕ) (ls : List (Level api.Table))
      → AllSound api answers ls
      → Spare api ls
      → Misses api answers random level ls
      → Shadowed api answers x r.alibi level ls
      → Walks level ls (found_record r) (found_record r)
  unfolding query_levels
  Shadowed-walk r level [] sound spare misses shadowed =
      ([], refl, record { sound = tt; own = tt; others = λ x' apart. tt })
  Shadowed-walk r level (l ∷ ls) (sound, sounds) (spare, spares) (misses, others_miss)
        (shadowed, rest) =
      ShadowedTable-walk r level l.digit l.table ls sound spare misses shadowed
        (Shadowed-walk r (suc level) ls sounds spares others_miss rest)

  -- What the walk finds for an address that has not been found above.
  abbrev pub Finds : V → ℕ → List (Level api.Table) → Type 0
  Finds v level ls =
      (last : Accumulated api) × (last.y_accum.value ≡ v) × Walks level ls not_found last

  WaitingTable-walk :
      (v : V) (level digit : ℕ) (o : Option api.Table) (ls : List (Level api.Table))
      → EachTable api answers answers.Sound o
      → SpareTable api o
      → (Waiting api answers x v (suc level) ls → Finds v (suc level) ls)
      → ((r : Record V)
          → Shadowed api answers x r.alibi (suc level) ls
          → Walks (suc level) ls (found_record r) (found_record r))
      → WaitingTable api answers x v
          (λ alibi. Shadowed api answers x alibi (suc level) ls)
          (Waiting api answers x v (suc level) ls)
          o
      → Finds v level (record { digit = digit; table = o } ∷ ls)
  WaitingTable-walk v level digit none ls sound spare waits shadows h =
      let (last, is, (ls', walked, left)) = waits h in
      (
        last,
        is,
        (
          idle digit ∷ ls',
          walk-idle level digit ls ls' not_found last walked,
          record {
            sound = (tt, left.sound);
            own = (tt, left.own);
            others = λ x' (_, apart). (tt, left.others x' apart);
          },
        ),
      )
  WaitingTable-walk v level digit (some t) ls sound spare waits shadows (inl (e, h)) =
      let (last, is, (ls', walked, left)) = waits h in
      let (t', asked, sound', same) = nothing t false level sound spare e in
      (
        last,
        is,
        (
          live digit t' ∷ ls',
          walk-live level digit t t' ls ls' not_found not_found last zero_record false asked
              (ap (λ y. record { y_accum = y; found = false }) (xor_record_zero zero_record))
              walked,
          record {
            sound = (sound', left.sound);
            own = (inl (same x ∙ e), left.own);
            others = λ x' (_, apart). (same x', left.others x' apart);
          },
        ),
      )
  WaitingTable-walk v level digit (some t) ls sound spare waits shadows (inr (r, e, is, h)) =
      let (ls', walked, left) = shadows r h in
      let (t', asked, sound', gone, same) =
        answers.hit t (api.prf (api.packed_key t) x) false (random level) r sound spare e in
      let (_, _, _, same_key) = api.query_lem _ _ _ _ _ _ asked in
      (
        found_record r,
        is,
        (
          live digit t' ∷ ls',
          walk-live level digit t t' ls ls' not_found (found_record r) (found_record r) r true asked
              (ap found_record (zero_xor_record r)) walked,
          record {
            sound = (sound', left.sound);
            own = (inr (ap (λ k. answers.entry t' (api.prf k x)) same_key ∙ gone, refl), left.own);
            others = λ x' (differ_here, apart). (
              ap (λ k. answers.entry t' (api.prf k x')) same_key
                  ∙ same (api.prf (api.packed_key t) x') differ_here,
              left.others x' apart,
            );
          },
        ),
      )

  pub Waiting-walk :
      (v : V) (level : ℕ) (ls : List (Level api.Table))
      → AllSound api answers ls
      → Spare api ls
      → Misses api answers random level ls
      → Waiting api answers x v level ls
      → Finds v level ls
  unfolding query_levels
  Waiting-walk v level [] sound spare misses waiting =
      (not_found, sym waiting, ([], refl, record { sound = tt; own = tt; others = λ x' apart. tt }))
  Waiting-walk v level (l ∷ ls) (sound, sounds) (spare, spares) (misses, others_miss) waiting =
      WaitingTable-walk v level l.digit l.table ls sound spare
        (λ h. Waiting-walk v (suc level) ls sounds spares others_miss h)
        (λ r h. Shadowed-walk r (suc level) ls sounds spares others_miss h) waiting
