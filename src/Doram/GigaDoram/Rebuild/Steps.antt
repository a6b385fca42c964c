-- ===== src/Doram/GigaDoram/Rebuild/Steps.antt =====
-- What the steps of a rebuild give, for a run that succeeds.
use gigadoram_rs.Base.{
  ℕ, zero, suc, ◌+◌, ◌-◌, ◌*◌, ◌/◌, ◌^◌, ◌≤◌, ◌<◌, ◌≡◌, refl, sym, subst, ap, ◌∙◌, arith, List, [],
  ◌∷◌, map, none, some, Bool, true, false, inl, inr, Bool-cases, ltb, ltb→lt, leb, ◌==◌,
  if◌then◌else◌, length, get_elem?, set, length-map, >>=-eq-some, ensure,
}
use gigadoram_rs.Primitives.Value.{DoramValue, Record, clear_alibi, set_alibi_bit}
use gigadoram_rs.DataStructures.SpeedCache
use gigadoram_rs.DataStructures.SpeedCache.{SpeedCache}
use gigadoram_rs.DataStructures.SpeedCache.Write.{Appended, write_lem}
use gigadoram_rs.DataStructures.OhTable.Params
use gigadoram_rs.DataStructures.OhTable.Params.{OhTableParams}
use gigadoram_rs.DataStructures.OhTable.Api.{OhTableApi}
use gigadoram_rs.Doram.Config.{GigaDoramConfig, column_load_factor}
use gigadoram_rs.Doram.GigaDoram.State.{
  Level, GigaDoram, num_elements_at, num_dummies, bottom_num_elements,
}
use gigadoram_rs.Doram.GigaDoram.Target.{delete_levels}
use gigadoram_rs.Doram.GigaDoram.Bottom.{relabel_dummies}
use gigadoram_rs.Doram.GigaDoram.Bottom.Length.{
  length-relabel_dummies, length-finalize_bottom_level,
}
use gigadoram_rs.Doram.GigaDoram.Invariant.{period}
use gigadoram_rs.Doram.GigaDoram.Periods.{capacity, num_elements_at-inner}
use gigadoram_rs.Doram.GigaDoram.Collect.{next_digit-inner}
use gigadoram_rs.Doram.GigaDoram.Rebuild.{
  RebuildCoins, ilog2, next_digit, level_params, new_ohtable_of_level, insert_stash, entries_for,
}
use gigadoram_rs.Doram.GigaDoram.Rebuild.Collecting.{Full, collected}

if_true {ℓ} : {A : Type ℓ} (x y r : A) (b : Bool) → b ≡ true → (if b then x else y) ≡ r → x ≡ r
if_true x y r true e h = h
if_true x y r false e h = cc

if_false {ℓ} : {A : Type ℓ} (x y r : A) (b : Bool) → b ≡ false → (if b then x else y) ≡ r → y ≡ r
if_false x y r true e h = cc
if_false x y r false e h = h

bottom_level :
    (level levels : ℕ) → level < levels → ltb (suc level) levels ≡ false → suc level ≡ levels
bottom_level level levels lt last = ground arith

last_level : (level levels : ℕ) → suc level ≡ levels → level ≡ levels - 1
last_level level levels h = omega arith

num_elements_at-bottom :
    (c : GigaDoramConfig) (level digit : ℕ)
    → suc level ≡ c.num_levels
    → num_elements_at c level digit ≡ bottom_num_elements c
unfolding num_elements_at
num_elements_at-bottom c level digit h = ground arith

num_dummies_lem :
    (c : GigaDoramConfig) (level n : ℕ) → num_dummies c level ≡ some n → n ≡ period c level
unfolding num_dummies
num_dummies_lem c level n h = ground arith

-- The parameters of a new table.
pub level_params_lem :
    (c : GigaDoramConfig) (level size digit : ℕ) (p : OhTableParams)
    → level_params c level size digit ≡ some p
    → (p.num_elements ≡ size) × (p.num_dummies ≡ period c level) × (p.stash_size ≡ c.stash_size)
unfolding level_params
level_params_lem c level size digit p h =
    let (log_load, e, h1) =
      >>=-eq-some (ilog2 (column_load_factor c.cht_bounds * digit / 10)) _ h in
    let (dummies, e2, h2) = >>=-eq-some (num_dummies c level) _ h1 in
    let made : OhTableParams = record {
      num_elements = size;
      num_dummies = dummies;
      stash_size = c.stash_size;
      log_single_col_len = level * c.log_amp_factor + c.log_speed_cache_size + log_load + 1;
      log_address_space_size = c.log_address_space_size;
    } in
    let (u, e3, h3) = >>=-eq-some (Params.validate made) _ h2 in
    let same : made ≡ p = cc in
    (
      ap (λ q. q.num_elements) (sym same),
      ap (λ q. q.num_dummies) (sym same) ∙ num_dummies_lem c level dummies e2,
      ap (λ q. q.stash_size) (sym same),
    )

pub next_digit-positive :
    (c : GigaDoramConfig) (level digit digit' : ℕ)
    → next_digit c level digit ≡ some digit'
    → 0 < digit'
unfolding next_digit
next_digit-positive c level digit digit' h = ground arith

pub length-delete_levels :
    {T : Type 0} (c : GigaDoramConfig) (level count : ℕ) (ls : List (Level T))
    → length (delete_levels c level count ls) ≡ length ls
unfolding delete_levels
length-delete_levels c level zero ls = refl
length-delete_levels c level (suc count) [] = refl
length-delete_levels c level (suc count) (l ∷ ls) =
    ap suc (length-delete_levels c (suc level) count ls)

module _ {V : Type 0} ⦃d : DoramValue V⦄ (api : OhTableApi V) where
  -- What building a table for a level gives.
  pub record Installed (g g' : GigaDoram api) (level size : ℕ) : Type 0 where
    pub before : Level api.Table
    pub digit : ℕ
    pub table : api.Table
    pub at_level : get_elem? g.levels level ≡ some before
    pub next : next_digit g.config level before.digit ≡ some digit
    pub result : g' ≡ record g {
      levels = set g.levels level (record { digit = digit; table = some table });
      packed_query_key = none;
      packed_batch_query_keys = none;
    }
    pub elements : (api.params table).num_elements ≡ size
    pub dummies : (api.params table).num_dummies ≡ period g.config level
    pub stash : (api.params table).stash_size ≡ g.config.stash_size
    pub unused : api.query_count table ≡ 0
    pub stash_xs_length : length (api.stash_xs table) ≡ g.config.stash_size
    pub stash_ys_length : length (api.stash_ys table) ≡ g.config.stash_size

  pub new_ohtable_of_level_lem :
      (g g' : GigaDoram api) (level : ℕ) (xs : List ℕ) (ys : List (Record V)) (coins : api.Coins)
      → new_ohtable_of_level api g level xs ys coins ≡ some g'
      → Installed g g' level (length xs)
  unfolding new_ohtable_of_level
  new_ohtable_of_level_lem g g' level xs ys coins h =
      let (u1, e1, h1) = >>=-eq-some (ensure (ltb level g.config.num_levels)) _ h in
      let (u2, e2, h2) = >>=-eq-some (ensure (length xs == length ys)) _ h1 in
      let (u3, e3, h3) = >>=-eq-some (ensure (leb g.config.stash_size (length xs))) _ h2 in
      let (l, e4, h4) = >>=-eq-some {A = Level api.Table} _ _ h3 in
      let (digit, e5, h5) = >>=-eq-some {A = ℕ} _ _ h4 in
      let (params, e6, h6) = >>=-eq-some {A = OhTableParams} _ _ h5 in
      let (table, e7, h7) = >>=-eq-some {A = api.Table} _ _ h6 in
      let (made, unused, stash_xs, stash_ys) = api.new_lem params xs ys coins table e7 in
      let (elements, dummies, stash) =
        level_params_lem g.config level (length xs) digit params e6 in
      record {
        before = l;
        digit = digit;
        table = table;
        at_level = e4;
        next = e5;
        result = cc;
        elements = ap (λ q. q.num_elements) made ∙ elements;
        dummies = ap (λ q. q.num_dummies) made ∙ dummies;
        stash = ap (λ q. q.stash_size) made ∙ stash;
        unused = unused;
        stash_xs_length = stash_xs ∙ stash;
        stash_ys_length = stash_ys ∙ stash;
      }

  pub insert_stash_lem :
      (g g' : GigaDoram api) (level digit : ℕ) (t : api.Table)
      → get_elem? g.levels level ≡ some (record { digit = digit; table = some t })
      → SpeedCache.Spec.IsValid g.speed_cache
      → length (api.stash_xs t) ≡ length (api.stash_ys t)
      → g.speed_cache.num_stored < g.speed_cache.length
      → g.speed_cache.num_stored + length (api.stash_xs t) ≤ g.speed_cache.length
      → insert_stash api g level ≡ some g'
      → (cache : SpeedCache V) × (g' ≡ record g { speed_cache = cache })
        × Appended g.speed_cache
            (api.stash_xs t)
            (map (λ y. set_alibi_bit y level) (api.stash_ys t))
            cache
  unfolding insert_stash
  insert_stash_lem g g' level digit t at valid same room fits h =
      let (l, e, h1) = >>=-eq-some (get_elem? g.levels level) _ h in
      let (t1, e1, h2) = >>=-eq-some l.table _ h1 in
      let here : l ≡ record { digit = digit; table = some t } = cc in
      let opt : some t1 ≡ some t = sym e1 ∙ ap (λ x. x.table) here in
      let t_same : t1 ≡ t = cc in
      let (cache, e2, h3) =
        >>=-eq-some
          (SpeedCache.write g.speed_cache (api.stash_xs t1)
            (map (λ y. set_alibi_bit y level) (api.stash_ys t1)))
          _ h2 in
      let e3 =
        subst
          (λ u.
            SpeedCache.write g.speed_cache (api.stash_xs u)
              (map (λ y. set_alibi_bit y level) (api.stash_ys u))
            ≡ some cache)
          t_same e2 in
      let (cache', e', appended) =
        write_lem g.speed_cache (api.stash_xs t) (map (λ y. set_alibi_bit y level) (api.stash_ys t))
          valid (same ∙ sym (length-map (api.stash_ys t) (λ y. set_alibi_bit y level))) room fits in
      let cache_same : cache' ≡ cache = cc in
      (
        cache,
        cc,
        subst
            (λ k.
              Appended g.speed_cache (api.stash_xs t)
                (map (λ y. set_alibi_bit y level) (api.stash_ys t)) k)
            cache_same appended,
      )

  entries_for_inner :
      (g : GigaDoram api) (level : ℕ) (coins : RebuildCoins api) (xs out_xs : List ℕ)
      (ys out_ys : List (Record V))
      → suc level < g.config.num_levels
      → entries_for api g level coins xs ys ≡ some (out_xs, out_ys)
      → length out_xs ≡ length xs
  unfolding entries_for
  entries_for_inner g level coins xs out_xs ys out_ys inner h =
      let branch = if_false _ _ _ (level == g.config.num_levels - 1) (ground arith) h in
      let (l, e1, h1) = >>=-eq-some (get_elem? g.levels level) _ branch in
      let (u, e2, h2) =
        >>=-eq-some (ensure (length xs == num_elements_at g.config level (l.digit + 1))) _ h1 in
      let (relabeled, e3, h3) = >>=-eq-some (relabel_dummies g.config xs) _ h2 in
      let same : relabeled ≡ out_xs = cc in
      ap length (sym same) ∙ length-relabel_dummies g.config xs relabeled e3

  entries_for_bottom :
      (g : GigaDoram api) (level : ℕ) (coins : RebuildCoins api) (xs out_xs : List ℕ)
      (ys out_ys : List (Record V))
      → suc level ≡ g.config.num_levels
      → bottom_num_elements g.config ≤ length xs
      → entries_for api g level coins xs ys ≡ some (out_xs, out_ys)
      → length out_xs ≡ bottom_num_elements g.config
  unfolding entries_for
  entries_for_bottom g level coins xs out_xs ys out_ys bottom enough h =
      length-finalize_bottom_level g.config g.had_initial_bottom_level coins.shuffler
        coins.sort_perm xs out_xs ys out_ys enough
        (if_true _ _ _ (level == g.config.num_levels - 1) (ground arith) h)

  -- The new table's number of elements is that of its level's new digit.
  pub elements_lem :
      (g : GigaDoram api) (f : Full api g) (coins : RebuildCoins api) (level_xs : List ℕ)
      (level_ys : List (Record V)) (before : Level api.Table) (digit : ℕ)
      → let r = collected api g f in
        entries_for api g r.rebuild_to coins r.out_xs (map clear_alibi r.out_ys)
          ≡ some (level_xs, level_ys)
        → get_elem?
            (delete_levels g.config 0 (r.above + (if r.inclusive then 1 else 0)) g.levels)
            r.above
          ≡ some before
        → next_digit g.config r.rebuild_to before.digit ≡ some digit
        → length level_xs ≡ num_elements_at g.config r.rebuild_to digit
  unfolding num_elements_at
  elements_lem g f coins level_xs level_ys before digit entries at next =
      let c = g.config in
      let r = collected api g f in
      let ys = map clear_alibi r.out_ys in
      elim (Bool-cases (ltb (suc r.rebuild_to) c.num_levels)) [
        | inl is_inner ↦
            let inner = ltb→lt (suc r.rebuild_to) c.num_levels is_inner in
            let (one_more, fits) =
              next_digit-inner api c r.rebuild_to before.digit digit inner next in
            let step : digit ≡ suc r.target.digit =
              one_more ∙ ap suc (r.kept_digit before inner at) in
            entries_for_inner g r.rebuild_to coins r.out_xs level_xs ys level_ys inner entries
            ∙ (r.exact inner).1
            ∙ sym (num_elements_at-inner c r.rebuild_to (suc r.target.digit) inner)
            ∙ ap (num_elements_at c r.rebuild_to) (sym step)
        | inr is_bottom ↦
            let bottom : suc r.rebuild_to ≡ c.num_levels =
              bottom_level r.rebuild_to c.num_levels r.in_range is_bottom in
            let whole : capacity c r.rebuild_to ≡ bottom_num_elements c =
              ap (λ (n : ℕ). 2 ^ n)
                (omega (
                  arith,
                  f.valid.config_valid.size_matches,
                  ap (λ t. t * c.log_amp_factor) (last_level r.rebuild_to c.num_levels bottom),
                )) in
            entries_for_bottom g r.rebuild_to coins r.out_xs level_xs ys level_ys bottom
              (omega (arith, r.enough, whole)) entries
            ∙ sym (num_elements_at-bottom c r.rebuild_to digit bottom)
      ]
