-- ===== src/Doram/GigaDoram/Collect.antt =====
-- What a rebuild collects.
use gigadoram_rs.Base.{
  ℕ, suc, ◌+◌, ◌-◌, ◌*◌, ◌^◌, ◌≤◌, ◌<◌, ◌≡◌, refl, ap, sym, subst, ◌∙◌, arith, inl, inr, List, [],
  ◌∷◌, ◌++◌, Option, none, some, Bool, true, false, ◌&&◌, ◌==◌, Bool-cases, ltb, ltb→lt, leb,
  if◌then◌else◌, length, get_elem?, set, length-append, length-resize, resize,
}
use gigadoram_rs.Primitives.Value.{DoramValue, Record, zero_record}
use gigadoram_rs.DataStructures.OhTable.Api.{OhTableApi}
use gigadoram_rs.Doram.Config.{GigaDoramConfig, amp_factor}
use gigadoram_rs.Doram.GigaDoram.State.{Level, num_elements_at}
use gigadoram_rs.Doram.GigaDoram.Target.{
  rebuild_target, extract_levels, delete_level, delete_levels,
}
use gigadoram_rs.Doram.GigaDoram.Rebuild.{next_digit}
use gigadoram_rs.Doram.GigaDoram.Invariant.{period, Serves, TableIsValid, LevelsValid}
use gigadoram_rs.Doram.GigaDoram.Periods.{
  amp_positive, period-suc, full_next, full_digit, capacity, capacity-suc, num_elements_at-inner,
}

after_digit : {T : Type 0} {l after : Level T} → some l ≡ some after → after.digit ≡ l.digit
after_digit {l = l} {after = after} h = let same : l ≡ after = cc in ap (λ x. x.digit) (sym same)

module _ {V : Type 0} ⦃d : DoramValue V⦄ (api : OhTableApi V) (c : GigaDoramConfig) where
  -- A used-up table gives back its entries, padded to the level's number of elements.
  extract_some :
      (level accesses digit : ℕ) (t : api.Table) (ls : List (Level api.Table)) (xs : List ℕ)
      (ys : List (Record V))
      → Serves api c level accesses digit t
      → accesses ≡ period c level
      → length xs ≡ length ys
      → (xs' : List ℕ) × (ys' : List (Record V)) × ((n : ℕ)
          → extract_levels api c level (suc n) (record { digit = digit; table = some t } ∷ ls) xs ys
            ≡ extract_levels api c (suc level) n ls xs' ys')
        × (length xs' ≡ length xs + num_elements_at c level digit)
        × (length xs' ≡ length ys')
  unfolding extract_levels
  extract_some level accesses digit t ls xs ys serves due same =
      let (level_xs, level_ys, e, lx, ly) =
        api.extract_lem t (serves.used ∙ due ∙ sym serves.dummies) in
      let size = num_elements_at c level digit in
      let fits_xs : leb (length level_xs) size ≡ true = ground arith in
      let fits_ys : leb (length level_ys) size ≡ true = ground arith in
      (
        xs ++ resize size (2 ^ c.log_address_space_size) level_xs,
        ys ++ resize size zero_record level_ys,
        λ n. rw (e, fits_xs, fits_ys),
        omega (
          arith,
          length-append xs (resize size (2 ^ c.log_address_space_size) level_xs),
          length-resize size (2 ^ c.log_address_space_size) level_xs,
        ),
        omega (
          arith,
          length-append xs (resize size (2 ^ c.log_address_space_size) level_xs),
          length-resize size (2 ^ c.log_address_space_size) level_xs,
          length-append ys (resize size zero_record level_ys),
          length-resize size zero_record level_ys,
        ),
      )

  pub next_digit-inner :
      (level digit digit' : ℕ)
      → suc level < c.num_levels
      → next_digit c level digit ≡ some digit'
      → (digit' ≡ suc digit) × (digit' < amp_factor c)
  unfolding next_digit
  next_digit-inner level digit digit' inner next = ground arith

  reset : ℕ → ℕ → ℕ
  reset level digit =
      if ltb level (c.num_levels - 1) && (digit == amp_factor c - 1) then 0 else digit

  reset-full :
      (level digit : ℕ)
      → suc level < c.num_levels
      → digit ≡ amp_factor c - 1
      → reset level digit ≡ 0
  unfolding reset
  reset-full level digit inner full = ground arith

  reset-room : (level digit : ℕ) → ltb digit (amp_factor c - 1) ≡ true → reset level digit ≡ digit
  unfolding reset
  reset-room level digit room = ground arith

  -- A level that gets a fresh table, and one that is deleted.
  here_valid :
      (level accesses digit digit' : ℕ) (t : api.Table) (ls : List (Level api.Table))
      → suc level < c.num_levels
      → accesses ≡ period c level
      → next_digit c level digit ≡ some digit'
      → Serves api c level 0 digit' t
      → LevelsValid api c (suc level) (accesses + digit * period c level) ls
      → LevelsValid api c level 0 (record { digit = digit'; table = some t } ∷ ls)
  here_valid level accesses digit digit' t ls inner due next serves rest =
      let (one_more, fits) = next_digit-inner level digit digit' inner next in
      (
        serves,
        (λ _. fits),
        subst (λ (n : ℕ). LevelsValid api c (suc level) n ls)
            (omega (arith, due, ap (λ k. k * period c level) one_more)) rest,
      )

  past_valid :
      (level digit : ℕ) (table : Option api.Table) (ls : List (Level api.Table))
      → suc level < c.num_levels
      → digit ≡ amp_factor c - 1
      → LevelsValid api c (suc level) 0 ls
      → LevelsValid api c level 0
          (delete_level c level (record { digit = digit; table = table }) ∷ ls)
  unfolding delete_level reset
  past_valid level digit table ls inner full rest =
      let gone = reset-full level digit inner full in
      (
        gone,
        (λ _. omega (arith, gone, amp_positive c)),
        subst (λ (n : ℕ). LevelsValid api c (suc level) n ls)
            (omega (arith, ap (λ k. k * period c level) gone)) rest,
      )

  -- What the collecting pass over `levels` gives, for a list that already holds `xs` and `ys`.
  pub record Collected (level : ℕ) (levels : List (Level api.Table)) (xs : List ℕ)
      (ys : List (Record V)) : Type 0 where
    pub rebuild_to : ℕ
    pub above : ℕ
    pub inclusive : Bool
    pub target : Level api.Table
    pub out_xs : List ℕ
    pub out_ys : List (Record V)
    pub position : rebuild_to ≡ level + above
    pub in_range : rebuild_to < c.num_levels
    pub target_lem : rebuild_target (amp_factor c) level levels ≡ some (rebuild_to, inclusive)
    pub at_target : get_elem? levels above ≡ some target
    pub result :
        extract_levels api c level (above + (if inclusive then 1 else 0)) levels xs ys
        ≡ some (out_xs, out_ys)
    pub same_length : length out_xs ≡ length out_ys
    pub enough : capacity c rebuild_to ≤ length out_xs
    pub exact :
        suc rebuild_to < c.num_levels
        → (suc target.digit < amp_factor c)
          × (length out_xs ≡ suc target.digit * capacity c rebuild_to)
    pub kept_digit :
        (after : Level api.Table)
        → suc rebuild_to < c.num_levels
        → get_elem? (delete_levels c level (above + (if inclusive then 1 else 0)) levels) above
          ≡ some after
        → after.digit ≡ target.digit
    -- The levels after the rebuild, with a fresh table at the target.
    pub renewed :
        (after : Level api.Table) (digit : ℕ) (t : api.Table)
        → get_elem? (delete_levels c level (above + (if inclusive then 1 else 0)) levels) above
          ≡ some after
        → next_digit c rebuild_to after.digit ≡ some digit
        → Serves api c rebuild_to 0 digit t
        → LevelsValid api c level 0 (
            set
              (delete_levels c level (above + (if inclusive then 1 else 0)) levels)
              above
              (record { digit = digit; table = some t }))

  collect_bottom :
      (level accesses digit : ℕ) (table : Option api.Table) (xs : List ℕ) (ys : List (Record V))
      → TableIsValid api c level accesses digit table
      → accesses ≡ period c level
      → suc level ≡ c.num_levels
      → length xs ≡ capacity c level
      → length xs ≡ length ys
      → Collected level (record { digit = digit; table = table } ∷ []) xs ys
  unfolding rebuild_target extract_levels delete_levels
  collect_bottom level accesses digit none xs ys empty due last size same = record {
    rebuild_to = level;
    above = 0;
    inclusive = false;
    target = record { digit = digit; table = none };
    out_xs = xs;
    out_ys = ys;
    position = omega arith;
    in_range = omega arith;
    target_lem = ground arith;
    at_target = refl;
    result = refl;
    same_length = same;
    enough = omega arith;
    exact = λ inner. ground arith;
    kept_digit = λ after inner at. absurd (omega arith);
    renewed = λ after digit' t' at next serves'. (serves', (λ inner. absurd (omega arith)), tt);
  }
  collect_bottom level accesses digit (some t) xs ys serves due last size same =
      let (xs', ys', e, lx, ly) = extract_some level accesses digit t [] xs ys serves due same in
      record {
        rebuild_to = level;
        above = 0;
        inclusive = true;
        target = record { digit = digit; table = some t };
        out_xs = xs';
        out_ys = ys';
        position = omega arith;
        in_range = omega arith;
        target_lem = ground arith;
        at_target = refl;
        result = e 0;
        same_length = ly;
        enough = omega arith;
        exact = λ inner. ground arith;
        kept_digit = λ after inner at. absurd (omega arith);
        renewed = λ after digit' t' at next serves'. (serves', (λ inner. absurd (omega arith)), tt);
      }

  collect_here :
      (level accesses digit : ℕ) (table : Option api.Table) (m : Level api.Table)
      (ls : List (Level api.Table)) (xs : List ℕ) (ys : List (Record V))
      → TableIsValid api c level accesses digit table
      → accesses ≡ period c level
      → suc level < c.num_levels
      → ltb digit (amp_factor c - 1) ≡ true
      → length xs ≡ capacity c level
      → length xs ≡ length ys
      → LevelsValid api c (suc level) (accesses + digit * period c level) (m ∷ ls)
      → Collected level (record { digit = digit; table = table } ∷ m ∷ ls) xs ys
  unfolding rebuild_target extract_levels delete_levels reset
  collect_here level accesses digit none m ls xs ys empty due inner room size same rest = record {
    rebuild_to = level;
    above = 0;
    inclusive = false;
    target = record { digit = digit; table = none };
    out_xs = xs;
    out_ys = ys;
    position = omega arith;
    in_range = omega arith;
    target_lem = rw room;
    at_target = refl;
    result = refl;
    same_length = same;
    enough = omega arith;
    exact = λ _. (
      omega (arith, ltb→lt digit (amp_factor c - 1) room),
      omega (arith, ap (λ t. t * capacity c level) empty),
    );
    kept_digit = λ after inner at. after_digit at;
    renewed = λ after digit' t' at next serves'.
        here_valid level accesses digit digit' t' (m ∷ ls) inner due
          (subst (λ k. next_digit c level k ≡ some digit') (after_digit at) next) serves' rest;
  }
  collect_here level accesses digit (some t) m ls xs ys serves due inner room size same rest =
      let (xs', ys', e, lx, ly) =
        extract_some level accesses digit t (m ∷ ls) xs ys serves due same in
      record {
        rebuild_to = level;
        above = 0;
        inclusive = true;
        target = record { digit = digit; table = some t };
        out_xs = xs';
        out_ys = ys';
        position = omega arith;
        in_range = omega arith;
        target_lem = rw room;
        at_target = refl;
        result = e 0;
        same_length = ly;
        enough = omega arith;
        exact = λ _. (
          omega (arith, ltb→lt digit (amp_factor c - 1) room),
          omega (arith, num_elements_at-inner c level digit inner),
        );
        kept_digit = λ after inner at. after_digit at ∙ reset-room level digit room;
        renewed = λ after digit' t' at next serves'.
            here_valid level accesses digit digit' t' (m ∷ ls) inner due
              (subst (λ k. next_digit c level k ≡ some digit')
                (after_digit at ∙ reset-room level digit room) next)
              serves' rest;
      }

  collect_past :
      (level digit : ℕ) (table : Option api.Table) (m : Level api.Table)
      (ls : List (Level api.Table)) (xs : List ℕ) (ys : List (Record V)) (xs' : List ℕ)
      (ys' : List (Record V))
      → ltb digit (amp_factor c - 1) ≡ false
      → suc level < c.num_levels
      → digit ≡ amp_factor c - 1
      → ((n : ℕ)
          → extract_levels api c level
              (suc n)
              (record { digit = digit; table = table } ∷ m ∷ ls)
              xs
              ys
            ≡ extract_levels api c (suc level) n (m ∷ ls) xs' ys')
      → Collected (suc level) (m ∷ ls) xs' ys'
      → Collected level (record { digit = digit; table = table } ∷ m ∷ ls) xs ys
  unfolding rebuild_target delete_levels
  collect_past level digit table m ls xs ys xs' ys' full inner whole e rest = record {
    rebuild_to = rest.rebuild_to;
    above = suc rest.above;
    inclusive = rest.inclusive;
    target = rest.target;
    out_xs = rest.out_xs;
    out_ys = rest.out_ys;
    position = omega arith;
    in_range = rest.in_range;
    target_lem = rw (full, rest.target_lem);
    at_target = rest.at_target;
    result =
        ap
          (λ (n : ℕ).
            extract_levels api c level n (record { digit = digit; table = table } ∷ m ∷ ls) xs ys)
          {y = suc (rest.above + (if rest.inclusive then 1 else 0))} (omega arith)
        ∙ e (rest.above + (if rest.inclusive then 1 else 0))
        ∙ rest.result;
    same_length = rest.same_length;
    enough = rest.enough;
    exact = rest.exact;
    kept_digit = λ after inner' at. rest.kept_digit after inner' (
        subst
          (λ (n : ℕ).
            get_elem? (delete_levels c level n (record { digit = digit; table = table } ∷ m ∷ ls))
              (suc rest.above)
            ≡ some after)
          {y = suc (rest.above + (if rest.inclusive then 1 else 0))} (omega arith) at);
    renewed = λ after digit' t' at next serves'.
        let i = if rest.inclusive then 1 else 0 in
        let more : suc rest.above + i ≡ suc (rest.above + i) = omega arith in
        let ls0 = record { digit = digit; table = table } ∷ m ∷ ls in
        let at' =
          subst (λ (n : ℕ). get_elem? (delete_levels c level n ls0) (suc rest.above) ≡ some after)
            more at in
        subst
          (λ (n : ℕ). LevelsValid api c level 0 (
            set (delete_levels c level n ls0) (suc rest.above)
              (record { digit = digit'; table = some t' })))
          (sym more)
          (past_valid level digit table _ inner whole
            (rest.renewed after digit' t' at' next serves'));
  }

  collect_inner :
      (level accesses digit : ℕ) (table : Option api.Table) (m : Level api.Table)
      (ls : List (Level api.Table)) (xs : List ℕ) (ys : List (Record V))
      → TableIsValid api c level accesses digit table
      → accesses ≡ period c level
      → suc level < c.num_levels
      → digit < amp_factor c
      → ltb digit (amp_factor c - 1) ≡ false
      → length xs ≡ capacity c level
      → length xs ≡ length ys
      → ((xs' : List ℕ) (ys' : List (Record V))
          → length xs' ≡ capacity c (suc level)
          → length xs' ≡ length ys'
          → Collected (suc level) (m ∷ ls) xs' ys')
      → Collected level (record { digit = digit; table = table } ∷ m ∷ ls) xs ys
  unfolding extract_levels
  collect_inner level accesses digit none m ls xs ys empty due inner fits full size same rest =
      let one : amp_factor c ≡ 1 =
        omega (arith, full_digit (amp_factor c) digit fits full, amp_positive c) in
      collect_past level digit none m ls xs ys xs ys full inner
        (full_digit (amp_factor c) digit fits full) (λ n. refl)
        (rest xs ys (omega (arith, capacity-suc c level, ap (λ t. t * capacity c level) one)) same)
  collect_inner level accesses digit (some t) m ls xs ys serves due inner fits full size same rest =
      let (xs', ys', e, lx, ly) =
        extract_some level accesses digit t (m ∷ ls) xs ys serves due same in
      let whole : suc digit ≡ amp_factor c =
        omega (arith, full_digit (amp_factor c) digit fits full, amp_positive c) in
      collect_past level digit (some t) m ls xs ys xs' ys' full inner
        (full_digit (amp_factor c) digit fits full) e
        (rest xs' ys'
          (omega (
            arith,
            num_elements_at-inner c level digit inner,
            capacity-suc c level,
            ap (λ t. t * capacity c level) whole,
          ))
          ly)

  pub collect_from :
      (level accesses : ℕ) (l : Level api.Table) (ls : List (Level api.Table)) (xs : List ℕ)
      (ys : List (Record V))
      → LevelsValid api c level accesses (l ∷ ls)
      → accesses ≡ period c level
      → level + length (l ∷ ls) ≡ c.num_levels
      → length xs ≡ capacity c level
      → length xs ≡ length ys
      → Collected level (l ∷ ls) xs ys
  collect_from level accesses l [] xs ys (valid, fits, rest) due count size same =
      collect_bottom level accesses l.digit l.table xs ys valid due (omega arith) size same
  collect_from level accesses l (m ∷ ls) xs ys (valid, fits, rest) due count size same =
      let inner : suc level < c.num_levels = omega arith in
      elim (Bool-cases (ltb l.digit (amp_factor c - 1))) [
        | inl room ↦
            collect_here level accesses l.digit l.table m ls xs ys valid due inner room size same
              rest
        | inr full ↦
            collect_inner level accesses l.digit l.table m ls xs ys valid due inner (fits inner)
              full size same
              (λ xs' ys' size' same'.
                collect_from (suc level) (accesses + l.digit * period c level) m ls xs' ys' rest
                  (full_next (amp_factor c) (period c level) accesses l.digit due (amp_positive c)
                      (full_digit (amp_factor c) l.digit (fits inner) full)
                    ∙ sym (period-suc c level))
                  (omega arith) size' same')
      ]
