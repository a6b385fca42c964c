-- ===== src/Doram/GigaDoram/Store/Tests.antt =====
-- Four addresses over the code's tables: the first level has been built of a dummy, which stands
-- in the stash, and of the address 3.
use gigadoram_rs.Base.{
  some-inj, none-some, ℕ, zero, suc, ◌+◌, ◌*◌, ◌^◌, ◌<◌, ◌≡◌, ◌≢◌, refl, ap, ◌∙◌, arith, inl, inr,
  List, [], ◌∷◌, Option, none, some, false, get_elem?,
}
use gigadoram_rs.Primitives.Value.{Record, ring_value, from_value, set_alibi_bit}
use gigadoram_rs.Primitives.Utils.{low_u32, set_low_u32}
use gigadoram_rs.Primitives.Permutation.{sample_from_rng, shuffle, inverse_shuffle, evaluate_at}
use gigadoram_rs.Primitives.ArrayShuffle.{forward, backward}
use gigadoram_rs.DataStructures.Cht.{h0, h1, build, lookup}
use gigadoram_rs.DataStructures.OhTable.Params.{OhTableParams, validate}
use gigadoram_rs.DataStructures.OhTable.Table.{OhTable, Draws, Coins, compact, unbuilt, new}
use gigadoram_rs.DataStructures.OhTable.Answering.{missing, present}
use gigadoram_rs.DataStructures.OhTable.Valid.{IsTable}
use gigadoram_rs.DataStructures.OhTable.New.{new-IsTable}
use gigadoram_rs.DataStructures.OhTable.Lookups.{TagsApart, Labels}
use gigadoram_rs.DataStructures.OhTable.Contents.{new-Holds}
use gigadoram_rs.DataStructures.OhTable.Entries.{entry, IsSound}
use gigadoram_rs.DataStructures.OhTable.Tables.{oh_tables}
use gigadoram_rs.DataStructures.OhTable.Served.{oh_answering}
use gigadoram_rs.Doram.Config.{GigaDoramConfig, empirical}
use gigadoram_rs.Doram.GigaDoram.State.{GigaDoram, empty_level, num_elements_at}
use gigadoram_rs.Doram.GigaDoram.Invariant.{IsValid}
use gigadoram_rs.Doram.GigaDoram.Access.{access}
use gigadoram_rs.Doram.GigaDoram.Store.{Holds, Represents, written}
use gigadoram_rs.Doram.GigaDoram.Store.Serve.{access-Represents}

abbrev four : GigaDoramConfig
four = record {
  log_address_space_size = 2;
  num_levels = 2;
  log_speed_cache_size = 1;
  log_amp_factor = 1;
  stash_size = 1;
  cht_bounds = empirical;
}

abbrev four_params : OhTableParams
four_params = record {
  num_elements = 2;
  num_dummies = 1;
  stash_size = 1;
  log_single_col_len = 2;
  log_address_space_size = 2;
}

-- Every draw keeps the position.
abbrev identity_draws : Draws
identity_draws = record { draw = λ i. i; bound = λ i. omega arith }

abbrev plain_coins : Coins
plain_coins = record {
  builder_shuffler = λ id. identity_draws;
  builder_local_perm = identity_draws;
  receiver_shuffler = λ id. identity_draws;
}

abbrev plain_prf : ℕ → ℕ → ℕ
plain_prf key x = (x + key) * 2 ^ 96 + x * 2 ^ 64

abbrev level_xs : List ℕ
level_xs = 4 ∷ 3 ∷ []

abbrev level_ys : List (Record ℕ)
level_ys = from_value 0 ∷ from_value 30 ∷ []

abbrev level_run : Option (OhTable ℕ ℕ)
unfolding new
level_run = new plain_prf four_params level_xs level_ys 7 plain_coins

abbrev level_table : OhTable ℕ ℕ
unfolding level_run
level_table = elim level_run [ some t ↦ t | none ↦ unbuilt plain_prf four_params 7 ]

level_run_test : level_run ≡ some level_table
unfolding level_run level_table validate forward shuffle sample_from_rng backward inverse_shuffle
    compact build h0 h1 low_u32 set_low_u32 evaluate_at
level_run_test = refl

level_IsTable : IsTable level_table
unfolding level_run
level_IsTable =
    (new-IsTable plain_prf four_params level_xs level_ys 7 plain_coins level_table (omega arith)
      level_run_test).0

plain_TagsApart : TagsApart plain_prf 7
plain_TagsApart = record {
  apart = λ x x' lt lt' ne same. ne (omega (arith, lt, lt', same));
  real = λ x lt same. absurd (omega (arith, lt, same));
}

level_Labels : Labels level_xs
level_Labels = record { small = small; once = once }
  where
    small : (e x : ℕ) → get_elem? level_xs e ≡ some x → x < 2 ^ 32
    small zero x h = omega (arith, some-inj h)
    small (suc zero) x h = omega (arith, some-inj h)
    small (suc (suc e)) x h = absurd (none-some h)

    once : (e e' x : ℕ) → get_elem? level_xs e ≡ some x → get_elem? level_xs e' ≡ some x → e ≡ e'
    once zero zero x h h' = refl
    once zero (suc zero) x h h' = absurd (omega (arith, some-inj h, some-inj h'))
    once zero (suc (suc e')) x h h' = absurd (none-some h')
    once (suc zero) zero x h h' = absurd (omega (arith, some-inj h, some-inj h'))
    once (suc zero) (suc zero) x h h' = refl
    once (suc zero) (suc (suc e')) x h h' = absurd (none-some h')
    once (suc (suc e)) e' x h h' = absurd (none-some h)

abbrev small_doram : GigaDoram (oh_tables {V = ℕ} plain_prf)
small_doram = record {
  config = four;
  speed_cache = record {
    length = 2;
    log_address_space_size = 2;
    num_stored = 1;
    addrs = 4 ∷ 4 ∷ [];
    entries = set_alibi_bit (from_value 0) 0 ∷ from_value 0 ∷ [];
  };
  levels =
      record { digit = 1; table = some (level_table, level_IsTable) }
      ∷ empty_level (oh_tables {V = ℕ} plain_prf)
      ∷ [];
  packed_query_key = none;
  packed_batch_query_keys = none;
  had_initial_bottom_level = false;
}

small_doram-IsValid : IsValid (oh_tables {V = ℕ} plain_prf) small_doram
unfolding level_table level_run validate forward shuffle sample_from_rng backward inverse_shuffle
    compact build h0 h1 low_u32 set_low_u32 evaluate_at num_elements_at
small_doram-IsValid = record {
  config_valid = record {
    has_level = omega arith;
    labels_fit = omega arith;
    cache_shift = omega arith;
    amp_shift = omega arith;
    stash_fits = omega arith;
    alibi_fits = omega arith;
    size_matches = refl;
  };
  levels_length = refl;
  cache_valid = record { addrs_length = refl; entries_length = refl; stored = omega arith };
  cache_length = refl;
  cache_log = refl;
  stash_stored = omega arith;
  levels_valid = (
    record {
      digit_positive = omega arith;
      dummies = refl;
      elements = refl;
      stash = refl;
      used = refl;
    },
    (λ _. omega arith),
    (refl, (λ _. omega arith), tt),
  );
  keys_current = λ keys h. cc;
  batch_keys_current = λ count keys h. cc;
}

-- The store: 30 at the address 3, and zero elsewhere.
abbrev small_store : ℕ → ℕ
small_store (suc (suc (suc zero))) = 30
small_store x = 0

entry_three : entry level_table (plain_prf 7 3) ≡ present (from_value 30)
unfolding entry level_table level_run validate forward shuffle sample_from_rng backward
    inverse_shuffle compact build h0 h1 low_u32 set_low_u32 evaluate_at lookup
entry_three = refl

entry_nine : entry level_table (plain_prf 7 9) ≡ missing
unfolding entry level_table level_run validate forward shuffle sample_from_rng backward
    inverse_shuffle compact build h0 h1 low_u32 set_low_u32 evaluate_at lookup
entry_nine = refl

level_key : level_table.key ≡ 7
unfolding level_table level_run validate forward shuffle sample_from_rng backward inverse_shuffle
    compact build h0 h1 low_u32 set_low_u32 evaluate_at
level_key = refl

not_built : (x : ℕ) → x < 3 → (e : ℕ) → get_elem? level_xs e ≢ some x
not_built x lt zero h = absurd (omega (arith, lt, some-inj h))
not_built x lt (suc zero) h = absurd (omega (arith, lt, some-inj h))
not_built x lt (suc (suc e)) h = none-some h

entry_low : (x : ℕ) → x < 3 → entry level_table (plain_prf level_table.key x) ≡ missing
unfolding level_run
entry_low x lt =
    let contents =
      new-Holds plain_prf four_params level_xs level_ys 7 plain_coins level_table (omega arith)
        plain_TagsApart level_Labels level_run_test in
    ap (λ k. entry level_table (plain_prf k x)) level_key
    ∙ contents.others x (omega (arith, lt)) (not_built x lt)

level-IsSound : IsSound plain_prf level_table
unfolding level_run
level-IsSound =
    (new-Holds plain_prf four_params level_xs level_ys 7 plain_coins level_table (omega arith)
      plain_TagsApart level_Labels level_run_test).sound

small_Represents :
    Represents (oh_tables {V = ℕ} plain_prf) (oh_answering plain_prf) small_doram small_store
small_Represents = record { sound = (level-IsSound, (tt, tt)); holds = holds }
  where
    holds :
        (x : ℕ)
        → x < 4
        → Holds (oh_tables {V = ℕ} plain_prf) (oh_answering plain_prf) small_doram x (small_store x)
    holds zero lt = record {
      once = ((λ h. refl), tt);
      held = inr (refl, inl (entry_low 0 (omega arith), refl));
    }
    holds (suc zero) lt = record {
      once = ((λ h. refl), tt);
      held = inr (refl, inl (entry_low 1 (omega arith), refl));
    }
    holds (suc (suc zero)) lt = record {
      once = ((λ h. refl), tt);
      held = inr (refl, inl (entry_low 2 (omega arith), refl));
    }
    holds (suc (suc (suc zero))) lt = record {
      once = ((λ h. refl), tt);
      held = inr (
        refl,
        inr (
          from_value 30,
          ap (λ k. entry level_table (plain_prf k 3)) level_key ∙ entry_three,
          refl,
          (tt, tt),
        ),
      );
    }
    holds (suc (suc (suc (suc x)))) lt = absurd (omega (arith, lt))

-- Reading the address 3 from the table.
access-Represents_example :
    (g' : GigaDoram (oh_tables {V = ℕ} plain_prf)) × (access
        (oh_tables plain_prf)
        small_doram
        3
        none
        (λ level. plain_prf 7 9)
      ≡ some (g', 30))
    × Represents (oh_tables plain_prf) (oh_answering plain_prf) g' (written small_store 3 none)
access-Represents_example =
    access-Represents (oh_tables plain_prf) (oh_answering plain_prf) small_doram small_store 3 none
      (λ level. plain_prf 7 9) small_doram-IsValid (omega arith) small_Represents (omega arith)
      (entry_nine, (tt, tt))
