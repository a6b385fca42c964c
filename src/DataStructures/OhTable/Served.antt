-- ===== src/DataStructures/OhTable/Served.antt =====
-- The code's tables answer as the hierarchy relies on.
use gigadoram_rs.Base.{
  some-inj, none-some, ℕ, ◌/◌, ◌^◌, ◌<◌, ◌≡◌, ◌≢◌, sym, ap, ◌∙◌, Option, none, some, Bool, true,
  subst, false, if◌then◌else◌,
}
use gigadoram_rs.Primitives.Value.{DoramValue, Record, zero_record}
use gigadoram_rs.DataStructures.OhTable.Answering.{missing, present, taken, Answering}
use gigadoram_rs.DataStructures.OhTable.Table.{OhTable, query}
use gigadoram_rs.DataStructures.OhTable.Tables.{
  ValidTable, forget, query_table, forget-query_table, oh_tables,
}
use gigadoram_rs.DataStructures.OhTable.Entries.{entry, IsSound}
use gigadoram_rs.DataStructures.OhTable.Answers.{query-missing, query-present}

module _ {V Key : Type 0} ⦃d : DoramValue V⦄ (prf : Key → ℕ → ℕ) where
  forget-eq-some :
      (o : Option (ValidTable V Key × (Record V × Bool))) (u : OhTable V Key)
      (out : Record V × Bool)
      → forget o ≡ some (u, out)
      → (t : ValidTable V Key) × (o ≡ some (t, out)) × (u ≡ t.0)
  forget-eq-some none u out h = absurd (none-some h)
  forget-eq-some (some ((t, v), out')) u out h =
      let pair = some-inj h in ((t, v), ap (λ r. some ((t, v), r.1)) pair, ap (λ r. r.0) (sym pair))

  query_table-of_query :
      (t : ValidTable V Key) (q : ℕ) (use_dummy : Bool) (random : ℕ) (u : OhTable V Key)
      (out : Record V × Bool)
      → query t.0 q use_dummy random ≡ some (u, out)
      → (t' : ValidTable V Key) × (query_table t q use_dummy random ≡ some (t', out)) × (u ≡ t'.0)
  query_table-of_query t q use_dummy random u out h =
      forget-eq-some (query_table t q use_dummy random) u out
        (forget-query_table t q use_dummy random ∙ h)

  pub miss_table :
      (t : ValidTable V Key) (q : ℕ) (use_dummy : Bool) (random : ℕ)
      → IsSound prf t.0
      → t.0.query_count < t.0.params.num_dummies
      → entry t.0 (if use_dummy then random else q) ≡ missing
      → (t' : ValidTable V Key) × (query_table t q use_dummy random
          ≡ some (t', (zero_record, false)))
        × IsSound prf t'.0
        × ((tag : ℕ) → entry t'.0 tag ≡ entry t.0 tag)
  miss_table t q use_dummy random sound spare h =
      let (u, run, sound', same) = query-missing prf t.0 sound q use_dummy random spare h in
      let (t', run', is) = query_table-of_query t q use_dummy random u (zero_record, false) run in
      (t', run', subst (IsSound prf) is sound', (λ tag. ap (λ w. entry w tag) (sym is) ∙ same tag))

  pub hit_table :
      (t : ValidTable V Key) (q : ℕ) (use_dummy : Bool) (random : ℕ) (r : Record V)
      → IsSound prf t.0
      → t.0.query_count < t.0.params.num_dummies
      → entry t.0 (if use_dummy then random else q) ≡ present r
      → (t' : ValidTable V Key) × (query_table t q use_dummy random ≡ some (t', (r, true)))
        × IsSound prf t'.0
        × (entry t'.0 (if use_dummy then random else q) ≡ taken)
        × ((tag : ℕ)
            → tag / 2 ^ 32 ≢ (if use_dummy then random else q) / 2 ^ 32
            → entry t'.0 tag ≡ entry t.0 tag)
  hit_table t q use_dummy random r sound spare h =
      let (u, run, sound', gone, same) = query-present prf t.0 sound q use_dummy random spare r h in
      let (t', run', is) = query_table-of_query t q use_dummy random u (r, true) run in
      (
        t',
        run',
        subst (IsSound prf) is sound',
        ap (λ w. entry w (if use_dummy then random else q)) (sym is) ∙ gone,
        (λ tag differs. ap (λ w. entry w tag) (sym is) ∙ same tag differs),
      )

  -- The interface, filled by the code's tables.
  abbrev pub oh_answering : Answering (oh_tables {V = V} prf)
  oh_answering = record {
    Sound = λ t. IsSound prf t.0;
    entry = λ t. entry t.0;
    labels_apart = λ t x x' sound. sound.labels_apart x x';
    miss = miss_table;
    hit = hit_table;
  }
