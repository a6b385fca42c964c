-- ===== src/DataStructures/OhTable/Repeated.antt =====
-- A tag is answered once.
use gigadoram_rs.Base.{
  some-inj, none-some, ℕ, ◌/◌, ◌^◌, ◌<◌, ◌≤◌, ◌≡◌, ◌≢◌, inl, inr, refl, sym, ap, ap₂, subst, ◌∙◌,
  arith, List, none, some, Bool, true, false, get_elem?, Option-cases,
}
use gigadoram_rs.Primitives.Permutation.{LocalPermutation, evaluate_at}
use gigadoram_rs.Primitives.Permutation.Evaluate.{evaluate_at_lem}
use gigadoram_rs.Primitives.Value.{DoramValue, Record}
use gigadoram_rs.DataStructures.OhTable.Answering.{Entry, missing, present, taken}
use gigadoram_rs.DataStructures.OhTable.Params.{OhTableParams, total_size}
use gigadoram_rs.DataStructures.OhTable.Table.{OhTable, Coins, new, query}
use gigadoram_rs.DataStructures.OhTable.New.{new-IsTable}
use gigadoram_rs.DataStructures.OhTable.Valid.{query-Queried}
use gigadoram_rs.DataStructures.OhTable.Entries.{entry, entry_at, IsSound, position, entry-Absent}
use gigadoram_rs.DataStructures.OhTable.Answers.{query-missing, query-present, entry-position}
use gigadoram_rs.DataStructures.OhTable.Lookups.{TagsApart, Labels}
use gigadoram_rs.DataStructures.OhTable.Contents.{new-Holds}

module _ {V Key : Type 0} ⦃d : DoramValue V⦄ (prf : Key → ℕ → ℕ) (t : OhTable V Key)
    (sound : IsSound prf t) (q : ℕ) (real : q / 2 ^ 32 ≢ 0) where
  -- A query for a tag whose record has been taken fails.
  query-taken : (random : ℕ) → entry t q ≡ taken → query t q false random ≡ none
  query-taken random h = elim (Option-cases (query t q false random)) [
    | inl fails ↦ fails
    | inr ((t', (y, found)), e) ↦
        let (queried, value) = query-Queried t t' q false random y found e in
        elim (sound.finds q real) [
          | inr absent ↦ absurd (clash (sym (entry-Absent t q real absent) ∙ h))
          | inl (i, inside, finds) ↦
              let (next, e', _, _, _, _) =
                evaluate_at_lem sound.perm sound.perm_valid i
                  (omega (arith, inside, sound.perm_size)) in
              let shuffle : queried.shuffle ≡ sound.perm =
                some-inj (sym queried.shuffled ∙ sound.shuffled) in
              let same : queried.index ≡ position sound.perm i =
                ap (λ (r : ℕ × LocalPermutation). r.0)
                  (some-inj (
                    sym queried.evaluated
                    ∙ ap₂ evaluate_at shuffle (ap (λ (f : ℕ × Bool). f.0) (finds queried.dummy))
                    ∙ e')) in
              absurd (
                clash' (
                  sym (
                    entry-position prf t sound q i real finds
                    ∙ ap₂ entry_at (ap (get_elem? t.touched) (sym same) ∙ queried.new_mark)
                        (ap (get_elem? t.ys_receiver_order) (sym same) ∙ value))
                  ∙ h))
        ]
  ]
    where
      clash : ◌≡◌ {A = Entry V} missing taken → ⊥
      clash h = cc

      clash' : {y : Record V} → ◌≡◌ {A = Entry V} (present y) taken → ⊥
      clash' h = cc

  -- A query that finds a tag leaves its entry taken.
  query-found :
      (random : ℕ) (t' : OhTable V Key) (y : Record V)
      → query t q false random ≡ some (t', (y, true))
      → IsSound prf t' × (entry t' q ≡ taken)
  query-found random t' y h = by_entry (entry t q) refl
    where
      spare : t.query_count < t.params.num_dummies
      spare = let (queried, _) = query-Queried t t' q false random y true h in queried.budget

      out :
          (o : OhTable V Key × (Record V × Bool))
          → query t q false random ≡ some o
          → o ≡ (t', (y, true))
      out o e = some-inj (sym e ∙ h)

      false-true : false ≡ true → ⊥
      false-true e = cc

      by_entry : (e : Entry V) → entry t q ≡ e → IsSound prf t' × (entry t' q ≡ taken)
      by_entry missing e =
          let (u, run, _, _) = query-missing prf t sound q false random spare e in
          absurd (false-true (ap (λ (o : OhTable V Key × (Record V × Bool)). o.1.1) (out _ run)))
      by_entry (present r) e =
          let (u, run, kept, spent, _) = query-present prf t sound q false random spare r e in
          subst (λ (w : OhTable V Key). IsSound prf w × (entry w q ≡ taken))
            (ap (λ (o : OhTable V Key × (Record V × Bool)). o.0) (out _ run)) (kept, spent)
      by_entry taken e = absurd (none-some (sym (query-taken random e) ∙ h))

module _ {V Key : Type 0} ⦃d : DoramValue V⦄ (prf : Key → ℕ → ℕ) (p : OhTableParams) (xs : List ℕ)
    (ys : List (Record V)) (key : Key) (coins : Coins) (t : OhTable V Key)
    (small : total_size p ≤ 2 ^ 32) (tags : TagsApart prf key) (labels : Labels xs)
    (made : new prf p xs ys key coins ≡ some t) where
  -- A label is answered once: if a query right after a build that returns has found a label, then a
  -- second query for its tag fails, whatever is drawn. The labels differ, the key tells labels
  -- apart, and the positions of the table fit in 32 bits.
  pub query-repeated :
      (x : ℕ) (t' : OhTable V Key) (y : Record V) (random random' : ℕ)
      → x < 2 ^ 32
      → query t (prf key x) false random ≡ some (t', (y, true))
      → query t' (prf key x) false random' ≡ none
  query-repeated x t' y random random' label found =
      let h = new-Holds prf p xs ys key coins t small tags labels made in
      let (_, _, same_key, _) = new-IsTable prf p xs ys key coins t small made in
      let real : prf key x / 2 ^ 32 ≢ 0 =
        subst (λ (k : Key). prf k x / 2 ^ 32 ≢ 0) same_key (h.sound.labels_real x label) in
      let (kept, spent) = query-found prf t h.sound (prf key x) real random t' y found in
      query-taken prf t' kept (prf key x) real random' spent
