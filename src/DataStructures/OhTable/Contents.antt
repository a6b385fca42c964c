-- ===== src/DataStructures/OhTable/Contents.antt =====
-- What a table holds after a build, and what its first query returns.
use gigadoram_rs.Base.{
  ℕ, ◌^◌, ◌<◌, ◌≤◌, ◌≡◌, ◌≢◌, ◌⊎◌, inl, inr, sym, ap, subst, arith, List, some, true, false,
  get_elem?,
}
use gigadoram_rs.Primitives.Value.{DoramValue, Record, zero_record}
use gigadoram_rs.DataStructures.OhTable.Answering.{missing, present}
use gigadoram_rs.DataStructures.OhTable.Params.{OhTableParams, total_size}
use gigadoram_rs.DataStructures.OhTable.Table.{OhTable, Coins, new, query}
use gigadoram_rs.DataStructures.OhTable.New.{new-IsTable}
use gigadoram_rs.DataStructures.OhTable.Valid.{IsTable}
use gigadoram_rs.DataStructures.OhTable.Distinct.{Distinct}
use gigadoram_rs.DataStructures.OhTable.Entries.{entry, IsSound}
use gigadoram_rs.DataStructures.OhTable.Answers.{query-missing, query-present}
use gigadoram_rs.DataStructures.OhTable.Chain.{new-Chain}
use gigadoram_rs.DataStructures.OhTable.Lookups.{TagsApart, Labels}
use gigadoram_rs.DataStructures.OhTable.Made.{
  made-IsSound, element_made, absent_made, stash_made, stash_once,
}

module _ {V Key : Type 0} ⦃d : DoramValue V⦄ (prf : Key → ℕ → ℕ) (p : OhTableParams) (xs : List ℕ)
    (ys : List (Record V)) (key : Key) where
  -- A table of the elements: each has its entry or stands in the stash, once, and there is
  -- nothing else.
  pub record Holds (t : OhTable V Key) : Type 0 where
    pub sound : IsSound prf t
    pub elements :
        (e x : ℕ) (y : Record V)
        → get_elem? xs e ≡ some x
        → get_elem? ys e ≡ some y
        → ((entry t (prf key x) ≡ present y) × ((k : ℕ) → get_elem? t.stash_xs k ≢ some x))
          ⊎ ((entry t (prf key x) ≡ missing)
              × ((k : ℕ) × (get_elem? t.stash_xs k ≡ some x) × (get_elem? t.stash_ys k ≡ some y)))
    pub others :
        (x : ℕ) → x < 2 ^ 32 → ((e : ℕ) → get_elem? xs e ≢ some x) → entry t (prf key x) ≡ missing
    pub stash_elements :
        (k x : ℕ) → get_elem? t.stash_xs k ≡ some x → (e : ℕ) × (get_elem? xs e ≡ some x)
    pub stash_apart : Distinct t.stash_xs

  module _ (coins : Coins) (t : OhTable V Key) (small : total_size p ≤ 2 ^ 32)
      (tags : TagsApart prf key) (labels : Labels xs)
      (made : new prf p xs ys key coins ≡ some t) where
    -- A build that returns, of different labels under a key that tells labels apart, gives a sound
    -- table that holds each element with its record, in the table or in the stash but not in both,
    -- and no other label. The positions of the table fit in 32 bits.
    pub new-Holds : Holds t
    new-Holds =
        let c = new-Chain prf p xs ys key coins t made in
        let (valid, _, _, _) = new-IsTable prf p xs ys key coins t small made in
        let v = subst IsTable (sym c.result) valid in
        subst Holds c.result (record {
          sound = made-IsSound prf p xs ys key t c tags labels small v;
          elements = element_made prf p xs ys key t c tags labels small v;
          others = absent_made prf p xs ys key t c tags labels small;
          stash_elements = stash_made prf p xs ys key t c tags labels small v;
          stash_apart = stash_once prf p xs ys key t c tags labels small v;
        })

    -- A query right after a build that returns finds what was built: with a dummy to pay with, the
    -- query for the tag of an element succeeds and returns its record and the bit `found`, or, if
    -- the element stands in the stash with its record, the zero record without the bit. The labels
    -- differ, the key tells labels apart, and the positions of the table fit in 32 bits.
    pub query-new :
        (e x : ℕ) (y : Record V) (random : ℕ)
        → get_elem? xs e ≡ some x
        → get_elem? ys e ≡ some y
        → 0 < p.num_dummies
        → ((t' : OhTable V Key) × (query t (prf key x) false random ≡ some (t', (y, true))))
          ⊎ (((t' : OhTable V Key) × (query t (prf key x) false random
                  ≡ some (t', (zero_record, false))))
              × ((k : ℕ) × (get_elem? t.stash_xs k ≡ some x) × (get_elem? t.stash_ys k ≡ some y)))
    query-new e x y random at_x at_y some_dummy =
        let (_, params, _, none_yet) = new-IsTable prf p xs ys key coins t small made in
        let spare : t.query_count < t.params.num_dummies =
          omega (arith, none_yet, ap (λ r. r.num_dummies) params, some_dummy) in
        let h = new-Holds in
        elim (h.elements e x y at_x at_y) [
          | inl (there, _) ↦
              let (t', run, _, _, _) =
                query-present prf t h.sound (prf key x) false random spare y there in
              inl (t', run)
          | inr (absent, stashed) ↦
              let (t', run, _, _) =
                query-missing prf t h.sound (prf key x) false random spare absent in
              inr ((t', run), stashed)
        ]
