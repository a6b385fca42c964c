-- ===== src/DataStructures/SpeedCache/ManyFrame.antt =====
-- What a batch of queries leaves alone, whatever the cache holds.
use gigadoram_rs.Base.{
  some-inj, if◌then◌else◌, ◌⊎◌, ℕ, suc, ◌^◌, ◌≡◌, refl, sym, ap, subst, ◌∙◌, arith, List, [], ◌∷◌,
  map, none, some, Bool, true, false, inl, inr, ◌==◌, length, take, drop, length-append,
  length-take, length-drop, length-zip_with, length-replicate, >>=-eq-some,
}
use gigadoram_rs.Primitives.Rep3.{differ}
use gigadoram_rs.Primitives.Value.{DoramValue, Record, zero_record, xor_record}
use gigadoram_rs.DataStructures.SpeedCache.{
  SpeedCache, Row, reduce, query_many, all_rows, answer_rows, circuit_row, circuit_rows, update_all,
}
use gigadoram_rs.DataStructures.SpeedCache.Spec.{IsValid}
use gigadoram_rs.DataStructures.SpeedCache.Frame.{Framed, length-update_all}

if-cases : {A : Type 0} (x y r : A) (b : Bool) → (if b then x else y) ≡ r → (x ≡ r) ⊎ (y ≡ r)
if-cases x y r true h = inl h
if-cases x y r false h = inr h

module _ {V : Type 0} ⦃d : DoramValue V⦄ where
  -- Each query leaves as many addresses, and gives one answer.
  answer_rows-length :
      (sentinel : ℕ) (xs : List ℕ) (ys : List (Record V)) (queries addrs left : List ℕ)
      (answers : List (Record V × Bool))
      → length addrs ≡ length xs
      → length xs ≡ length ys
      → answer_rows sentinel addrs (map (λ a. circuit_rows a xs ys) queries) ≡ some (left, answers)
      → (length left ≡ length xs) × (length answers ≡ length queries)
  unfolding answer_rows circuit_rows
  answer_rows-length sentinel xs ys [] addrs left answers same fits h =
      let pair = some-inj h in
      (
        ap (λ r. length r.0) (sym pair) ∙ same,
        ap (λ (r : List ℕ × List (Record V × Bool)). length r.1) (sym pair),
      )
  answer_rows-length sentinel xs ys (a ∷ queries) addrs left answers same fits h =
      let rows = circuit_rows a xs ys in
      let (y, _, h1) =
        >>=-eq-some (reduce xor_record (map (λ (r : Row V). r.y_if_found) rows)) _ h in
      let (f, _, h2) = >>=-eq-some (reduce differ (map (λ (r : Row V). r.found) rows)) _ h1 in
      let updated = update_all sentinel addrs rows in
      let ((last, others), e, h3) =
        >>=-eq-some (answer_rows sentinel updated (map (λ a. circuit_rows a xs ys) queries)) _ h2 in
      let (l, n) =
        answer_rows-length sentinel xs ys queries updated last others
          (omega (
            arith,
            same,
            fits,
            length-update_all sentinel addrs rows,
            length-zip_with (circuit_row a) xs ys,
          ))
          fits e in
      let pair = some-inj h3 in
      (
        ap (λ r. length r.0) (sym pair) ∙ l,
        ap (λ (r : List ℕ × List (Record V × Bool)). length r.1) (sym pair) ∙ ap suc n,
      )

  -- A batch of queries keeps the cache valid, and returns an answer for each.
  pub query_many_frame :
      (c c' : SpeedCache V) (queries : List ℕ) (answers : List (Record V × Bool))
      → IsValid c
      → query_many c queries none ≡ some (c', answers)
      → Framed c c' × (length answers ≡ length queries)
  unfolding query_many all_rows
  query_many_frame c c' queries answers v h =
      let n = c.num_stored in
      let sentinel = 2 ^ c.log_address_space_size in
      elim (if-cases _ _ _ (n == 0) h) [
        | inl unchanged ↦
            let pair = some-inj unchanged in
            (
              subst (λ (w : SpeedCache V). Framed c w) (ap (λ r. r.0) pair)
                  (record { valid = v; count = refl; capacity = refl; log_size = refl }),
              ap (λ (r : SpeedCache V × List (Record V × Bool)). length r.1) (sym pair)
                  ∙ length-replicate (length queries) (zero_record, false),
            )
        | inr asked ↦
            let rows = map (λ a. circuit_rows a (take n c.addrs) (take n c.entries)) queries in
            let ((left, given), e, h1) =
              >>=-eq-some (answer_rows sentinel (take n c.addrs) rows) _ asked in
            let pair = some-inj h1 in
            let (l, k) =
              answer_rows-length sentinel (take n c.addrs) (take n c.entries) queries
                (take n c.addrs) left given refl
                (omega (
                  arith,
                  length-take n c.addrs,
                  length-take n c.entries,
                  v.addrs_length,
                  v.entries_length,
                ))
                e in
            (
              subst (λ (w : SpeedCache V). Framed c w) (ap (λ r. r.0) pair)
                  (record {
                    valid = record {
                      addrs_length = omega (
                        arith,
                        length-append left (drop n c.addrs),
                        length-drop n c.addrs,
                        length-take n c.addrs,
                        l,
                        v.addrs_length,
                        v.stored,
                      );
                      entries_length = v.entries_length;
                      stored = v.stored;
                    };
                    count = refl;
                    capacity = refl;
                    log_size = refl;
                  }),
              ap (λ (r : SpeedCache V × List (Record V × Bool)). length r.1) (sym pair) ∙ k,
            )
      ]
