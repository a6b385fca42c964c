-- ===== src/Circuits/ObliviousSort/Placed.antt =====
-- What the shuffled rows and their placement hold.
use gigadoram_rs.Base.{
  some-inj, none-some, ℕ, zero, suc, ◌-◌, ◌<◌, ◌≡◌, ◌≢◌, refl, sym, ap, ◌∙◌, arith, List, [], ◌∷◌,
  some, lt→ltb, length, get_elem?, set, length-set, get_elem?-set_self, get_elem?-set_ne,
  get_elem?-of_lt,
}
use gigadoram_rs.Circuits.ObliviousSort.{gather, place}

-- No number twice.
abbrev pub Distinct : List ℕ → Type 0
Distinct xs = (k k' y : ℕ) → get_elem? xs k ≡ some y → get_elem? xs k' ≡ some y → k ≡ k'

module _ {A : Type 0} where
  pub record Gathered (rows : List A) (perm : List ℕ) : Type 0 where
    pub out : List A
    pub run : gather rows perm ≡ some out
    pub size : length out ≡ length perm
    pub rows_at : (k i : ℕ) → get_elem? perm k ≡ some i → get_elem? out k ≡ get_elem? rows i

  pub gather_lem :
      (rows : List A) (perm : List ℕ)
      → ((k i : ℕ) → get_elem? perm k ≡ some i → i < length rows)
      → Gathered rows perm
  unfolding gather
  gather_lem rows [] small = record {
    out = [];
    run = refl;
    size = refl;
    rows_at = λ k i h. absurd (none-some h);
  }
  gather_lem rows (i ∷ perm) small =
      let (row, at) = get_elem?-of_lt rows i (small 0 i refl) in
      let rest = gather_lem rows perm (λ k. small (suc k)) in
      record {
        out = row ∷ rest.out;
        run = rw (at, rest.run) refl;
        size = ap suc rest.size;
        rows_at = rows_at row at rest;
      }
    where
      rows_at :
          (row : A)
          → get_elem? rows i ≡ some row
          → (rest : Gathered rows perm) → (k j : ℕ) → get_elem? (i ∷ perm) k ≡ some j
          → get_elem? (row ∷ rest.out) k ≡ get_elem? rows j
      rows_at row at rest zero j h = sym at ∙ ap (get_elem? rows) (some-inj h)
      rows_at row at rest (suc k) j h = rest.rows_at k j h

  pub record Placed (ps : List ℕ) (rows result : List A) : Type 0 where
    pub out : List A
    pub run : place ps rows result ≡ some out
    pub size : length out ≡ length result
    pub row_at :
        (k p : ℕ) (row : A)
        → get_elem? ps k ≡ some p
        → get_elem? rows k ≡ some row
        → get_elem? out (p - 1) ≡ some row
    pub kept :
        (j : ℕ)
        → ((k p : ℕ) → get_elem? ps k ≡ some p → p - 1 ≢ j)
        → get_elem? out j ≡ get_elem? result j

  pub place_lem :
      (ps : List ℕ) (rows result : List A)
      → length rows ≡ length ps
      → ((k p : ℕ) → get_elem? ps k ≡ some p → (0 < p) × (p - 1 < length result))
      → Distinct ps
      → Placed ps rows result
  unfolding place
  place_lem [] rows result same inside once = record {
    out = result;
    run = refl;
    size = refl;
    row_at = λ k p row h. absurd (none-some h);
    kept = λ j h. refl;
  }
  place_lem (p ∷ ps) [] result same inside once = absurd (omega (arith, same))
  place_lem (p ∷ ps) (row ∷ rows) result same inside once =
      let (positive, fits) = inside 0 p refl in
      let rest =
        place_lem ps rows (set result (p - 1) row) (omega (arith, same))
          (λ k q h.
            let (a, b) = inside (suc k) q h in (a, omega (arith, b, length-set result (p - 1) row)))
          (λ k k' y h h'. omega (arith, once (suc k) (suc k') y h h')) in
      record {
        out = rest.out;
        run = rw (lt→ltb 0 p positive, lt→ltb (p - 1) (length result) fits) rest.run;
        size = rest.size ∙ length-set result (p - 1) row;
        row_at = row_at rest;
        kept = λ j h.
            rest.kept j (λ k q at. h (suc k) q at)
            ∙ get_elem?-set_ne result (p - 1) j row (h 0 p refl);
      }
    where
      positive : 0 < p
      positive = (inside 0 p refl).0

      elsewhere : (k q : ℕ) → get_elem? ps k ≡ some q → q - 1 ≢ p - 1
      elsewhere k q h same_place =
          let q_positive = (inside (suc k) q h).0 in
          let equal : q ≡ p = omega (arith, same_place, q_positive, positive) in
          absurd (omega (arith, once (suc k) 0 p (h ∙ ap some equal) refl))

      row_at :
          (rest : Placed ps rows (set result (p - 1) row)) (k q : ℕ) (r : A)
          → get_elem? (p ∷ ps) k ≡ some q
          → get_elem? (row ∷ rows) k ≡ some r
          → get_elem? rest.out (q - 1) ≡ some r
      row_at rest zero q r h h' =
          ap (λ (n : ℕ). get_elem? rest.out (n - 1)) (sym (some-inj h))
          ∙ rest.kept (p - 1) elsewhere
          ∙ get_elem?-set_self result (p - 1) row (inside 0 p refl).1
          ∙ h'
      row_at rest (suc k) q r h h' = rest.row_at k q r h h'
