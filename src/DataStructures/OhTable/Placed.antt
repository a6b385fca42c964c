-- ===== src/DataStructures/OhTable/Placed.antt =====
-- What placing the stash marks and copies.
use gigadoram_rs.Base.{
  some-inj, none-some, ℕ, zero, suc, ◌+◌, ◌<◌, ◌≡◌, ◌≢◌, refl, ap, subst, ◌∙◌, arith, List, [], ◌∷◌,
  some, true, ltb, ltb→lt, length, get_elem?, set, get_elem?-set_ne, get_elem?-set_self, ensure,
  >>=-eq-some, ensure-eq-some, ℕ_discrete,
}
use gigadoram_rs.Primitives.Value.{Record}
use gigadoram_rs.DataStructures.OhTable.Table.{Stash, place_indices}

module _ {V : Type 0} (xs : List ℕ) (ys : List (Record V)) where
  -- The stash position `pos + k` holds a copy of the entry at the `k`th index, and just these
  -- entries are marked.
  pub record Copied (pos : ℕ) (indices : List ℕ) (s out : Stash V) : Type 0 where
    pub kept_xs : (m : ℕ) → m < pos → get_elem? out.stash_xs m ≡ get_elem? s.stash_xs m
    pub kept_ys : (m : ℕ) → m < pos → get_elem? out.stash_ys m ≡ get_elem? s.stash_ys m
    pub unmarked :
        (y : ℕ)
        → ((k : ℕ) → get_elem? indices k ≢ some y)
        → get_elem? out.touched y ≡ get_elem? s.touched y
    pub still : (y : ℕ) → get_elem? s.touched y ≡ some true → get_elem? out.touched y ≡ some true
    pub marked : (k y : ℕ) → get_elem? indices k ≡ some y → get_elem? out.touched y ≡ some true
    pub copied :
        (k y : ℕ)
        → get_elem? indices k ≡ some y
        → (x : ℕ) × (r : Record V) × (get_elem? xs y ≡ some x)
          × (get_elem? ys y ≡ some r)
          × (get_elem? out.stash_xs (pos + k) ≡ some x)
          × (get_elem? out.stash_ys (pos + k) ≡ some r)

  module _ (pos i x : ℕ) (r : Record V) (is : List ℕ) (s out : Stash V)
      (inside : i < length s.touched) (in_xs : pos < length s.stash_xs)
      (in_ys : pos < length s.stash_ys) (at_x : get_elem? xs i ≡ some x)
      (at_y : get_elem? ys i ≡ some r)
      (rest : Copied
        (suc pos)
        is
        (record {
          touched = set s.touched i true;
          stash_xs = set s.stash_xs pos x;
          stash_ys = set s.stash_ys pos r;
        })
        out) where
    still_marked :
        (y : ℕ) → get_elem? s.touched y ≡ some true → get_elem? (set s.touched i true) y ≡ some true
    still_marked y h = elim (ℕ_discrete i y) [
      | yes same ↦
          subst (λ (n : ℕ). get_elem? (set s.touched i true) n ≡ some true) same
            (get_elem?-set_self s.touched i true inside)
      | no other ↦ get_elem?-set_ne s.touched i y true other ∙ h
    ]

    own_mark : (k y : ℕ) → get_elem? (i ∷ is) k ≡ some y → get_elem? out.touched y ≡ some true
    own_mark zero y h = rest.still y (
        subst (λ (n : ℕ). get_elem? (set s.touched i true) n ≡ some true) (some-inj h)
          (get_elem?-set_self s.touched i true inside))
    own_mark (suc k) y h = rest.marked k y h

    own_copy :
        (k y : ℕ)
        → get_elem? (i ∷ is) k ≡ some y
        → (x : ℕ) × (r : Record V) × (get_elem? xs y ≡ some x)
          × (get_elem? ys y ≡ some r)
          × (get_elem? out.stash_xs (pos + k) ≡ some x)
          × (get_elem? out.stash_ys (pos + k) ≡ some r)
    own_copy zero y h =
        let same : i ≡ y = some-inj h in
        (
          x,
          r,
          subst (λ (n : ℕ). get_elem? xs n ≡ some x) same at_x,
          subst (λ (n : ℕ). get_elem? ys n ≡ some r) same at_y,
          ap (get_elem? out.stash_xs) {x = pos + 0} {y = pos} (omega arith)
              ∙ rest.kept_xs pos (omega arith)
              ∙ get_elem?-set_self s.stash_xs pos x in_xs,
          ap (get_elem? out.stash_ys) {x = pos + 0} {y = pos} (omega arith)
              ∙ rest.kept_ys pos (omega arith)
              ∙ get_elem?-set_self s.stash_ys pos r in_ys,
        )
    own_copy (suc k) y h =
        let (x', r', a, b, c, e) = rest.copied k y h in
        (
          x',
          r',
          a,
          b,
          ap (get_elem? out.stash_xs) {x = pos + suc k} {y = suc pos + k} (omega arith) ∙ c,
          ap (get_elem? out.stash_ys) {x = pos + suc k} {y = suc pos + k} (omega arith) ∙ e,
        )

    cons-Copied : Copied pos (i ∷ is) s out
    cons-Copied = record {
      kept_xs = λ m lt.
          rest.kept_xs m (omega (arith, lt))
          ∙ get_elem?-set_ne s.stash_xs pos m x (λ same. absurd (omega (arith, same, lt)));
      kept_ys = λ m lt.
          rest.kept_ys m (omega (arith, lt))
          ∙ get_elem?-set_ne s.stash_ys pos m r (λ same. absurd (omega (arith, same, lt)));
      unmarked = λ y absent.
          rest.unmarked y (λ k. absent (suc k))
          ∙ get_elem?-set_ne s.touched i y true (λ same. absent zero (ap some same));
      still = λ y h. rest.still y (still_marked y h);
      marked = own_mark;
      copied = own_copy;
    }

  pub place_indices-Copied :
      (pos : ℕ) (indices : List ℕ) (s out : Stash V)
      → place_indices xs ys pos indices s ≡ some out
      → Copied pos indices s out
  unfolding place_indices
  place_indices-Copied pos [] s out h =
      let same : s ≡ out = some-inj h in
      subst (λ (o : Stash V). Copied pos [] s o) same
        (record {
          kept_xs = λ m lt. refl;
          kept_ys = λ m lt. refl;
          unmarked = λ y absent. refl;
          still = λ y marked. marked;
          marked = λ k y at. absurd (none-some at);
          copied = λ k y at. absurd (none-some at);
        })
  place_indices-Copied pos (i ∷ is) s out h =
      let (_, inside, h1) = >>=-eq-some (ensure (ltb i (length s.touched))) _ h in
      let (_, in_xs, h2) = >>=-eq-some (ensure (ltb pos (length s.stash_xs))) _ h1 in
      let (_, in_ys, h3) = >>=-eq-some (ensure (ltb pos (length s.stash_ys))) _ h2 in
      let (x, at_x, h4) = >>=-eq-some (get_elem? xs i) _ h3 in
      let (r, at_y, h5) = >>=-eq-some (get_elem? ys i) _ h4 in
      cons-Copied pos i x r is s out (ltb→lt _ _ (ensure-eq-some _ inside))
        (ltb→lt _ _ (ensure-eq-some _ in_xs)) (ltb→lt _ _ (ensure-eq-some _ in_ys)) at_x at_y
        (place_indices-Copied (suc pos) is
          (record {
            touched = set s.touched i true;
            stash_xs = set s.stash_xs pos x;
            stash_ys = set s.stash_ys pos r;
          })
          out h5)
