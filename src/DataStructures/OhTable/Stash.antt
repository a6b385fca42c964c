-- ===== src/DataStructures/OhTable/Stash.antt =====
-- Placing the stash marks one entry for each of its positions.
use gigadoram_rs.Base.{
  some-inj, none-some, ℕ, zero, suc, ◌+◌, ◌-◌, ◌<◌, ◌≡◌, ◌≢◌, refl, sym, ap, subst, ◌∙◌, arith,
  List, [], ◌∷◌, none, some, Bool, true, false, ltb, ltb→lt, length, get_elem?, get_elem?-of_lt,
  set, length-set, get_elem?-set_ne, count_true, count_true-set, ensure, >>=-eq-some,
  ensure-eq-some,
}
use gigadoram_rs.Primitives.Permutation.{LocalPermutation, evaluate_at}
use gigadoram_rs.Primitives.Permutation.Indices.{source, target, target-source}
use gigadoram_rs.Primitives.Permutation.Inverse.{IsValid, last}
use gigadoram_rs.Primitives.Permutation.Evaluate.{evaluate_at_lem}
use gigadoram_rs.Primitives.Value.{Record}
use gigadoram_rs.DataStructures.OhTable.Table.{Stash, receiver_indices, place_indices}
use gigadoram_rs.DataStructures.OhTable.Distinct.{Distinct}

-- A call that succeeds was in range, and keeps the choices.
pub evaluate_at-eq-some :
    (p : LocalPermutation) (i : ℕ) {index : ℕ} {q : LocalPermutation}
    → IsValid p
    → evaluate_at p i ≡ some (index, q)
    → IsValid q × (index ≡ source p.fy (last p) i) × (q.fy ≡ p.fy) × (q.n ≡ p.n)
unfolding evaluate_at
evaluate_at-eq-some p i {index = index} {q = q} v h =
    let (ok, inside, rest) = >>=-eq-some (ensure (ltb i p.n)) _ h in
    let (q', e, valid, lt, fy, n) =
      evaluate_at_lem p v i (ltb→lt i p.n (ensure-eq-some _ inside)) in
    let same : some (source p.fy (last p) i, q') ≡ some (index, q) = sym e ∙ h in
    let pair = some-pair same in
    (
      subst IsValid (ap (λ x. x.1) pair) valid,
      sym (ap (λ x. x.0) pair),
      ap (λ x. x.1.fy) (sym pair) ∙ fy,
      ap (λ x. x.1.n) (sym pair) ∙ n,
    )
  where
    some-pair : {a b : ℕ × LocalPermutation} → some a ≡ some b → a ≡ b
    some-pair {a = a} k = ap (λ o. elim o [ some z ↦ z | none ↦ a ]) k

-- Every receiver index comes from a stash index.
pub receiver_indices_lem :
    (is : List ℕ) (p : LocalPermutation) {out : List ℕ} {q : LocalPermutation}
    → IsValid p
    → receiver_indices is p ≡ some (out, q)
    → IsValid q
      × (q.n ≡ p.n)
      × (q.fy ≡ p.fy)
      × (length out ≡ length is)
      × ((k y : ℕ)
          → get_elem? out k ≡ some y
          → (i : ℕ) × (get_elem? is k ≡ some i) × (y ≡ source p.fy (last p) i))
unfolding receiver_indices
receiver_indices_lem [] p {out = out} {q = q} v h =
    let pair = some-inj h in
    let ended : [] ≡ out = ap (λ x. x.0) pair in
    let same : p ≡ q = ap (λ x. x.1) pair in
    (
      subst IsValid same v,
      ap (λ r. r.n) (sym same),
      ap (λ r. r.fy) (sym same),
      ap length (sym ended),
      λ k y g. absurd (none-some (subst (λ xs. get_elem? xs k ≡ some y) (sym ended) g)),
    )
receiver_indices_lem (i ∷ is) p {out = out} {q = q} v h =
    let ((index, next), first, more) = >>=-eq-some (evaluate_at p i) _ h in
    let ((rest, final), others, done) = >>=-eq-some (receiver_indices is next) _ more in
    let pair = some-inj done in
    let (v', at, fy, n) = evaluate_at-eq-some p i v first in
    let (v'', n', fy', l, from) = receiver_indices_lem is next v' others in
    let ended : index ∷ rest ≡ out = ap (λ x. x.0) pair in
    let same : final ≡ q = ap (λ x. x.1) pair in
    (
      subst IsValid same v'',
      ap (λ r. r.n) (sym same) ∙ n' ∙ n,
      ap (λ r. r.fy) (sym same) ∙ fy' ∙ fy,
      ap length (sym ended) ∙ ap suc l,
      λ k y g.
          go index rest next at fy n from k y (subst (λ xs. get_elem? xs k ≡ some y) (sym ended) g),
    )
  where
    go :
        (index : ℕ) (rest : List ℕ) (next : LocalPermutation)
        → index ≡ source p.fy (last p) i
        → next.fy ≡ p.fy
        → next.n ≡ p.n
        → ((k y : ℕ)
            → get_elem? rest k ≡ some y
            → (j : ℕ) × (get_elem? is k ≡ some j) × (y ≡ source next.fy (last next) j))
        → (k y : ℕ) → get_elem? (index ∷ rest) k ≡ some y
        → (j : ℕ) × (get_elem? (i ∷ is) k ≡ some j) × (y ≡ source p.fy (last p) j)
    go index rest next at fy n from zero y g = (i, refl, sym (some-inj g) ∙ at)
    go index rest next at fy n from (suc k) y g =
        let (j, found, made) = from k y g in
        (
          j,
          found,
          made ∙ ap (λ f. source f (last next) j) fy ∙ ap (λ (m : ℕ). source p.fy (m - 1) j) n,
        )

pub receiver_indices-Distinct :
    (is : List ℕ) (p : LocalPermutation) {out : List ℕ} {q : LocalPermutation}
    → IsValid p
    → receiver_indices is p ≡ some (out, q)
    → Distinct is
    → Distinct out
receiver_indices-Distinct is p v h apart k k' y g g' =
    let (_, _, _, _, from) = receiver_indices_lem is p v h in
    let (i, at, made) = from k y g in
    let (i', at', made') = from k' y g' in
    let sources : source p.fy (last p) i ≡ source p.fy (last p) i' = sym made ∙ made' in
    let same : i ≡ i' =
      sym (target-source p.fy (last p) i)
      ∙ ap (target p.fy (last p)) sources
      ∙ target-source p.fy (last p) i' in
    apart k k' i at (at' ∙ ap some (sym same))

-- None of the entries is marked yet.
abbrev pub Unmarked : List Bool → List ℕ → Type 0
Unmarked touched indices =
    (k y : ℕ) → get_elem? indices k ≡ some y → get_elem? touched y ≢ some true

pub place_indices_lem :
    {V : Type 0} (xs : List ℕ) (ys : List (Record V)) (stash_pos : ℕ) (indices : List ℕ)
    (s : Stash V) {out : Stash V}
    → place_indices xs ys stash_pos indices s ≡ some out
    → Distinct indices
    → Unmarked s.touched indices
    → (length out.touched ≡ length s.touched)
      × (length out.stash_xs ≡ length s.stash_xs)
      × (length out.stash_ys ≡ length s.stash_ys)
      × (count_true out.touched ≡ count_true s.touched + length indices)
unfolding place_indices
place_indices_lem {V = W} xs ys pos [] s {out = out} h apart unmarked =
    subst
      (λ (o : Stash W).
        (length o.touched ≡ length s.touched)
        × (length o.stash_xs ≡ length s.stash_xs)
        × (length o.stash_ys ≡ length s.stash_ys)
        × (count_true o.touched ≡ count_true s.touched + 0))
      (some-inj h) (refl, refl, refl, omega arith)
place_indices_lem xs ys pos (i ∷ is) s h apart unmarked =
    let (_, inside, h1) = >>=-eq-some (ensure (ltb i (length s.touched))) _ h in
    let (_, _, h2) = >>=-eq-some (ensure (ltb pos (length s.stash_xs))) _ h1 in
    let (_, _, h3) = >>=-eq-some (ensure (ltb pos (length s.stash_ys))) _ h2 in
    let (x, _, h4) = >>=-eq-some (get_elem? xs i) _ h3 in
    let (y, _, h5) = >>=-eq-some (get_elem? ys i) _ h4 in
    let clear = clear_entry (ltb→lt i (length s.touched) (ensure-eq-some _ inside)) in
    let (l, lx, ly, count) =
      place_indices_lem xs ys (suc pos) is
        (record {
          touched = set s.touched i true;
          stash_xs = set s.stash_xs pos x;
          stash_ys = set s.stash_ys pos y;
        })
        h5 later others in
    (
      l ∙ length-set s.touched i true,
      lx ∙ length-set s.stash_xs pos x,
      ly ∙ length-set s.stash_ys pos y,
      omega (arith, count, count_true-set s.touched i clear),
    )
  where
    clear_entry : i < length s.touched → get_elem? s.touched i ≡ some false
    clear_entry lt = let (b, at) = get_elem?-of_lt s.touched i lt in by_value b at
      where
        by_value : (b : Bool) → get_elem? s.touched i ≡ some b → get_elem? s.touched i ≡ some false
        by_value true at = absurd (unmarked zero i refl at)
        by_value false at = at

    later : Distinct is
    later k k' y g g' = suc_same (apart (suc k) (suc k') y g g')
      where
        suc_same : {a b : ℕ} → suc a ≡ suc b → a ≡ b
        suc_same e = omega (arith, e)

    others : Unmarked (set s.touched i true) is
    others k y g marked =
        unmarked (suc k) y g (sym (get_elem?-set_ne s.touched i y true not_first) ∙ marked)
      where
        not_first : i ≢ y
        not_first e = absurd (zero_suc (apart zero (suc k) y (ap some e) g))
          where
            zero_suc : zero ≡ suc k → ⊥
            zero_suc e = absurd (omega (arith, e))
