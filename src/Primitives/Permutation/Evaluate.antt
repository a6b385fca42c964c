-- ===== src/Primitives/Permutation/Evaluate.antt =====
-- `evaluate_at`: the index at which `shuffle` puts the value of an index.
use gigadoram_rs.Base.{
  ℕ, zero, suc, ◌+◌, ◌<◌, ◌≤◌, ◌≡◌, ◌≢◌, refl, ◌∙◌, ap, sym, inl, inr, List, [], ◌∷◌, some, arith,
  lt→ltb, length, get_elem?, range, length-range, map, length-map, Option-cases,
}
use gigadoram_rs.Primitives.Permutation.Indices.{source, target, target-source, source-lt}
use gigadoram_rs.Primitives.Permutation.Inverse.{IsValid, last, shuffle_lem, inverse_shuffle_lem}
use gigadoram_rs.Primitives.Permutation.{
  LocalPermutation, sample_from_rng, shuffle, inverse_shuffle, table, evaluate_at,
}

pub get_elem?-range : (lo n i : ℕ) → i < n → get_elem? (range lo n) i ≡ some (lo + i)
get_elem?-range lo zero i h = elim h [ ]
get_elem?-range lo (suc n) zero h = ap some (omega arith)
get_elem?-range lo (suc n) (suc i) h =
    get_elem?-range (suc lo) n i (omega arith) ∙ ap some (omega arith)

module _ (p : LocalPermutation) (v : IsValid p) where
  table_lem : (pi : List ℕ) × (table p ≡ some pi) × (inverse_shuffle p (range 0 p.n) ≡ some pi)
  unfolding table
  table_lem = elim (Option-cases p.pi) [
    | inl e ↦
        let (ys, made, l, g) = inverse_shuffle_lem p v (range 0 p.n) (length-range 0 p.n) in
        (ys, rw (e, table) made, made)
    | inr (pi, e) ↦ (pi, rw (e, table) refl, v.cached pi e)
  ]

  table-source :
      (pi : List ℕ) (i : ℕ)
      → inverse_shuffle p (range 0 p.n) ≡ some pi
      → i < p.n
      → get_elem? pi i ≡ some (source p.fy (last p) i)
  table-source pi i e h =
      let (ys, e', l, g) = inverse_shuffle_lem p v (range 0 p.n) (length-range 0 p.n) in
      let same : ys ≡ pi = cc in
      let inside =
        source-lt p.fy (last p) p.n i (λ k q w. v.fit k q (omega arith)) (omega arith) h in
      rw (← same)
        (g i ∙ get_elem?-range 0 p.n (source p.fy (last p) i) inside ∙ ap some (omega arith))

  cached-IsValid :
      (pi : List ℕ)
      → inverse_shuffle p (range 0 p.n) ≡ some pi
      → IsValid (record p { pi = some pi })
  unfolding inverse_shuffle
  cached-IsValid pi e = record { size = v.size; fit = v.fit; cached = λ qi h. cc }

  -- Inside the range a call gives an index inside the range, and fills the cache.
  pub evaluate_at_lem :
      (i : ℕ)
      → i < p.n
      → (q : LocalPermutation) × (evaluate_at p i ≡ some (source p.fy (last p) i, q))
        × IsValid q
        × (source p.fy (last p) i < p.n)
        × (q.fy ≡ p.fy)
        × (q.n ≡ p.n)
  unfolding evaluate_at
  evaluate_at_lem i h =
      let (pi, e, made) = table_lem in
      (
        record p { pi = some pi },
        rw (lt→ltb i p.n h, e, table-source pi i made h),
        cached-IsValid pi made,
        source-lt p.fy (last p) p.n i (λ k q w. v.fit k q (omega arith)) (omega arith) h,
        refl,
        refl,
      )

  -- Within the permutation's length `evaluate_at` returns an index within that length, and
  -- `shuffle` puts the value of index `i` there; the permutation that it leaves is valid again,
  -- and has the same choices.
  pub evaluate_at-shuffle :
      {A : Type 0} (i : ℕ) (xs ys : List A)
      → i < p.n
      → length xs ≡ p.n
      → shuffle p xs ≡ some ys
      → (index : ℕ) × (q : LocalPermutation) × (evaluate_at p i ≡ some (index, q))
        × (index < p.n)
        × (get_elem? ys index ≡ get_elem? xs i)
        × IsValid q
        × (q.fy ≡ p.fy)
  evaluate_at-shuffle i xs ys h same e =
      let (q, e', valid, inside, fy, n) = evaluate_at_lem i h in
      let (zs, made, l, g) = shuffle_lem p v xs same in
      let done : zs ≡ ys = cc in
      (
        source p.fy (last p) i,
        q,
        e',
        inside,
        rw (← done)
            (g (source p.fy (last p) i) ∙ ap (get_elem? xs) (target-source p.fy (last p) i)),
        valid,
        fy,
      )

  -- Different indices within the permutation's length are sent to different indices.
  pub evaluate_at-injective :
      (i j : ℕ) {x y : ℕ} {q r : LocalPermutation}
      → i < p.n
      → j < p.n
      → i ≢ j
      → evaluate_at p i ≡ some (x, q)
      → evaluate_at p j ≡ some (y, r)
      → x ≢ y
  evaluate_at-injective i j hi hj apart ei ej same =
      let (q', ei', _, _, _, _) = evaluate_at_lem i hi in
      let (r', ej', _, _, _, _) = evaluate_at_lem j hj in
      let sources : source p.fy (last p) i ≡ source p.fy (last p) j = cc in
      apart (
        sym (target-source p.fy (last p) i)
        ∙ ap (target p.fy (last p)) sources
        ∙ target-source p.fy (last p) j)

pub get_elem?-map {ℓ κ} :
    {A : Type ℓ} {B : Type κ} (f : A → B) (xs : List A) (i : ℕ) (a : A)
    → get_elem? xs i ≡ some a
    → get_elem? (map f xs) i ≡ some (f a)
get_elem?-map f [] i a h = cc
get_elem?-map f (x ∷ xs) zero a h = cc
get_elem?-map f (x ∷ xs) (suc i) a h = get_elem?-map f xs i a h

-- Whatever the generator draws within its bounds, `sample_from_rng` makes a valid permutation.
pub sample_from_rng-IsValid :
    (n : ℕ) (draw : ℕ → ℕ) → ((i : ℕ) → draw i ≤ i) → IsValid (sample_from_rng n draw)
unfolding sample_from_rng
sample_from_rng-IsValid zero draw bound = record {
  size = refl;
  fit = λ i q h. elim h [ ];
  cached = λ pi e. cc;
}
sample_from_rng-IsValid (suc n) draw bound = record {
  size = ap suc (sym (length-map (range 1 n) draw ∙ length-range 1 n));
  fit = choices;
  cached = λ pi e. cc;
}
  where
    choices :
        (i : ℕ)
        → 0 < i
        → i < suc n
        → (j : ℕ) × (get_elem? (0 ∷ map draw (range 1 n)) i ≡ some j) × (j ≤ i)
    choices zero q h = elim q [ ]
    choices (suc i) q h = (
      draw (1 + i),
      get_elem?-map draw (range 1 n) i (1 + i) (get_elem?-range 1 n i (omega arith)),
      omega (arith, bound (1 + i)),
    )
