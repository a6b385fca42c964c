-- ===== src/Primitives/Utils/Zero.antt =====
-- `is_zero_many`: the folding stages find out whether every bit of the word is clear.
use gigadoram_rs.Base.{
  ℕ, ◌+◌, ◌-◌, ◌<◌, ◌∙◌, ◌≡◌, ap, fun_ext, arith, Bool, true, false, not, ◌&&◌, ◌↔◌, List, [], ◌∷◌,
  dec_lt,
}
use gigadoram_rs.Primitives.Rep3.{
  PartyId, Word, ◌⊗◌, complement, shift_right, bit_at, Shared, Opens, Backend,
}
use gigadoram_rs.Primitives.Utils.{
  RingType, u8, u16, u32, u64, u128, fold_shifts, fold_zero, is_zero_many,
}
use gigadoram_rs.Primitives.Utils.Laws.{correlated, fold_zero_stage_many-Opens}

-- The word that the stages leave.
abbrev fold_word : List ℕ → Word → Word
fold_word [] v = v
fold_word (k ∷ ks) v = fold_word ks (v ⊗ shift_right v k)

-- All bits below `n` are set.
abbrev pub AllSet : ℕ → Word → Type 0
AllSet n v = (i : ℕ) → i < n → v i ≡ true

-- The width of a ring type.
abbrev pub width : RingType → ℕ
width u8 = 8
width u16 = 16
width u32 = 32
width u64 = 64
width u128 = 128

and_true : (a b : Bool) → (a && b) ≡ true → (a ≡ true) × (b ≡ true)
and_true a b h = ground arith

not-true : (a : Bool) → not a ≡ true → a ≡ false
not-true a h = ground arith

-- A stage at half the width carries the conjunction of all bits to the lower half.
AllSet-stage : (k n : ℕ) (v : Word) → n ≡ k + k → AllSet n v ↔ AllSet k (v ⊗ shift_right v k)
AllSet-stage k n v e = (
  λ h i lt. ground (arith, h i (omega arith), h (i + k) (omega arith)),
  λ h i lt. elim (dec_lt i k) [
    | yes low ↦ (and_true (v i) (v (i + k)) (h i low)).0
    | no high ↦
        ap v (omega arith) ∙ (and_true (v (i - k)) (v (i - k + k)) (h (i - k) (omega arith))).1
  ],
)

-- Shifts that halve the width down to one bit.
abbrev Halves : ℕ → List ℕ → Type 0
Halves n [] = n ≡ 1
Halves n (k ∷ ks) = (n ≡ k + k) × Halves k ks

AllSet-fold :
    (ks : List ℕ) (n : ℕ) (v : Word) → Halves n ks → AllSet n v ↔ (fold_word ks v 0 ≡ true)
AllSet-fold [] n v e = (λ h. h 0 (omega arith), λ h i lt. ap v (omega arith) ∙ h)
AllSet-fold (k ∷ ks) n v (e, rest) =
    let stage = AllSet-stage k n v e in
    let later = AllSet-fold ks k (v ⊗ shift_right v k) rest in
    (λ h. later.0 (stage.0 h), λ h. stage.1 (later.1 h))

fold_shifts-Halves : (r : RingType) → Halves (width r) (fold_shifts r)
unfolding fold_shifts
fold_shifts-Halves u8 = omega arith
fold_shifts-Halves u16 = omega arith
fold_shifts-Halves u32 = omega arith
fold_shifts-Halves u64 = omega arith
fold_shifts-Halves u128 = omega arith

module _ (net : Backend) (seed : ℕ → PartyId → Word) where
  fold_zero-Opens :
      (ks : List ℕ) (s : Shared) (v : Word)
      → Opens s v
      → Opens (fold_zero net ks s (λ k. correlated (seed k))) (fold_word ks v)
  unfolding fold_zero
  fold_zero-Opens [] s v h = h
  fold_zero-Opens (k ∷ ks) s v h =
      fold_zero-Opens ks _ _ (fold_zero_stage_many-Opens net k s v (seed k) h)

  bit_at-Opens :
      (s : Shared) (v : Word)
      → Opens s v
      → Opens (λ id. record { a = bit_at (s id).a 0; b = bit_at (s id).b 0 }) (bit_at v 0)
  bit_at-Opens s v h = record {
    consistent = record {
      replicated = λ id. ap (λ (w : Word). bit_at w 0) (h.consistent.replicated id);
    };
    value = fun_ext (λ i. ground (arith, ap (λ (w : Word). w 0) h.value));
  }

  -- At every ring type, the result is a consistent sharing of a bit, which is set exactly when
  -- every bit of the shared input below the type's width is clear.
  pub is_zero_many-Opens :
      (ring : RingType) (s : Shared) (v : Word)
      → Opens s v
      → (b : Word) × Opens (is_zero_many net ring s (λ k. correlated (seed k))) b
        × ((b 0 ≡ true) ↔ ((i : ℕ) → i < width ring → v i ≡ false))
  unfolding is_zero_many
  is_zero_many-Opens ring s v h =
      let whole = fold_zero-Opens (fold_shifts ring) _ _ (net.not_opens s v h) in
      let fold =
        AllSet-fold (fold_shifts ring) (width ring) (complement v) (fold_shifts-Halves ring) in
      (
        bit_at (fold_word (fold_shifts ring) (complement v)) 0,
        bit_at-Opens _ _ whole,
        (
          λ set i lt. not-true (v i) (fold.1 set i lt),
          λ clear. fold.0 (λ i lt. ap not (clear i lt)),
        ),
      )
