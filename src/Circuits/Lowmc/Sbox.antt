-- ===== src/Circuits/Lowmc/Sbox.antt =====
-- The substitution layer of the packed form, bit by bit.
use gigadoram_rs.Base.{
  ℕ, zero, suc, ◌+◌, ◌-◌, ◌*◌, ◌/◌, ◌%◌, ◌<◌, ◌≡◌, refl, sym, ap, ◌∙◌, arith, Bool, true, false,
  ltb, lt→ltb, ltb→lt, Bool-cases, inl, inr, ◌&&◌, ◌||◌, not, ◌==◌, subst,
}
use gigadoram_rs.Primitives.Rep3.{Word, differ, ◌⊕◌, ◌⊗◌}
use gigadoram_rs.Circuits.Lowmc.{choose, sbox_lhs, sbox_rhs, apply_sbox_ands}
use gigadoram_rs.Circuits.Lowmc.Transpose.{all_below, all_below_lem}
use gigadoram_rs.Circuits.Lowmc.PackedU64.{firsts, seconds, thirds, others, turn, mpc_sbox}

-- The substitution of the bit-sliced form, on one lane.
abbrev pub sboxed : (ℕ → Word) → ℕ → Word
sboxed state = apply_sbox_ands state (λ k. sbox_lhs state k ⊗ sbox_rhs state k)

abbrev same : Bool → Bool → Bool
same a b = not (differ a b)

same_lem : (a b : Bool) → same a b ≡ true → a ≡ b
same_lem true true h = refl
same_lem true false h = cc
same_lem false true h = cc
same_lem false false h = refl

firsts_lem : (k : ℕ) → k < 126 → firsts k ≡ (k % 3 == 0)
unfolding all_below
firsts_lem k lt = same_lem _ _ (all_below_lem 126 (λ k. same (firsts k) (k % 3 == 0)) refl k lt)

seconds_lem : (k : ℕ) → k < 126 → seconds k ≡ (k % 3 == 1)
unfolding all_below
seconds_lem k lt = same_lem _ _ (all_below_lem 126 (λ k. same (seconds k) (k % 3 == 1)) refl k lt)

thirds_lem : (k : ℕ) → k < 126 → thirds k ≡ (k % 3 == 2)
unfolding all_below
thirds_lem k lt = same_lem _ _ (all_below_lem 126 (λ k. same (thirds k) (k % 3 == 2)) refl k lt)

others_lem : (k : ℕ) → k < 126 → others k ≡ not (k % 3 == 0)
unfolding all_below
others_lem k lt =
    same_lem _ _ (all_below_lem 126 (λ k. same (others k) (not (k % 3 == 0))) refl k lt)

masked : (x : Bool) → (x && true) ≡ x
masked true = refl
masked false = refl

unmasked : (x : Bool) → (x && false) ≡ false
unmasked true = refl
unmasked false = refl

or-false : (x : Bool) → (x || false) ≡ x
or-false true = refl
or-false false = refl

-- The bit at `3 * j` of a turned block, and the next two.
turn_first : (x : Word) (j : ℕ) → j < 42 → turn x (3 * j) ≡ x (3 * j + 2)
turn_first x j lt =
    let m : 3 * j % 3 ≡ 0 = omega arith in
    rw
      (
        others_lem (3 * j) (omega (arith, lt)),
        firsts_lem (3 * j) (omega (arith, lt)),
        m,
        lt→ltb (3 * j + 2) 128 (omega (arith, lt)),
      )
      (simp (masked, unmasked))

turn_second : (x : Word) (j : ℕ) → j < 42 → turn x (3 * j + 1) ≡ x (3 * j)
turn_second x j lt =
    let m : (3 * j + 1) % 3 ≡ 1 = omega arith in
    let l : ltb (3 * j + 1) 1 ≡ false = ground arith in
    let e : 3 * j + 1 - 1 ≡ 3 * j = omega arith in
    rw
      (
        others_lem (3 * j + 1) (omega (arith, lt)),
        firsts_lem (3 * j + 1) (omega (arith, lt)),
        m,
        l,
        e,
      )
      (simp (masked, unmasked, or-false))

turn_third : (x : Word) (j : ℕ) → j < 42 → turn x (3 * j + 2) ≡ x (3 * j + 1)
turn_third x j lt =
    let m : (3 * j + 2) % 3 ≡ 2 = omega arith in
    let l : ltb (3 * j + 2) 1 ≡ false = ground arith in
    let e : 3 * j + 2 - 1 ≡ 3 * j + 1 = omega arith in
    rw
      (
        others_lem (3 * j + 2) (omega (arith, lt)),
        firsts_lem (3 * j + 2) (omega (arith, lt)),
        m,
        l,
        e,
      )
      (simp (masked, unmasked, or-false))

apply_at :
    (input ands : ℕ → Word) (k i r : ℕ)
    → k < 126
    → k / 3 ≡ i
    → k % 3 ≡ r
    → apply_sbox_ands input ands k
      ≡ choose r
          (ands (3 * i) ⊕ input (3 * i))
          ((ands (3 * i + 1) ⊕ input (3 * i)) ⊕ input (3 * i + 1))
          (((ands (3 * i + 2) ⊕ input (3 * i)) ⊕ input (3 * i + 1)) ⊕ input (3 * i + 2))
unfolding apply_sbox_ands
apply_at input ands k i r lt hi hr = rw (lt→ltb k 126 lt, hi, hr) refl

-- What is left of the three masked values and the rest.
abbrev picked : Bool → Bool → Bool → Bool → Bool → Bool → Bool → Bool → Bool
picked x y z w f g h m = (((x && (f && m)) || (y && (g && m))) || (z && (h && m))) || (w && not m)

picked_first : (x y z w : Bool) → picked x y z w true false false true ≡ x
picked_first x y z w = simp (masked, unmasked, or-false)

picked_second : (x y z w : Bool) → picked x y z w false true false true ≡ y
picked_second x y z w = simp (masked, unmasked, or-false)

picked_third : (x y z w : Bool) → picked x y z w false false true true ≡ z
picked_third x y z w = simp (masked, unmasked, or-false)

picked_rest : (x y z w f g h : Bool) → picked x y z w f g h false ≡ w
picked_rest x y z w true true true = simp (masked, unmasked, or-false)
picked_rest x y z w true true false = simp (masked, unmasked, or-false)
picked_rest x y z w true false true = simp (masked, unmasked, or-false)
picked_rest x y z w true false false = simp (masked, unmasked, or-false)
picked_rest x y z w false true true = simp (masked, unmasked, or-false)
picked_rest x y z w false true false = simp (masked, unmasked, or-false)
picked_rest x y z w false false true = simp (masked, unmasked, or-false)
picked_rest x y z w false false false = simp (masked, unmasked, or-false)

-- The block of values that `mpc_sbox` selects from, with the masks written out.
sbox_bit :
    (s : Word) (k r : ℕ) (cab bca : Bool)
    → k < 126
    → k % 3 ≡ r
    → turn s k ≡ cab
    → turn (turn s) k ≡ bca
    → mpc_sbox s k
      ≡ picked
          (differ (s k) (bca && cab))
          (differ (differ (s k) cab) (bca && cab))
          (differ (differ (differ (s k) bca) cab) (bca && cab))
          (s k)
          (r == 0)
          (r == 1)
          (r == 2)
          true
unfolding mpc_sbox
sbox_bit s k r cab bca lt hr hc hb =
    rw (hc, hb, firsts_lem k lt, seconds_lem k lt, thirds_lem k lt, lt→ltb k 126 lt, hr) refl

swap_first : (a b c : Bool) → differ a (b && c) ≡ differ (b && c) a
swap_first true true true = refl
swap_first true true false = refl
swap_first true false c = refl
swap_first false true true = refl
swap_first false true false = refl
swap_first false false c = refl

swap_second : (a b c : Bool) → differ (differ b a) (c && a) ≡ differ (differ (c && a) a) b
swap_second true true true = refl
swap_second true true false = refl
swap_second true false true = refl
swap_second true false false = refl
swap_second false true true = refl
swap_second false true false = refl
swap_second false false true = refl
swap_second false false false = refl

swap_third :
    (a b c : Bool)
    → differ (differ (differ c a) b) (a && b) ≡ differ (differ (differ (a && b) a) b) c
swap_third true true true = refl
swap_third true true false = refl
swap_third true false true = refl
swap_third true false false = refl
swap_third false true true = refl
swap_third false true false = refl
swap_third false false true = refl
swap_third false false false = refl

module _ (wires : ℕ → Word) (j : ℕ) where
  abbrev a : Word
  a = wires (3 * j)

  abbrev b : Word
  b = wires (3 * j + 1)

  abbrev c : Word
  c = wires (3 * j + 2)

  e0 : 3 * j / 3 ≡ j
  e0 = omega arith

  e1 : (3 * j + 1) / 3 ≡ j
  e1 = omega arith

  e2 : (3 * j + 2) / 3 ≡ j
  e2 = omega arith

  m0 : 3 * j % 3 ≡ 0
  m0 = omega arith

  m1 : (3 * j + 1) % 3 ≡ 1
  m1 = omega arith

  m2 : (3 * j + 2) % 3 ≡ 2
  m2 = omega arith

  first_ands : sbox_lhs wires (3 * j) ⊗ sbox_rhs wires (3 * j) ≡ b ⊗ c
  first_ands = rw (e0, m0) refl

  second_ands : sbox_lhs wires (3 * j + 1) ⊗ sbox_rhs wires (3 * j + 1) ≡ c ⊗ a
  second_ands = rw (e1, m1) refl

  third_ands : sbox_lhs wires (3 * j + 2) ⊗ sbox_rhs wires (3 * j + 2) ≡ a ⊗ b
  third_ands = rw (e2, m2) refl

  module _ (lane : ℕ) (lt : j < 42) where
    abbrev s : Word
    s bit = wires bit lane

    sbox_first : mpc_sbox s (3 * j) ≡ sboxed wires (3 * j) lane
    sbox_first =
        sbox_bit s (3 * j) 0 (s (3 * j + 2)) (s (3 * j + 1)) (omega (arith, lt)) m0
          (turn_first s j lt) (turn_first (turn s) j lt ∙ turn_third s j lt)
        ∙ picked_first _ _ _ _
        ∙ swap_first (a lane) (b lane) (c lane)
        ∙ sym (
            ap (λ w. w lane)
              (apply_at wires _ (3 * j) j 0 (omega (arith, lt)) e0 m0 ∙ ap (λ w. w ⊕ a) first_ands))

    sbox_second : mpc_sbox s (3 * j + 1) ≡ sboxed wires (3 * j + 1) lane
    sbox_second =
        sbox_bit s (3 * j + 1) 1 (s (3 * j)) (s (3 * j + 2)) (omega (arith, lt)) m1
          (turn_second s j lt) (turn_second (turn s) j lt ∙ turn_first s j lt)
        ∙ picked_second _ _ _ _
        ∙ swap_second (a lane) (b lane) (c lane)
        ∙ sym (
            ap (λ w. w lane)
              (apply_at wires _ (3 * j + 1) j 1 (omega (arith, lt)) e1 m1
                ∙ ap (λ w. (w ⊕ a) ⊕ b) second_ands))

    sbox_third : mpc_sbox s (3 * j + 2) ≡ sboxed wires (3 * j + 2) lane
    sbox_third =
        sbox_bit s (3 * j + 2) 2 (s (3 * j + 1)) (s (3 * j)) (omega (arith, lt)) m2
          (turn_third s j lt) (turn_third (turn s) j lt ∙ turn_second s j lt)
        ∙ picked_third _ _ _ _
        ∙ swap_third (a lane) (b lane) (c lane)
        ∙ sym (
            ap (λ w. w lane)
              (apply_at wires _ (3 * j + 2) j 2 (omega (arith, lt)) e2 m2
                ∙ ap (λ w. ((w ⊕ a) ⊕ b) ⊕ c) third_ands))

above :
    (wires : ℕ → Word) (k lane : ℕ)
    → ltb k 126 ≡ false
    → mpc_sbox (λ bit. wires bit lane) k ≡ sboxed wires k lane
unfolding mpc_sbox apply_sbox_ands
above wires k lane high =
    rw high (picked_rest _ _ _ (wires k lane) (firsts k) (seconds k) (thirds k))

-- The substitution of a packed block, by rotations and masks, is that of the bit-sliced form, which
-- takes the bits three by three, at every bit of every lane.
pub mpc_sbox_lem :
    (wires : ℕ → Word) (lane bit : ℕ) → mpc_sbox (λ i. wires i lane) bit ≡ sboxed wires bit lane
mpc_sbox_lem wires lane bit = elim (Bool-cases (ltb bit 126)) [
  | inr high ↦ above wires bit lane high
  | inl low ↦ by_rest (bit % 3) refl (ltb→lt bit 126 low)
]
  where
    by_rest :
        (r : ℕ) → bit % 3 ≡ r → bit < 126 → mpc_sbox (λ i. wires i lane) bit ≡ sboxed wires bit lane
    by_rest zero e lt =
        subst (λ (k : ℕ). mpc_sbox (λ i. wires i lane) k ≡ sboxed wires k lane) {x = 3 * (bit / 3)}
          (omega (arith, e)) (sbox_first wires (bit / 3) lane (omega (arith, lt)))
    by_rest (suc zero) e lt =
        subst (λ (k : ℕ). mpc_sbox (λ i. wires i lane) k ≡ sboxed wires k lane)
          {x = 3 * (bit / 3) + 1} (omega (arith, e))
          (sbox_second wires (bit / 3) lane (omega (arith, lt)))
    by_rest (suc (suc zero)) e lt =
        subst (λ (k : ℕ). mpc_sbox (λ i. wires i lane) k ≡ sboxed wires k lane)
          {x = 3 * (bit / 3) + 2} (omega (arith, e))
          (sbox_third wires (bit / 3) lane (omega (arith, lt)))
    by_rest (suc (suc (suc r))) e lt = absurd (omega (arith, e))
