-- ===== src/Circuits/Lowmc/Transpose.antt =====
-- The transposition of eight bytes.
use gigadoram_rs.Base.{
  ℕ, zero, suc, ◌+◌, ◌*◌, ◌-◌, ◌/◌, ◌%◌, ◌<◌, ◌≡◌, refl, sym, ap, ap₂, ◌∙◌, arith, Bool, true,
  false, not, ◌&&◌, ltb, ltb→lt, lt→ltb, ◌≢◌, ◌==◌, ==_iff, if◌then◌else◌, Bool-cases, inl, inr,
}
use gigadoram_rs.Primitives.Rep3.{Word, differ}
use gigadoram_rs.Circuits.Lowmc.{shift_down}
use gigadoram_rs.Circuits.Lowmc.PackedU8Lanes.{
  delta_swap, mask_7, mask_14, mask_28, from_le_bytes, transpose,
}

-- Where a step takes the bit at `k` from.
abbrev moved : ℕ → Word → ℕ → ℕ
moved d m k = if m k then k + d else (if ltb k d then k else (if m (k - d) then k - d else k))

-- The mask holds no two bits that the distance separates, and moves no bit out of the word.
abbrev fine : ℕ → Word → ℕ → Bool
fine d m k = if m k then ltb (k + d) 64 && (if ltb k d then true else not (m (k - d))) else true

keep : (x : Bool) → differ x false ≡ x
keep true = refl
keep false = refl

cancel : (x y : Bool) → differ x (differ x y) ≡ y
cancel true true = refl
cancel true false = refl
cancel false true = refl
cancel false false = refl

cancel_low : (x y : Bool) → differ x (differ false (differ y x)) ≡ y
cancel_low true true = refl
cancel_low true false = refl
cancel_low false true = refl
cancel_low false false = refl

masked : (x : Bool) → (x && true) ≡ x
masked true = refl
masked false = refl

unmasked : (x : Bool) → (x && false) ≡ false
unmasked true = refl
unmasked false = refl

swapped :
    (v up down w mk low mk' inside : Bool)
    → (if mk then (inside && (if low then true else not mk')) else true) ≡ true
    → (low ≡ false → w ≡ differ down v)
    → differ v
        (differ (differ v (if inside then up else false) && mk) (if low then false else (w && mk')))
      ≡ (if mk then up else (if low then v else (if mk' then down else v)))
swapped v up down w true true mk' true h e = simp (masked, keep, cancel)
swapped v up down w true false false true h e = simp (masked, unmasked, keep, cancel)
swapped v up down w true false true true h e = cc
swapped v up down w true low mk' false h e = cc
swapped v up down w false true mk' inside h e = simp (unmasked, keep)
swapped v up down w false false true inside h e = rw (e refl) (simp (masked, unmasked, cancel_low))
swapped v up down w false false false inside h e = simp (unmasked, keep)

read_if :
    (v : Word) (a b c : ℕ) (mk low mk' : Bool)
    → (if mk then v a else (if low then v b else (if mk' then v c else v b)))
      ≡ v (if mk then a else (if low then b else (if mk' then c else b)))
read_if v a b c true low mk' = refl
read_if v a b c false true mk' = refl
read_if v a b c false false true = refl
read_if v a b c false false false = refl

back : (v : Word) (d k : ℕ) → k < 64 → ltb k d ≡ false → shift_down 64 v d (k - d) ≡ v k
back v d k lt high = let same : k - d + d ≡ k = ground arith in rw (same, lt→ltb k 64 lt) refl

delta_swap_lem :
    (d : ℕ) (m v : Word) (k : ℕ) → k < 64 → fine d m k ≡ true → delta_swap d m v k ≡ v (moved d m k)
unfolding delta_swap
delta_swap_lem d m v k lt h =
    swapped (v k) (v (k + d)) (v (k - d)) _ (m k) (ltb k d) (m (k - d)) (ltb (k + d) 64) h
      (λ high. ap (differ (v (k - d))) (back v d k lt high))
    ∙ read_if v (k + d) k (k - d) (m k) (ltb k d) (m (k - d))

unfoldable pub all_below : ℕ → (ℕ → Bool) → Bool
all_below zero p = true
all_below (suc n) p = let rest = all_below n p in p n && rest

abbrev source : ℕ → ℕ
source k = moved 7 mask_7 (moved 14 mask_14 (moved 28 mask_28 k))

-- At every bit the three steps may be taken, and lead to the transposed bit.
abbrev leads : ℕ → Bool
leads k =
    let k28 = moved 28 mask_28 k in
    let k14 = moved 14 mask_14 k28 in
    (fine 28 mask_28 k && (ltb k28 64 && fine 14 mask_14 k28))
    && (ltb k14 64 && (fine 7 mask_7 k14 && (source k == 8 * (k % 8) + k / 8)))

leads_everywhere : all_below 64 leads ≡ true
unfolding all_below
leads_everywhere = refl

and-left : (a b : Bool) → (a && b) ≡ true → a ≡ true
and-left true b h = refl
and-left false b h = cc

and-right : (a b : Bool) → (a && b) ≡ true → b ≡ true
and-right true b h = h
and-right false b h = cc

pub all_below_lem : (n : ℕ) (p : ℕ → Bool) → all_below n p ≡ true → (i : ℕ) → i < n → p i ≡ true
unfolding all_below
all_below_lem zero p h i lt = absurd (omega (arith, lt))
all_below_lem (suc n) p h i lt = elim (Bool-cases (i == n)) [
  | inl last ↦ ap p ((==_iff i n).0 last) ∙ and-left (p n) (all_below n p) h
  | inr before ↦
      all_below_lem n p (and-right (p n) (all_below n p) h) i
        (omega (arith, lt, differs i n before))
]
  where
    differs : (i n : ℕ) → (i == n) ≡ false → i ≢ n
    differs i n h = ground arith

transposed_bit :
    (bytes : ℕ → Word) (k : ℕ) → k < 64 → transpose bytes (k / 8) (k % 8) ≡ bytes (k % 8) (k / 8)
unfolding transpose
transposed_bit bytes k lt =
    let good = all_below_lem 64 leads leads_everywhere k lt in
    let k28 = moved 28 mask_28 k in
    let k14 = moved 14 mask_14 k28 in
    let first = and-left (fine 28 mask_28 k && (ltb k28 64 && fine 14 mask_14 k28)) _ good in
    let second = and-right (fine 28 mask_28 k && (ltb k28 64 && fine 14 mask_14 k28)) _ good in
    let inner = and-right (fine 28 mask_28 k) _ first in
    let last = and-right (ltb k14 64) _ second in
    let k_lem : 8 * (k / 8) + k % 8 ≡ k = omega arith in
    let v7 = delta_swap 7 mask_7 (from_le_bytes bytes) in
    let v14 = delta_swap 14 mask_14 v7 in
    ap (delta_swap 28 mask_28 v14) k_lem
    ∙ delta_swap_lem 28 mask_28 v14 k lt (and-left (fine 28 mask_28 k) _ first)
    ∙ delta_swap_lem 14 mask_14 v7 k28 (ltb→lt k28 64 (and-left (ltb k28 64) _ inner))
        (and-right (ltb k28 64) _ inner)
    ∙ delta_swap_lem 7 mask_7 (from_le_bytes bytes) k14
        (ltb→lt k14 64 (and-left (ltb k14 64) _ second)) (and-left (fine 7 mask_7 k14) _ last)
    ∙ ap (from_le_bytes bytes)
        ((==_iff (source k) (8 * (k % 8) + k / 8)).0 (and-right (fine 7 mask_7 k14) _ last))
    ∙ ap₂ (λ (i j : ℕ). bytes i j) {x = (8 * (k % 8) + k / 8) / 8} {y = k % 8} (omega (arith, lt))
        (omega (arith, lt))

-- The three exchanges of bits transpose eight bytes.
pub transpose_lem :
    (bytes : ℕ → Word) (byte bit : ℕ)
    → byte < 8
    → bit < 8
    → transpose bytes byte bit ≡ bytes bit byte
transpose_lem bytes byte bit lt lt' =
    let a : (8 * byte + bit) / 8 ≡ byte = omega (arith, lt') in
    let b : (8 * byte + bit) % 8 ≡ bit = omega (arith, lt') in
    sym (ap₂ (λ (i j : ℕ). transpose bytes i j) a b)
    ∙ transposed_bit bytes (8 * byte + bit) (omega (arith, lt, lt'))
    ∙ ap₂ (λ (i j : ℕ). bytes i j) b a
