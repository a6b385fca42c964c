-- ===== src/DataStructures/SpeedCache/Fold.antt =====
-- Folding masked rows: all but the matching row are the identity of the operation.
use gigadoram_rs.Base.{
  ℕ, suc, ◌≡◌, refl, arith, List, [], ◌∷◌, map, some, Bool, true, false, Bool-cases, ◌==◌, inl, inr,
  zip_with,
}
use mathlib.Core.List.{foldl}
use gigadoram_rs.Primitives.Rep3.{differ}
use gigadoram_rs.DataStructures.SpeedCache.{select, reduce}
use gigadoram_rs.DataStructures.SpeedCache.Spec.{contains, AtMostOnce, pick, or_false}

pub differ-false : (b : Bool) → differ b false ≡ b
differ-false true = refl
differ-false false = refl

pub false-differ : (b : Bool) → differ false b ≡ b
false-differ true = refl
false-differ false = refl

pub suc_eq_zero : (n : ℕ) → (suc n == 0) ≡ false
suc_eq_zero n = ground arith

pub select_test : (b : Bool) → select b true false ≡ b
select_test true = refl
select_test false = refl

pub pick-true : (a : ℕ) (xs : List ℕ) → pick false a xs (map (λ x. true) xs) ≡ contains a xs
pick-true a [] = refl
pick-true a (x ∷ xs) = elim (Bool-cases (x == a)) [
  | inl here ↦ rw here
  | inr elsewhere ↦ rw elsewhere (pick-true a xs)
]

-- Masked rows, combined from left to right by an operation with identity `e`.
module _ {A : Type 0} (op : A → A → A) (e : A) (left : (x : A) → op e x ≡ x)
    (right : (x : A) → op x e ≡ x) where
  abbrev masked : ℕ → List ℕ → List A → List A
  masked a = zip_with (λ x y. select (x == a) y e)

  foldl-masked_absent :
      (acc : A) (a : ℕ) (xs : List ℕ) (ys : List A)
      → contains a xs ≡ false
      → foldl op acc (masked a xs ys) ≡ acc
  foldl-masked_absent acc a [] ys h = refl
  foldl-masked_absent acc a (x ∷ xs) [] h = refl
  foldl-masked_absent acc a (x ∷ xs) (y ∷ ys) h =
      let (elsewhere, rest) = or_false (x == a) (contains a xs) h in
      rw (elsewhere, right acc) (foldl-masked_absent acc a xs ys rest)

  pub foldl-masked :
      (a : ℕ) (xs : List ℕ) (ys : List A)
      → AtMostOnce a xs
      → foldl op e (masked a xs ys) ≡ pick e a xs ys
  foldl-masked a [] ys h = refl
  foldl-masked a (x ∷ xs) [] h = refl
  foldl-masked a (x ∷ xs) (y ∷ ys) (once, rest) = elim (Bool-cases (x == a)) [
    | inl here ↦ rw (here, left y) (foldl-masked_absent y a xs ys (once here))
    | inr elsewhere ↦ rw (elsewhere, left e) (foldl-masked a xs ys rest)
  ]

  pub reduce-foldl : (x : A) (xs : List A) → reduce op (x ∷ xs) ≡ some (foldl op e (x ∷ xs))
  unfolding reduce
  reduce-foldl x xs = rw (left x)
