-- ===== src/DataStructures/SpeedCache/Spec.antt =====
-- What the cache promises, in terms of its stored addresses and records.
use gigadoram_rs.Base.{
  ℕ, ◌≤◌, ◌≡◌, refl, arith, inl, inr, Bool-cases, List, [], ◌∷◌, ◌++◌, map, Bool, true, false, ◌==◌,
  ◌||◌, if◌then◌else◌, length, take,
}
use gigadoram_rs.Primitives.Value.{DoramValue, Record, zero_record}
use gigadoram_rs.DataStructures.SpeedCache.{SpeedCache}

-- The slices have the cache's length, and the stored part fits into them.
pub record IsValid {V : Type 0} (c : SpeedCache V) : Type 0 where
  pub addrs_length : length c.addrs ≡ c.length
  pub entries_length : length c.entries ≡ c.length
  pub stored : c.num_stored ≤ c.length

-- Whether an address occurs in a list.
abbrev pub contains : ℕ → List ℕ → Bool
contains a [] = false
contains a (x ∷ xs) = x == a || contains a xs

abbrev pub AtMostOnce : ℕ → List ℕ → Type 0
AtMostOnce a [] = Unit {0}
AtMostOnce a (x ∷ xs) = ((x == a) ≡ true → contains a xs ≡ false) × AtMostOnce a xs

-- The value at the first occurrence of the address, or `e`.
abbrev pub pick {ℓ} : {A : Type ℓ} → A → ℕ → List ℕ → List A → A
pick e a [] ys = e
pick e a (x ∷ xs) [] = e
pick e a (x ∷ xs) (y ∷ ys) = if x == a then y else pick e a xs ys

-- Every occurrence of the address overwritten with the sentinel.
abbrev pub mark : ℕ → ℕ → List ℕ → List ℕ
mark sentinel a xs = map (λ x. if x == a then sentinel else x) xs

-- The stored slots.
abbrev pub stored_addrs : {V : Type 0} → SpeedCache V → List ℕ
stored_addrs c = take c.num_stored c.addrs

abbrev pub stored_entries : {V : Type 0} → SpeedCache V → List (Record V)
stored_entries c = take c.num_stored c.entries

-- The record that the cache holds for an address, or the zero record.
abbrev pub cached_record : {V : Type 0} ⦃d : DoramValue V⦄ → SpeedCache V → ℕ → Record V
cached_record c a = pick zero_record a (stored_addrs c) (stored_entries c)

pub or_false : (b c : Bool) → (b || c) ≡ false → (b ≡ false) × (c ≡ false)
or_false b c h = ground arith

pub contains-append :
    (a : ℕ) (xs ys : List ℕ) → contains a (xs ++ ys) ≡ (contains a xs || contains a ys)
contains-append a [] ys = refl
contains-append a (x ∷ xs) ys = elim (Bool-cases (x == a)) [
  | inl here ↦ rw here
  | inr elsewhere ↦ rw elsewhere (contains-append a xs ys)
]
