-- ===== src/Base/Fallible.antt =====
-- Code that may fail: `none` stands for a panic (a failed `assert!`, an index out of range) and
-- for an `Err` that the caller passes on with `?`.
use mathlib.Core.Path.{◌≡◌, refl, ap}
use mathlib.Core.Bool.{Bool, true, false}
use mathlib.Core.Option.{Option, none, some}

infixl 5 ◌>>=◌ ◌>>◌
abbrev pub ◌>>=◌ {ℓ κ} : {A : Type ℓ} {B : Type κ} → Option A → (A → Option B) → Option B
none >>= f = none
some a >>= f = f a

abbrev pub ◌>>◌ {ℓ} : {B : Type ℓ} → Option (Unit {0}) → Option B → Option B
m >> k = m >>= λ _. k

-- `assert!` and `ensure!`.
abbrev pub ensure : Bool → Option (Unit {0})
ensure true = some tt
ensure false = none

pub >>=-eq-some {ℓ κ} :
    {A : Type ℓ} {B : Type κ} (m : Option A) (f : A → Option B) {b : B}
    → (m >>= f) ≡ some b
    → (a : A) × (m ≡ some a) × (f a ≡ some b)
>>=-eq-some (some a) f h = (a, refl, h)
>>=-eq-some none f h = cc

pub ensure-eq-some : (b : Bool) {u : Unit {0}} → ensure b ≡ some u → b ≡ true
ensure-eq-some true h = refl
ensure-eq-some false h = cc

pub some-inj {ℓ} : {A : Type ℓ} {a b : A} → some a ≡ some b → a ≡ b
some-inj {a = a} h = ap (λ o. elim o [ some z ↦ z | none ↦ a ]) h

pub none-some {ℓ} : {A : Type ℓ} {a : A} → none ≡ some a → ⊥
none-some h = cc
