-- ===== src/Base/Words.antt =====
-- The laws of `^` on unsigned words: exclusive or of native numbers, at every width.
use Prim.Native.Nat.{
  ℕ, zero, suc, ◌+◌, ◌*◌, ◌/◌, ◌%◌, ◌≤◌, ◌<◌, bit_xor, digits, bit_xor-bitwise, differ,
}
use mathlib.Core.Path.{◌≡◌, refl, sym}
use native.Mathlib.Omega.{arith}

-- Exclusive or is a digit recursion on fuel; two runs with enough fuel for the first word agree.
abbrev xor_run : ℕ → ℕ → ℕ → ℕ
xor_run fuel word other = digits (λ y. y) differ fuel word other

abbrev FuelsAgree : ℕ → ℕ → Type 0
FuelsAgree low high =
    (word other : ℕ) → word ≤ low → word ≤ high → xor_run low word other ≡ xor_run high word other

xor_run-zero : (fuel other : ℕ) → xor_run fuel 0 other ≡ other
xor_run-zero zero other = refl
xor_run-zero (suc fuel) other = refl

FuelsAgree-suc : (low high : ℕ) → FuelsAgree low high → FuelsAgree (suc low) (suc high)
FuelsAgree-suc low high shorter zero other _ _ = refl
FuelsAgree-suc low high shorter (suc word) other h k =
    let rest = shorter (suc word / 2) (other / 2) (omega arith) (omega arith) in rw rest

all_fuels-FuelsAgree : (low high : ℕ) → FuelsAgree low high
all_fuels-FuelsAgree (suc low) (suc high) = FuelsAgree-suc low high (all_fuels-FuelsAgree low high)
all_fuels-FuelsAgree zero high = λ word other h k. spent high word other h
  where
    spent : (fuel word other : ℕ) → word ≤ 0 → xor_run 0 word other ≡ xor_run fuel word other
    spent fuel zero other h = sym (xor_run-zero fuel other)
    spent fuel (suc word) other h = absurd (omega arith)
all_fuels-FuelsAgree (suc low) zero = λ word other h k. spent word other k
  where
    spent : (word other : ℕ) → word ≤ 0 → xor_run (suc low) word other ≡ xor_run 0 word other
    spent zero other h = refl
    spent (suc word) other h = absurd (omega arith)

pub zero-bit_xor : (b : ℕ) → bit_xor 0 b ≡ b
zero-bit_xor b = simp bit_xor-bitwise

differ_bits : (x y : ℕ) → x < 2 → y < 2 → differ x y ≡ (x + y) % 2
differ_bits zero zero p q = refl
differ_bits zero (suc zero) p q = refl
differ_bits (suc zero) zero p q = refl
differ_bits (suc zero) (suc zero) p q = refl
differ_bits (suc (suc x)) y p q = absurd (omega arith)
differ_bits x (suc (suc y)) p q = absurd (omega arith)

differ_lem : (a b : ℕ) → differ (a % 2) (b % 2) ≡ (a + b) % 2
differ_lem a b = omega (arith, differ_bits (a % 2) (b % 2) (omega arith) (omega arith))

pub bit_xor_step : (a b : ℕ) → bit_xor a b ≡ bit_xor (a / 2) (b / 2) * 2 + (a + b) % 2
bit_xor_step zero b = omega (arith, zero-bit_xor b, zero-bit_xor (b / 2))
bit_xor_step (suc a) b = simp bit_xor-bitwise (
    omega (
      arith,
      all_fuels-FuelsAgree a (suc a / 2) (suc a / 2) (b / 2) (omega arith) (omega arith),
      differ_lem (suc a) b,
    ))

xor_self_fuel : (n a : ℕ) → a ≤ n → bit_xor a a ≡ 0
xor_self_fuel n zero p = refl
xor_self_fuel zero (suc a) p = absurd (omega arith)
xor_self_fuel (suc n) (suc a) p =
    omega (arith, bit_xor_step (suc a) (suc a), xor_self_fuel n (suc a / 2) (omega arith))

pub xor_self : (a : ℕ) → bit_xor a a ≡ 0
xor_self a = xor_self_fuel a a (omega arith)

xor_zero_fuel : (n a : ℕ) → a ≤ n → bit_xor a 0 ≡ a
xor_zero_fuel n zero p = refl
xor_zero_fuel zero (suc a) p = absurd (omega arith)
xor_zero_fuel (suc n) (suc a) p =
    omega (arith, bit_xor_step (suc a) 0, xor_zero_fuel n (suc a / 2) (omega arith))

pub xor_zero : (a : ℕ) → bit_xor a 0 ≡ a
xor_zero a = xor_zero_fuel a a (omega arith)

xor_comm_fuel : (n a b : ℕ) → a ≤ n → bit_xor a b ≡ bit_xor b a
xor_comm_fuel n zero b p = omega (arith, zero-bit_xor b, xor_zero b)
xor_comm_fuel zero (suc a) b p = absurd (omega arith)
xor_comm_fuel (suc n) (suc a) b p = omega (
  arith,
  bit_xor_step (suc a) b,
  bit_xor_step b (suc a),
  xor_comm_fuel n (suc a / 2) (b / 2) (omega arith),
)

pub xor_comm : (a b : ℕ) → bit_xor a b ≡ bit_xor b a
xor_comm a b = xor_comm_fuel a a b (omega arith)

-- The digits above the lowest, and the lowest.
xor_parts :
    (a b : ℕ) → (bit_xor a b / 2 ≡ bit_xor (a / 2) (b / 2)) × (bit_xor a b % 2 ≡ (a + b) % 2)
xor_parts a b = omega (arith, bit_xor_step a b)

xor_assoc_fuel : (n a b c : ℕ) → a ≤ n → bit_xor (bit_xor a b) c ≡ bit_xor a (bit_xor b c)
xor_assoc_fuel n zero b c p = rw (zero-bit_xor b, zero-bit_xor (bit_xor b c))
xor_assoc_fuel zero (suc a) b c p = absurd (omega arith)
xor_assoc_fuel (suc n) (suc a) b c p =
    rw
      (
        bit_xor_step (bit_xor (suc a) b) c,
        bit_xor_step (suc a) (bit_xor b c),
        (xor_parts (suc a) b).0,
        (xor_parts b c).0,
        xor_assoc_fuel n (suc a / 2) (b / 2) (c / 2) (omega arith),
      )
      (omega (arith, xor_parts (suc a) b, xor_parts b c))

pub xor_assoc : (a b c : ℕ) → bit_xor (bit_xor a b) c ≡ bit_xor a (bit_xor b c)
xor_assoc a b c = xor_assoc_fuel a a b c (omega arith)
