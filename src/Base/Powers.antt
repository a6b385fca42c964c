-- ===== src/Base/Powers.antt =====
-- Powers of two: sizes are given by their logarithms.
use Prim.Native.Nat.{ℕ, zero, suc, ◌+◌, ◌*◌, ◌^◌, ◌-◌, ◌<◌, ◌≤◌}
use mathlib.Core.Path.{◌≡◌, ap}
use native.Mathlib.Nat.{pow-suc, one-le-pow}
use native.Mathlib.Omega.{arith}

pub two_pow_add : (a b : ℕ) → 2 ^ (a + b) ≡ 2 ^ a * 2 ^ b
two_pow_add a zero =
    let whole : 2 ^ (a + 0) ≡ 2 ^ a = ap (λ (n : ℕ). 2 ^ n) (omega arith) in omega arith
two_pow_add a (suc b) =
    let split : 2 ^ (a + suc b) ≡ 2 ^ suc (a + b) = ap (λ (n : ℕ). 2 ^ n) (omega arith) in
    omega (arith, pow-suc 2 (a + b), two_pow_add a b, ap (λ (t : ℕ). 2 ^ a * t) (pow-suc 2 b))

pub two_pow_pos : (a : ℕ) → 0 < 2 ^ a
two_pow_pos a = one-le-pow a 2 (omega arith)

two_pow_le_add : (a k : ℕ) → 2 ^ a ≤ 2 ^ (a + k)
two_pow_le_add a zero = omega (arith, ap (λ (n : ℕ). 2 ^ n) {x = a} {y = a + 0} (omega arith))
two_pow_le_add a (suc k) =
    let again : 2 ^ (a + suc k) ≡ 2 ^ (1 + (a + k)) = ap (λ (n : ℕ). 2 ^ n) (omega arith) in
    omega (arith, again, two_pow_add 1 (a + k), two_pow_le_add a k)

pub two_pow_le : (a b : ℕ) → a ≤ b → 2 ^ a ≤ 2 ^ b
two_pow_le a b h =
    let rest : 2 ^ (a + (b - a)) ≡ 2 ^ b = ap (λ (n : ℕ). 2 ^ n) (omega arith) in
    omega (arith, rest, two_pow_le_add a (b - a))
