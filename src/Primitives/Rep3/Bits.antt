-- ===== src/Primitives/Rep3/Bits.antt =====
-- Ring elements as words of bits: bit `i` of a word is its value at `i`. A word of `w` bits is
-- read at the indices below `w` only, a `Bit` at 0. The operations act bit by bit.
use gigadoram_rs.Base.{ℕ, ◌+◌, Bool, true, false, not, ◌&&◌, ◌==◌, if◌then◌else◌}

abbrev pub Word : Type 0
Word = ℕ → Bool

abbrev pub differ : Bool → Bool → Bool
differ true true = false
differ true false = true
differ false true = true
differ false false = false

-- `^`, `&` and `!`.
infixl 60 ◌⊕◌
infixl 61 ◌⊗◌
abbrev pub ◌⊕◌ : Word → Word → Word
◌⊕◌ x y = λ i. differ (x i) (y i)

abbrev pub ◌⊗◌ : Word → Word → Word
◌⊗◌ x y = λ i. x i && y i

abbrev pub complement : Word → Word
complement x = λ i. not (x i)

abbrev pub zero_word : Word
zero_word = λ i. false

-- `!T::zero()`.
abbrev pub all_ones : Word
all_ones = λ i. true

-- `x >> k`.
abbrev pub shift_right : Word → ℕ → Word
shift_right x k = λ i. x (i + k)

-- `1 << k`.
abbrev pub one_at : ℕ → Word
one_at k = λ i. i == k

-- `get_bit(k)`.
abbrev pub bit_at : Word → ℕ → Word
bit_at x k = λ i. if i == 0 then x k else false
