-- ===== src/Primitives/Value.antt =====
-- crates/primitives/src/value.rs: a stored value and its alibi byte. A share stands for what it
-- opens to, except in `Alibi`, which is about the shares of the byte.
pub mod Alibi
use gigadoram_rs.Base.{ℕ, ◌≡◌, List, map, range, zip_with, bit_xor, Bool, ◌==◌, if◌then◌else◌, true}
use gigadoram_rs.Base.Words.{xor_zero, zero-bit_xor, xor_comm, xor_assoc, xor_self}
use gigadoram_rs.Primitives.Rep3.{Word, ◌⊕◌, zero_word}

-- The trait, on opened values: exclusive or with its identity `zero_share`.
pub record DoramValue (V : Type 0) : Type 0 where
  pub zero_share : V
  pub bitxor : V → V → V
  pub zero_bitxor : (v : V) → bitxor zero_share v ≡ v
  pub bitxor_zero : (v : V) → bitxor v zero_share ≡ v
  pub bitxor_comm : (v w : V) → bitxor v w ≡ bitxor w v
  pub bitxor_assoc : (u v w : V) → bitxor (bitxor u v) w ≡ bitxor u (bitxor v w)
  pub bitxor_self : (v : V) → bitxor v v ≡ zero_share

-- The unsigned integer values.
instance abbrev pub ring_value : DoramValue ℕ
ring_value = record {
  zero_share = 0;
  bitxor = bit_xor;
  zero_bitxor = zero-bit_xor;
  bitxor_zero = xor_zero;
  bitxor_comm = xor_comm;
  bitxor_assoc = xor_assoc;
  bitxor_self = xor_self;
}

pub record Record (V : Type 0) : Type 0 where
  pub value : V
  pub alibi : Word

abbrev pub from_value : {V : Type 0} → V → Record V
from_value v = record { value = v; alibi = zero_word }

abbrev pub zero_record : {V : Type 0} ⦃d : DoramValue V⦄ → Record V
zero_record ⦃d⦄ = from_value d.zero_share

abbrev pub xor_record : {V : Type 0} ⦃d : DoramValue V⦄ → Record V → Record V → Record V
xor_record ⦃d⦄ r s = record { value = d.bitxor r.value s.value; alibi = r.alibi ⊕ s.alibi }

abbrev pub clear_alibi : {V : Type 0} → Record V → Record V
clear_alibi r = record r { alibi = zero_word }

-- The bits of the first `num_levels` levels.
abbrev pub get_alibi_bits : {V : Type 0} → Record V → ℕ → List Bool
get_alibi_bits r num_levels = map r.alibi (range 0 num_levels)

-- What `set_alibi_bit` does to the opened byte.
abbrev pub set_alibi_bit : {V : Type 0} → Record V → ℕ → Record V
set_alibi_bit r level = record r { alibi = λ i. if i == level then true else r.alibi i }

abbrev pub get_y_values : {V : Type 0} → List (Record V) → List V
get_y_values rs = map (λ r. r.value) rs

abbrev pub get_alibis : {V : Type 0} → List (Record V) → List Word
get_alibis rs = map (λ r. r.alibi) rs

abbrev pub from_columns : {V : Type 0} → List V → List Word → List (Record V)
from_columns = zip_with (λ v w. record { value = v; alibi = w })
