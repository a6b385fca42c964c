-- ===== src/Circuits/Lowmc/Lanes.antt =====
-- The lanes of the bit-sliced form hold the blocks of the packed form.
use gigadoram_rs.Base.{
  ℕ, zero, suc, ◌+◌, ◌-◌, ◌*◌, ◌/◌, ◌%◌, ◌<◌, ◌≤◌, ◌≡◌, refl, sym, ap, ap₂, ◌∙◌, fun_ext, subst,
  arith, Bool, true, false, ltb, leb, lt→ltb, le→leb, if◌then◌else◌, List, [], ◌∷◌, map, length,
  length-map, range, some, some-inj, none-some, get_elem?, ensure, ◌>>◌,
}
use gigadoram_rs.Primitives.Rep3.{Word, differ, ◌⊕◌, zero_word, one_at, shift_right}
use gigadoram_rs.Circuits.Lowmc.{Parameters, n_rounds, shift_up, xor_constants, add_round_key}
use gigadoram_rs.Circuits.Lowmc.PackedU64.{
  mpc_sbox, mpc_linear_layer, encrypt_rounds, encrypt_block,
}
use gigadoram_rs.Circuits.Lowmc.PackedU8Lanes.{
  slice_onto, bit_slice, precompute_round_keys, combine_from, combine_round_keys, lane_mask,
  lanes_of, four_russians_into, lane_rounds, encrypt_lanes, encrypt_few_with_repeated_input,
}
use gigadoram_rs.Circuits.Lowmc.Transpose.{transpose_lem}
use gigadoram_rs.Circuits.Lowmc.Sbox.{sboxed, mpc_sbox_lem}

-- The block in a lane.
abbrev at : (ℕ → Word) → ℕ → Word
at wires lane = λ bit. wires bit lane

lanes_of_lem : (input : ℕ → Word) (lane : ℕ) → lane < 8 → lanes_of input lane ≡ at input lane
lanes_of_lem input lane lt = fun_ext (λ bit.
    transpose_lem (λ i. input (8 * (bit / 8) + i)) lane (bit % 8) lt (omega arith)
    ∙ ap (λ (k : ℕ). input k lane) {x = 8 * (bit / 8) + bit % 8} {y = bit} (omega arith))

module _ (p : Parameters) (len lane : ℕ) (inside : lane < len) (lane_lt : lane < 8) where
  four_russians_into_lem :
      (round : ℕ) (input : ℕ → Word)
      → at (four_russians_into p round input len) lane ≡ mpc_linear_layer p round (at input lane)
  unfolding four_russians_into
  four_russians_into_lem round input = fun_ext (λ bit.
      transpose_lem
        (λ i.
          shift_right
            (if ltb i len then mpc_linear_layer p round (lanes_of input i) else lanes_of input i)
            (8 * (bit / 8)))
        (bit % 8) lane (omega arith) lane_lt
      ∙ ap
          (λ (b : Bool).
            (if b then mpc_linear_layer p round (lanes_of input lane) else lanes_of input lane)
              (bit % 8 + 8 * (bit / 8)))
          (lt→ltb lane len inside)
      ∙ ap (λ w. mpc_linear_layer p round w (bit % 8 + 8 * (bit / 8)))
          (lanes_of_lem input lane lane_lt)
      ∙ ap (λ (k : ℕ). mpc_linear_layer p round (at input lane) k) {x = bit % 8 + 8 * (bit / 8)}
          {y = bit} (omega arith))

  constants_lem :
      (round : ℕ) (state : ℕ → Word) (bit : ℕ)
      → xor_constants p round (lane_mask len) state bit lane
        ≡ differ (state bit lane) (p.round_constants round bit)
  unfolding xor_constants
  constants_lem round state bit =
      set_bit (p.round_constants round bit) (state bit lane) (lt→ltb lane len inside)
    where
      set_bit :
          (constant b : Bool)
          → ltb lane len ≡ true
          → (if constant then state bit ⊕ lane_mask len else state bit) lane
            ≡ differ (state bit lane) constant
      set_bit true b e = ap (differ (state bit lane)) e
      set_bit false b e = keep (state bit lane)
        where
          keep : (b : Bool) → b ≡ differ b false
          keep true = refl
          keep false = refl

  round_lem :
      (keys : ℕ → ℕ → Word) (round : ℕ) (states : ℕ → Word)
      → at
          (add_round_key
            (xor_constants p round (lane_mask len) (four_russians_into p round (sboxed states) len))
            (keys (suc round)))
          lane
        ≡ (mpc_linear_layer p round (mpc_sbox (at states lane)) ⊕ p.round_constants round)
          ⊕ at (keys (suc round)) lane
  unfolding add_round_key
  round_lem keys round states =
      let next = four_russians_into p round (sboxed states) len in
      let substituted : at (sboxed states) lane ≡ mpc_sbox (at states lane) =
        fun_ext (λ bit. sym (mpc_sbox_lem states lane bit)) in
      let multiplied =
        four_russians_into_lem round (sboxed states) ∙ ap (mpc_linear_layer p round) substituted in
      fun_ext (λ bit.
        ap (λ b. differ b (keys (suc round) bit lane))
          (constants_lem round next bit
            ∙ ap (λ (w : Word). differ (w bit) (p.round_constants round bit)) multiplied))

  lane_rounds_lem :
      (keys : ℕ → ℕ → Word) (count round : ℕ) (states : ℕ → Word)
      → at (lane_rounds p keys len count round states) lane
        ≡ encrypt_rounds p (λ r. at (keys r) lane) count round (at states lane)
  unfolding lane_rounds encrypt_rounds
  lane_rounds_lem keys zero round states = refl
  lane_rounds_lem keys (suc count) round states =
      let next : ℕ → Word = four_russians_into p round (sboxed states) len in
      lane_rounds_lem keys count (suc round)
        (add_round_key (xor_constants p round (lane_mask len) next) (keys (suc round)))
      ∙ ap (encrypt_rounds p (λ r. at (keys r) lane) count (suc round))
          (round_lem keys round states)

  -- In a lane, the blocks of the bit-sliced form are encrypted as the packed form encrypts them.
  lanes_lem :
      (keys : ℕ → ℕ → Word) (states : ℕ → Word)
      → at (lane_rounds p keys len n_rounds 0 (add_round_key states (keys 0))) lane
        ≡ encrypt_block p (λ r. at (keys r) lane) (at states lane)
  unfolding add_round_key
  lanes_lem keys states = lane_rounds_lem keys n_rounds 0 (add_round_key states (keys 0))

-- Only the first lane is in use.
abbrev IsSingle : Word → Type 0
IsSingle w = (lane : ℕ) → 0 < lane → w lane ≡ false

keep : (b : Bool) → differ b false ≡ b
keep true = refl
keep false = refl

combine_below :
    (start : ℕ) (dst : Word) (srcs : List Word) (lane : ℕ)
    → lane < start
    → combine_from start dst srcs lane ≡ dst lane
unfolding combine_from
combine_below start dst [] lane lt = refl
combine_below start dst (src ∷ srcs) lane lt =
    combine_below (suc start) (dst ⊕ shift_up src start) srcs lane (omega (arith, lt))
    ∙ ap (λ (b : Bool). differ (dst lane) (if b then false else src (lane - start)))
        (lt→ltb lane start lt)
    ∙ keep (dst lane)

not_below : (a b : ℕ) → b ≤ a → ltb a b ≡ false
not_below a b le = ground arith

combine_lane :
    {K : Type 0} (key_bits : K → Word) (start : ℕ) (dst : Word) (keys : List K) (i : ℕ) (key : K)
    → ((k : K) → IsSingle (key_bits k))
    → get_elem? keys i ≡ some key
    → combine_from start dst (map key_bits keys) (start + i)
      ≡ differ (dst (start + i)) (key_bits key 0)
unfolding combine_from
combine_lane key_bits start dst [] i key single h = absurd (none-some h)
combine_lane key_bits start dst (k ∷ keys) zero key single h =
    combine_below (suc start) (dst ⊕ shift_up (key_bits k) start) (map key_bits keys) (start + 0)
      (omega arith)
    ∙ ap
        (λ (b : Bool).
          differ (dst (start + 0)) (if b then false else key_bits k (start + 0 - start)))
        (not_below (start + 0) start (omega arith))
    ∙ ap (λ (n : ℕ). differ (dst (start + 0)) (key_bits k n)) {x = start + 0 - start} {y = 0}
        (omega arith)
    ∙ ap (λ r. differ (dst (start + 0)) (key_bits r 0)) (some-inj h)
combine_lane key_bits start dst (k ∷ keys) (suc i) key single h =
    let rest =
      combine_lane key_bits (suc start) (dst ⊕ shift_up (key_bits k) start) keys i key single h in
    let lane : suc start + i ≡ start + suc i = omega arith in
    subst
      (λ (n : ℕ).
        combine_from start dst (map key_bits (k ∷ keys)) n ≡ differ (dst n) (key_bits key 0))
      lane
      (rest
        ∙ ap
            (λ (b : Bool).
              differ
                (differ (dst (suc start + i))
                  (if b then false else key_bits k (suc start + i - start)))
                (key_bits key 0))
            (not_below (suc start + i) start (omega arith))
        ∙ ap (λ (b : Bool). differ (differ (dst (suc start + i)) b) (key_bits key 0))
            (single k (suc start + i - start) (omega arith))
        ∙ ap (λ (b : Bool). differ b (key_bits key 0)) (keep (dst (suc start + i))))

sliced_bit :
    (b : Bool) (lane : ℕ) → 0 < lane → (if b then zero_word ⊕ one_at 0 else zero_word) lane ≡ false
sliced_bit false lane lt = refl
sliced_bit true lane lt = ground arith

sliced_at :
    (b : Bool) (mask : Word) (lane : ℕ)
    → mask lane ≡ true
    → (if b then zero_word ⊕ mask else zero_word) lane ≡ b
sliced_at false mask lane h = refl
sliced_at true mask lane h = ap (differ false) h

map-map :
    {A B C : Type 0} (f : A → B) (g : B → C) (xs : List A)
    → map g (map f xs) ≡ map (λ x. g (f x)) xs
map-map f g [] = refl
map-map f g (x ∷ xs) = ap (λ ys. g (f x) ∷ ys) (map-map f g xs)

combined_key :
    (keys : List (ℕ → Word)) (i : ℕ) (key : ℕ → Word)
    → get_elem? keys i ≡ some key
    → (λ round. at (combine_round_keys (map precompute_round_keys keys) round) i) ≡ key
unfolding precompute_round_keys slice_onto
combined_key keys i key h = fun_ext (λ round. fun_ext (λ wire.
    let key_bits = λ (k : ℕ → Word). precompute_round_keys k round wire in
    ap (λ (ws : List Word). combine_from 0 zero_word ws i)
      (map-map precompute_round_keys (λ k. k round wire) keys)
    ∙ subst
        (λ (n : ℕ). combine_from 0 zero_word (map key_bits keys) n ≡ differ false (key_bits key 0))
        {x = 0 + i} (omega arith)
        (combine_lane key_bits 0 zero_word keys i key
          (λ k lane lt. sliced_bit (k round wire) lane lt) h)
    ∙ own (key_bits key 0)
    ∙ sliced_at (key round wire) (one_at 0) 0 refl))
  where
    own : (b : Bool) → differ false b ≡ b
    own true = refl
    own false = refl

repeated_input :
    (input : Word) (len lane : ℕ)
    → lane < len
    → at (bit_slice ((input, lane_mask len) ∷ [])) lane ≡ input
unfolding slice_onto
repeated_input input len lane lt =
    fun_ext (λ bit. sliced_at (input bit) (lane_mask len) lane (lt→ltb lane len lt))

length-get_elem? :
    {A : Type 0} (xs : List A) (i : ℕ) (x : A) → get_elem? xs i ≡ some x → i < length xs
length-get_elem? [] i x h = absurd (none-some h)
length-get_elem? (y ∷ xs) zero x h = omega arith
length-get_elem? (y ∷ xs) (suc i) x h = omega (arith, length-get_elem? xs i x h)

map-range :
    {A K : Type 0} (f : ℕ → A) (g : K → A) (start : ℕ) (keys : List K)
    → ((i : ℕ) (k : K) → get_elem? keys i ≡ some k → f (start + i) ≡ g k)
    → map f (range start (length keys)) ≡ map g keys
map-range f g start [] h = refl
map-range f g start (k ∷ keys) h =
    ap₂ (λ x xs. x ∷ xs) (ap f {x = start} {y = start + 0} (omega arith) ∙ h 0 k refl)
      (map-range f g (suc start) keys
        (λ i key e. ap f {x = suc start + i} {y = start + suc i} (omega arith) ∙ h (suc i) key e))

-- The bit-sliced form, with the round keys of up to eight keys combined in its lanes, gives for each
-- key the block that the packed form gives for the input under that key.
pub encrypt_few_with_repeated_input-encrypt_block :
    (p : Parameters) (keys : List (ℕ → Word)) (input : Word)
    → length keys ≤ 8
    → encrypt_few_with_repeated_input p (map precompute_round_keys keys) input
      ≡ some (map (λ key. encrypt_block p key input) keys)
unfolding encrypt_few_with_repeated_input
encrypt_few_with_repeated_input-encrypt_block p [] input small = refl
encrypt_few_with_repeated_input-encrypt_block p (k ∷ ks) input small =
    let size = length-map ks precompute_round_keys in
    let packed = map precompute_round_keys (k ∷ ks) in
    let keys = combine_round_keys packed in
    let len = suc (length ks) in
    let wires = bit_slice ((input, lane_mask len) ∷ []) in
    let last = lane_rounds p keys len n_rounds 0 (add_round_key wires (keys 0)) in
    ap
      (λ (len : ℕ). do
        ensure (leb len 8)
        some (encrypt_lanes p keys (bit_slice ((input, lane_mask len) ∷ [])) len))
      (ap suc size)
    ∙ ap (λ (b : Bool). do ensure b; some (encrypt_lanes p keys wires len)) (le→leb _ 8 small)
    ∙ ap some (
        map-range (at last) (λ key. encrypt_block p key input) 0 (k ∷ ks)
          (λ i key h.
            let lt = length-get_elem? (k ∷ ks) i key h in
            subst (λ (n : ℕ). at last n ≡ encrypt_block p key input) {x = i} {y = 0 + i}
              (omega arith)
              (lanes_lem p len i lt (omega (arith, lt, small)) keys wires
                ∙ ap₂ (λ (ks : ℕ → Word) (w : Word). encrypt_block p ks w)
                    (combined_key (k ∷ ks) i key h) (repeated_input input len i lt))))
