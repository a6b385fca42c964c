-- ===== src/Circuits/ChtLookup/Laws.antt =====
-- What the output wires of the lookup circuit stand for.
use gigadoram_rs.Base.{
  ℕ, zero, suc, ◌≡◌, refl, sym, ap, ap₂, ◌∙◌, arith, List, [], ◌∷◌, ◌++◌, map, Bool, true, false,
  not, ◌&&◌, if◌then◌else◌, zip_with, take, drop, length, length-map, length-zip_with, min,
  length-append, take-append_length, drop-append_length,
}
use mathlib.Core.List.{append_assoc}
use gigadoram_rs.Primitives.Rep3.{differ}
use gigadoram_rs.Circuits.ChtLookup.{
  FancyBinary, all_true, tags_equal, mux_many, evaluate_lookup_circuit,
}

-- Equality of bit strings of the same length.
abbrev pub same_bits : List Bool → List Bool → Bool
same_bits (a ∷ us) (b ∷ vs) = not (differ a b) && same_bits us vs
same_bits _ _ = true

pub record Fields : Type 0 where
  pub key_tag : List Bool
  pub b0_index : List Bool
  pub b0_tag : List Bool
  pub b1_index : List Bool
  pub b1_tag : List Bool
  pub dummy_index : List Bool

-- The 384 input bits.
abbrev pub input_bits : Fields → List Bool
input_bits f =
    (f.key_tag ++ f.b0_index) ++ ((f.b0_tag ++ f.b1_index) ++ (f.b1_tag ++ f.dummy_index))

-- Tags of 96 bits, and indices of 32.
pub record Sized (f : Fields) : Type 0 where
  pub key_tag : length f.key_tag ≡ 96
  pub b0_index : length f.b0_index ≡ 32
  pub b0_tag : length f.b0_tag ≡ 96
  pub b1_index : length f.b1_index ≡ 32
  pub b1_tag : length f.b1_tag ≡ 96
  pub dummy_index : length f.dummy_index ≡ 32

-- The index of the matching location, or the dummy index, and whether exactly one location matches.
abbrev pub selected : Fields → List Bool
selected f =
    let b1_or_dummy = if same_bits f.key_tag f.b1_tag then f.b1_index else f.dummy_index in
    (if same_bits f.key_tag f.b0_tag then f.b0_index else b1_or_dummy)
    ++ (differ (same_bits f.key_tag f.b0_tag) (same_bits f.key_tag f.b1_tag) ∷ [])

module _ {A B : Type 0} (f : A → B) where
  map-take : (n : ℕ) (xs : List A) → map f (take n xs) ≡ take n (map f xs)
  map-take zero xs = refl
  map-take (suc n) [] = refl
  map-take (suc n) (x ∷ xs) = ap (λ ys. f x ∷ ys) (map-take n xs)

  map-drop : (n : ℕ) (xs : List A) → map f (drop n xs) ≡ drop n (map f xs)
  map-drop zero xs = refl
  map-drop (suc n) [] = refl
  map-drop (suc n) (x ∷ xs) = map-drop n xs

  map-append : (xs ys : List A) → map f (xs ++ ys) ≡ map f xs ++ map f ys
  map-append [] ys = refl
  map-append (x ∷ xs) ys = ap (λ zs. f x ∷ zs) (map-append xs ys)

abbrev no_bits : List Bool
no_bits = []

module _ (g : FancyBinary) where
  decode-xor :
      (xs ys : List g.Item)
      → map g.decode (zip_with g.xor xs ys) ≡ zip_with differ (map g.decode xs) (map g.decode ys)
  decode-xor [] ys = refl
  decode-xor (x ∷ xs) [] = refl
  decode-xor (x ∷ xs) (y ∷ ys) = ap₂ (λ b bs. b ∷ bs) (g.decode_xor x y) (decode-xor xs ys)

  equal_bits :
      (xs ys : List g.Item)
      → all_true (map g.decode (zip_with (λ l r. g.negate (g.xor l r)) xs ys))
        ≡ same_bits (map g.decode xs) (map g.decode ys)
  equal_bits [] ys = refl
  equal_bits (x ∷ xs) [] = refl
  equal_bits (x ∷ xs) (y ∷ ys) =
      ap₂ (λ a b. a && b) (g.decode_negate (g.xor x y) ∙ ap not (g.decode_xor x y))
        (equal_bits xs ys)

  decode-tags_equal :
      (xs ys : List g.Item)
      → g.decode (tags_equal g xs ys) ≡ same_bits (map g.decode xs) (map g.decode ys)
  unfolding tags_equal
  decode-tags_equal xs ys = g.decode_and_many _ ∙ equal_bits xs ys

  decode-mux_many :
      (c : g.Item) (ts fs : List g.Item)
      → length ts ≡ length fs
      → map g.decode (mux_many g c ts fs)
        ≡ (if g.decode c then map g.decode ts else map g.decode fs)
  unfolding mux_many
  decode-mux_many c [] [] same = either (g.decode c)
    where
      either : (b : Bool) → no_bits ≡ (if b then [] else [])
      either true = refl
      either false = refl
  decode-mux_many c [] (f ∷ fs) same = absurd (omega (arith, same))
  decode-mux_many c (t ∷ ts) [] same = absurd (omega (arith, same))
  decode-mux_many c (t ∷ ts) (f ∷ fs) same =
      ap₂ (λ b bs. b ∷ bs) (g.decode_mux c f t) (decode-mux_many c ts fs (omega (arith, same)))
      ∙ join (g.decode c)
    where
      join :
          (b : Bool)
          → (if b then g.decode t else g.decode f)
              ∷ (if b then map g.decode ts else map g.decode fs)
            ≡ (if b then g.decode t ∷ map g.decode ts else g.decode f ∷ map g.decode fs)
      join true = refl
      join false = refl

  length-mux_many :
      (c : g.Item) (ts fs : List g.Item) → length (mux_many g c ts fs) ≡ min (length ts) (length fs)
  unfolding mux_many
  length-mux_many c ts fs = length-zip_with (λ t f. g.mux c f t) ts fs

  -- The circuit after its inputs have been taken apart.
  selecting :
      (f : Fields) (key b0_index b0_tag b1_index b1_tag dummy : List g.Item)
      → Sized f
      → map g.decode key ≡ f.key_tag
      → map g.decode b0_index ≡ f.b0_index
      → map g.decode b0_tag ≡ f.b0_tag
      → map g.decode b1_index ≡ f.b1_index
      → map g.decode b1_tag ≡ f.b1_tag
      → map g.decode dummy ≡ f.dummy_index
      → map g.decode (
          mux_many g
            (tags_equal g key b0_tag)
            b0_index
            (mux_many g (tags_equal g key b1_tag) b1_index dummy)
          ++ (g.xor (tags_equal g key b0_tag) (tags_equal g key b1_tag) ∷ []))
        ≡ selected f
  selecting f key b0_index b0_tag b1_index b1_tag dummy sized hk h0 ht0 h1 ht1 hd =
      let inner = mux_many g (tags_equal g key b1_tag) b1_index dummy in
      map-append g.decode (mux_many g (tags_equal g key b0_tag) b0_index inner)
        (g.xor (tags_equal g key b0_tag) (tags_equal g key b1_tag) ∷ [])
      ∙ ap₂ (λ xs ys. xs ++ ys)
          (decode-mux_many (tags_equal g key b0_tag) b0_index inner
              (omega (arith, length0, length_inner))
            ∙ ap₂ (λ b bs. if b then map g.decode b0_index else bs) refl
                (decode-mux_many (tags_equal g key b1_tag) b1_index dummy
                  (omega (arith, length1, length_dummy)))
            ∙ rw
                (
                  decode-tags_equal key b0_tag,
                  decode-tags_equal key b1_tag,
                  hk,
                  h0,
                  ht0,
                  h1,
                  ht1,
                  hd,
                )
                refl)
          (ap (λ b. b ∷ [])
            (g.decode_xor (tags_equal g key b0_tag) (tags_equal g key b1_tag)
              ∙ rw (decode-tags_equal key b0_tag, decode-tags_equal key b1_tag, hk, ht0, ht1) refl))
    where
      sized_as :
          (items : List g.Item) (bits : List Bool)
          → map g.decode items ≡ bits
          → length items ≡ length bits
      sized_as items bits h = sym (length-map items g.decode) ∙ ap length h

      length0 : length b0_index ≡ 32
      length0 = sized_as b0_index f.b0_index h0 ∙ sized.b0_index

      length1 : length b1_index ≡ 32
      length1 = sized_as b1_index f.b1_index h1 ∙ sized.b1_index

      length_dummy : length dummy ≡ 32
      length_dummy = sized_as dummy f.dummy_index hd ∙ sized.dummy_index

      length_inner : length (mux_many g (tags_equal g key b1_tag) b1_index dummy) ≡ 32
      length_inner =
          length-mux_many (tags_equal g key b1_tag) b1_index dummy
          ∙ omega (arith, length1, length_dummy)

module _ {A : Type 0} where
  take-exact : (n : ℕ) (xs ys : List A) → length xs ≡ n → take n (xs ++ ys) ≡ xs
  take-exact n xs ys same = ap (λ m. take m (xs ++ ys)) (sym same) ∙ take-append_length xs ys

  drop-exact : (n : ℕ) (xs ys : List A) → length xs ≡ n → drop n (xs ++ ys) ≡ ys
  drop-exact n xs ys same = ap (λ m. drop m (xs ++ ys)) (sym same) ∙ drop-append_length xs ys

module _ (g : FancyBinary) (x01 x2 : List g.Item) (f : Fields) (sized : Sized f)
    (opens : zip_with differ (map g.decode x01) (map g.decode x2) ≡ input_bits f) where
  inputs : List g.Item
  inputs = zip_with g.xor x01 x2

  inputs_lem : map g.decode inputs ≡ input_bits f
  unfolding inputs
  inputs_lem = decode-xor g x01 x2 ∙ opens

  -- The three words of the input.
  first_word : map g.decode (take 128 inputs) ≡ f.key_tag ++ f.b0_index
  first_word =
      map-take g.decode 128 inputs
      ∙ ap (take 128) inputs_lem
      ∙ take-exact 128 (f.key_tag ++ f.b0_index) _
          (length-append f.key_tag f.b0_index ∙ omega (arith, sized.key_tag, sized.b0_index))

  later_words :
      drop 128 (map g.decode inputs) ≡ (f.b0_tag ++ f.b1_index) ++ (f.b1_tag ++ f.dummy_index)
  later_words =
      ap (drop 128) inputs_lem
      ∙ drop-exact 128 (f.key_tag ++ f.b0_index) _
          (length-append f.key_tag f.b0_index ∙ omega (arith, sized.key_tag, sized.b0_index))

  second_word : map g.decode (take 128 (drop 128 inputs)) ≡ f.b0_tag ++ f.b1_index
  second_word =
      map-take g.decode 128 (drop 128 inputs)
      ∙ ap (take 128) (map-drop g.decode 128 inputs ∙ later_words)
      ∙ take-exact 128 (f.b0_tag ++ f.b1_index) _
          (length-append f.b0_tag f.b1_index ∙ omega (arith, sized.b0_tag, sized.b1_index))

  third_word : map g.decode (drop 256 inputs) ≡ f.b1_tag ++ f.dummy_index
  third_word =
      map-drop g.decode 256 inputs
      ∙ ap (drop 256) inputs_lem
      ∙ ap (drop 256) (
          sym (
            append_assoc (f.key_tag ++ f.b0_index) (f.b0_tag ++ f.b1_index)
              (f.b1_tag ++ f.dummy_index)))
      ∙ drop-exact 256 ((f.key_tag ++ f.b0_index) ++ (f.b0_tag ++ f.b1_index)) _ two_words
    where
      two_words : length ((f.key_tag ++ f.b0_index) ++ (f.b0_tag ++ f.b1_index)) ≡ 256
      two_words = omega (
        arith,
        length-append (f.key_tag ++ f.b0_index) (f.b0_tag ++ f.b1_index),
        length-append f.key_tag f.b0_index,
        length-append f.b0_tag f.b1_index,
        sized.key_tag,
        sized.b0_index,
        sized.b0_tag,
        sized.b1_index,
      )

  -- The tag and the index of a word.
  tag_of :
      (word : List g.Item) (tag index : List Bool)
      → map g.decode word ≡ tag ++ index
      → length tag ≡ 96
      → map g.decode (take 96 word) ≡ tag
  tag_of word tag index h same =
      map-take g.decode 96 word ∙ ap (take 96) h ∙ take-exact 96 tag index same

  index_of :
      (word : List g.Item) (tag index : List Bool)
      → map g.decode word ≡ tag ++ index
      → length tag ≡ 96
      → map g.decode (drop 96 word) ≡ index
  index_of word tag index h same =
      map-drop g.decode 96 word ∙ ap (drop 96) h ∙ drop-exact 96 tag index same

  -- On wires whose exclusive or stands for a key tag, two tagged indices and a dummy index, the circuit's
  -- output stands for the index whose tag is the key's, the first one first, or else the dummy
  -- index, and then for the bit that exactly one tag is the key's.
  pub evaluate_lookup_circuit_lem : map g.decode (evaluate_lookup_circuit g x01 x2) ≡ selected f
  unfolding evaluate_lookup_circuit inputs
  evaluate_lookup_circuit_lem =
      let third = third_word in
      selecting g f (take 96 (take 128 inputs)) (drop 96 (take 128 inputs))
        (take 96 (take 128 (drop 128 inputs))) (drop 96 (take 128 (drop 128 inputs)))
        (take 96 (drop 256 inputs)) (drop 96 (drop 256 inputs)) sized
        (tag_of (take 128 inputs) f.key_tag f.b0_index first_word sized.key_tag)
        (index_of (take 128 inputs) f.key_tag f.b0_index first_word sized.key_tag)
        (tag_of (take 128 (drop 128 inputs)) f.b0_tag f.b1_index second_word sized.b0_tag)
        (index_of (take 128 (drop 128 inputs)) f.b0_tag f.b1_index second_word sized.b0_tag)
        (tag_of (drop 256 inputs) f.b1_tag f.dummy_index third sized.b1_tag)
        (index_of (drop 256 inputs) f.b1_tag f.dummy_index third sized.b1_tag)
