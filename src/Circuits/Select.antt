-- ===== src/Circuits/Select.antt =====
-- crates/circuits/src/replace_if_dummy.rs and xy_if_xs_equal.rs on shares, for one row: the
-- circuits treat every row alike, and their columns have one length.
use gigadoram_rs.Base.{
  ℕ, ◌<◌, ◌≡◌, ◌↔◌, ap, subst, fun_ext, arith, Bool, true, false, if◌then◌else◌,
}
use gigadoram_rs.Primitives.Rep3.{
  PartyId, Word, ◌⊕◌, ◌⊗◌, bit_at, Share, Shared, Opens, differ, Backend,
}
use gigadoram_rs.Primitives.Types.{bit_to_binary_mask}
use gigadoram_rs.Primitives.Types.Laws.{bit_to_binary_mask-Opens}
use gigadoram_rs.Primitives.Utils.{u32, Row, is_zero_many, cmux_many_custom}
use gigadoram_rs.Primitives.Utils.Laws.{correlated, cmux_column-Opens}
use gigadoram_rs.Primitives.Utils.Zero.{is_zero_many-Opens}

-- `^` and `get_bit` on shares.
abbrev pub xor_share : Share → Share → Share
xor_share s t = record { a = s.a ⊕ t.a; b = s.b ⊕ t.b }

abbrev pub get_bit : Share → ℕ → Share
get_bit s k = record { a = bit_at s.a k; b = bit_at s.b k }

pub replace_if_dummy_circuit : Backend → Shared → Shared → ℕ → Shared
replace_if_dummy_circuit net x replacement log_n =
    let mask = λ (id : PartyId). bit_to_binary_mask (get_bit (x id) log_n) in
    let delta = λ (id : PartyId). xor_share (x id) (replacement id) in
    let selected_delta = net.and_vec mask delta in λ id. xor_share (x id) (selected_delta id)

-- The masked row, and the bit that says whether the addresses agree.
pub xy_if_xs_equal_circuit :
    Backend
    → Shared
    → Shared
    → Shared
    → Shared
    → (ℕ → PartyId → Word × Word)
    → (PartyId → Row (Word × Word))
    → Row Shared × Shared
xy_if_xs_equal_circuit net x x_query y alibi rand_zero rand_and =
    let found = is_zero_many net u32 (λ id. xor_share (x id) (x_query id)) rand_zero in
    (cmux_many_custom net found (record { x = x; y = y; alibi = alibi }) rand_and, found)

xor_share-Opens :
    (s t : Shared) (v w : Word)
    → Opens s v
    → Opens t w
    → Opens (λ id. xor_share (s id) (t id)) (v ⊕ w)
xor_share-Opens s t v w hs ht = record {
  consistent = record {
    replicated = λ id. fun_ext (λ i. ground (
      arith,
      ap (λ (x : Word). x i) (hs.consistent.replicated id),
      ap (λ (x : Word). x i) (ht.consistent.replicated id),
    ));
  };
  value =
      fun_ext
        (λ i. ground (arith, ap (λ (x : Word). x i) hs.value, ap (λ (x : Word). x i) ht.value));
}

get_bit-Opens :
    (s : Shared) (v : Word) (k : ℕ) → Opens s v → Opens (λ id. get_bit (s id) k) (bit_at v k)
get_bit-Opens s v k h = record {
  consistent = record {
    replicated = λ id. ap (λ (w : Word). bit_at w k) (h.consistent.replicated id);
  };
  value = fun_ext (λ i. ground (arith, ap (λ (w : Word). w k) h.value));
}

chosen : (b : Bool) (v w : Word) → v ⊕ ((λ i. b) ⊗ (v ⊕ w)) ≡ (if b then w else v)
chosen true v w = fun_ext (λ i. ground arith)
chosen false v w = fun_ext (λ i. ground arith)

agree : (a b : Bool) → differ a b ≡ false → a ≡ b
agree a b h = ground arith

agree_back : (a b : Bool) → a ≡ b → differ a b ≡ false
agree_back a b h = ground arith

-- The correlated randomness of the three columns.
abbrev pub rows :
    (PartyId → Word) → (PartyId → Word) → (PartyId → Word) → PartyId → Row (Word × Word)
rows x y alibi id = record { x = correlated x id; y = correlated y id; alibi = correlated alibi id }

module _ (net : Backend) where
  -- The circuit replaces an address exactly when its bit `log_n` is set: the result is a consistent
  -- sharing of the replacement in that case, and of the address otherwise.
  pub replace_if_dummy_circuit-Opens :
      (x replacement : Shared) (v w : Word) (log_n : ℕ)
      → Opens x v
      → Opens replacement w
      → Opens (replace_if_dummy_circuit net x replacement log_n) (if v log_n then w else v)
  unfolding replace_if_dummy_circuit
  replace_if_dummy_circuit-Opens x replacement v w log_n hx hr =
      let mask = bit_to_binary_mask-Opens _ _ (get_bit-Opens x v log_n hx) in
      let selected = net.and_opens _ _ _ _ mask (xor_share-Opens x replacement v w hx hr) in
      subst (λ (t : Word). Opens (replace_if_dummy_circuit net x replacement log_n) t)
        (chosen (v log_n) v w) (xor_share-Opens x _ v _ hx selected)

  -- For an address, a queried address, a value and an alibi that open to `v`, `q`, `w` and `e`, the
  -- circuit gives a shared bit that is set exactly when the two addresses agree in all their 32
  -- bits, and shared columns that open to `v`, `w` and `e` if it is set and to zero if not.
  pub xy_if_xs_equal_circuit-Opens :
      (x x_query y alibi : Shared) (v q w e : Word) (seed_zero : ℕ → PartyId → Word)
      (seed_x seed_y seed_alibi : PartyId → Word)
      → Opens x v
      → Opens x_query q
      → Opens y w
      → Opens alibi e
      → let (row, found) =
          xy_if_xs_equal_circuit net x x_query y alibi
            (λ k. correlated (seed_zero k))
            (rows seed_x seed_y seed_alibi) in
        (b : Word) × Opens found b
        × ((b 0 ≡ true) ↔ ((i : ℕ) → i < 32 → v i ≡ q i))
        × Opens row.x ((λ i. b 0) ⊗ v)
        × Opens row.y ((λ i. b 0) ⊗ w)
        × Opens row.alibi ((λ i. b 0) ⊗ e)
  unfolding xy_if_xs_equal_circuit cmux_many_custom
  xy_if_xs_equal_circuit-Opens x x_query y alibi v q w e sz sx sy sa hx hq hy ha =
      let (b, hb, exact) =
        is_zero_many-Opens net sz u32 _ _ (xor_share-Opens x x_query v q hx hq) in
      (
        b,
        hb,
        (
          λ set i lt. agree (v i) (q i) (exact.0 set i lt),
          λ same. exact.1 (λ i lt. agree_back (v i) (q i) (same i lt)),
        ),
        cmux_column-Opens net _ x b v sx hb hx,
        cmux_column-Opens net _ y b w sy hb hy,
        cmux_column-Opens net _ alibi b e sa hb ha,
      )
