-- ===== src/Doram/GigaDoram/Store/Cache.antt =====
-- The cache over an access: the queried address is retired and written anew, and the others stay.
use gigadoram_rs.Base.{
  ℕ, ◌^◌, ◌<◌, ◌≡◌, ◌≢◌, inl, inr, refl, sym, ap, ap₂, ◌∙◌, subst, arith, List, [], ◌∷◌, ◌++◌, some,
  none, true, false, Bool-cases, ◌==◌, ==_iff, ◌||◌, if◌then◌else◌, length, length-take, length-map,
  drop,
}
use gigadoram_rs.Primitives.Value.{DoramValue, Record, zero_record}
use gigadoram_rs.DataStructures.SpeedCache.{SpeedCache, write}
use gigadoram_rs.DataStructures.SpeedCache.Spec.{
  IsValid, contains, AtMostOnce, pick, mark, stored_addrs, stored_entries, cached_record, or_false,
}
use gigadoram_rs.DataStructures.SpeedCache.Query.{query_lem}
use gigadoram_rs.DataStructures.SpeedCache.Frame.{query_frame}
use gigadoram_rs.DataStructures.SpeedCache.Write.{take-append, write_lem, Appended-cached_record}

pub ne-false : (x y : ℕ) → x ≢ y → (x == y) ≡ false
ne-false x y ne = ground arith

pub self-true : (x : ℕ) → (x == x) ≡ true
self-true x = (==_iff x x).1 refl

contains-mark_self : (s a : ℕ) (xs : List ℕ) → s ≢ a → contains a (mark s a xs) ≡ false
contains-mark_self s a [] ne = refl
contains-mark_self s a (x ∷ xs) ne = elim (Bool-cases (x == a)) [
  | inl at ↦ rw (at, ne-false s a ne) (contains-mark_self s a xs ne)
  | inr elsewhere ↦ rw (elsewhere, elsewhere) (contains-mark_self s a xs ne)
]

AtMostOnce-absent : (a : ℕ) (xs : List ℕ) → contains a xs ≡ false → AtMostOnce a xs
AtMostOnce-absent a [] h = tt
AtMostOnce-absent a (x ∷ xs) h =
    let (elsewhere, rest) = or_false (x == a) (contains a xs) h in
    ((λ _. rest), AtMostOnce-absent a xs rest)

pub pick-absent {ℓ} :
    {A : Type ℓ} (e : A) (a : ℕ) (xs : List ℕ) (ys : List A)
    → contains a xs ≡ false
    → pick e a xs ys ≡ e
pick-absent e a [] ys h = refl
pick-absent e a (x ∷ xs) [] h = refl
pick-absent e a (x ∷ xs) (y ∷ ys) h =
    let (elsewhere, rest) = or_false (x == a) (contains a xs) h in
    rw elsewhere (pick-absent e a xs ys rest)

module _ (s a b : ℕ) (apart : a ≢ b) (real : s ≢ b) where
  contains-mark_other : (xs : List ℕ) → contains b (mark s a xs) ≡ contains b xs
  contains-mark_other [] = refl
  contains-mark_other (x ∷ xs) = elim (Bool-cases (x == a)) [
    | inl at ↦
        rw (at, ne-false s b real, ne-false x b (λ e. apart (sym ((==_iff x a).0 at) ∙ e)))
          (contains-mark_other xs)
    | inr elsewhere ↦ rw elsewhere (ap (λ t. x == b || t) (contains-mark_other xs))
  ]

  AtMostOnce-mark_other : (xs : List ℕ) → AtMostOnce b xs → AtMostOnce b (mark s a xs)
  AtMostOnce-mark_other [] h = tt
  AtMostOnce-mark_other (x ∷ xs) (once, rest) = elim (Bool-cases (x == a)) [
    | inl at ↦
        rw at ((λ there. absurd (real ((==_iff s b).0 there))), AtMostOnce-mark_other xs rest)
    | inr elsewhere ↦
        rw elsewhere ((λ there. contains-mark_other xs ∙ once there), AtMostOnce-mark_other xs rest)
  ]

  pick-mark_other {ℓ} :
      {A : Type ℓ} (e : A) (xs : List ℕ) (ys : List A) → pick e b (mark s a xs) ys ≡ pick e b xs ys
  pick-mark_other e [] ys = refl
  pick-mark_other e (x ∷ xs) [] = refl
  pick-mark_other e (x ∷ xs) (y ∷ ys) = elim (Bool-cases (x == a)) [
    | inl at ↦
        rw (at, ne-false s b real, ne-false x b (λ e. apart (sym ((==_iff x a).0 at) ∙ e)))
          (pick-mark_other e xs ys)
    | inr elsewhere ↦ rw elsewhere (ap (λ t. if x == b then y else t) (pick-mark_other e xs ys))
  ]

-- One more address at the end, which is another one.
module _ (a b : ℕ) (ne : b ≢ a) where
  contains-append_other : (xs : List ℕ) → contains a (xs ++ b ∷ []) ≡ contains a xs
  contains-append_other [] = rw (ne-false b a ne)
  contains-append_other (x ∷ xs) = ap (λ t. x == a || t) (contains-append_other xs)

  AtMostOnce-append_other : (xs : List ℕ) → AtMostOnce a xs → AtMostOnce a (xs ++ b ∷ [])
  AtMostOnce-append_other [] h = ((λ there. refl), tt)
  AtMostOnce-append_other (x ∷ xs) (once, rest) =
      ((λ there. contains-append_other xs ∙ once there), AtMostOnce-append_other xs rest)

  pick-append_other {ℓ} :
      {A : Type ℓ} (e z : A) (xs : List ℕ) (ys : List A)
      → length xs ≡ length ys
      → pick e a (xs ++ b ∷ []) (ys ++ z ∷ []) ≡ pick e a xs ys
  pick-append_other e z [] [] same = rw (ne-false b a ne)
  pick-append_other e z [] (y ∷ ys) same = absurd (omega arith)
  pick-append_other e z (x ∷ xs) [] same = absurd (omega arith)
  pick-append_other e z (x ∷ xs) (y ∷ ys) same =
      ap (λ t. if x == a then y else t) (pick-append_other e z xs ys (omega arith))

AtMostOnce-append_self : (a : ℕ) (xs : List ℕ) → contains a xs ≡ false → AtMostOnce a (xs ++ a ∷ [])
AtMostOnce-append_self a [] h = ((λ there. refl), tt)
AtMostOnce-append_self a (x ∷ xs) h =
    let (elsewhere, rest) = or_false (x == a) (contains a xs) h in
    ((λ there. absurd (clash there elsewhere)), AtMostOnce-append_self a xs rest)
  where
    clash : (x == a) ≡ true → (x == a) ≡ false → ⊥
    clash h k = cc

module _ {V : Type 0} ⦃d : DoramValue V⦄ where
  -- What the cache holds for an address.
  pub record SameAt (c c' : SpeedCache V) (x : ℕ) : Type 0 where
    pub once : AtMostOnce x (stored_addrs c')
    pub contained : contains x (stored_addrs c') ≡ contains x (stored_addrs c)
    pub record_held : cached_record c' x ≡ cached_record c x

  -- The cache after a query for `x` and a write of `r` to it.
  pub record Refreshed (c c' : SpeedCache V) (x : ℕ) (r : Record V) : Type 0 where
    pub once : AtMostOnce x (stored_addrs c')
    pub contained : contains x (stored_addrs c') ≡ true
    pub record_held : cached_record c' x ≡ r
    pub others :
        (x' : ℕ)
        → x ≢ x'
        → 2 ^ c.log_address_space_size ≢ x'
        → AtMostOnce x' (stored_addrs c)
        → SameAt c c' x'

  -- The cache whose queried address is overwritten.
  abbrev pub retired : SpeedCache V → ℕ → SpeedCache V
  retired c x = record c {
    addrs = mark (2 ^ c.log_address_space_size) x (stored_addrs c) ++ drop c.num_stored c.addrs;
  }

  pub retired-IsValid :
      (c : SpeedCache V) (x : ℕ) → IsValid c → AtMostOnce x (stored_addrs c) → IsValid (retired c x)
  retired-IsValid c x v once =
      (query_frame c (retired c x) x _ v (query_lem c x none v once (inl refl))).valid

  stored-retired :
      (c : SpeedCache V) (x : ℕ)
      → IsValid c
      → stored_addrs (retired c x) ≡ mark (2 ^ c.log_address_space_size) x (stored_addrs c)
  stored-retired c x v =
      take-append c.num_stored (mark (2 ^ c.log_address_space_size) x (stored_addrs c))
        (drop c.num_stored c.addrs)
        (omega (
          arith,
          length-map (stored_addrs c) (λ y. if y == x then 2 ^ c.log_address_space_size else y),
          length-take c.num_stored c.addrs,
          v.addrs_length,
          v.stored,
        ))

  pub refresh :
      (c : SpeedCache V) (x : ℕ) (r : Record V)
      → IsValid c
      → c.num_stored < c.length
      → AtMostOnce x (stored_addrs c)
      → x ≢ 2 ^ c.log_address_space_size
      → (c' : SpeedCache V) × (write (retired c x) (x ∷ []) (r ∷ []) ≡ some c') × Refreshed c c' x r
  refresh c x r v room once real =
      let valid = retired-IsValid c x v once in
      let (c', e, appended) =
        write_lem (retired c x) (x ∷ []) (r ∷ []) valid refl room (omega arith) in
      let stored = stored-retired c x v in
      let absent : contains x (stored_addrs (retired c x)) ≡ false =
        ap (contains x) stored
        ∙ contains-mark_self sentinel x (stored_addrs c) (λ same. real (sym same)) in
      let (held, contained) =
        Appended-cached_record (retired c x) c' x (x ∷ []) (r ∷ []) valid absent appended in
      let columns : length (stored_addrs (retired c x)) ≡ length (stored_entries c) = omega (
        arith,
        length-take c.num_stored (retired c x).addrs,
        length-take c.num_stored c.entries,
        valid.addrs_length,
        v.entries_length,
      ) in
      (
        c',
        e,
        record {
          once =
              subst (λ xs. AtMostOnce x xs) (sym appended.addresses)
                (AtMostOnce-append_self x (stored_addrs (retired c x)) absent);
          contained = contained ∙ ap (λ b. b || false) (self-true x);
          record_held = held ∙ ap (λ b. if b then r else zero_record) (self-true x);
          others = λ x' apart other_marker once'. record {
            once =
                subst (λ xs. AtMostOnce x' xs) (sym appended.addresses)
                  (AtMostOnce-append_other x' x apart (stored_addrs (retired c x)) (
                    subst (λ xs. AtMostOnce x' xs) (sym stored)
                      (AtMostOnce-mark_other sentinel x x' apart other_marker (stored_addrs c)
                        once')));
            contained =
                ap (contains x') appended.addresses
                ∙ contains-append_other x' x apart (stored_addrs (retired c x))
                ∙ ap (contains x') stored
                ∙ contains-mark_other sentinel x x' apart other_marker (stored_addrs c);
            record_held =
                ap₂ (pick zero_record x') appended.addresses appended.records
                ∙ pick-append_other x' x apart zero_record r (stored_addrs (retired c x))
                    (stored_entries c) columns
                ∙ ap (λ xs. pick zero_record x' xs (stored_entries c)) stored
                ∙ pick-mark_other sentinel x x' apart other_marker zero_record (stored_addrs c)
                    (stored_entries c);
          };
        },
      )
    where
      sentinel : ℕ
      sentinel = 2 ^ c.log_address_space_size
