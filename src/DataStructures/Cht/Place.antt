-- ===== src/DataStructures/Cht/Place.antt =====
-- The placement: a block that is not stashed is written to its vertex, where no later block is
-- written, and the stash is filled from left to right with blocks of the input.
use gigadoram_rs.Base.{
  some-inj, ℕ, zero, suc, ◌+◌, ◌-◌, ◌<◌, ◌≤◌, ◌≡◌, ◌≢◌, refl, sym, ap, subst, ◌∙◌, arith, ◌⊎◌, inl,
  inr, List, ◌∷◌, some, get_elem?, length, set, length-set, get_elem?-set_self, get_elem?-set_ne,
}
use gigadoram_rs.Primitives.Utils.{low_u32}
use gigadoram_rs.DataStructures.Cht.{StashState, vertex, update, Placement}
use gigadoram_rs.DataStructures.Cht.Invariant.{hit, miss, update-cases, update_hit, update_miss}

module _ (state : ℕ → StashState) where
  -- What placing the blocks from `edge` on does.
  pub record Result (edge : ℕ) (xs : List ℕ) (p q : Placement) : Type 0 where
    pub deficit : q.stash_deficit ≡ 0
    pub full : q.num_stashed ≡ length q.stash_indices
    pub size : length q.stash_indices ≡ length p.stash_indices
    pub grows : p.num_stashed ≤ q.num_stashed
    pub table_kept : (v : ℕ) → ((e : ℕ) → edge ≤ e → state e ≢ vertex v) → q.table v ≡ p.table v
    pub stash_kept :
        (k : ℕ) → k < p.num_stashed → get_elem? q.stash_indices k ≡ get_elem? p.stash_indices k
    pub found :
        (i x : ℕ)
        → get_elem? xs i ≡ some x
        → ((v : ℕ) × (state (edge + i) ≡ vertex v) × (q.table v ≡ x))
          ⊎ ((k : ℕ) × (get_elem? q.stash_indices k ≡ some (low_u32 x)))
    pub origin :
        (w : ℕ)
        → (q.table w ≡ p.table w)
          ⊎ ((i : ℕ) × (x : ℕ) × (get_elem? xs i ≡ some x)
              × (state (edge + i) ≡ vertex w)
              × (q.table w ≡ x))
    pub slot : ℕ → ℕ
    pub slots :
        (k : ℕ)
        → p.num_stashed ≤ k
        → k < q.num_stashed
        → (edge ≤ slot k)
          × ((x : ℕ) × (get_elem? xs (slot k - edge) ≡ some x)
              × (get_elem? q.stash_indices k ≡ some (low_u32 x)))
    pub slots_inj :
        (k k' : ℕ)
        → p.num_stashed ≤ k
        → k < q.num_stashed
        → p.num_stashed ≤ k'
        → k' < q.num_stashed
        → slot k ≡ slot k'
        → k ≡ k'
    -- The vertex of a block in the stash keeps what it had.
    pub slot_vertex :
        (k w : ℕ)
        → p.num_stashed ≤ k
        → k < q.num_stashed
        → state (slot k) ≡ vertex w
        → q.table w ≡ p.table w

  module _ (edge x : ℕ) (xs : List ℕ) (p q : Placement) where
    abbrev pub in_stash : ℕ → Placement
    in_stash deficit = record p {
      stash_indices = set p.stash_indices p.num_stashed (low_u32 x);
      num_stashed = suc p.num_stashed;
      stash_deficit = deficit;
    }

    -- A block that is placed later, counted from this one.
    later_origin :
        {t : ℕ} {w : ℕ}
        → (q.table w ≡ t)
          ⊎ ((i : ℕ) × (y : ℕ) × (get_elem? xs i ≡ some y)
              × (state (suc edge + i) ≡ vertex w)
              × (q.table w ≡ y))
        → (q.table w ≡ t)
          ⊎ ((i : ℕ) × (y : ℕ) × (get_elem? (x ∷ xs) i ≡ some y)
              × (state (edge + i) ≡ vertex w)
              × (q.table w ≡ y))
    later_origin (inl same) = inl same
    later_origin {w = w} (inr (i, y, found, at, stored)) = inr (
      suc i,
      y,
      found,
      subst (λ (n : ℕ). state n ≡ vertex w) {x = suc edge + i} (omega arith) at,
      stored,
    )

    module _ (alone : (e e' v : ℕ) → state e ≡ vertex v → state e' ≡ vertex v → e ≡ e')
        (deficit : ℕ) (room : p.num_stashed < length p.stash_indices)
        (rest : Result (suc edge) xs (in_stash deficit) q) where
      own_slot : get_elem? q.stash_indices p.num_stashed ≡ some (low_u32 x)
      own_slot =
          rest.stash_kept p.num_stashed (omega arith)
          ∙ get_elem?-set_self p.stash_indices p.num_stashed (low_u32 x) room

      put_found :
          (i y : ℕ)
          → get_elem? (x ∷ xs) i ≡ some y
          → ((v : ℕ) × (state (edge + i) ≡ vertex v) × (q.table v ≡ y))
            ⊎ ((k : ℕ) × (get_elem? q.stash_indices k ≡ some (low_u32 y)))
      put_found zero y h = inr (p.num_stashed, own_slot ∙ ap (λ z. some (low_u32 z)) (some-inj h))
      put_found (suc i) y h = elim (rest.found i y h) [
        | inl (v, at, t) ↦
            inl (v, subst (λ (n : ℕ). state n ≡ vertex v) {x = suc edge + i} (omega arith) at, t)
        | inr k ↦ inr k
      ]

      put_slots :
          (k : ℕ)
          → p.num_stashed ≤ k
          → k < q.num_stashed
          → (edge ≤ update rest.slot p.num_stashed edge k)
            × ((y : ℕ) × (get_elem? (x ∷ xs) (update rest.slot p.num_stashed edge k - edge)
                  ≡ some y)
                × (get_elem? q.stash_indices k ≡ some (low_u32 y)))
      put_slots k le lt = elim (update-cases rest.slot p.num_stashed edge k) [
        | hit same u ↦ (
          omega (arith, u),
          (
            x,
            subst (λ (n : ℕ). get_elem? (x ∷ xs) n ≡ some x) {x = 0} (omega (arith, u)) refl,
            subst (λ (n : ℕ). get_elem? q.stash_indices n ≡ some (low_u32 x)) (sym same) own_slot,
          ),
        )
        | miss other u ↦
            let (after, (y, at, stored)) = rest.slots k (omega (arith, other, le)) lt in
            (
              omega (arith, u, after),
              (
                y,
                subst (λ (n : ℕ). get_elem? (x ∷ xs) n ≡ some y) {x = suc (rest.slot k - suc edge)}
                    (omega (arith, u, after)) at,
                stored,
              ),
            )
      ]

      put_slots_inj :
          (k k' : ℕ)
          → p.num_stashed ≤ k
          → k < q.num_stashed
          → p.num_stashed ≤ k'
          → k' < q.num_stashed
          → update rest.slot p.num_stashed edge k ≡ update rest.slot p.num_stashed edge k'
          → k ≡ k'
      put_slots_inj k k' le lt le' lt' h = elim (update-cases rest.slot p.num_stashed edge k) [
        | hit same u ↦ elim (update-cases rest.slot p.num_stashed edge k') [
          | hit same' u' ↦ same ∙ sym same'
          | miss other' u' ↦
              absurd (omega (arith, h, u, u', (rest.slots k' (omega (arith, other', le')) lt').0))
        ]
        | miss other u ↦ elim (update-cases rest.slot p.num_stashed edge k') [
          | hit same' u' ↦
              absurd (omega (arith, h, u, u', (rest.slots k (omega (arith, other, le)) lt).0))
          | miss other' u' ↦
              rest.slots_inj k k' (omega (arith, other, le)) lt (omega (arith, other', le')) lt'
                (sym u ∙ h ∙ u')
        ]
      ]

      put_slot_vertex :
          (k w : ℕ)
          → p.num_stashed ≤ k
          → k < q.num_stashed
          → state (update rest.slot p.num_stashed edge k) ≡ vertex w
          → q.table w ≡ p.table w
      put_slot_vertex k w le lt at = elim (update-cases rest.slot p.num_stashed edge k) [
        | hit same u ↦
            let own = ap state (sym u) ∙ at in
            rest.table_kept w
              (λ e after there. absurd (omega (arith, after, alone e edge w there own)))
        | miss other u ↦ rest.slot_vertex k w (omega (arith, other, le)) lt (ap state (sym u) ∙ at)
      ]

      pub put-Result : Result edge (x ∷ xs) p q
      put-Result = record {
        deficit = rest.deficit;
        full = rest.full;
        size = rest.size ∙ length-set p.stash_indices p.num_stashed (low_u32 x);
        grows = omega (arith, rest.grows);
        table_kept = λ v h. rest.table_kept v (λ e le. h e (omega (arith, le)));
        stash_kept = λ k lt.
            rest.stash_kept k (omega (arith, lt))
            ∙ get_elem?-set_ne p.stash_indices p.num_stashed k (low_u32 x)
                (λ same. absurd (omega (arith, lt, same)));
        found = put_found;
        origin = λ w. later_origin (rest.origin w);
        slot = update rest.slot p.num_stashed edge;
        slots = put_slots;
        slots_inj = put_slots_inj;
        slot_vertex = put_slot_vertex;
      }

    module _ (v : ℕ) (at : state edge ≡ vertex v) (alone : (e : ℕ) → state e ≡ vertex v → e ≡ edge)
        (rest : Result (suc edge) xs (record p { table = update p.table v x }) q) where
      at_found :
          (i y : ℕ)
          → get_elem? (x ∷ xs) i ≡ some y
          → ((w : ℕ) × (state (edge + i) ≡ vertex w) × (q.table w ≡ y))
            ⊎ ((k : ℕ) × (get_elem? q.stash_indices k ≡ some (low_u32 y)))
      at_found zero y h = inl (
        v,
        subst (λ (n : ℕ). state n ≡ vertex v) {x = edge} (omega arith) at,
        rest.table_kept v (λ e le same. absurd (omega (arith, le, alone e same)))
            ∙ update_hit p.table v x
            ∙ some-inj h,
      )
      at_found (suc i) y h = elim (rest.found i y h) [
        | inl (w, there_at, t) ↦
            inl (
              w,
              subst (λ (n : ℕ). state n ≡ vertex w) {x = suc edge + i} (omega arith) there_at,
              t,
            )
        | inr k ↦ inr k
      ]

      at_origin :
          (w : ℕ)
          → (q.table w ≡ p.table w)
            ⊎ ((i : ℕ) × (y : ℕ) × (get_elem? (x ∷ xs) i ≡ some y)
                × (state (edge + i) ≡ vertex w)
                × (q.table w ≡ y))
      at_origin w = elim (later_origin (rest.origin w)) [
        | inr found ↦ inr found
        | inl same ↦ elim (update-cases p.table v x w) [
          | hit at_v u ↦ inr (
            zero,
            x,
            refl,
            subst (λ (n : ℕ). state n ≡ vertex w) {x = edge} (omega arith)
                (at ∙ ap vertex (sym at_v)),
            same ∙ u,
          )
          | miss other u ↦ inl (same ∙ u)
        ]
      ]

      at_slot_vertex :
          (k w : ℕ)
          → p.num_stashed ≤ k
          → k < q.num_stashed
          → state (rest.slot k) ≡ vertex w
          → q.table w ≡ p.table w
      at_slot_vertex k w le lt there =
          rest.slot_vertex k w le lt there
          ∙ update_miss p.table v w x (λ same.
            absurd
              (omega (arith, (rest.slots k le lt).0, alone (rest.slot k) (there ∙ ap vertex same))))

      pub at-Result : Result edge (x ∷ xs) p q
      at-Result = record {
        deficit = rest.deficit;
        full = rest.full;
        size = rest.size;
        grows = rest.grows;
        table_kept = λ w h.
            rest.table_kept w (λ e le. h e (omega (arith, le)))
            ∙ update_miss p.table v w x (λ same. h edge (omega arith) (at ∙ ap vertex (sym same)));
        stash_kept = rest.stash_kept;
        found = at_found;
        origin = at_origin;
        slot = rest.slot;
        slots = λ k le lt.
            let (after, (y, found_at, stored)) = rest.slots k le lt in
            (
              omega (arith, after),
              (
                y,
                subst (λ (n : ℕ). get_elem? (x ∷ xs) n ≡ some y) {x = suc (rest.slot k - suc edge)}
                    (omega (arith, after)) found_at,
                stored,
              ),
            );
        slots_inj = rest.slots_inj;
        slot_vertex = at_slot_vertex;
      }
