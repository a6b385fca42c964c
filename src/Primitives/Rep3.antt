-- ===== src/Primitives/Rep3.antt =====
-- Three-party replicated sharing, as the crates use it through mpc-core and mpc-net. What those
-- libraries do is a parameter, `Backend`, with the behaviour that they document.
mod Party
mod Bits
pub mod Local
pub use Party.*
pub use Bits.*
use gigadoram_rs.Base.{ℕ, ◌≡◌, ap}

-- What one party holds of a shared ring element.
pub record Share : Type 0 where
  pub a : Word
  pub b : Word

-- The shares of all parties, in a run where each party executes the same code.
abbrev pub Shared : Type 0
Shared = PartyId → Share

-- Party `i` holds component `i` and the component of the party before it.
pub record IsConsistent (s : Shared) : Type 0 where
  pub replicated : (id : PartyId) → (s id).b ≡ (s (prev id)).a

abbrev pub opened : Shared → Word
opened s = (s id0).a ⊕ (s id1).a ⊕ (s id2).a

-- The shares are consistent, and their components combine to `v`.
pub record Opens (s : Shared) (v : Word) : Type 0 where
  pub consistent : IsConsistent s
  pub value : opened s ≡ v

-- The equations of an opening, at one bit.
pub Opens-at :
    {s : Shared} {v : Word} (i : ℕ)
    → Opens s v
    → ((s id0).b i ≡ (s id2).a i)
      × ((s id1).b i ≡ (s id0).a i)
      × ((s id2).b i ≡ (s id1).a i)
      × (opened s i ≡ v i)
Opens-at i h = (
  ap (λ (w : Word). w i) (h.consistent.replicated id0),
  ap (λ (w : Word). w i) (h.consistent.replicated id1),
  ap (λ (w : Word). w i) (h.consistent.replicated id2),
  ap (λ (w : Word). w i) h.value,
)

-- What the code takes from mpc-core and mpc-net.
pub record Backend : Type 1 where
  -- `binary::promote_to_trivial_share`: a sharing of a public value.
  pub promote_to_trivial_share : PartyId → Word → Share
  pub promote_opens : (v : Word) → Opens (λ id. promote_to_trivial_share id v) v
  -- `&` on shares: a component of the conjunction, not yet masked.
  pub local_and : Share → Share → Word
  pub local_and_opens :
      (s t : Shared) (v w : Word)
      → Opens s v
      → Opens t w
      → local_and (s id0) (t id0) ⊕ local_and (s id1) (t id1) ⊕ local_and (s id2) (t id2) ≡ v ⊗ w
  -- `!` on shares.
  pub not_share : Share → Share
  pub not_opens :
      (s : Shared) (v : Word) → Opens s v → Opens (λ id. not_share (s id)) (complement v)
  -- `binary::and_vec`, on one pair: a sharing of the conjunction.
  pub and_vec : Shared → Shared → Shared
  pub and_opens : (s t : Shared) (v w : Word) → Opens s v → Opens t w → Opens (and_vec s t) (v ⊗ w)
  -- `Rep3NetworkExt::reshare_many`, on one element: each party sends its element to the next
  -- party and receives that of the previous one.
  pub reshare : {A : Type 0} → (PartyId → A) → PartyId → A
  pub reshare_prev : {A : Type 0} (x : PartyId → A) (id : PartyId) → reshare x id ≡ x (prev id)
