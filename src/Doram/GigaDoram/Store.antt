-- ===== src/Doram/GigaDoram/Store.antt =====
-- The hierarchy as a store: where the record of an address stands.
pub mod Levels
pub mod Walk
pub mod Cache
pub mod Serve
mod Tests
use gigadoram_rs.Base.{
  ℕ, suc, ◌^◌, ◌/◌, ◌<◌, ◌≡◌, ◌≢◌, ◌⊎◌, List, [], ◌∷◌, Option, none, some, Bool, true, false,
  if◌then◌else◌, ◌==◌,
}
use gigadoram_rs.Primitives.Rep3.{Word}
use gigadoram_rs.Primitives.Value.{DoramValue, Record, zero_record}
use gigadoram_rs.DataStructures.SpeedCache.Spec.{AtMostOnce, contains, stored_addrs, cached_record}
use gigadoram_rs.DataStructures.OhTable.Api.{OhTableApi}
use gigadoram_rs.DataStructures.OhTable.Answering.{Entry, missing, present, taken, Answering}
use gigadoram_rs.Doram.GigaDoram.State.{Level, GigaDoram}

module _ {V : Type 0} ⦃d : DoramValue V⦄ (api : OhTableApi V) (answers : Answering api) where
  -- The entry of an address.
  abbrev pub entry_of : api.Table → ℕ → Entry V
  entry_of t x = answers.entry t (api.prf (api.packed_key t) x)

  -- A property of every live table.
  abbrev pub EachTable : (api.Table → Type 0) → Option api.Table → Type 0
  EachTable P none = Unit {0}
  EachTable P (some t) = P t

  abbrev pub AllSound : List (Level api.Table) → Type 0
  AllSound [] = Unit {0}
  AllSound (l ∷ ls) = EachTable answers.Sound l.table × AllSound ls

  -- A record above shadows an address: no table has it, or it has been taken, and then the record's
  -- alibi bit of the level is clear.
  abbrev pub ShadowedTable : ℕ → Bool → api.Table → Type 0
  ShadowedTable x alibi t = (entry_of t x ≡ missing) ⊎ ((entry_of t x ≡ taken) × (alibi ≡ false))

  abbrev pub Shadowed : ℕ → Word → ℕ → List (Level api.Table) → Type 0
  Shadowed x alibi level [] = Unit {0}
  Shadowed x alibi level (l ∷ ls) =
      EachTable (ShadowedTable x (alibi level)) l.table × Shadowed x alibi (suc level) ls

  -- The first level that has an entry for the address holds its value, or none has one and the
  -- value is zero.
  abbrev pub WaitingTable : ℕ → V → (Word → Type 0) → Type 0 → Option api.Table → Type 0
  WaitingTable x v shadowed waiting none = waiting
  WaitingTable x v shadowed waiting (some t) =
      ((entry_of t x ≡ missing) × waiting)
      ⊎ ((r : Record V) × (entry_of t x ≡ present r) × (r.value ≡ v) × shadowed r.alibi)

  abbrev pub Waiting : ℕ → V → ℕ → List (Level api.Table) → Type 0
  Waiting x v level [] = v ≡ d.zero_share
  Waiting x v level (l ∷ ls) =
      WaitingTable x v (λ alibi. Shadowed x alibi (suc level) ls) (Waiting x v (suc level) ls)
        l.table

  -- The hierarchy holds a value for an address: in its cache, or below it.
  pub record Holds (g : GigaDoram api) (x : ℕ) (v : V) : Type 0 where
    pub once : AtMostOnce x (stored_addrs g.speed_cache)
    pub held :
        ((contains x (stored_addrs g.speed_cache) ≡ true)
          × ((cached_record g.speed_cache x).value ≡ v)
          × Shadowed x (cached_record g.speed_cache x).alibi 0 g.levels)
        ⊎ ((contains x (stored_addrs g.speed_cache) ≡ false) × Waiting x v 0 g.levels)

  -- The hierarchy represents a store: a value for each address of its space.
  pub record Represents (g : GigaDoram api) (store : ℕ → V) : Type 0 where
    pub sound : AllSound g.levels
    pub holds : (x : ℕ) → x < 2 ^ g.config.log_address_space_size → Holds g x (store x)

  -- The random tags of an access are nobody's.
  abbrev pub Misses : (ℕ → ℕ) → ℕ → List (Level api.Table) → Type 0
  Misses random level [] = Unit {0}
  Misses random level (l ∷ ls) =
      EachTable (λ t. answers.entry t (random level) ≡ missing) l.table
      × Misses random (suc level) ls

  -- The tags of two addresses differ in every live table.
  abbrev pub Apart : ℕ → ℕ → List (Level api.Table) → Type 0
  Apart x x' [] = Unit {0}
  Apart x x' (l ∷ ls) =
      EachTable
        (λ t. api.prf (api.packed_key t) x' / 2 ^ 32 ≢ api.prf (api.packed_key t) x / 2 ^ 32)
        l.table
      × Apart x x' ls

-- The store with one address written.
abbrev pub written : {V : Type 0} → (ℕ → V) → ℕ → Option V → ℕ → V
written store x none = store
written store x (some y) = λ x'. if x' == x then y else store x'
