-- ===== src/Doram/GigaDoram/Target.antt =====
-- Walks over the levels of the hierarchy: how far a rebuild goes, what it collects, and what it
-- deletes. The vectors have `num_levels` entries, so a loop over level numbers is a walk over them.
use gigadoram_rs.Base.{
  ℕ, zero, suc, ◌-◌, ◌^◌, List, [], ◌∷◌, ◌++◌, Option, none, some, Bool, true, false, not, ◌==◌,
  ltb, leb, ◌&&◌, if◌then◌else◌, length, resize, ◌>>=◌, ◌>>◌, ensure,
}
use gigadoram_rs.Primitives.Value.{DoramValue, Record, zero_record}
use gigadoram_rs.DataStructures.OhTable.Api.{OhTableApi}
use gigadoram_rs.Doram.Config.{GigaDoramConfig, amp_factor}
use gigadoram_rs.Doram.GigaDoram.State.{Level, num_elements_at}

abbrev pub is_some {ℓ} : {A : Type ℓ} → Option A → Bool
is_some none = false
is_some (some x) = true

-- `rebuild_target`, from a level on: the level to rebuild, and whether its table is collected too.
-- The last entry is the bottom level.
unfoldable pub rebuild_target : {T : Type 0} → ℕ → ℕ → List (Level T) → Option (ℕ × Bool)
rebuild_target amp level [] = none
rebuild_target amp level (l ∷ []) = some (level, not (l.digit == 0))
rebuild_target amp level (l ∷ m ∷ ls) =
    if ltb l.digit (amp - 1)
    then some (level, is_some l.table)
    else rebuild_target amp (suc level) (m ∷ ls)

-- `delete_level`.
unfoldable pub delete_level : {T : Type 0} → GigaDoramConfig → ℕ → Level T → Level T
delete_level c level l = record l {
  table = none;
  digit = if ltb level (c.num_levels - 1) && (l.digit == amp_factor c - 1) then 0 else l.digit;
}

-- `delete_level` for `count` levels from `level` on.
unfoldable pub delete_levels :
    {T : Type 0} → GigaDoramConfig → ℕ → ℕ → List (Level T) → List (Level T)
unfolding delete_level
delete_levels c level zero ls = ls
delete_levels c level (suc count) [] = []
delete_levels c level (suc count) (l ∷ ls) =
    delete_level c level l ∷ delete_levels c (suc level) count ls

-- The packed keys of the live levels, in order.
abbrev pub live_keys : {V : Type 0} (api : OhTableApi V) → List (Level api.Table) → List api.Key
live_keys api [] = []
live_keys api (l ∷ ls) = elim l.table [
  | none ↦ live_keys api ls
  | some t ↦ api.packed_key t ∷ live_keys api ls
]

module _ {V : Type 0} ⦃d : DoramValue V⦄ (api : OhTableApi V) where
  -- The collecting loop over `count` levels from `level` on: what each live level gives back is
  -- appended, padded with dummies to the level's number of elements.
  unfoldable pub extract_levels :
      GigaDoramConfig
      → ℕ
      → ℕ
      → List (Level api.Table)
      → List ℕ
      → List (Record V)
      → Option (List ℕ × List (Record V))
  extract_levels c level zero ls xs ys = some (xs, ys)
  extract_levels c level (suc count) [] xs ys = none
  extract_levels c level (suc count) (l ∷ ls) xs ys = elim l.table [
    | none ↦ extract_levels c (suc level) count ls xs ys
    | some t ↦ do
      (level_xs, level_ys) ← api.extract t
      let size = num_elements_at c level l.digit
      ensure (leb (length level_xs) size)
      ensure (leb (length level_ys) size)
      extract_levels c (suc level) count ls
          (xs ++ resize size (2 ^ c.log_address_space_size) level_xs)
          (ys ++ resize size zero_record level_ys)
  ]
