-- ===== src/Doram/GigaDoram/Store/Levels.antt =====
-- Levels whose tables have the same entries for an address.
use gigadoram_rs.Base.{ℕ, suc, ◌≡◌, inl, inr, ◌∙◌, List, [], ◌∷◌, Option, none, some, Bool}
use gigadoram_rs.Primitives.Rep3.{Word}
use gigadoram_rs.Primitives.Value.{DoramValue}
use gigadoram_rs.DataStructures.OhTable.Api.{OhTableApi}
use gigadoram_rs.Doram.GigaDoram.State.{Level}
use gigadoram_rs.DataStructures.OhTable.Answering.{Answering}
use gigadoram_rs.Doram.GigaDoram.Store.{
  entry_of, EachTable, ShadowedTable, Shadowed, WaitingTable, Waiting,
}

module _ {V : Type 0} ⦃d : DoramValue V⦄ (api : OhTableApi V) (answers : Answering api) where
  abbrev pub SameTable : ℕ → Option api.Table → Option api.Table → Type 0
  SameTable x none none = Unit {0}
  SameTable x none (some t') = ⊥
  SameTable x (some t) none = ⊥
  SameTable x (some t) (some t') = entry_of api answers t' x ≡ entry_of api answers t x

  abbrev pub Same : ℕ → List (Level api.Table) → List (Level api.Table) → Type 0
  Same x [] [] = Unit {0}
  Same x [] (l' ∷ ls') = ⊥
  Same x (l ∷ ls) [] = ⊥
  Same x (l ∷ ls) (l' ∷ ls') = SameTable x l.table l'.table × Same x ls ls'

  shadowed_table :
      (x : ℕ) (alibi : Bool) (o o' : Option api.Table)
      → SameTable x o o'
      → EachTable api answers (ShadowedTable api answers x alibi) o
      → EachTable api answers (ShadowedTable api answers x alibi) o'
  shadowed_table x alibi none none same h = tt
  shadowed_table x alibi none (some t') same h = elim same [ ]
  shadowed_table x alibi (some t) none same h = elim same [ ]
  shadowed_table x alibi (some t) (some t') same (inl e) = inl (same ∙ e)
  shadowed_table x alibi (some t) (some t') same (inr (e, clear)) = inr (same ∙ e, clear)

  pub Shadowed-Same :
      (x : ℕ) (alibi : Word) (level : ℕ) (ls ls' : List (Level api.Table))
      → Same x ls ls'
      → Shadowed api answers x alibi level ls
      → Shadowed api answers x alibi level ls'
  Shadowed-Same x alibi level [] [] same h = tt
  Shadowed-Same x alibi level [] (l' ∷ ls') same h = elim same [ ]
  Shadowed-Same x alibi level (l ∷ ls) [] same h = elim same [ ]
  Shadowed-Same x alibi level (l ∷ ls) (l' ∷ ls') (same, rest) (h, hs) = (
    shadowed_table x (alibi level) l.table l'.table same h,
    Shadowed-Same x alibi (suc level) ls ls' rest hs,
  )

  waiting_table :
      (x : ℕ) (v : V) (shadowed shadowed' : Word → Type 0) (waiting waiting' : Type 0)
      (o o' : Option api.Table)
      → SameTable x o o'
      → ((alibi : Word) → shadowed alibi → shadowed' alibi)
      → (waiting → waiting')
      → WaitingTable api answers x v shadowed waiting o
      → WaitingTable api answers x v shadowed' waiting' o'
  waiting_table x v shadowed shadowed' waiting waiting' none none same s w h = w h
  waiting_table x v shadowed shadowed' waiting waiting' none (some t') same s w h = elim same [ ]
  waiting_table x v shadowed shadowed' waiting waiting' (some t) none same s w h = elim same [ ]
  waiting_table x v shadowed shadowed' waiting waiting' (some t) (some t') same s w (inl (e, h)) =
      inl (same ∙ e, w h)
  waiting_table x v shadowed shadowed' waiting waiting' (some t) (some t') same s w
        (inr (r, e, is, h)) =
      inr (r, same ∙ e, is, s r.alibi h)

  pub Waiting-Same :
      (x : ℕ) (v : V) (level : ℕ) (ls ls' : List (Level api.Table))
      → Same x ls ls'
      → Waiting api answers x v level ls
      → Waiting api answers x v level ls'
  Waiting-Same x v level [] [] same h = h
  Waiting-Same x v level [] (l' ∷ ls') same h = elim same [ ]
  Waiting-Same x v level (l ∷ ls) [] same h = elim same [ ]
  Waiting-Same x v level (l ∷ ls) (l' ∷ ls') (same, rest) h =
      waiting_table x v (λ alibi. Shadowed api answers x alibi (suc level) ls)
        (λ alibi. Shadowed api answers x alibi (suc level) ls')
        (Waiting api answers x v (suc level) ls) (Waiting api answers x v (suc level) ls') l.table
        l'.table same (λ alibi. Shadowed-Same x alibi (suc level) ls ls' rest)
        (Waiting-Same x v (suc level) ls ls' rest) h
