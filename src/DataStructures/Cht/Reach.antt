-- ===== src/DataStructures/Cht/Reach.antt =====
-- Reaching one more vertex.
use gigadoram_rs.Base.{
  ℕ, zero, suc, ◌<◌, ◌≤◌, ◌≡◌, refl, ap, ◌∙◌, arith, inl, inr, List, [], ◌∷◌, Bool, true, false,
  Bool-cases, if◌then◌else◌,
}
use gigadoram_rs.DataStructures.Cht.{
  StashState, unvisited, none_state, vertex, is_none_state, update, all_reached,
}
use gigadoram_rs.DataStructures.Cht.Invariant.{
  Has, here, there, hit, miss, update-cases, count_none, Reached,
}

pub Reached-update :
    (pv : ℕ → StashState) (w : ℕ) (x : StashState)
    → is_none_state x ≡ false
    → (v : ℕ) → Reached pv v
    → Reached (update pv w x) v
Reached-update pv w x some_state v r = elim (update-cases pv w x v) [
  | hit e u ↦ ap is_none_state u ∙ some_state
  | miss e u ↦ ap is_none_state u ∙ r
]

count_none-beyond :
    (pv : ℕ → StashState) (w : ℕ) (x : StashState) (n : ℕ)
    → n ≤ w
    → count_none (update pv w x) n ≡ count_none pv n
count_none-beyond pv w x zero h = refl
count_none-beyond pv w x (suc n) h = elim (update-cases pv w x n) [
  | hit e u ↦ absurd (omega arith)
  | miss e u ↦ rw (u, count_none-beyond pv w x n (omega arith))
]

pub count_none-update :
    (pv : ℕ → StashState) (w : ℕ) (x : StashState)
    → is_none_state x ≡ false
    → (n : ℕ) → w < n
    → pv w ≡ none_state
    → suc (count_none (update pv w x) n) ≡ count_none pv n
count_none-update pv w x some_state zero h e = absurd (omega arith)
count_none-update pv w x some_state (suc n) h e = elim (update-cases pv w x n) [
  | hit same u ↦
      rw (u, some_state, ap pv same ∙ e) (omega (arith, count_none-beyond pv w x n (omega arith)))
  | miss other u ↦
      let rest = count_none-update pv w x some_state n (omega arith) e in rw u (omega arith)
]

pub all_reached-update :
    (pe : ℕ → StashState) (w e : ℕ) (cs : List ℕ)
    → all_reached pe cs ≡ true
    → all_reached (update pe w (vertex e)) cs ≡ true
all_reached-update pe w e [] h = refl
all_reached-update pe w e (c ∷ cs) h = elim (Bool-cases (is_none_state (pe c))) [
  | inl out ↦ clash (all_reached pe cs) (is_none_state (pe c)) out h
  | inr found ↦
      rw (Reached-update pe w (vertex e) refl c found)
        (all_reached-update pe w e cs (taken (all_reached pe cs) (is_none_state (pe c)) found h))
]
  where
    clash :
        (r b : Bool)
        → b ≡ true
        → (if b then false else r) ≡ true
        → all_reached (update pe w (vertex e)) (c ∷ cs) ≡ true
    clash r true a k = cc
    clash r false a k = cc

    taken : (r b : Bool) → b ≡ false → (if b then false else r) ≡ true → r ≡ true
    taken r true a k = cc
    taken r false a k = k

pub vertex-inj : {v w : ℕ} → vertex v ≡ vertex w → v ≡ w
vertex-inj h = ap (λ x. elim x [ vertex y ↦ y | _ ↦ zero ]) h

pub unvisited-vertex : {v : ℕ} → unvisited ≡ vertex v → ⊥
unvisited-vertex h = cc

pub fresh_clash : {b : Bool} → b ≡ true → b ≡ false → ⊥
fresh_clash h k = cc

pub under : {v c w : ℕ} {xs : List ℕ} → Has v (c ∷ xs) → Has v (c ∷ w ∷ xs)
under here = here
under (there h) = there (there h)
