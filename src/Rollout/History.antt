-- ===== src/Rollout/History.antt =====
-- Histories of the table: creations, operators' actions and passes of the worker, in any order.
use mathlib.Core.List.{append-nil}
use sentinellm.Prelude.{
  ℕ, ◌≡◌, refl, sym, ◌∙◌, subst, ◌⊎◌, inl, inr, Bool, Bool-cases, true, false, ◌==◌, eq_iff, String,
  Option, none, some, Option-cases, List, [], ◌∷◌, ◌++◌, arith, find, any,
}
use sentinellm.Float.{Float}
use sentinellm.Tables.{Model, Alert}
use sentinellm.Rollout.Table.{Rollout, running, active_for, update_row}
use sentinellm.Rollout.Service.{RolloutCreate, is_acceptable, new_row, admit, insert_row, created}
use sentinellm.Rollout.Operator.{Action, ApplicationScope, act, operate, done}
use sentinellm.Rollout.Worker.{
  Evidence, Outcome, unchanged, decided, Decision, evaluate_rollout, row_outcome, row_after,
  evaluate_rollouts,
}
use sentinellm.Rollout.Stages.{◌⟶◌, SameColumns, act-⟶, evaluate_rollout-⟶}

-- A row is as it was, or has moved along the stage diagram.
abbrev pub Moved : {F : Type 0} → Rollout F → Rollout F → Type 0
Moved r r' = (r' ≡ r) ⊎ ((r.stage ⟶ r'.stage) × SameColumns r r')

-- Row by row, in place.
abbrev pub Evolves : {F : Type 0} → List (Rollout F) → List (Rollout F) → Type 0
Evolves [] [] = Unit
Evolves [] (r' ∷ rs') = ⊥
Evolves (r ∷ rs) [] = ⊥
Evolves (r ∷ rs) (r' ∷ rs') = Moved r r' × Evolves rs rs'

module _ {F : Type 0} where
  pub Evolves-refl : (rs : List (Rollout F)) → Evolves rs rs
  Evolves-refl [] = tt
  Evolves-refl (r ∷ rs) = (inl refl, Evolves-refl rs)

  pub find-id :
      (rs : List (Rollout F)) (i : String) (r : Rollout F)
      → find (λ x. x.id == i) rs ≡ some r
      → r.id ≡ i
  find-id [] i r e = absurd (cc e)
  find-id (x ∷ rs) i r e = ground (arith, eq_iff x.id i, find-id rs i r)

  update_row-Evolves :
      (rs : List (Rollout F)) (r r' : Rollout F)
      → find (λ x. x.id == r'.id) rs ≡ some r
      → Moved r r'
      → Evolves rs (update_row r' rs)
  unfolding update_row
  update_row-Evolves [] r r' e m = tt
  update_row-Evolves (x ∷ rs) r r' e m = elim (Bool-cases (x.id == r'.id)) [
    | inl same ↦
        let p : r ≡ x = ground arith in rw same (subst (λ y. Moved y r') p m, Evolves-refl rs)
    | inr other ↦ rw other (inl refl, update_row-Evolves rs r r' (ground arith) m)
  ]

module _ {F : Type 0} ⦃fl : Float F⦄ where
  row-Moved :
      (r : Rollout F) (o : Outcome F)
      → ((d : Decision) (r' : Rollout F) (a : Option (Alert F)) → o ≡ decided d r' a → Moved r r')
      → Moved r (row_after r o)
  row-Moved r unchanged h = inl refl
  row-Moved r (decided d r' a) h = h d r' a refl

  pub row_outcome-running :
      (db : Evidence F) (now : String → ℕ) (locked : String → Bool) (r r' : Rollout F)
      (d : Decision) (a : Option (Alert F))
      → row_outcome db now locked r ≡ decided d r' a
      → (r.stage ≡ running) × (evaluate_rollout db (now r.id) r ≡ decided d r' a)
  unfolding row_outcome
  row_outcome-running db now locked r r' d a h = ground arith

  pub evaluate_rollouts-Evolves :
      (db : Evidence F) (now : String → ℕ) (locked : String → Bool) (rs : List (Rollout F))
      → Evolves rs (evaluate_rollouts db now locked rs).rollouts
  unfolding evaluate_rollouts
  evaluate_rollouts-Evolves db now locked [] = tt
  evaluate_rollouts-Evolves db now locked (r ∷ rs) = (
    row-Moved r (row_outcome db now locked r) (λ d r' a h.
        let (run, e) = row_outcome-running db now locked r r' d a h in
        inr (evaluate_rollout-⟶ db (now r.id) r r' d a run e)),
    evaluate_rollouts-Evolves db now locked rs,
  )

  -- What an answered action did: it found a row, moved it and wrote it back.
  pub operate-done :
      (a : Action) (scope : ApplicationScope) (i : String) (now : ℕ) (rs rs' : List (Rollout F))
      (r' : Rollout F)
      → operate a scope i now rs ≡ done r' rs'
      → (r : Rollout F) × (find (λ x. x.id == i) rs ≡ some r)
        × (act a now r ≡ some r')
        × (rs' ≡ update_row r' rs)
  unfolding operate
  operate-done a scope i now rs rs' r' h = elim (Option-cases (find (λ x. x.id == i) rs)) [
    | inl e ↦ absurd (ground arith)
    | inr (r, e) ↦ (r, e, ground arith, ground arith)
  ]

  pub operate-Evolves :
      (a : Action) (scope : ApplicationScope) (i : String) (now : ℕ) (rs rs' : List (Rollout F))
      (r' : Rollout F)
      → operate a scope i now rs ≡ done r' rs'
      → Evolves rs rs'
  operate-Evolves a scope i now rs rs' r' h =
      let (r, e, f, g) = operate-done a scope i now rs rs' r' h in
      let m = act-⟶ a now r r' f in
      let same : r'.id ≡ i = m.1.id ∙ find-id rs i r e in
      rw g (update_row-Evolves rs r r' (rw same e) (inr m))

  -- A creation appends the new row, and only if the index has room for it.
  pub insert_row-created :
      (r r' : Rollout F) (rs rs' : List (Rollout F))
      → insert_row r rs ≡ created r' rs'
      → (any (active_for r.application_id) rs ≡ false) × (r' ≡ r) × (rs' ≡ rs ++ r ∷ [])
  unfolding insert_row
  insert_row-created r r' rs rs' h = ground arith

  -- One event of the system. A creation was admitted on what its session read, `old`, which other
  -- events may have overtaken: concurrent creations are among the histories.
  pub data Step (rs rs' : List (Rollout F)) : Type 0 where
    creates :
        (models : List (Model F)) (old : List (Rollout F)) (p : RolloutCreate F) (id : String)
        (now : ℕ) (r : Rollout F)
        → is_acceptable p ≡ true
        → admit models old p ≡ none
        → insert_row (new_row p id now) rs ≡ created r rs'
        → Step rs rs'
    operates :
        (a : Action) (scope : ApplicationScope) (i : String) (now : ℕ) (r : Rollout F)
        → operate a scope i now rs ≡ done r rs'
        → Step rs rs'
    passes :
        (db : Evidence F) (now : String → ℕ) (locked : String → Bool)
        → rs' ≡ (evaluate_rollouts db now locked rs).rollouts
        → Step rs rs'

  pub data Reach (rs : List (Rollout F)) : List (Rollout F) → Type 0 where
    here : Reach rs rs
    next : {mid rs' : List (Rollout F)} → Reach rs mid → Step mid rs' → Reach rs rs'

  -- Every event moves rows in place and may append some.
  pub Step-Evolves :
      (rs rs' : List (Rollout F))
      → Step rs rs'
      → (mid : List (Rollout F)) × (tail : List (Rollout F)) × Evolves rs mid × (rs' ≡ mid ++ tail)
  Step-Evolves rs rs' (creates models old p id now r ok ad ins) =
      let (free, same, e) = insert_row-created (new_row p id now) r rs rs' ins in
      (rs, new_row p id now ∷ [], Evolves-refl rs, e)
  Step-Evolves rs rs' (operates a scope i now r h) =
      (rs', [], operate-Evolves a scope i now rs rs' r h, sym (append-nil rs'))
  Step-Evolves rs rs' (passes db now locked e) =
      (rs', [], rw e (evaluate_rollouts-Evolves db now locked rs), sym (append-nil rs'))
