-- ===== src/Rollout/Active.antt =====
-- At most one rollout of an application is running or paused, in every history.
use sentinellm.Prelude.{
  ℕ, ◌≤◌, ◌≡◌, ap, inl, inr, Bool-cases, true, false, ◌==◌, eq_iff, String, List, [], ◌∷◌, ◌++◌,
  arith, length, keep, any,
}
use sentinellm.Float.{Float}
use sentinellm.Rollout.Table.{Rollout, active_for}
use sentinellm.Rollout.Service.{new_row}
use sentinellm.Rollout.History.{
  Moved, Evolves, Step, creates, operates, passes, Reach, here, next, insert_row-created,
  operate-Evolves, evaluate_rollouts-Evolves,
}
use sentinellm.Rollout.Terminal.{active_of_move}

module _ {F : Type 0} where
  unfoldable pub active_count : String → List (Rollout F) → ℕ
  active_count app rs = length (keep (active_for app) rs)

  abbrev pub OneActive : List (Rollout F) → Type 0
  OneActive rs = (app : String) → active_count app rs ≤ 1

  active_of_Moved :
      (app : String) (r r' : Rollout F)
      → Moved r r'
      → active_for app r' ≡ true
      → active_for app r ≡ true
  active_of_Moved app r r' (inl e) h = rw (← e) h
  active_of_Moved app r r' (inr (m, c)) h =
      ground (arith, active_of_move m, ap (λ (i : String). i == app) c.application_id)

  pub active_count-Evolves :
      (app : String) (rs rs' : List (Rollout F))
      → Evolves rs rs'
      → active_count app rs' ≤ active_count app rs
  unfolding active_count
  active_count-Evolves app [] [] e = omega arith
  active_count-Evolves app [] (r' ∷ rs') e = absurd e
  active_count-Evolves app (r ∷ rs) [] e = absurd e
  active_count-Evolves app (r ∷ rs) (r' ∷ rs') (m, e) =
      ground (arith, active_of_Moved app r r' m, active_count-Evolves app rs rs' e)

  active_count-append_other :
      (app : String) (r : Rollout F) (rs : List (Rollout F))
      → active_for app r ≡ false
      → active_count app (rs ++ r ∷ []) ≡ active_count app rs
  unfolding active_count
  active_count-append_other app r [] h = rw h
  active_count-append_other app r (x ∷ rs) h = ground (arith, active_count-append_other app r rs h)

  active_count-append_free :
      (app : String) (r : Rollout F) (rs : List (Rollout F))
      → any (active_for app) rs ≡ false
      → active_count app (rs ++ r ∷ []) ≤ 1
  unfolding active_count
  active_count-append_free app r [] h = ground arith
  active_count-append_free app r (x ∷ rs) h = ground (arith, active_count-append_free app r rs)

  active_for-eq : (app : String) (r : Rollout F) → active_for app r ≡ true → app ≡ r.application_id
  active_for-eq app r h = ground (arith, eq_iff r.application_id app)

  insert-OneActive :
      (r : Rollout F) (rs : List (Rollout F))
      → any (active_for r.application_id) rs ≡ false
      → OneActive rs
      → OneActive (rs ++ r ∷ [])
  insert-OneActive r rs free one app = elim (Bool-cases (active_for app r)) [
    | inl mine ↦ rw (active_for-eq app r mine) (active_count-append_free r.application_id r rs free)
    | inr other ↦ rw (active_count-append_other app r rs other) (one app)
  ]

module _ {F : Type 0} ⦃fl : Float F⦄ where
  Step-OneActive : (rs rs' : List (Rollout F)) → Step rs rs' → OneActive rs → OneActive rs'
  Step-OneActive rs rs' (creates models old p id now r ok ad ins) one =
      let (free, same, e) = insert_row-created (new_row p id now) r rs rs' ins in
      rw e (insert-OneActive (new_row p id now) rs free one)
  Step-OneActive rs rs' (operates a scope i now r h) one = λ app.
      omega
        (arith, one app, active_count-Evolves app rs rs' (operate-Evolves a scope i now rs rs' r h))
  Step-OneActive rs rs' (passes db now locked e) one = λ app. rw e (
      omega (
        arith,
        one app,
        active_count-Evolves app rs _ (evaluate_rollouts-Evolves db now locked rs),
      ))

  -- From a table with at most one active rollout per application, every history of creations
  -- (concurrent ones too), operators' actions and worker passes leaves it so.
  pub Reach-OneActive : (rs rs' : List (Rollout F)) → OneActive rs → Reach rs rs' → OneActive rs'
  Reach-OneActive rs rs' one here = one
  Reach-OneActive rs rs' one (next {mid = mid} before step) =
      Step-OneActive mid rs' step (Reach-OneActive rs mid one before)
