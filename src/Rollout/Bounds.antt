-- ===== src/Rollout/Bounds.antt =====
-- Every row of the table keeps its traffic between 0 and the ceiling, whatever is done to it.
use sentinellm.Prelude.{
  ℕ, ◌≡◌, refl, inl, inr, Bool, Bool-cases, true, ◌==◌, Option, some, String, List, [], ◌∷◌, arith,
  All-append, find-All,
}
use sentinellm.Float.{Float, IsOrdered}
use sentinellm.Tables.{Alert}
use sentinellm.Rollout.Table.{Rollout, IsValid, AllValid, running, update_row}
use sentinellm.Rollout.Service.{RolloutCreate, is_acceptable, new_row}
use sentinellm.Rollout.Operator.{Action, pause, resume, promote, rollback, act}
use sentinellm.Rollout.Worker.{
  Evidence, Outcome, unchanged, decided, Decision, evaluate_rollout, settle, rolled, row_outcome,
  row_after, evaluate_rollouts,
}
use sentinellm.Rollout.History.{
  Step, creates, operates, passes, Reach, here, next, insert_row-created, operate-done,
  row_outcome-running,
}

module _ {F : Type 0} ⦃fl : Float F⦄ (laws : IsOrdered F) where
  open fl use {le, lt, plus, decimal}
  open laws use {le_self, le_trans, lt-le, lt-eq-not-le, plus_nonneg, decimal_mono}

  -- A row made from an acceptable payload is valid.
  pub new_row-IsValid :
      (p : RolloutCreate F) (id : String) (now : ℕ)
      → is_acceptable p ≡ true
      → IsValid (new_row p id now)
  unfolding is_acceptable
  new_row-IsValid p id now h = ground (
    arith,
    le_self (decimal 0 0) p.initial_pct,
    le_self p.max_pct (decimal 100 0),
    lt-eq-not-le p.max_pct p.initial_pct,
    lt-le (decimal 0 0) p.max_pct,
    lt-le (decimal 0 0) p.step_pct,
  )

  pub act-IsValid :
      (a : Action) (now : ℕ) (r r' : Rollout F) → act a now r ≡ some r' → IsValid r → IsValid r'
  unfolding act
  act-IsValid pause now r r' h v = ground (arith, v.traffic_nonneg)
  act-IsValid resume now r r' h v = ground arith
  act-IsValid promote now r r' h v =
      ground (arith, le_self r.max_pct (decimal 100 0) v.ceiling_capped)
  act-IsValid rollback now r r' h v = ground (arith, decimal_mono 0 0 0 (omega arith))

  -- A decision of the worker keeps the row valid.
  pub evaluate_rollout-IsValid :
      (db : Evidence F) (now : ℕ) (r r' : Rollout F) (d : Decision) (a : Option (Alert F))
      → evaluate_rollout db now r ≡ decided d r' a
      → IsValid r
      → r.stage ≡ running
      → IsValid r'
  unfolding evaluate_rollout settle rolled
  evaluate_rollout-IsValid db now r r' d a h v e = ground (
    arith,
    decimal_mono 0 0 0 (omega arith),
    plus_nonneg r.traffic_pct r.step_pct v.traffic_nonneg v.step_nonneg,
    le_self (decimal 0 0) (plus r.traffic_pct r.step_pct),
    le_self r.max_pct (decimal 100 0) v.ceiling_capped,
    lt-le (plus r.traffic_pct r.step_pct) r.max_pct,
    lt-eq-not-le (plus r.traffic_pct r.step_pct) r.max_pct,
  )

  row-IsValid :
      (db : Evidence F) (now : String → ℕ) (locked : String → Bool) (r : Rollout F)
      → IsValid r
      → IsValid (row_after r (row_outcome db now locked r))
  row-IsValid db now locked r v = go (row_outcome db now locked r) refl
    where
      go : (o : Outcome F) → row_outcome db now locked r ≡ o → IsValid (row_after r o)
      go unchanged e = v
      go (decided d r' a) e =
          let (run, dec) = row_outcome-running db now locked r r' d a e in
          evaluate_rollout-IsValid db (now r.id) r r' d a dec v run

  evaluate_rollouts-AllValid :
      (db : Evidence F) (now : String → ℕ) (locked : String → Bool) (rs : List (Rollout F))
      → AllValid rs
      → AllValid (evaluate_rollouts db now locked rs).rollouts
  unfolding evaluate_rollouts
  evaluate_rollouts-AllValid db now locked [] v = tt
  evaluate_rollouts-AllValid db now locked (r ∷ rs) (v, vs) =
      (row-IsValid db now locked r v, evaluate_rollouts-AllValid db now locked rs vs)

  update_row-AllValid :
      (r' : Rollout F) (rs : List (Rollout F))
      → IsValid r'
      → AllValid rs
      → AllValid (update_row r' rs)
  unfolding update_row
  update_row-AllValid r' [] v vs = tt
  update_row-AllValid r' (r ∷ rs) v (w, vs) = elim (Bool-cases (r.id == r'.id)) [
    | inl same ↦ rw same (v, vs)
    | inr other ↦ rw other (w, update_row-AllValid r' rs v vs)
  ]

  Step-AllValid : (rs rs' : List (Rollout F)) → Step rs rs' → AllValid rs → AllValid rs'
  Step-AllValid rs rs' (creates models old p id now r ok ad ins) vs =
      let (free, same, e) = insert_row-created (new_row p id now) r rs rs' ins in
      rw e (All-append IsValid rs (new_row p id now ∷ []) vs (new_row-IsValid p id now ok, tt))
  Step-AllValid rs rs' (operates a scope i now r' h) vs =
      let (r, e, f, g) = operate-done a scope i now rs rs' r' h in
      rw g (
        update_row-AllValid r' rs
          (act-IsValid a now r r' f (find-All IsValid (λ x. x.id == i) rs r vs e)) vs)
  Step-AllValid rs rs' (passes db now locked e) vs =
      rw e (evaluate_rollouts-AllValid db now locked rs vs)

  -- Whatever is created from acceptable payloads, done by operators and decided by the worker, every
  -- row keeps its traffic between 0 and its ceiling of at most 100 percent; a rolled back row has
  -- traffic 0 and a promoted one has its ceiling.
  pub Reach-AllValid : (rs rs' : List (Rollout F)) → AllValid rs → Reach rs rs' → AllValid rs'
  Reach-AllValid rs rs' vs here = vs
  Reach-AllValid rs rs' vs (next {mid = mid} before step) =
      Step-AllValid mid rs' step (Reach-AllValid rs mid vs before)
