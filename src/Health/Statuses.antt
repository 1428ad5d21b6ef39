-- ===== src/Health/Statuses.antt =====
-- What a pass of the health monitor leaves of each model, and what it never touches.
use sentinellm.Prelude.{
  ℕ, zero, suc, ◌≡◌, refl, ◌∙◌, inl, inr, Bool-cases, true, false, eq_refl, some, List, [], ◌∷◌,
  get_elem?, ltb, arith, ap, if◌then◌else◌, String,
}
use mathlib.Core.Option
use sentinellm.Float.{Float}
use sentinellm.Tables.{Trace, Model, ModelStatus, healthy, degraded, down, is_down, measured}
use sentinellm.Health.Evidence.{Tally, tally}
use sentinellm.Health.Monitor.{
  min_sample, same_status, same_reason, kept, status_for, error_rate_of, check_model, check_row,
  row_of, check_rows, evaluate_model_health,
}

same_status-eq : (a b : ModelStatus) → same_status a b ≡ true → a ≡ b
same_status-eq a b h = ground arith

same_status_refl : (a : ModelStatus) → same_status a a ≡ true
same_status_refl healthy = refl
same_status_refl degraded = refl
same_status_refl down = refl

same_reason_refl : (p : String) (n : ℕ) → same_reason (some (measured p n)) (measured p n) ≡ true
same_reason_refl p n = ground (arith, eq_refl p)

module _ {F : Type 0} ⦃fl : Float F⦄ where
  open fl use {decimal, le}

  -- The status that the evidence calls for: with too little of it a model that is down becomes
  -- degraded and any other stays as it is.
  abbrev pub called_for : Tally → Model F → ModelStatus
  called_for t row =
      if ltb (t.requests row.id) min_sample
      then (if is_down row.status then degraded else row.status)
      else status_for (error_rate_of {F = F} t row.id)

  check_model-status :
      (t : Tally) (row : Model F) → (row_of row (check_model t row)).status ≡ called_for t row
  unfolding check_model
  check_model-status t row =
      ground (arith, same_status-eq row.status (status_for (error_rate_of {F = F} t row.id)))

  check_model-again :
      (t : Tally) (row : Model F) → check_model t (row_of row (check_model t row)) ≡ kept
  unfolding check_model
  check_model-again t row = ground (
    arith,
    same_status_refl (status_for (error_rate_of {F = F} t row.id)),
    same_reason_refl (fl.percent (error_rate_of t row.id)) (t.requests row.id),
  )

  check_rows-at :
      (t : Tally) (rows : List (Model F)) (k : ℕ) (row : Model F)
      → get_elem? rows k ≡ some row
      → get_elem? (check_rows t rows).models k ≡ some (row_of row (check_row t row))
  unfolding check_rows
  check_rows-at t [] k row h = absurd (cc h)
  check_rows-at t (x ∷ rows) zero row h = ground arith
  check_rows-at t (x ∷ rows) (suc k) row h = check_rows-at t rows k row h

  check_row-auto :
      (t : Tally) (row : Model F) → row.status_auto ≡ true → check_row t row ≡ check_model t row
  unfolding check_row
  check_row-auto t row h = ground arith

  check_row_pinned : (t : Tally) (row : Model F) → row.status_auto ≡ false → check_row t row ≡ kept
  unfolding check_row
  check_row_pinned t row h = ground arith

  check_model-auto :
      (t : Tally) (row : Model F) → (row_of row (check_model t row)).status_auto ≡ row.status_auto
  unfolding check_model
  check_model-auto t row = ground arith

  -- the status of a model that is managed automatically, after a pass
  pub evaluate_model_health-called_for :
      (traces : List (Trace F)) (now : ℕ) (models : List (Model F)) (k : ℕ) (row : Model F)
      → get_elem? models k ≡ some row
      → row.status_auto ≡ true
      → Option.map
          (λ (x : Model F). x.status)
          (get_elem? (evaluate_model_health traces now models).models k)
        ≡ some (called_for (tally traces now) row)
  unfolding evaluate_model_health
  evaluate_model_health-called_for traces now models k row h auto =
      rw
        (
          check_rows-at (tally traces now) models k row h,
          check_row-auto (tally traces now) row auto,
        )
        (ap some (check_model-status (tally traces now) row))

  -- A row that is not managed automatically is left as it is by every pass, in its place.
  pub evaluate_model_health_pinned :
      (traces : List (Trace F)) (now : ℕ) (models : List (Model F)) (k : ℕ) (row : Model F)
      → get_elem? models k ≡ some row
      → row.status_auto ≡ false
      → get_elem? (evaluate_model_health traces now models).models k ≡ some row
  unfolding evaluate_model_health
  evaluate_model_health_pinned traces now models k row h auto = rw (
    check_rows-at (tally traces now) models k row h,
    check_row_pinned (tally traces now) row auto,
  )

  check_row_again : (t : Tally) (row : Model F) → check_row t (row_of row (check_row t row)) ≡ kept
  check_row_again t row = elim (Bool-cases row.status_auto) [
    | inl auto ↦
        let same : (row_of row (check_model t row)).status_auto ≡ true =
          check_model-auto t row ∙ auto in
        rw (check_row-auto t row auto)
          (check_row-auto t (row_of row (check_model t row)) same ∙ check_model-again t row)
    | inr pinned ↦ rw (check_row_pinned t row pinned) (check_row_pinned t row pinned)
  ]

  -- A second pass on the same evidence changes nothing and counts no transition.
  pub check_rows_again :
      (t : Tally) (rows : List (Model F))
      → check_rows t (check_rows t rows).models
        ≡ record { models = (check_rows t rows).models; changed = []; transitions = [] }
  unfolding check_rows
  check_rows_again t [] = refl
  check_rows_again t (row ∷ rows) = rw (check_row_again t row, check_rows_again t rows)
