-- ===== src/Health/Monitor.antt =====
-- `evaluate_model_health` of src/sentinellm/worker/tasks/model_health.py, and the override of
-- `update_model` of src/sentinellm/api/routers/models.py.
use sentinellm.Prelude.{
  ℕ, Bool, true, false, not, ◌&&◌, ◌||◌, ◌==◌, String, Option, none, some, List, [], ◌∷◌, ◌++◌, eqb,
  ltb, if◌then◌else◌,
}
use sentinellm.Float.{Float}
use sentinellm.Tables.{
  Trace, Model, ModelStatus, healthy, degraded, down, is_down, StatusReason, no_evidence, measured,
}
use sentinellm.Health.Evidence.{Tally, tally}

-- `_MIN_SAMPLE`
abbrev pub min_sample : ℕ
min_sample = 5

abbrev pub same_status : ModelStatus → ModelStatus → Bool
same_status healthy healthy = true
same_status degraded degraded = true
same_status down down = true
same_status _ _ = false

abbrev pub same_reason : Option StatusReason → StatusReason → Bool
same_reason none _ = false
same_reason (some no_evidence) no_evidence = true
same_reason (some no_evidence) (measured _ _) = false
same_reason (some (measured _ _)) no_evidence = false
same_reason (some (measured p n)) (measured q k) = p == q && eqb n k

-- What a pass does to one row: nothing, or a new row and whether its status moved.
pub data Checked (F : Type 0) : Type 0 where
  kept : Checked F
  updated : Model F → Bool → Checked F

module _ {F : Type 0} ⦃fl : Float F⦄ where
  open fl use {decimal, le, over, of_nat, percent}

  -- by `_DOWN_ERROR_RATE` and `_DEGRADED_ERROR_RATE`
  unfoldable pub status_for : F → ModelStatus
  status_for rate =
      if le (decimal 5 1) rate then down else if le (decimal 2 1) rate then degraded else healthy

  abbrev pub error_rate_of : Tally → String → F
  error_rate_of t id = over (of_nat (t.errors id)) (of_nat (t.requests id))

  -- a row with too little evidence: a model that is down is tried again
  half_open : Model F → Checked F
  half_open row =
      if is_down row.status
      then updated (record row { status = degraded; status_reason = some no_evidence }) true
      else kept

  -- a row with its new status and reason
  assign : Model F → ModelStatus → StatusReason → Checked F
  assign row status reason =
      if not (same_status row.status status) || not (same_reason row.status_reason reason)
      then updated (record row { status = status; status_reason = some reason })
          (not (same_status row.status status))
      else kept

  -- one round of the loop, for a row that is managed automatically
  unfoldable pub check_model : Tally → Model F → Checked F
  unfolding half_open assign status_for
  check_model t row =
      if ltb (t.requests row.id) min_sample
      then half_open row
      else assign row (status_for (error_rate_of t row.id))
          (measured (percent (error_rate_of t row.id)) (t.requests row.id))

  -- the query selects the rows that are managed automatically
  unfoldable pub check_row : Tally → Model F → Checked F
  check_row t row = if row.status_auto then check_model t row else kept

module _ {F : Type 0} where
  abbrev pub row_of : Model F → Checked F → Model F
  row_of row kept = row
  row_of row (updated row' moved) = row'

  abbrev pub changed_of : Checked F → List (Model F)
  changed_of kept = []
  changed_of (updated row moved) = row ∷ []

  abbrev pub transitions_of : Checked F → List (String × ModelStatus)
  transitions_of kept = []
  transitions_of (updated row true) = (row.id, row.status) ∷ []
  transitions_of (updated row false) = []

-- The table after a pass, the changed rows and the transitions counted.
pub record HealthPass (F : Type 0) : Type 0 where
  pub models : List (Model F)
  pub changed : List (Model F)
  pub transitions : List (String × ModelStatus)

module _ {F : Type 0} ⦃fl : Float F⦄ where
  unfoldable pub check_rows : Tally → List (Model F) → HealthPass F
  check_rows t [] = record { models = []; changed = []; transitions = [] }
  check_rows t (row ∷ rows) =
      let rest = check_rows t rows in
      let checked = check_row t row in
      record {
        models = row_of row checked ∷ rest.models;
        changed = changed_of checked ++ rest.changed;
        transitions = transitions_of checked ++ rest.transitions;
      }

  unfoldable pub evaluate_model_health : List (Trace F) → ℕ → List (Model F) → HealthPass F
  unfolding check_rows
  evaluate_model_health traces now models = check_rows (tally traces now) models

-- `status` and `status_auto` of `ModelUpdate`, each if the payload sets it
pub record StatusUpdate : Type 0 where
  pub status : Option ModelStatus
  pub status_auto : Option Bool

module _ {F : Type 0} where
  abbrev with_status : Option ModelStatus → Model F → Model F
  with_status none row = row
  with_status (some s) row = record row { status = s }

  abbrev with_auto : Option Bool → Model F → Model F
  with_auto none row = row
  with_auto (some a) row = record row { status_auto = a }

  -- what `update_model` does with the two fields: a status alone pins the row
  unfoldable pub update_model_status : StatusUpdate → Model F → Model F
  update_model_status u row = elim u.status [
    | none ↦ with_auto u.status_auto row
    | some s ↦ elim u.status_auto [
      | some a ↦ with_auto (some a) (with_status (some s) row)
      | none ↦ with_auto (some false) (with_status (some s) (record row { status_reason = none }))
    ]
  ]
