-- ===== src/Rollout/Operator.antt =====
-- The state-changing endpoints of src/sentinellm/api/routers/rollouts.py, and the scope of a key from
-- src/sentinellm/api/deps.py.
use sentinellm.Prelude.{
  ℕ, Bool, true, ◌||◌, ◌==◌, String, Option, none, some, List, if◌then◌else◌, find,
}
use sentinellm.Float.{Float}
use sentinellm.Rollout.Table.{
  Rollout, Stage, running, paused, promoted, rolled_back, is_running, is_paused, is_active,
  operator_promoted, operator_rolled_back, update_row,
}

-- `ApplicationScope`: no ids, or the id and the name of the one application
pub data ApplicationScope : Type 0 where
  unscoped : ApplicationScope
  scoped : String → String → ApplicationScope

unfoldable pub contains : ApplicationScope → String → Bool
contains unscoped application_id = true
contains (scoped id name) application_id = application_id == id || application_id == name

-- `HTTPException`: 404, and 400 with the stage that the row is in
pub data HttpError : Type 0 where
  not_found : HttpError
  bad_stage : Stage → HttpError

-- A response, and the table after it.
pub data Reply (F : Type 0) : Type 0 where
  done : Rollout F → List (Rollout F) → Reply F
  fail : HttpError → Reply F

pub data Action : Type 0 where
  pause resume promote rollback : Action

module _ {F : Type 0} where
  in_scope : ApplicationScope → Option (Rollout F) → Option (Rollout F)
  in_scope scope none = none
  in_scope scope (some r) = if contains scope r.application_id then some r else none

  -- `none` is the 404
  unfoldable pub get_scoped_rollout :
      List (Rollout F) → ApplicationScope → String → Option (Rollout F)
  unfolding in_scope contains
  get_scoped_rollout rollouts scope rollout_id =
      in_scope scope (find (λ r. r.id == rollout_id) rollouts)

  abbrev write : List (Rollout F) → Rollout F → Reply F
  write rollouts r = done r (update_row r rollouts)

module _ {F : Type 0} ⦃fl : Float F⦄ where
  open fl use {decimal}

  pause_row : ℕ → Rollout F → Option (Rollout F)
  pause_row now r = if is_running r.stage then some (record r { stage = paused }) else none

  resume_row : ℕ → Rollout F → Option (Rollout F)
  resume_row now r = if is_paused r.stage then some (record r { stage = running }) else none

  promote_row : ℕ → Rollout F → Option (Rollout F)
  promote_row now r =
      if is_active r.stage
      then some (record r {
        stage = promoted;
        traffic_pct = r.max_pct;
        outcome_reason = some operator_promoted;
        last_evaluated_at = some now;
      })
      else none

  rollback_row : ℕ → Rollout F → Option (Rollout F)
  rollback_row now r =
      if is_active r.stage
      then some (record r {
        stage = rolled_back;
        traffic_pct = decimal 0 0;
        outcome_reason = some operator_rolled_back;
        last_evaluated_at = some now;
      })
      else none

  -- the body of the endpoint of an action, on the row that it fetched
  unfoldable pub act : Action → ℕ → Rollout F → Option (Rollout F)
  unfolding pause_row resume_row promote_row rollback_row
  act pause = pause_row
  act resume = resume_row
  act promote = promote_row
  act rollback = rollback_row

  finish : List (Rollout F) → Rollout F → Option (Rollout F) → Reply F
  finish rollouts r none = fail (bad_stage r.stage)
  finish rollouts r (some r') = write rollouts r'

  operate_on : Action → ℕ → List (Rollout F) → Option (Rollout F) → Reply F
  unfolding finish act
  operate_on action now rollouts none = fail not_found
  operate_on action now rollouts (some r) = finish rollouts r (act action now r)

  unfoldable pub operate : Action → ApplicationScope → String → ℕ → List (Rollout F) → Reply F
  unfolding operate_on get_scoped_rollout
  operate action scope rollout_id now rollouts =
      operate_on action now rollouts (get_scoped_rollout rollouts scope rollout_id)
