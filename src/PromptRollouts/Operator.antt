-- ===== src/PromptRollouts/Operator.antt =====
-- The state-changing endpoints of src/sentinellm/api/routers/prompt_rollouts.py.
use sentinellm.Prelude.{ℕ, ◌==◌, String, Option, none, some, List, [], ◌∷◌, if◌then◌else◌, find}
use sentinellm.Float.{Float}
use sentinellm.Rollout.Table.{
  running, paused, promoted, rolled_back, is_running, is_paused, is_active,
}
use sentinellm.Rollout.Operator.{
  ApplicationScope, contains, HttpError, not_found, bad_stage, Action, pause, resume, promote,
  rollback,
}
use sentinellm.PromptRollouts.Service.{PromptRollout, ended_by}

-- A response, and the table after it.
pub data PromptReply (F : Type 0) : Type 0 where
  replied : PromptRollout F → List (PromptRollout F) → PromptReply F
  failed_with : HttpError → PromptReply F

module _ {F : Type 0} where
  -- `_get_scoped`, where `none` is the 404
  unfoldable pub get_scoped :
      List (PromptRollout F) → ApplicationScope → String → Option (PromptRollout F)
  unfolding contains
  get_scoped rollouts scope rollout_id = elim (find (λ r. r.id == rollout_id) rollouts) [
    | none ↦ none
    | some r ↦ if contains scope r.application_id then some r else none
  ]

  -- the session writes a changed row back to the table by its key
  unfoldable pub write_rollout : PromptRollout F → List (PromptRollout F) → List (PromptRollout F)
  write_rollout r' [] = []
  write_rollout r' (r ∷ rs) =
      let rest = write_rollout r' rs in if r.id == r'.id then r' ∷ rs else r ∷ rest

module _ {F : Type 0} ⦃fl : Float F⦄ where
  open fl use {decimal}

  -- the body of the endpoint of an action, on the row that it fetched
  unfoldable pub act_on_prompt : Action → ℕ → PromptRollout F → Option (PromptRollout F)
  act_on_prompt pause now r =
      if is_running r.stage then some (record r { stage = paused }) else none
  act_on_prompt resume now r =
      if is_paused r.stage then some (record r { stage = running }) else none
  act_on_prompt promote now r =
      if is_active r.stage
      then some (record r {
        stage = promoted;
        traffic_pct = r.max_pct;
        outcome_reason = some (ended_by "manually promoted by operator");
        last_evaluated_at = some now;
      })
      else none
  act_on_prompt rollback now r =
      if is_active r.stage
      then some (record r {
        stage = rolled_back;
        traffic_pct = decimal 0 0;
        outcome_reason = some (ended_by "manually rolled back by operator");
        last_evaluated_at = some now;
      })
      else none

  unfoldable pub operate_on_prompt :
      Action → ApplicationScope → String → ℕ → List (PromptRollout F) → PromptReply F
  unfolding act_on_prompt get_scoped write_rollout
  operate_on_prompt action scope rollout_id now rollouts =
      elim (get_scoped rollouts scope rollout_id) [
        | none ↦ failed_with not_found
        | some r ↦ elim (act_on_prompt action now r) [
          | none ↦ failed_with (bad_stage r.stage)
          | some r' ↦ replied r' (write_rollout r' rollouts)
        ]
      ]
