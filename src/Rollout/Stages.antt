-- ===== src/Rollout/Stages.antt =====
-- The stages of a rollout and the moves between them.
use sentinellm.Prelude.{ℕ, ◌≡◌, ◌⊎◌, Option, some, arith}
use sentinellm.Float.{Float}
use sentinellm.Tables.{Alert}
use sentinellm.Rollout.Table.{Rollout, Stage, running, paused, promoted, rolled_back}
use sentinellm.Rollout.Operator.{Action, act}
use sentinellm.Rollout.Worker.{Evidence, decided, Decision, evaluate_rollout, settle, rolled}

-- The stage diagram. `promoted` and `rolled_back` have no way out.
infix 40 ◌⟶◌
pub data ◌⟶◌ : Stage → Stage → Type 0 where
  stay : running ⟶ running
  pause : running ⟶ paused
  resume : paused ⟶ running
  promote : running ⟶ promoted
  promote_paused : paused ⟶ promoted
  roll_back : running ⟶ rolled_back
  roll_back_paused : paused ⟶ rolled_back

pub ruleset moves = (stay, pause, resume, promote, promote_paused, roll_back, roll_back_paused)

from_running :
    (s s' : Stage) → s ≡ running → (s' ≡ running) ⊎ ((s' ≡ promoted) ⊎ (s' ≡ rolled_back)) → s ⟶ s'
from_running s s' e h = grind (arith, moves)

-- the columns that no operation writes
pub record SameColumns {F : Type 0} (r r' : Rollout F) : Type 0 where
  pub id : r'.id ≡ r.id
  pub application_id : r'.application_id ≡ r.application_id
  pub incumbent_model : r'.incumbent_model ≡ r.incumbent_model
  pub challenger_model : r'.challenger_model ≡ r.challenger_model
  pub quality_floor : r'.quality_floor ≡ r.quality_floor
  pub max_quality_regression : r'.max_quality_regression ≡ r.max_quality_regression
  pub max_error_rate : r'.max_error_rate ≡ r.max_error_rate
  pub min_sample_size : r'.min_sample_size ≡ r.min_sample_size
  pub step_pct : r'.step_pct ≡ r.step_pct
  pub max_pct : r'.max_pct ≡ r.max_pct
  pub created_at : r'.created_at ≡ r.created_at

module _ {F : Type 0} ⦃fl : Float F⦄ where
  pub act-⟶ :
      (a : Action) (now : ℕ) (r r' : Rollout F)
      → act a now r ≡ some r'
      → (r.stage ⟶ r'.stage) × SameColumns r r'
  unfolding act
  act-⟶ a now r r' h = grind (arith, moves)

  worker_stages :
      (db : Evidence F) (now : ℕ) (r r' : Rollout F) (d : Decision) (alert : Option (Alert F))
      → r.stage ≡ running
      → evaluate_rollout db now r ≡ decided d r' alert
      → (r'.stage ≡ running) ⊎ ((r'.stage ≡ promoted) ⊎ (r'.stage ≡ rolled_back))
  unfolding evaluate_rollout settle rolled
  worker_stages db now r r' d alert e h = ground arith

  worker_columns :
      (db : Evidence F) (now : ℕ) (r r' : Rollout F) (d : Decision) (alert : Option (Alert F))
      → evaluate_rollout db now r ≡ decided d r' alert
      → SameColumns r r'
  unfolding evaluate_rollout settle rolled
  worker_columns db now r r' d alert h = ground arith

  pub evaluate_rollout-⟶ :
      (db : Evidence F) (now : ℕ) (r r' : Rollout F) (d : Decision) (alert : Option (Alert F))
      → r.stage ≡ running
      → evaluate_rollout db now r ≡ decided d r' alert
      → (r.stage ⟶ r'.stage) × SameColumns r r'
  evaluate_rollout-⟶ db now r r' d alert e h = (
    from_running r.stage r'.stage e (worker_stages db now r r' d alert e h),
    worker_columns db now r r' d alert h,
  )
