-- ===== src/Rollout/Worker.antt =====
-- `evaluate_rollouts` of src/sentinellm/worker/tasks/rollout.py: one pass of the worker.
use Prim.Native.String
use sentinellm.Prelude.{
  ℕ, ◌-◌, ◌*◌, Bool, false, not, ◌&&◌, ◌==◌, String, Option, none, some, List, [], ◌∷◌, ◌++◌, ltb,
  leb, if◌then◌else◌, find,
}
use sentinellm.Float.{Float}
use sentinellm.Tables.{Trace, Evaluation, Model, Alert, is_down}
use sentinellm.Rollout.Window.{ArmWindow, request_count, load_arm_window}
use sentinellm.Rollout.Policy.{Guards, Violation, Verdict, judge_challenger, next_traffic}
use sentinellm.Rollout.Table.{
  Rollout, promoted, rolled_back, is_running, Reason, model_down, violated, promoted_after,
  advanced_after,
}

-- `_EVALUATION_GRACE`, 15 seconds
abbrev pub evaluation_grace : ℕ
evaluation_grace = 15 * 1_000_000

pub data Decision : Type 0 where
  rollback promote advance : Decision

-- What one iteration does to its row: nothing, or a decision with the new row and the alert fired.
pub data Outcome (F : Type 0) : Type 0 where
  unchanged : Outcome F
  decided : Decision → Rollout F → Option (Alert F) → Outcome F

-- The tables that a pass reads.
pub record Evidence (F : Type 0) : Type 0 where
  pub models : List (Model F)
  pub traces : List (Trace F)
  pub evaluations : List (Evaluation F)

module _ {F : Type 0} ⦃fl : Float F⦄ where
  open fl use {decimal, round}

  -- `_rollback`
  unfoldable pub rolled : Rollout F → Reason → Rollout F
  rolled r reason = record r {
    stage = rolled_back;
    traffic_pct = decimal 0 0;
    outcome_reason = some reason;
  }

  -- `_fire_rollback_alert`
  unfoldable pub rollback_alert : Rollout F → F → F → Alert F
  rollback_alert r current threshold = record {
    rule = "rollout_auto_rollback";
    current_value = round current 4;
    threshold = round threshold 4;
    affected_service = String.◌++◌ "rollout:" r.application_id;
    affected_model = some r.challenger_model;
  }

  pub flagged_down : List (Model F) → String → Bool
  flagged_down models id = elim (find (λ m. m.id == id) models) [
    | none ↦ false
    | some m ↦ is_down m.status
  ]

  -- `unhealthy_model`
  unfoldable pub unhealthy_model : List (Model F) → Rollout F → Option String
  unfolding flagged_down
  unhealthy_model models r =
      if flagged_down models r.challenger_model
      then some r.challenger_model
      else if flagged_down models r.incumbent_model
      then some r.incumbent_model
      else none

  -- `rollout.last_evaluated_at or rollout.created_at`
  abbrev pub cursor : Rollout F → ℕ
  cursor r = elim r.last_evaluated_at [ none ↦ r.created_at | some t ↦ t ]

  abbrev pub guards_of : Rollout F → Guards F
  guards_of r = record {
    quality_floor = r.quality_floor;
    max_quality_regression = r.max_quality_regression;
    max_error_rate = r.max_error_rate;
    min_sample_size = r.min_sample_size;
  }

  -- what follows on a verdict, on the row whose cursor has moved
  pub settle_on : Rollout F → ℕ → Option (Violation F) → Outcome F
  unfolding rolled rollback_alert next_traffic
  settle_on r requests (some v) =
      decided rollback (rolled r (violated v.reason))
        (some (rollback_alert r v.current v.threshold))
  settle_on r requests none =
      let (traffic, reached_ceiling) = next_traffic r.traffic_pct r.step_pct r.max_pct in
      if reached_ceiling
      then decided promote
          (record r {
            traffic_pct = traffic;
            stage = promoted;
            outcome_reason = some (promoted_after requests);
          })
          none
      else decided advance
          (record r { traffic_pct = traffic; outcome_reason = some (advanced_after requests) }) none

  unfoldable pub settle : Rollout F → ℕ → Verdict F → Outcome F
  unfolding settle_on
  settle r until verdict =
      settle_on (record r { last_evaluated_at = some until }) verdict.requests verdict.violation

  -- the windows of the two arms, `(since, until]`
  abbrev pub challenger_window : Evidence F → Rollout F → ℕ → ArmWindow F
  challenger_window db r until =
      load_arm_window db.traces db.evaluations r.application_id r.challenger_model (cursor r)
        (some until)

  abbrev pub incumbent_window : Evidence F → Rollout F → ℕ → ArmWindow F
  incumbent_window db r until =
      load_arm_window db.traces db.evaluations r.application_id r.incumbent_model (cursor r)
        (some until)

  -- the part of the iteration that needs evidence
  pub judge_evidence : Evidence F → Rollout F → ℕ → Outcome F
  judge_evidence db r until =
      if leb until (cursor r)
      then unchanged
      else if ltb (request_count (challenger_window db r until)) r.min_sample_size
      then unchanged
      else settle r until (
          judge_challenger (challenger_window db r until) (incumbent_window db r until)
            (guards_of r))

  pub iterate_on : Evidence F → ℕ → Rollout F → Option String → Outcome F
  unfolding judge_evidence
  iterate_on db now r (some model) =
      decided rollback (rolled (record r { last_evaluated_at = some now }) (model_down model))
        (some (rollback_alert r (decimal 1 0) (decimal 0 0)))
  iterate_on db now r none = judge_evidence db r (now - evaluation_grace)

  -- one iteration of the loop over the running rollouts, at the time `now`
  unfoldable pub evaluate_rollout : Evidence F → ℕ → Rollout F → Outcome F
  unfolding iterate_on unhealthy_model
  evaluate_rollout db now r = iterate_on db now r (unhealthy_model db.models r)

-- The table after the pass, the changed rows, the decisions and the alerts.
pub record Pass (F : Type 0) : Type 0 where
  pub rollouts : List (Rollout F)
  pub changed : List (Rollout F)
  pub decisions : List Decision
  pub alerts : List (Alert F)

module _ {F : Type 0} where
  abbrev pub row_after : Rollout F → Outcome F → Rollout F
  row_after r unchanged = r
  row_after r (decided d r' alert) = r'

  abbrev alert_list : Option (Alert F) → List (Alert F)
  alert_list none = []
  alert_list (some a) = a ∷ []

  abbrev pub changes : Outcome F → List (Rollout F)
  changes unchanged = []
  changes (decided d r' alert) = r' ∷ []

  abbrev pub decisions_of : Outcome F → List Decision
  decisions_of unchanged = []
  decisions_of (decided d r' alert) = d ∷ []

  abbrev pub alerts_of : Outcome F → List (Alert F)
  alerts_of unchanged = []
  alerts_of (decided d r' alert) = alert_list alert

module _ {F : Type 0} ⦃fl : Float F⦄ where
  -- the query selects the running rows, and skips those that an operator holds locked
  unfoldable pub row_outcome : Evidence F → (String → ℕ) → (String → Bool) → Rollout F → Outcome F
  row_outcome db now locked r =
      if is_running r.stage && not (locked r.id)
      then evaluate_rollout db (now r.id) r
      else unchanged

  -- `now` is the clock in a row's iteration
  unfoldable pub evaluate_rollouts :
      Evidence F → (String → ℕ) → (String → Bool) → List (Rollout F) → Pass F
  evaluate_rollouts db now locked [] = record {
    rollouts = [];
    changed = [];
    decisions = [];
    alerts = [];
  }
  evaluate_rollouts db now locked (r ∷ rs) =
      let rest = evaluate_rollouts db now locked rs in
      let outcome = row_outcome db now locked r in
      record {
        rollouts = row_after r outcome ∷ rest.rollouts;
        changed = changes outcome ++ rest.changed;
        decisions = decisions_of outcome ++ rest.decisions;
        alerts = alerts_of outcome ++ rest.alerts;
      }
