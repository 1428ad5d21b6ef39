-- ===== src/PromptRollouts/Worker.antt =====
-- `evaluate_prompt_rollouts` of src/sentinellm/worker/tasks/prompt_rollout.py.
use sentinellm.Prelude.{
  ℕ, ◌-◌, Bool, not, ◌&&◌, String, Option, none, some, List, [], ◌∷◌, ◌++◌, ltb, leb, if◌then◌else◌,
  find,
}
use sentinellm.Float.{Float}
use sentinellm.Tables.{Trace, Evaluation}
use sentinellm.Prompts.Versions.{PromptVersion, is_version}
use sentinellm.Rollout.Window.{ArmWindow, request_count}
use sentinellm.Rollout.Policy.{Guards, Violation, Verdict, judge_challenger, next_traffic}
use sentinellm.Rollout.Table.{promoted, rolled_back, is_running}
use sentinellm.Rollout.Worker.{Decision, rollback, promote, advance, evaluation_grace}
use sentinellm.PromptRollouts.Service.{
  PromptRollout, PromptReason, version_missing, version_deprecated, gate_broken, full_after,
  stepped_after, is_deprecated, load_prompt_arm_window,
}

-- The alert of a rollback, by what its two texts are made of.
pub record PromptAlert (F : Type 0) : Type 0 where
  pub current_value : F
  pub threshold : F
  pub affected_application : String
  pub affected_prompt : String
  pub affected_version : ℕ

pub data PromptOutcome (F : Type 0) : Type 0 where
  left_alone : PromptOutcome F
  ruled : Decision → PromptRollout F → Option (PromptAlert F) → PromptOutcome F

-- The tables that a pass reads.
pub record PromptEvidence (F : Type 0) : Type 0 where
  pub versions : List PromptVersion
  pub traces : List (Trace F)
  pub evaluations : List (Evaluation F)

-- The table after a pass, the rows it changed, its decisions and its alerts.
pub record PromptPass (F : Type 0) : Type 0 where
  pub rollouts : List (PromptRollout F)
  pub changed : List (PromptRollout F)
  pub decisions : List Decision
  pub alerts : List (PromptAlert F)

module _ {F : Type 0} ⦃fl : Float F⦄ where
  open fl use {decimal, round}

  -- `_rollback`
  unfoldable pub rolled_version : PromptRollout F → PromptReason → PromptRollout F
  rolled_version r reason = record r {
    stage = rolled_back;
    traffic_pct = decimal 0 0;
    outcome_reason = some reason;
  }

  -- `_fire_rollback_alert`
  unfoldable pub version_alert : PromptRollout F → F → F → PromptAlert F
  version_alert r current threshold = record {
    current_value = round current 4;
    threshold = round threshold 4;
    affected_application = r.application_id;
    affected_prompt = r.prompt_id;
    affected_version = r.challenger_version;
  }

  -- why the challenger cannot be served any more
  unfoldable pub retirement : List PromptVersion → PromptRollout F → Option PromptReason
  retirement versions r = elim (find (is_version r.prompt_id r.challenger_version) versions) [
    | none ↦ some version_missing
    | some c ↦ if is_deprecated c.status then some version_deprecated else none
  ]

  -- `rollout.last_evaluated_at or rollout.created_at`
  abbrev pub judged_until : PromptRollout F → ℕ
  judged_until r = elim r.last_evaluated_at [ none ↦ r.created_at | some t ↦ t ]

  abbrev pub version_guards : PromptRollout F → Guards F
  version_guards r = record {
    quality_floor = r.quality_floor;
    max_quality_regression = r.max_quality_regression;
    max_error_rate = r.max_error_rate;
    min_sample_size = r.min_sample_size;
  }

  -- what follows on a verdict, on the row whose cursor has moved
  unfoldable pub rule_on : PromptRollout F → ℕ → Option (Violation F) → PromptOutcome F
  unfolding rolled_version version_alert next_traffic
  rule_on r requests (some v) =
      ruled rollback (rolled_version r (gate_broken v.reason))
        (some (version_alert r v.current v.threshold))
  rule_on r requests none =
      let (traffic, reached_ceiling) = next_traffic r.traffic_pct r.step_pct r.max_pct in
      if reached_ceiling
      then ruled promote
          (record r {
            traffic_pct = traffic;
            stage = promoted;
            outcome_reason = some (full_after requests);
          })
          none
      else ruled advance
          (record r { traffic_pct = traffic; outcome_reason = some (stepped_after requests) }) none

  -- the window of a version, `(since, until]`
  abbrev pub version_window : PromptEvidence F → PromptRollout F → ℕ → ℕ → ArmWindow F
  version_window db r version until =
      load_prompt_arm_window db.traces db.evaluations r.application_id r.prompt_id version
        (judged_until r) (some until)

  abbrev pub version_verdict : PromptEvidence F → PromptRollout F → ℕ → Verdict F
  version_verdict db r until =
      judge_challenger (version_window db r r.challenger_version until)
        (version_window db r r.incumbent_version until) (version_guards r)

  -- the part of the iteration that needs evidence
  unfoldable pub weigh_evidence : PromptEvidence F → PromptRollout F → ℕ → PromptOutcome F
  unfolding rule_on
  weigh_evidence db r until =
      if leb until (judged_until r)
      then left_alone
      else if ltb (request_count (version_window db r r.challenger_version until)) r.min_sample_size
      then left_alone
      else let verdict = version_verdict db r until in
        rule_on (record r { last_evaluated_at = some until }) verdict.requests verdict.violation

  -- one iteration of the loop over the running rollouts, at the time `now`
  unfoldable pub evaluate_prompt_rollout : PromptEvidence F → ℕ → PromptRollout F → PromptOutcome F
  unfolding weigh_evidence retirement
  evaluate_prompt_rollout db now r = elim (retirement db.versions r) [
    | some reason ↦
        ruled rollback (rolled_version (record r { last_evaluated_at = some now }) reason)
          (some (version_alert r (decimal 1 0) (decimal 0 0)))
    | none ↦ weigh_evidence db r (now - evaluation_grace)
  ]

  abbrev pub ruling : PromptOutcome F → List Decision
  ruling left_alone = []
  ruling (ruled d r' alert) = d ∷ []

  abbrev pub ruled_row : PromptRollout F → PromptOutcome F → PromptRollout F
  ruled_row r left_alone = r
  ruled_row r (ruled d r' alert) = r'

  abbrev pub ruled_rows : PromptOutcome F → List (PromptRollout F)
  ruled_rows left_alone = []
  ruled_rows (ruled d r' alert) = r' ∷ []

  abbrev pub fired : PromptOutcome F → List (PromptAlert F)
  fired left_alone = []
  fired (ruled d r' none) = []
  fired (ruled d r' (some a)) = a ∷ []

  -- the query selects the running rows, and skips those that an operator holds locked; `now` is the
  -- clock in a row's iteration
  unfoldable pub evaluate_prompt_rollouts :
      PromptEvidence F → (String → ℕ) → (String → Bool) → List (PromptRollout F) → PromptPass F
  unfolding evaluate_prompt_rollout
  evaluate_prompt_rollouts db now locked [] = record {
    rollouts = [];
    changed = [];
    decisions = [];
    alerts = [];
  }
  evaluate_prompt_rollouts db now locked (r ∷ rs) =
      let rest = evaluate_prompt_rollouts db now locked rs in
      let outcome =
        if is_running r.stage && not (locked r.id)
        then evaluate_prompt_rollout db (now r.id) r
        else left_alone in
      record {
        rollouts = ruled_row r outcome ∷ rest.rollouts;
        changed = ruled_rows outcome ++ rest.changed;
        decisions = ruling outcome ++ rest.decisions;
        alerts = fired outcome ++ rest.alerts;
      }
