-- ===== src/PromptRollouts/Service.antt =====
-- The `prompt_rollouts` table of src/sentinellm/db/models.py, and src/sentinellm/services/prompt_rollouts.py
-- with the validation of its payload.
use sentinellm.Prelude.{
  ℕ, Bool, false, true, not, ◌&&◌, ◌==◌, String, Option, none, some, List, [], ◌∷◌, ◌++◌, ltb, leb,
  eqb, if◌then◌else◌, any, find, keep,
}
use sentinellm.Float.{Float}
use sentinellm.Tables.{Trace, Evaluation}
use sentinellm.Prompts.Versions.{VersionStatus, PromptVersion, is_version}
use sentinellm.Rollout.Policy.{Gate}
use sentinellm.Rollout.Table.{Stage, running, is_active}
use sentinellm.Rollout.Window.{ArmWindow, load_window}
use sentinellm.Rollout.Arms.{Arm, challenger, incumbent, is_challenger}

-- `outcome_reason`, as the worker writes it; `ended_by` is an operator's text.
pub data PromptReason : Type 0 where
  version_missing : PromptReason
  version_deprecated : PromptReason
  gate_broken : Gate → PromptReason
  full_after : ℕ → PromptReason
  stepped_after : ℕ → PromptReason
  ended_by : String → PromptReason

pub record PromptRollout (F : Type 0) : Type 0 where
  pub id : String
  pub application_id : String
  pub prompt_id : String
  pub incumbent_version : ℕ
  pub challenger_version : ℕ
  pub traffic_pct : F
  pub stage : Stage
  pub quality_floor : F
  pub max_quality_regression : F
  pub max_error_rate : F
  pub min_sample_size : ℕ
  pub step_pct : F
  pub max_pct : F
  pub last_evaluated_at : Option ℕ
  pub outcome_reason : Option PromptReason
  pub created_at : ℕ

pub record PromptRolloutCreate (F : Type 0) : Type 0 where
  pub application_id : String
  pub prompt_id : String
  pub incumbent_version : ℕ
  pub challenger_version : ℕ
  pub initial_pct : F
  pub quality_floor : F
  pub max_quality_regression : F
  pub max_error_rate : F
  pub min_sample_size : ℕ
  pub step_pct : F
  pub max_pct : F

-- `PromptRolloutInputError`, and the two reasons for `PromptRolloutConflictError`
pub data PromptRolloutError : Type 0 where
  version_not_found : ℕ → PromptRolloutError
  challenger_deprecated : PromptRolloutError
  already_rolling : PromptRolloutError

pub data CreatedRollout (F : Type 0) : Type 0 where
  added : PromptRollout F → List (PromptRollout F) → CreatedRollout F
  not_added : PromptRolloutError → CreatedRollout F

abbrev pub is_deprecated : VersionStatus → Bool
is_deprecated VersionStatus.deprecated = true
is_deprecated _ = false

module _ {F : Type 0} where
  abbrev pub is_rollout_of : String → String → PromptRollout F → Bool
  is_rollout_of application_id prompt_id r =
      r.application_id == application_id && r.prompt_id == prompt_id

  later_rollout : PromptRollout F → Option (PromptRollout F) → PromptRollout F
  later_rollout r none = r
  later_rollout r (some best) = if ltb r.created_at best.created_at then best else r

  latest_rollout : List (PromptRollout F) → Option (PromptRollout F)
  unfolding later_rollout
  latest_rollout [] = none
  latest_rollout (r ∷ rs) = some (later_rollout r (latest_rollout rs))

  unfoldable pub get_latest_prompt_rollout :
      List (PromptRollout F) → String → String → Option (PromptRollout F)
  unfolding latest_rollout
  get_latest_prompt_rollout rollouts application_id prompt_id =
      latest_rollout (keep (is_rollout_of application_id prompt_id) rollouts)

  -- the loop over the two versions, and the status of the challenger
  unfoldable pub check_versions :
      List PromptVersion → PromptRolloutCreate F → Option PromptRolloutError
  check_versions versions p = elim (find (is_version p.prompt_id p.incumbent_version) versions) [
    | none ↦ some (version_not_found p.incumbent_version)
    | some i ↦ elim (find (is_version p.prompt_id p.challenger_version) versions) [
      | none ↦ some (version_not_found p.challenger_version)
      | some c ↦ if is_deprecated c.status then some challenger_deprecated else none
    ]
  ]

  is_unfinished : Option (PromptRollout F) → Bool
  is_unfinished none = false
  is_unfinished (some r) = is_active r.stage

  abbrev pub started : PromptRolloutCreate F → String → ℕ → PromptRollout F
  started p id now = record {
    id = id;
    application_id = p.application_id;
    prompt_id = p.prompt_id;
    incumbent_version = p.incumbent_version;
    challenger_version = p.challenger_version;
    traffic_pct = p.initial_pct;
    stage = running;
    quality_floor = p.quality_floor;
    max_quality_regression = p.max_quality_regression;
    max_error_rate = p.max_error_rate;
    min_sample_size = p.min_sample_size;
    step_pct = p.step_pct;
    max_pct = p.max_pct;
    last_evaluated_at = none;
    outcome_reason = none;
    created_at = now;
  }

  -- the predicate of the partial unique index `uq_prompt_rollouts_one_active`
  abbrev pub rolls_out : String → String → PromptRollout F → Bool
  rolls_out application_id prompt_id r =
      is_active r.stage && is_rollout_of application_id prompt_id r

  -- `session.flush()`, which the index may refuse
  unfoldable pub flush_rollout : PromptRollout F → List (PromptRollout F) → CreatedRollout F
  flush_rollout r rollouts =
      if any (rolls_out r.application_id r.prompt_id) rollouts
      then not_added already_rolling
      else added r (rollouts ++ r ∷ [])

  -- the checks, made on what the session reads before the insert
  unfoldable pub admit_rollout :
      List PromptVersion
      → List (PromptRollout F)
      → PromptRolloutCreate F
      → Option PromptRolloutError
  unfolding check_versions is_unfinished get_latest_prompt_rollout
  admit_rollout versions rollouts p = elim (check_versions versions p) [
    | some e ↦ some e
    | none ↦
        if is_unfinished (get_latest_prompt_rollout rollouts p.application_id p.prompt_id)
        then some already_rolling
        else none
  ]

  -- `id` and `now` are what the column defaults give
  unfoldable pub create_prompt_rollout :
      List PromptVersion
      → List (PromptRollout F)
      → PromptRolloutCreate F
      → String
      → ℕ
      → CreatedRollout F
  unfolding admit_rollout flush_rollout
  create_prompt_rollout versions rollouts p id now = elim (admit_rollout versions rollouts p) [
    | some e ↦ not_added e
    | none ↦ flush_rollout (started p id now) rollouts
  ]

-- a nullable column against a value
abbrev is_prompt : String → Option String → Bool
is_prompt prompt_id none = false
is_prompt prompt_id (some p) = p == prompt_id

abbrev has_number : ℕ → Option ℕ → Bool
has_number version none = false
has_number version (some v) = eqb v version

module _ {F : Type 0} where
  unfoldable pub load_prompt_arm_window :
      List (Trace F) → List (Evaluation F) → String → String → ℕ → ℕ → Option ℕ → ArmWindow F
  load_prompt_arm_window traces evaluations application_id prompt_id version since until =
      load_window traces evaluations
        (λ t.
          t.application_id == application_id
          && is_prompt prompt_id t.prompt_id
          && has_number version t.prompt_version)
        since until

module _ {F : Type 0} ⦃fl : Float F⦄ where
  open fl use {lt, le, decimal}

  -- the field bounds and the `_consistent` validator; lengths of texts are left out
  unfoldable pub is_consistent : PromptRolloutCreate F → Bool
  is_consistent p =
      (leb 1 p.incumbent_version && leb p.incumbent_version 2_147_483_647)
      && (leb 1 p.challenger_version && leb p.challenger_version 2_147_483_647)
      && (le (decimal 0 0) p.initial_pct && le p.initial_pct (decimal 100 0))
      && (le (decimal 0 0) p.quality_floor && le p.quality_floor (decimal 1 0))
      && (le (decimal 0 0) p.max_quality_regression && le p.max_quality_regression (decimal 1 0))
      && (le (decimal 0 0) p.max_error_rate && le p.max_error_rate (decimal 1 0))
      && (leb 1 p.min_sample_size && leb p.min_sample_size 1_000_000)
      && (lt (decimal 0 0) p.step_pct && le p.step_pct (decimal 100 0))
      && (lt (decimal 0 0) p.max_pct && le p.max_pct (decimal 100 0))
      && not (eqb p.incumbent_version p.challenger_version)
      && not (lt p.max_pct p.initial_pct)

  -- `draw` is the random number
  unfoldable pub choose_arm : PromptRollout F → F → ℕ × Arm
  unfolding is_challenger
  choose_arm r draw =
      if is_challenger r.traffic_pct draw
      then (r.challenger_version, challenger)
      else (r.incumbent_version, incumbent)
