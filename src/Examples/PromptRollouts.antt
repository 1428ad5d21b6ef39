-- ===== src/Examples/PromptRollouts.antt =====
-- A rollout of the second version of a prompt, from its creation to its first decisions.
use sentinellm.Prelude.{ℕ, ◌*◌, ◌≡◌, refl, List, [], ◌∷◌, arith}
use sentinellm.Float.Fixed.{ℤ, pos, fixed_float}
use sentinellm.Prompts.Versions.{VersionStatus, PromptVersion}
use sentinellm.Rollout.Operator.{pause, unscoped, contains}
use sentinellm.Rollout.Table.{paused}
use sentinellm.Rollout.Worker.{rollback}
use sentinellm.PromptRollouts.Service.{
  PromptRollout, PromptRolloutCreate, started, create_prompt_rollout, admit_rollout, check_versions,
  get_latest_prompt_rollout, flush_rollout, added, is_consistent,
}
use sentinellm.PromptRollouts.Operator.{operate_on_prompt, get_scoped, act_on_prompt, write_rollout}
use sentinellm.PromptRollouts.Worker.{PromptEvidence, evaluate_prompt_rollout, ruling, retirement}
use sentinellm.PromptRollouts.Decisions.{EnoughRequests}
use sentinellm.PromptRollouts.History.{
  ongoing_count, OneOngoing, starts, acts, Past, none_yet, then_came, Past-OneOngoing,
}

abbrev row : ℕ → VersionStatus → PromptVersion
row version status = record { prompt_id = "p"; version = version; template = ""; status = status }

abbrev num : ℕ → ℤ
num n = pos (n * 10_000)

abbrev wanted : PromptRolloutCreate ℤ
wanted = record {
  application_id = "app";
  prompt_id = "p";
  incumbent_version = 1;
  challenger_version = 2;
  initial_pct = num 10;
  quality_floor = pos 7_000;
  max_quality_regression = pos 1_000;
  max_error_rate = pos 1_000;
  min_sample_size = 10;
  step_pct = num 10;
  max_pct = num 100;
}

abbrev first : PromptRollout ℤ
first = started wanted "r" 100

abbrev served : PromptEvidence ℤ
served = record {
  versions = row 1 VersionStatus.production ∷ row 2 VersionStatus.testing ∷ [];
  traces = [];
  evaluations = [];
}

abbrev withdrawn : PromptEvidence ℤ
withdrawn = record {
  versions = row 1 VersionStatus.production ∷ row 2 VersionStatus.deprecated ∷ [];
  traces = [];
  evaluations = [];
}

falls : ruling (evaluate_prompt_rollout withdrawn 200 first) ≡ rollback ∷ []
unfolding evaluate_prompt_rollout retirement
falls = refl

creates : create_prompt_rollout served.versions [] wanted "r" 100 ≡ added first (first ∷ [])
unfolding create_prompt_rollout admit_rollout check_versions get_latest_prompt_rollout flush_rollout
creates = refl

thin : ¬ EnoughRequests served 200 first
thin (newer, enough) = omega arith

abbrev halted : List (PromptRollout ℤ)
halted = record first { stage = paused } ∷ []

past : Past [] halted
unfolding is_consistent admit_rollout check_versions get_latest_prompt_rollout flush_rollout
    operate_on_prompt get_scoped contains act_on_prompt write_rollout
past =
    then_came (then_came none_yet (starts served.versions [] wanted "r" 100 first refl refl refl))
      (acts pause unscoped "r" 300 (record first { stage = paused }) refl)

no_rollouts : OneOngoing {F = ℤ} []
unfolding ongoing_count
no_rollouts app prompt = omega arith

Past-OneOngoing_example : OneOngoing halted
Past-OneOngoing_example = Past-OneOngoing [] halted no_rollouts past
