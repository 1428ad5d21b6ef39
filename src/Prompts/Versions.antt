-- ===== src/Prompts/Versions.antt =====
-- `resolve_prompt_version` and `promote_prompt_version` of src/sentinellm/services/prompts.py.
use sentinellm.Prelude.{
  ℕ, Bool, true, false, ◌&&◌, ◌==◌, String, Option, none, some, List, [], ◌∷◌, find, keep, eqb, ltb,
  if◌then◌else◌,
}
use sentinellm.Float.{Float}

-- `PromptVersion.status`
pub data VersionStatus : Type 0 where
  draft testing production deprecated : VersionStatus

abbrev pub is_production : VersionStatus → Bool
is_production production = true
is_production _ = false

pub record PromptVersion : Type 0 where
  pub prompt_id : String
  pub version : ℕ
  pub template : String
  pub status : VersionStatus

-- The columns of `Experiment` that the gate reads.
pub record Experiment (F : Type 0) : Type 0 where
  pub prompt_id : String
  pub prompt_version : ℕ
  pub pass_rate : F
  pub created_at : ℕ

-- the row of a version of a prompt
abbrev pub is_version : String → ℕ → PromptVersion → Bool
is_version prompt_id version r = r.prompt_id == prompt_id && eqb r.version version

-- `ORDER BY version DESC LIMIT 1`, of a list that starts with `best`
unfoldable pub newest_version : PromptVersion → List PromptVersion → PromptVersion
newest_version best [] = best
newest_version best (r ∷ rs) = newest_version (if ltb best.version r.version then r else best) rs

abbrev newest_of : List PromptVersion → Option PromptVersion
unfolding newest_version
newest_of [] = none
newest_of (r ∷ rs) = some (newest_version r rs)

-- `none` is `PromptNotFoundError`
unfoldable pub resolve_prompt_version :
    List PromptVersion → String → Option ℕ → Option PromptVersion
unfolding newest_of
resolve_prompt_version rows prompt_id (some version) = find (is_version prompt_id version) rows
resolve_prompt_version rows prompt_id none =
    newest_of (keep (λ r. r.prompt_id == prompt_id && is_production r.status) rows)

-- What a promotion comes to: the table after it, or the error.
pub data Promoted : Type 0 where
  promoted : List PromptVersion → Promoted
  not_found : Promoted
  no_experiment : Promoted
  under_threshold : Promoted

module _ {F : Type 0} where
  unfoldable pub latest_from : Experiment F → List (Experiment F) → Experiment F
  latest_from best [] = best
  latest_from best (e ∷ es) = latest_from (if ltb best.created_at e.created_at then e else best) es

  unfoldable pub latest_of : List (Experiment F) → Option (Experiment F)
  unfolding latest_from
  latest_of [] = none
  latest_of (e ∷ es) = some (latest_from e es)

  unfoldable pub latest_experiment : List (Experiment F) → String → ℕ → Option (Experiment F)
  unfolding latest_of
  latest_experiment experiments prompt_id version =
      latest_of (keep (λ e. e.prompt_id == prompt_id && eqb e.prompt_version version) experiments)

-- the loop over the other production versions, and the target's new status
abbrev pub restatus : String → ℕ → PromptVersion → PromptVersion
restatus prompt_id version r =
    if is_version prompt_id version r
    then record r { status = production }
    else if r.prompt_id == prompt_id && is_production r.status
    then record r { status = deprecated }
    else r

unfoldable pub restatus_all : String → ℕ → List PromptVersion → List PromptVersion
restatus_all prompt_id version [] = []
restatus_all prompt_id version (r ∷ rs) =
    restatus prompt_id version r ∷ restatus_all prompt_id version rs

module _ {F : Type 0} ⦃fl : Float F⦄ where
  -- the gate, on the latest experiment
  unfoldable pub passes_gate :
      List PromptVersion → String → ℕ → F → Option (Experiment F) → Promoted
  unfolding restatus_all
  passes_gate rows prompt_id version threshold none = no_experiment
  passes_gate rows prompt_id version threshold (some e) =
      if fl.lt e.pass_rate threshold
      then under_threshold
      else promoted (restatus_all prompt_id version rows)

  unfoldable pub promote_prompt_version :
      List PromptVersion → List (Experiment F) → String → ℕ → F → Promoted
  unfolding passes_gate latest_experiment
  promote_prompt_version rows experiments prompt_id version threshold =
      elim (find (is_version prompt_id version) rows) [
        | none ↦ not_found
        | some target ↦
            passes_gate rows prompt_id version threshold
              (latest_experiment experiments prompt_id version)
      ]
