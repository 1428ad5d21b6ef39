-- ===== src/Rollout/Table.antt =====
-- The `model_rollouts` table of src/sentinellm/db/models.py, and what its rows promise.
use sentinellm.Prelude.{
  ℕ, ◌≡◌, Bool, true, false, ◌&&◌, ◌==◌, String, Option, List, [], ◌∷◌, All, if◌then◌else◌,
}
use sentinellm.Float.{Float}
use sentinellm.Rollout.Policy.{Gate}

pub data Stage : Type 0 where
  running paused promoted rolled_back : Stage

-- `stage == "running"`
abbrev pub is_running : Stage → Bool
is_running running = true
is_running _ = false

abbrev pub is_paused : Stage → Bool
is_paused paused = true
is_paused _ = false

-- `stage in ("running", "paused")`
abbrev pub is_active : Stage → Bool
is_active running = true
is_active paused = true
is_active _ = false

-- `outcome_reason`: which of the texts of the code it is.
pub data Reason : Type 0 where
  model_down : String → Reason
  violated : Gate → Reason
  promoted_after : ℕ → Reason
  advanced_after : ℕ → Reason
  operator_promoted : Reason
  operator_rolled_back : Reason

pub record Rollout (F : Type 0) : Type 0 where
  pub id : String
  pub application_id : String
  pub incumbent_model : String
  pub challenger_model : String
  pub traffic_pct : F
  pub stage : Stage
  pub quality_floor : F
  pub max_quality_regression : F
  pub max_error_rate : F
  pub min_sample_size : ℕ
  pub step_pct : F
  pub max_pct : F
  pub last_evaluated_at : Option ℕ
  pub outcome_reason : Option Reason
  pub created_at : ℕ

module _ {F : Type 0} ⦃fl : Float F⦄ where
  open fl use {le, decimal}

  -- The traffic lies between 0 and the ceiling, which is at most 100; what has been rolled back gets
  -- none, and what has been promoted is at the ceiling. The step is not negative.
  pub record IsValid (r : Rollout F) : Type 0 where
    pub traffic_nonneg : le (decimal 0 0) r.traffic_pct ≡ true
    pub traffic_capped : le r.traffic_pct r.max_pct ≡ true
    pub ceiling_capped : le r.max_pct (decimal 100 0) ≡ true
    pub ceiling_nonneg : le (decimal 0 0) r.max_pct ≡ true
    pub step_nonneg : le (decimal 0 0) r.step_pct ≡ true
    pub rolled_back_zero : r.stage ≡ rolled_back → r.traffic_pct ≡ decimal 0 0
    pub promoted_full : r.stage ≡ promoted → r.traffic_pct ≡ r.max_pct

  abbrev pub AllValid : List (Rollout F) → Type 0
  AllValid = All IsValid

module _ {F : Type 0} where
  -- the session writes a changed row back to the table by its key, which one row has
  unfoldable pub update_row : Rollout F → List (Rollout F) → List (Rollout F)
  update_row r' [] = []
  update_row r' (r ∷ rs) =
      let rest = update_row r' rs in if r.id == r'.id then r' ∷ rs else r ∷ rest

  -- the predicate of the partial unique index `uq_model_rollouts_one_active_per_app`
  abbrev pub active_for : String → Rollout F → Bool
  active_for app r = is_active r.stage && r.application_id == app
