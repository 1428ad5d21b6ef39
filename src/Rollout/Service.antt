-- ===== src/Rollout/Service.antt =====
-- Creation of a rollout: `get_active_rollout` and `create_rollout` of
-- src/sentinellm/services/rollouts.py, and the validation of its payload.
use sentinellm.Prelude.{
  ℕ, Bool, false, not, ◌&&◌, ◌==◌, String, Option, none, some, List, [], ◌∷◌, ◌++◌, ltb, leb,
  if◌then◌else◌, any, find, keep,
}
use sentinellm.Float.{Float}
use sentinellm.Tables.{Model, is_down}
use sentinellm.Rollout.Table.{Rollout, running, is_active, active_for}

-- The newest of a list of rows, the first of several that are equally new.
module _ {F : Type 0} where
  newer : Rollout F → Option (Rollout F) → Rollout F
  newer r none = r
  newer r (some best) = if ltb r.created_at best.created_at then best else r

  newest : List (Rollout F) → Option (Rollout F)
  unfolding newer
  newest [] = none
  newest (r ∷ rs) = some (newer r (newest rs))

  unfoldable pub get_active_rollout : List (Rollout F) → String → Option (Rollout F)
  unfolding newest
  get_active_rollout rollouts app = newest (keep (λ r. r.application_id == app) rollouts)

pub record RolloutCreate (F : Type 0) : Type 0 where
  pub application_id : String
  pub incumbent_model : String
  pub challenger_model : String
  pub initial_pct : F
  pub quality_floor : F
  pub max_quality_regression : F
  pub max_error_rate : F
  pub min_sample_size : ℕ
  pub step_pct : F
  pub max_pct : F

pub data CreateError : Type 0 where
  model_not_found : String → CreateError
  challenger_down : CreateError
  already_active : CreateError

pub data Created (F : Type 0) : Type 0 where
  created : Rollout F → List (Rollout F) → Created F
  refused : CreateError → Created F

module _ {F : Type 0} ⦃fl : Float F⦄ where
  open fl use {lt, le, decimal}

  -- the field bounds and the `_consistent` validator; lengths of texts are left out
  unfoldable pub is_acceptable : RolloutCreate F → Bool
  is_acceptable p =
      (le (decimal 0 0) p.initial_pct && le p.initial_pct (decimal 100 0))
      && (le (decimal 0 0) p.quality_floor && le p.quality_floor (decimal 1 0))
      && (le (decimal 0 0) p.max_quality_regression && le p.max_quality_regression (decimal 1 0))
      && (le (decimal 0 0) p.max_error_rate && le p.max_error_rate (decimal 1 0))
      && (leb 1 p.min_sample_size && leb p.min_sample_size 1_000_000)
      && (lt (decimal 0 0) p.step_pct && le p.step_pct (decimal 100 0))
      && (lt (decimal 0 0) p.max_pct && le p.max_pct (decimal 100 0))
      && not (p.incumbent_model == p.challenger_model)
      && not (lt p.max_pct p.initial_pct)

module _ {F : Type 0} where
  -- the loop over the two arms: what it finds wrong first
  check_arms : List (Model F) → RolloutCreate F → List String → Option CreateError
  check_arms models p [] = none
  check_arms models p (model_id ∷ rest) =
      let later = check_arms models p rest in
      elim (find (λ m. m.id == model_id) models) [
        | none ↦ some (model_not_found model_id)
        | some pricing ↦
            if model_id == p.challenger_model && is_down pricing.status
            then some challenger_down
            else later
      ]

  abbrev pub new_row : RolloutCreate F → String → ℕ → Rollout F
  new_row p id now = record {
    id = id;
    application_id = p.application_id;
    incumbent_model = p.incumbent_model;
    challenger_model = p.challenger_model;
    traffic_pct = p.initial_pct;
    stage = running;
    quality_floor = p.quality_floor;
    max_quality_regression = p.max_quality_regression;
    max_error_rate = p.max_error_rate;
    min_sample_size = p.min_sample_size;
    step_pct = p.step_pct;
    max_pct = p.max_pct;
    last_evaluated_at = none;
    outcome_reason = none;
    created_at = now;
  }

  -- `session.flush()`: the partial unique index refuses a second active row of an application
  unfoldable pub insert_row : Rollout F → List (Rollout F) → Created F
  insert_row r rollouts =
      if any (active_for r.application_id) rollouts
      then refused already_active
      else created r (rollouts ++ r ∷ [])

  is_ongoing : Option (Rollout F) → Bool
  is_ongoing none = false
  is_ongoing (some r) = is_active r.stage

  -- the checks, made on what the session reads before the insert
  unfoldable pub admit : List (Model F) → List (Rollout F) → RolloutCreate F → Option CreateError
  unfolding check_arms is_ongoing get_active_rollout
  admit models rollouts p =
      elim (check_arms models p (p.incumbent_model ∷ p.challenger_model ∷ [])) [
        | some e ↦ some e
        | none ↦
            if is_ongoing (get_active_rollout rollouts p.application_id)
            then some already_active
            else none
      ]

  -- `id` and `now` are what the column defaults give
  unfoldable pub create_rollout :
      List (Model F) → List (Rollout F) → RolloutCreate F → String → ℕ → Created F
  unfolding admit insert_row
  create_rollout models rollouts p id now = elim (admit models rollouts p) [
    | some e ↦ refused e
    | none ↦ insert_row (new_row p id now) rollouts
  ]
