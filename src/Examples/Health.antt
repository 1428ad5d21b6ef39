-- ===== src/Examples/Health.antt =====
-- A model that fails behind a fallback, and one that an operator took down.
use sentinellm.Prelude.{◌≡◌, refl, Bool, true, false, String, none, some, List, [], ◌∷◌, get_elem?}
use mathlib.Core.Option
use sentinellm.Float.Fixed.{ℤ, pos, fixed_float}
use sentinellm.Tables.{Trace, TraceStatus, EvaluationStatus, Model, ModelStatus, healthy, down}
use sentinellm.Health.Evidence.{tally, tally_from, note_failures}
use sentinellm.Access.Keys.{ApiKey, scope_of, require_unscoped}
use sentinellm.Access.Applications.{unset, set_to}
use sentinellm.Health.Models.{ModelUpdate, updated_model, update_model}
use sentinellm.Health.Overrides.{after_passes, update_model-lasts}
use sentinellm.Health.Monitor.{evaluate_model_health, check_row, check_model, status_for}
use sentinellm.Health.Statuses.{evaluate_model_health_pinned}
use sentinellm.Health.Warranted.{Warrants, calls_of, bad_calls_of, evaluate_model_health-Warrants}

abbrev model : String → ModelStatus → Bool → Model ℤ
model id status auto = record {
  id = id;
  input_price_per_1k = pos 100;
  output_price_per_1k = pos 300;
  context_window = 8_000;
  quality_tier = pos 8_000;
  avg_latency_ms_prior = pos 2_000_000;
  status = status;
  status_auto = auto;
  status_reason = none;
}

-- served by "b" after "a" failed
abbrev trace : String → Trace ℤ
trace id = record {
  id = id;
  application_id = "app";
  model = "b";
  status = TraceStatus.ok;
  latency_ms = pos 1_000_000;
  estimated_cost = pos 10;
  cache_hit = false;
  prompt_id = none;
  prompt_version = none;
  failed_attempts = "a" ∷ [];
  evaluation_status = EvaluationStatus.pending;
  created_at = 50;
}

abbrev traces : List (Trace ℤ)
traces = trace "t1" ∷ trace "t2" ∷ trace "t3" ∷ trace "t4" ∷ trace "t5" ∷ []

abbrev pair : List (Model ℤ)
pair = model "a" healthy true ∷ model "b" down true ∷ []

-- the failing model goes down and the other recovers
flips : (evaluate_model_health traces 60 pair).transitions ≡ ("a", down) ∷ ("b", healthy) ∷ []
unfolding evaluate_model_health check_row check_model status_for tally tally_from note_failures
flips = refl

evaluate_model_health-Warrants_example :
    (after : ModelStatus) × (Option.map
        (λ (x : Model ℤ). x.status)
        (get_elem? (evaluate_model_health traces 60 pair).models 0)
      ≡ some after)
    × Warrants
        (calls_of "a" traces 60)
        (fixed_float.over
          (fixed_float.of_nat (bad_calls_of "a" traces 60))
          (fixed_float.of_nat (calls_of "a" traces 60)))
        healthy
        after
evaluate_model_health-Warrants_example =
    evaluate_model_health-Warrants traces 60 pair 0 (model "a" healthy true) refl refl

evaluate_model_health_pinned_example :
    get_elem? (evaluate_model_health traces 60 (model "a" healthy false ∷ [])).models 0
    ≡ some (model "a" healthy false)
evaluate_model_health_pinned_example =
    evaluate_model_health_pinned traces 60 (model "a" healthy false ∷ []) 0
      (model "a" healthy false) refl refl

-- an operator who takes "a" down
abbrev operator : ApiKey
operator = record {
  id = "k";
  application_id = "app";
  application_name = "app";
  key_hash = "h";
  role = "write";
  last_used_at = none;
  revoked = false;
  revoked_at = none;
  expires_at = none;
  scoped_to_application = false;
}

abbrev take_down : ModelUpdate ℤ
take_down = record {
  name = unset;
  input_price_per_1k = unset;
  output_price_per_1k = set_to (some (pos 500));
  context_window = unset;
  quality_tier = unset;
  avg_latency_ms_prior = unset;
  status = set_to (some down);
  status_auto = unset;
}

abbrev taken_down : List (Model ℤ)
taken_down = updated_model take_down (model "a" healthy true) ∷ model "b" down true ∷ []

update_model-lasts_example :
    Option.map
      (λ (x : Model ℤ). x.status)
      (get_elem? (after_passes ((traces, 60) ∷ ([], 90) ∷ []) taken_down) 0)
    ≡ some down
update_model-lasts_example =
    update_model-lasts operator "a" take_down pair taken_down ((traces, 60) ∷ ([], 90) ∷ []) 0
      (model "a" healthy true) down refl refl
      (unfold update_model require_unscoped scope_of in refl) refl refl
