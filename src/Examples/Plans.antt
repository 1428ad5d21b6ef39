-- ===== src/Examples/Plans.antt =====
-- Requests that are downgraded, and one of an application whose rollout was rolled back.
use sentinellm.Prelude.{ℕ, ◌≡◌, refl, true, String, none, some, List, [], ◌∷◌}
use sentinellm.Float.Fixed.{ℤ, pos, fixed_float}
use sentinellm.Tables.{Model, ModelStatus, healthy, down}
use sentinellm.Rollout.Table.{Rollout, rolled_back, IsValid}
use sentinellm.Routing.Router.{Candidate, blended_price}
use sentinellm.Generation.Plan.{Request, candidate_of, serves, load_candidates, downgrade_target}

abbrev model : String → ℕ → ModelStatus → Model ℤ
model id price status = record {
  id = id;
  input_price_per_1k = pos price;
  output_price_per_1k = pos price;
  context_window = 8_000;
  quality_tier = pos 8_000;
  avg_latency_ms_prior = pos 2_000_000;
  status = status;
  status_auto = true;
  status_reason = none;
}

abbrev models : List (Model ℤ)
models =
    model "big" 300 healthy
    ∷ model "off" 1 down
    ∷ model "a-judge" 2 healthy
    ∷ model "small" 10 healthy
    ∷ []

abbrev small : Candidate ℤ
small = candidate_of (model "small" 10 healthy)

abbrev big : Candidate ℤ
big = candidate_of (model "big" 300 healthy)

two : load_candidates models ≡ big ∷ small ∷ []
unfolding load_candidates serves
two = refl

to_small : downgrade_target (some "big") (load_candidates models) ≡ some small
unfolding load_candidates serves downgrade_target blended_price
to_small = refl

abbrev fallen : Rollout ℤ
fallen = record {
  id = "r1";
  application_id = "app";
  incumbent_model = "small";
  challenger_model = "big";
  traffic_pct = pos 0;
  stage = rolled_back;
  quality_floor = pos 7_000;
  max_quality_regression = pos 1_000;
  max_error_rate = pos 1_000;
  min_sample_size = 2;
  step_pct = pos 100_000;
  max_pct = pos 1_000_000;
  last_evaluated_at = some 9;
  outcome_reason = none;
  created_at = 5;
}

fallen-IsValid : IsValid fallen
fallen-IsValid = record {
  traffic_nonneg = refl;
  traffic_capped = refl;
  ceiling_capped = refl;
  ceiling_nonneg = refl;
  step_nonneg = refl;
  rolled_back_zero = λ e. refl;
  promoted_full = λ e. absurd (cc e);
}

abbrev request : Request
request = record { application_id = "app"; preferred_model = none; fallback_models = [] }
