-- ===== src/Examples/Routes.antt =====
-- A request routed between two models.
use sentinellm.Prelude.{
  ℕ, ◌≡◌, inl, refl, true, false, String, none, some, List, [], ◌∷◌, All, Has, keep, ◌==◌,
  if◌then◌else◌,
}
use sentinellm.Float.Fixed.{ℤ, pos, sub_ℕ, fixed_float, Fixed-IsOrdered}
use sentinellm.Tables.{ModelStatus, Model, is_down}
use sentinellm.Text.{codes, word_count, search_words}
use sentinellm.Routing.Complexity.{
  classify_complexity, complex, simple, assess_risk, high_risk_terms, quality_floor_for,
}
use sentinellm.Routing.Router.{
  Candidate, Stats, Exclusion, Rated, Routing, routed, Weights, estimated_tokens, exclusion,
  request_floor, request_frame, rate, route, is_eligible, high, low, below_floor, best_from, choose,
  risk_level_of, floor_of, score, candidate_risk, blended_price, min_from, range_of,
}
use sentinellm.Routing.Gates.{route-risky}
use sentinellm.Routing.Chain.{candidate_chain, route-chain}
use sentinellm.Routing.Statistics.{
  History, recent_traces, within_the_hour, registry_status, get_stats, stats_of,
}
use sentinellm.Routing.Observed.{is_failing, route-get_stats}

abbrev cheap : Candidate ℤ
cheap = record {
  model_id = "cheap";
  input_price_per_1k = pos 10;
  output_price_per_1k = pos 30;
  context_window = 8_000;
}

abbrev best : Candidate ℤ
best = record {
  model_id = "best";
  input_price_per_1k = pos 110;
  output_price_per_1k = pos 330;
  context_window = 128_000;
}

abbrev stats : String → Stats ℤ
stats id =
    if id == "best"
    then record {
      predicted_quality = pos 9_000;
      avg_latency_ms = pos 8_000_000;
      reliability = pos 10_000;
      sample_count = 3;
      status = ModelStatus.healthy;
    }
    else record {
      predicted_quality = pos 5_000;
      avg_latency_ms = pos 2_000_000;
      reliability = pos 10_000;
      sample_count = 3;
      status = ModelStatus.healthy;
    }

abbrev weights : Weights ℤ
weights = record { quality = pos 5_000; cost = pos 2_000; latency = pos 1_500; risk = pos 1_500 }

abbrev asked : List ℕ
asked = codes "Is this Legal?"

words : word_count asked ≡ 3
unfolding word_count
words = refl

risky_words : search_words high_risk_terms true asked ≡ true
unfolding search_words
risky_words = refl

-- the stem of the term list is no whole word
stem_unseen : search_words high_risk_terms true (codes "a diagnosis") ≡ false
unfolding search_words
stem_unseen = refl

abbrev cheap_row : Rated ℤ
cheap_row = record {
  model = "cheap";
  routing_score = sub_ℕ 0 10_000;
  predicted_quality = pos 5_000;
  normalized_cost = pos 0;
  normalized_latency = pos 0;
  risk = pos 8_500;
  excluded_reason = some below_floor;
}

abbrev best_row : Rated ℤ
best_row = record {
  model = "best";
  routing_score = sub_ℕ 4_500 4_775;
  predicted_quality = pos 9_000;
  normalized_cost = pos 10_000;
  normalized_latency = pos 10_000;
  risk = pos 8_500;
  excluded_reason = none;
}

abbrev answer : Routing ℤ
answer = record {
  selected_model = "best";
  task_complexity = simple;
  risk_level = high;
  candidates = cheap_row ∷ best_row ∷ [];
}

answered : route (cheap ∷ best ∷ []) stats weights asked 0 false ≡ routed answer
unfolding route request_frame rate choose risk_level_of best_from request_floor floor_of exclusion
    classify_complexity assess_risk quality_floor_for estimated_tokens score candidate_risk
    blended_price min_from range_of search_words word_count
answered = refl

route-risky_example : fixed_float.le (pos 8_500) (stats "best").predicted_quality ≡ true
route-risky_example =
    route-risky Fixed-IsOrdered stats weights asked 0 false (cheap ∷ best ∷ []) answer refl answered
      (inl risky_words)

-- a long context makes the task complex
abbrev hard_answer : Routing ℤ
hard_answer = record {
  selected_model = "best";
  task_complexity = complex;
  risk_level = low;
  candidates =
      record cheap_row { risk = pos 1_000; excluded_reason = some (Exclusion.too_long 9_801 8_000) }
      ∷ record best_row { routing_score = sub_ℕ 4_500 3_650; risk = pos 1_000 }
      ∷ [];
}

abbrev plain : List ℕ
plain = codes "hi"

hard_answered : route (cheap ∷ best ∷ []) stats weights plain 7_000 false ≡ routed hard_answer
unfolding route request_frame rate choose risk_level_of best_from request_floor floor_of exclusion
    classify_complexity assess_risk quality_floor_for estimated_tokens score candidate_risk
    blended_price min_from range_of search_words word_count
hard_answered = refl

route-chain_example :
    ((rest : List String) × (candidate_chain answer ≡ "best" ∷ rest))
    × ((row : Rated ℤ) × (row.model ≡ "best")
        × All
            (λ x. fixed_float.lt row.routing_score x.routing_score ≡ false)
            (keep is_eligible answer.candidates))
route-chain_example =
    route-chain Fixed-IsOrdered stats weights asked 0 false (cheap ∷ best ∷ []) answer answered
      (refl, tt)

-- nothing is recorded of the one model that is registered
abbrev registered : Model ℤ
registered = record {
  id = "cheap";
  input_price_per_1k = pos 10;
  output_price_per_1k = pos 30;
  context_window = 8_000;
  quality_tier = pos 7_000;
  avg_latency_ms_prior = pos 2_000_000;
  status = ModelStatus.healthy;
  status_auto = true;
  status_reason = none;
}

abbrev blank : History ℤ
blank = record { models = registered ∷ []; traces = []; evaluations = [] }

abbrev observed_answer : Routing ℤ
observed_answer = record {
  selected_model = "cheap";
  task_complexity = simple;
  risk_level = low;
  candidates =
      record {
        model = "cheap";
        routing_score = pos 3_350;
        predicted_quality = pos 7_000;
        normalized_cost = pos 0;
        normalized_latency = pos 0;
        risk = pos 1_000;
        excluded_reason = none;
      }
      ∷ [];
}

observed_answered :
    route (cheap ∷ []) (get_stats blank 0 5) weights plain 0 false ≡ routed observed_answer
unfolding route request_frame rate choose risk_level_of best_from request_floor floor_of exclusion
    classify_complexity assess_risk quality_floor_for estimated_tokens score candidate_risk
    blended_price min_from range_of search_words word_count get_stats stats_of recent_traces
    registry_status
observed_answered = refl

route-get_stats_example :
    (c : Candidate ℤ) × Has c (cheap ∷ [])
    × (observed_answer.selected_model ≡ c.model_id)
    × (is_down (registry_status blank c.model_id) ≡ false)
    × (is_failing (within_the_hour 0 (recent_traces blank 5 c.model_id)) ≡ false)
route-get_stats_example =
    route-get_stats blank 0 5 weights plain 0 false (cheap ∷ []) observed_answer observed_answered
