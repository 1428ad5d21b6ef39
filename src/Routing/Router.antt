-- ===== src/Routing/Router.antt =====
-- src/sentinellm/routing/router.py
use sentinellm.Prelude.{
  ℕ, ◌+◌, Bool, true, false, String, Option, none, some, List, [], ◌∷◌, map, ltb, if◌then◌else◌,
  keep,
}
use sentinellm.Float.{Float, fmin, fmax}
use sentinellm.Tables.{ModelStatus, is_down, is_degraded}
use sentinellm.Text.{word_count}
use sentinellm.Routing.Complexity.{
  TaskComplexity, classify_complexity, quality_floor_for, assess_risk,
}

-- `ModelCandidate`
pub record Candidate (F : Type 0) : Type 0 where
  pub model_id : String
  pub input_price_per_1k : F
  pub output_price_per_1k : F
  pub context_window : ℕ

-- `ModelStats`
pub record Stats (F : Type 0) : Type 0 where
  pub predicted_quality : F
  pub avg_latency_ms : F
  pub reliability : F
  pub sample_count : ℕ
  pub status : ModelStatus

-- the three texts of `excluded_reason`
pub data Exclusion : Type 0 where
  outage : Exclusion
  too_long : ℕ → ℕ → Exclusion
  below_floor : Exclusion

-- `RoutingCandidateResult`
pub record Rated (F : Type 0) : Type 0 where
  pub model : String
  pub routing_score : F
  pub predicted_quality : F
  pub normalized_cost : F
  pub normalized_latency : F
  pub risk : F
  pub excluded_reason : Option Exclusion

pub data RiskLevel : Type 0 where
  high medium low : RiskLevel

-- `RoutingResult`; the text of `reason` is left out
pub record Routing (F : Type 0) : Type 0 where
  pub selected_model : String
  pub task_complexity : TaskComplexity
  pub risk_level : RiskLevel
  pub candidates : List (Rated F)

-- `min` of no prices raises; the other error is `NoHealthyCandidateError`.
pub data Routed (F : Type 0) : Type 0 where
  routed : Routing F → Routed F
  value_error : Routed F
  no_healthy_candidate : Routed F

pub record Weights (F : Type 0) : Type 0 where
  pub quality : F
  pub cost : F
  pub latency : F
  pub risk : F

abbrev pub is_eligible : {F : Type 0} → Rated F → Bool
is_eligible r = elim r.excluded_reason [ none ↦ true | some e ↦ false ]

-- What the loop over the candidates reads.
pub record Frame (F : Type 0) : Type 0 where
  pub floor : F
  pub risk : F
  pub tokens : ℕ
  pub min_cost : F
  pub cost_range : F
  pub min_latency : F
  pub latency_range : F

-- `int((words + context_length) * 1.4)`
unfoldable pub estimated_tokens : (F : Type 0) ⦃fl : Float F⦄ → List ℕ → ℕ → ℕ
estimated_tokens F ⦃fl⦄ prompt context_length =
    fl.truncate (fl.times (fl.of_nat (word_count prompt + context_length)) (fl.decimal 14 1))

module _ {F : Type 0} ⦃fl : Float F⦄ where
  open fl use {decimal, lt, le, eq, plus, minus, times, over, round}

  -- `min(xs)` and `max(xs)` of a list that starts with `best`
  unfoldable pub min_from : F → List F → F
  min_from best [] = best
  min_from best (x ∷ xs) = min_from (fmin best x) xs

  unfoldable pub max_from : F → List F → F
  max_from best [] = best
  max_from best (x ∷ xs) = max_from (fmax best x) xs

  -- `(max - min) or 1.0`
  unfoldable pub range_of : F → List F → F
  unfolding min_from max_from
  range_of x xs =
      let width = minus (max_from x xs) (min_from x xs) in
      if eq width (decimal 0 0) then decimal 1 0 else width

  unfoldable pub blended_price : Candidate F → F
  blended_price c = over (plus c.input_price_per_1k c.output_price_per_1k) (decimal 2 0)

  unfoldable pub candidate_risk : F → ModelStatus → F
  candidate_risk risk status =
      fmin (decimal 1 0) (times risk (if is_degraded status then decimal 15 1 else decimal 1 0))

  -- the gates, in order
  unfoldable pub exclusion : Frame F → Candidate F → Stats F → Option Exclusion
  exclusion f c s =
      if is_down s.status
      then some outage
      else if ltb c.context_window f.tokens
      then some (too_long f.tokens c.context_window)
      else if lt s.predicted_quality f.floor
      then some below_floor
      else none

  unfoldable pub score : Weights F → F → F → F → F → F
  score w quality cost latency risk =
      minus (minus (minus (times w.quality quality) (times w.cost cost)) (times w.latency latency))
        (times w.risk risk)

  -- one round of the loop; only the numbers of an eligible candidate are rounded
  rated : Weights F → Candidate F → Stats F → F → F → F → Option Exclusion → Rated F
  rated w c s cost latency risk (some e) = record {
    model = c.model_id;
    routing_score = fl.neg (decimal 1 0);
    predicted_quality = s.predicted_quality;
    normalized_cost = cost;
    normalized_latency = latency;
    risk = risk;
    excluded_reason = some e;
  }
  rated w c s cost latency risk none = record {
    model = c.model_id;
    routing_score = round (score w s.predicted_quality cost latency risk) 4;
    predicted_quality = s.predicted_quality;
    normalized_cost = round cost 4;
    normalized_latency = round latency 4;
    risk = round risk 4;
    excluded_reason = none;
  }

  unfoldable pub rate : Weights F → Frame F → (String → Stats F) → Candidate F → Rated F
  unfolding rated
  rate w f stats c =
      let s = stats c.model_id in
      rated w c s (over (minus (blended_price c) f.min_cost) f.cost_range)
        (over (minus s.avg_latency_ms f.min_latency) f.latency_range)
        (candidate_risk f.risk s.status) (exclusion f c s)

  -- `max(eligible, key=…)` of a list that starts with `best`: the first of the highest score
  unfoldable pub best_from : Rated F → List (Rated F) → Rated F
  best_from best [] = best
  best_from best (r ∷ rs) = best_from (if lt best.routing_score r.routing_score then r else best) rs

  unfoldable pub risk_level_of : F → RiskLevel
  risk_level_of risk =
      if le (decimal 80 2) risk then high else if le (decimal 40 2) risk then medium else low

  -- the floor of the task, raised for a request of high risk
  unfoldable pub floor_of : TaskComplexity → F → F
  floor_of complexity risk =
      if le (decimal 80 2) risk
      then fmax (quality_floor_for complexity) (decimal 85 2)
      else quality_floor_for complexity

  -- the quality floor of a request
  unfoldable pub request_floor : List ℕ → ℕ → Bool → F
  request_floor prompt context_length override =
      floor_of (classify_complexity prompt context_length) (assess_risk prompt override)

  frame_of : (String → Stats F) → F → F → ℕ → Candidate F → List (Candidate F) → Frame F
  frame_of stats floor risk tokens c cs =
      let costs = map blended_price cs in
      let latencies = map (λ x. (stats x.model_id).avg_latency_ms) cs in
      let latency = (stats c.model_id).avg_latency_ms in
      record {
        floor = floor;
        risk = risk;
        tokens = tokens;
        min_cost = min_from (blended_price c) costs;
        cost_range = range_of (blended_price c) costs;
        min_latency = min_from latency latencies;
        latency_range = range_of latency latencies;
      }

  unfoldable pub choose : TaskComplexity → RiskLevel → List (Rated F) → List (Rated F) → Routed F
  choose complexity level results [] = no_healthy_candidate
  choose complexity level results (r ∷ rs) = routed (record {
    selected_model = (best_from r rs).model;
    task_complexity = complexity;
    risk_level = level;
    candidates = results;
  })

  -- the frame of a request to candidates `c ∷ cs`
  unfoldable pub request_frame :
      (String → Stats F) → List ℕ → ℕ → Bool → Candidate F → List (Candidate F) → Frame F
  unfolding frame_of
  request_frame stats prompt context_length override c cs =
      frame_of stats (request_floor prompt context_length override) (assess_risk prompt override)
        (estimated_tokens F prompt context_length) c cs

  unfoldable pub route :
      List (Candidate F) → (String → Stats F) → Weights F → List ℕ → ℕ → Bool → Routed F
  route [] stats weights prompt context_length override = value_error
  route (c ∷ cs) stats weights prompt context_length override =
      let frame = request_frame stats prompt context_length override c cs in
      let results = map (rate weights frame stats) (c ∷ cs) in
      choose (classify_complexity prompt context_length)
        (risk_level_of (assess_risk prompt override)) results (keep is_eligible results)
