-- ===== src/Evaluations/Quality.antt =====
-- `_aggregate_quality` and the end of `evaluate` of src/sentinellm/evaluation/pipeline.py.
use sentinellm.Prelude.{
  ℕ, ◌≡◌, subst, inl, inr, Bool-cases, true, ◌==◌, String, Option, none, some, List, [], ◌∷◌,
  if◌then◌else◌, arith,
}
use sentinellm.Float.{Float, IsOrdered, fmin, fmax}
use sentinellm.Evaluations.Jobs.{Scores}

-- `EvaluationMetricResult`, the columns that are read here
pub record Metric (F : Type 0) : Type 0 where
  pub metric_name : String
  pub score : F

module _ {F : Type 0} where
  abbrev pub or_else : Option F → Option F → Option F
  or_else none o = o
  or_else (some x) o = some x

  -- `by_name.get(name)`: the last metric of a name
  unfoldable pub score_of : List (Metric F) → String → Option F
  score_of [] name = none
  score_of (m ∷ ms) name =
      let later = score_of ms name in
      or_else later (if m.metric_name == name then some m.score else none)

  abbrev pub score_or : F → Option F → F
  score_or default none = default
  score_or default (some x) = x

module _ {F : Type 0} ⦃fl : Float F⦄ where
  open fl use {decimal, lt, plus, minus, times, over, round}

  -- `_QUALITY_WEIGHTS`
  abbrev pub quality_weights : List (String × F)
  quality_weights =
      ("relevance", decimal 30 2)
      ∷ ("faithfulness", decimal 35 2)
      ∷ ("judge_quality", decimal 35 2)
      ∷ []

  -- the loop over the weights: the weighted sum and the total of the weights
  unfoldable pub weigh : List (Metric F) → List (String × F) → F → F → F × F
  unfolding score_of
  weigh metrics [] weighted total = (weighted, total)
  weigh metrics ((name, weight) ∷ weights) weighted total = elim (score_of metrics name) [
    | none ↦ weigh metrics weights weighted total
    | some score ↦ weigh metrics weights (plus weighted (times score weight)) (plus total weight)
  ]

  abbrev pub base_of : F × F → F
  base_of (weighted, total) = if lt (decimal 0 0) total then over weighted total else decimal 0 0

  -- before it is kept between 0 and 1
  unfoldable pub raw_quality : List (Metric F) → F → F
  unfolding weigh score_of
  raw_quality metrics hallucination_score =
      let base = base_of (weigh metrics quality_weights (decimal 0 0) (decimal 0 0)) in
      let quality = times base (score_or (decimal 1 0) (score_of metrics "safety")) in
      minus (minus quality (times (decimal 4 1) hallucination_score))
        (times (decimal 3 1) (score_or (decimal 0 0) (score_of metrics "prompt_injection_risk")))

  -- `_aggregate_quality`
  unfoldable pub aggregate_quality : List (Metric F) → F → F
  unfolding raw_quality
  aggregate_quality metrics hallucination_score =
      round (fmin (decimal 1 0) (fmax (decimal 0 0) (raw_quality metrics hallucination_score))) 4

  -- the end of `evaluate`, from the metrics of the evaluators and the hallucination score
  unfoldable pub evaluate : List (Metric F) → F → Scores F
  unfolding aggregate_quality
  evaluate metrics hallucination_score = record {
    overall_quality = aggregate_quality metrics hallucination_score;
    hallucination_score = hallucination_score;
  }

module _ {F : Type 0} ⦃fl : Float F⦄ (laws : IsOrdered F) where
  open laws use {lt-le, decimal_mono, round_mono, round_whole}

  fmax_zero-le : (x : F) → fl.le (fl.decimal 0 0) (fmax (fl.decimal 0 0) x) ≡ true
  fmax_zero-le x = elim (Bool-cases (fl.lt (fl.decimal 0 0) x)) [
    | inl up ↦ rw up (lt-le (fl.decimal 0 0) x up)
    | inr low ↦ rw low (decimal_mono 0 0 0 (omega arith))
  ]

  fmin_one :
      (x : F)
      → fl.le (fl.decimal 0 0) x ≡ true
      → (fl.le (fl.decimal 0 0) (fmin (fl.decimal 1 0) x) ≡ true)
        × (fl.le (fmin (fl.decimal 1 0) x) (fl.decimal 1 0) ≡ true)
  fmin_one x h = elim (Bool-cases (fl.lt x (fl.decimal 1 0))) [
    | inl low ↦ rw low (h, lt-le x (fl.decimal 1 0) low)
    | inr up ↦ rw up (decimal_mono 0 1 0 (omega arith), decimal_mono 1 1 0 (omega arith))
  ]

  round_within :
      (x : F) (k : ℕ)
      → fl.le (fl.decimal 0 0) x ≡ true
      → fl.le x (fl.decimal 1 0) ≡ true
      → (fl.le (fl.decimal 0 0) (fl.round x k) ≡ true)
        × (fl.le (fl.round x k) (fl.decimal 1 0) ≡ true)
  round_within x k low high = (
    subst (λ (y : F). fl.le y (fl.round x k) ≡ true) (round_whole 0 k)
        (round_mono (fl.decimal 0 0) x k low),
    subst (λ (y : F). fl.le (fl.round x k) y ≡ true) (round_whole 1 k)
        (round_mono x (fl.decimal 1 0) k high),
  )

  -- Whatever the evaluators give, not a number included, the overall quality is between 0 and 1.
  pub aggregate_quality_bounds :
      (metrics : List (Metric F)) (hallucination_score : F)
      → (fl.le (fl.decimal 0 0) (aggregate_quality metrics hallucination_score) ≡ true)
        × (fl.le (aggregate_quality metrics hallucination_score) (fl.decimal 1 0) ≡ true)
  unfolding aggregate_quality
  aggregate_quality_bounds metrics hallucination_score =
      let q = fmax (fl.decimal 0 0) (raw_quality metrics hallucination_score) in
      let (low, high) = fmin_one q (fmax_zero-le (raw_quality metrics hallucination_score)) in
      round_within (fmin (fl.decimal 1 0) q) 4 low high
