-- ===== src/Experiments/Compare.antt =====
-- `compare_experiments` of src/sentinellm/services/experiments.py and the endpoints of
-- src/sentinellm/api/routers/experiments.py.
use sentinellm.Prelude.{
  ℕ, ◌≡◌, refl, inl, inr, Bool, Bool-cases, true, false, not, String, Option, none, some, List, [],
  ◌∷◌, map, arith, if◌then◌else◌,
}
use sentinellm.Float.{Float, IsOrdered, IsNumber}
use sentinellm.Tables.{Trace}
use sentinellm.Rollout.Operator.{contains}
use sentinellm.Access.Keys.{ApiKey, scope_of, is_scoped}
use sentinellm.Evaluations.Quality.{Metric}
use sentinellm.Experiments.Run.{RunRequest, RunDb, ExperimentRow, Ran, Generator, run_experiment}

-- `better`
pub data Better : Type 0 where
  a_better b_better tie : Better

-- the direction of a metric
pub data Wanted : Type 0 where
  higher lower : Wanted

-- `MetricComparison`
pub record Comparison (F : Type 0) : Type 0 where
  pub metric_name : String
  pub value_a : F
  pub value_b : F
  pub delta : F
  pub delta_pct : Option F
  pub better : Better

module _ {F : Type 0} where
  -- `_COMPARISON_METRICS`, with the column of a metric
  abbrev pub comparison_metrics : List (String × (ExperimentRow F → F) × Wanted)
  comparison_metrics =
      ("faithfulness", (λ e. e.faithfulness), higher)
      ∷ ("relevance", (λ e. e.relevance), higher)
      ∷ ("hallucination_rate", (λ e. e.hallucination_rate), lower)
      ∷ ("p95_latency_ms", (λ e. e.p95_latency_ms), lower)
      ∷ ("cost_per_request", (λ e. e.cost_per_request), lower)
      ∷ ("pass_rate", (λ e. e.pass_rate), higher)
      ∷ []

module _ {F : Type 0} ⦃fl : Float F⦄ where
  open fl use {decimal, lt, eq, minus, times, over, round}

  unfoldable pub better_one : Wanted → F → F → Better
  better_one higher a b = if eq a b then tie else if lt a b then b_better else a_better
  better_one lower a b = if eq a b then tie else if lt b a then b_better else a_better

  abbrev pub compare_metric :
      ExperimentRow F → ExperimentRow F → String × (ExperimentRow F → F) × Wanted → Comparison F
  compare_metric a b (name, column, wanted) =
      let delta = round (minus (column b) (column a)) 6 in
      record {
        metric_name = name;
        value_a = column a;
        value_b = column b;
        delta = delta;
        delta_pct =
            if eq (column a) (decimal 0 0)
            then none
            else some (round (times (over delta (column a)) (decimal 100 0)) 2);
        better = better_one wanted (column a) (column b);
      }

  unfoldable pub compare_experiments : ExperimentRow F → ExperimentRow F → List (Comparison F)
  unfolding better_one
  compare_experiments a b = map (compare_metric a b) comparison_metrics

-- the endpoint of a comparison; none is 404
module _ {F : Type 0} ⦃fl : Float F⦄ where
  unfoldable pub compare_experiments_endpoint :
      (String → Option (ExperimentRow F)) → String → String → Option (List (Comparison F))
  unfolding compare_experiments
  compare_experiments_endpoint get a b = elim (get a) [
    | none ↦ none
    | some x ↦ elim (get b) [ none ↦ none | some y ↦ some (compare_experiments x y) ]
  ]

-- The answer of the endpoint of a run: 403 for another application, or the run.
pub data RunReply (F W : Type 0) : Type 0 where
  other_application : RunReply F W
  run_reply : Ran F W → RunReply F W

-- the request of a key; `named` says whether the payload has an application
unfoldable pub scoped_request : {F : Type 0} → ApiKey → Bool → RunRequest F → Option (RunRequest F)
unfolding scope_of contains
scoped_request actor named request =
    if not (is_scoped (scope_of actor))
    then some request
    else if not named
    then some (record request { application_id = actor.application_id })
    else if contains (scope_of actor) request.application_id
    then some request
    else none

unfoldable pub run_experiment_endpoint :
    {F W : Type 0} ⦃fl : Float F⦄ (generator : Generator F W)
    (evaluators : Trace F → Option (List (Metric F) × F))
    → ApiKey
    → Bool
    → RunRequest F
    → ℕ
    → RunDb F
    → W
    → RunReply F W
unfolding scoped_request run_experiment
run_experiment_endpoint generator evaluators actor named request now db w =
    elim (scoped_request actor named request) [
      | none ↦ other_application
      | some request' ↦ run_reply (run_experiment generator evaluators request' now db w)
    ]

module _ {F : Type 0} where
  -- the verdicts of a comparison, by the names of the metrics
  abbrev pub verdicts : List (Comparison F) → List (String × Better)
  verdicts cs = map {B = String × Better} (λ c. (c.metric_name, c.better)) cs

module _ {F : Type 0} ⦃fl : Float F⦄ where
  open fl use {lt, le, eq}

  -- The verdict on two figures of which the larger is better: none of them is, or the one that is not at
  -- most the other.
  abbrev pub IsLarger : Better → F → F → Type 0
  IsLarger a_better x y = le x y ≡ false
  IsLarger b_better x y = le y x ≡ false
  IsLarger tie x y = (le x y ≡ true) × (le y x ≡ true)

  -- The columns that a comparison reads are numbers.
  pub record HasNumbers (e : ExperimentRow F) : Type 0 where
    pub faithfulness : IsNumber e.faithfulness
    pub relevance : IsNumber e.relevance
    pub hallucination_rate : IsNumber e.hallucination_rate
    pub p95_latency_ms : IsNumber e.p95_latency_ms
    pub cost_per_request : IsNumber e.cost_per_request
    pub pass_rate : IsNumber e.pass_rate

  module _ (laws : IsOrdered F) where
    open laws use {lt-eq-not-le, eq-le}

    better_one-higher : (x y : F) → IsNumber x → IsNumber y → IsLarger (better_one higher x y) x y
    unfolding better_one
    better_one-higher x y hx hy = elim (Bool-cases (eq x y)) [
      | inl same ↦ rw same (ground (arith, eq-le x y), ground (arith, eq-le x y))
      | inr apart ↦ elim (Bool-cases (lt x y)) [
        | inl less ↦ rw (apart, less) (ground (arith, lt-eq-not-le x y hx hy))
        | inr more ↦ rw (apart, more) (ground (arith, eq-le x y, lt-eq-not-le x y hx hy))
      ]
    ]

    better_one-lower : (x y : F) → IsNumber x → IsNumber y → IsLarger (better_one lower x y) y x
    unfolding better_one
    better_one-lower x y hx hy = elim (Bool-cases (eq x y)) [
      | inl same ↦ rw same (ground (arith, eq-le x y), ground (arith, eq-le x y))
      | inr apart ↦ elim (Bool-cases (lt y x)) [
        | inl less ↦ rw (apart, less) (ground (arith, lt-eq-not-le y x hy hx))
        | inr more ↦ rw (apart, more) (ground (arith, eq-le x y, lt-eq-not-le y x hy hx))
      ]
    ]

    -- Where the figures of both experiments are numbers, a comparison names the experiment with the larger
    -- faithfulness, relevance and pass rate and with the smaller hallucination rate, 95th percentile of the
    -- latency and cost per request, each under its name and in this order, and says of equal figures that
    -- they tie.
    pub compare_experiments-IsLarger :
        (a b : ExperimentRow F)
        → HasNumbers a
        → HasNumbers b
        → (faithful relevant hallucinating slow dear passing : Better) × (verdicts
              (compare_experiments a b)
            ≡ ("faithfulness", faithful)
              ∷ ("relevance", relevant)
              ∷ ("hallucination_rate", hallucinating)
              ∷ ("p95_latency_ms", slow)
              ∷ ("cost_per_request", dear)
              ∷ ("pass_rate", passing)
              ∷ [])
          × IsLarger faithful a.faithfulness b.faithfulness
          × IsLarger relevant a.relevance b.relevance
          × IsLarger hallucinating b.hallucination_rate a.hallucination_rate
          × IsLarger slow b.p95_latency_ms a.p95_latency_ms
          × IsLarger dear b.cost_per_request a.cost_per_request
          × IsLarger passing a.pass_rate b.pass_rate
    unfolding compare_experiments
    compare_experiments-IsLarger a b ha hb = (
      better_one higher a.faithfulness b.faithfulness,
      better_one higher a.relevance b.relevance,
      better_one lower a.hallucination_rate b.hallucination_rate,
      better_one lower a.p95_latency_ms b.p95_latency_ms,
      better_one lower a.cost_per_request b.cost_per_request,
      better_one higher a.pass_rate b.pass_rate,
      refl,
      better_one-higher a.faithfulness b.faithfulness ha.faithfulness hb.faithfulness,
      better_one-higher a.relevance b.relevance ha.relevance hb.relevance,
      better_one-lower a.hallucination_rate b.hallucination_rate ha.hallucination_rate
          hb.hallucination_rate,
      better_one-lower a.p95_latency_ms b.p95_latency_ms ha.p95_latency_ms hb.p95_latency_ms,
      better_one-lower a.cost_per_request b.cost_per_request ha.cost_per_request
          hb.cost_per_request,
      better_one-higher a.pass_rate b.pass_rate ha.pass_rate hb.pass_rate,
    )
