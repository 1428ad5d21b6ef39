-- ===== src/Experiments/Run.antt =====
-- `run_experiment` of src/sentinellm/services/experiments.py. The calls of `generate` and of the evaluators
-- are arguments; the table of the records is in the order of their ids. An exception of either leaves the
-- tables as they were, since the session is not committed.
use sentinellm.Prelude.{
  ℕ, Bool, false, not, ◌&&◌, ◌==◌, String, Option, none, some, List, [], ◌∷◌, ◌++◌, map, keep, any,
  length, take, eqb, if◌then◌else◌,
}
use sentinellm.Float.{Float}
use sentinellm.Tables.{Trace, Evaluation, EvaluationStatus, is_ok}
use sentinellm.Prompts.Versions.{PromptVersion, is_version}
use sentinellm.Alerting.Pass.{p95_of}
use sentinellm.Evaluations.Jobs.{Records, Scores, has_evaluation, run_and_persist}
use sentinellm.Evaluations.Quality.{Metric, evaluate, score_or}
use sentinellm.Regressions.Windows.{MetricScore, of_traces}
use sentinellm.Regressions.Detect.{average}

-- `ExperimentRunRequest`
pub record RunRequest (F : Type 0) : Type 0 where
  pub name : String
  pub model : String
  pub prompt_id : String
  pub prompt_version : ℕ
  pub dataset_id : String
  pub application_id : String
  pub sample_size : Option ℕ
  pub quality_pass_threshold : F

-- `DatasetRecord`, the columns that a run reads
pub record Question : Type 0 where
  pub id : String
  pub dataset_id : String
  pub question : String
  pub context : String

-- `GenerateRequest`, the fields that a run sets
pub record GenerateRequest : Type 0 where
  pub application_id : String
  pub question : String
  pub documents : List (String × String)
  pub preferred_model : String
  pub use_cache : Bool
  pub prompt_id : String
  pub prompt_version : ℕ
  pub evaluate : Bool

-- `Experiment`
pub record ExperimentRow (F : Type 0) : Type 0 where
  pub name : String
  pub model : String
  pub prompt_id : String
  pub prompt_version : ℕ
  pub dataset_id : String
  pub faithfulness : F
  pub relevance : F
  pub hallucination_rate : F
  pub p95_latency_ms : F
  pub cost_per_request : F
  pub pass_rate : F
  pub sample_size : ℕ
  pub created_at : ℕ

-- The tables of a run.
pub record RunDb (F : Type 0) : Type 0 where
  pub prompts : List PromptVersion
  pub datasets : List String
  pub questions : List Question
  pub records : Records F
  pub metrics : List (MetricScore F)
  pub experiments : List (ExperimentRow F)

-- `ExperimentInputError`
pub data InputError : Type 0 where
  unknown_prompt unknown_dataset empty_dataset : InputError

-- What a run comes to, with the state of the providers after it.
pub data Ran (F W : Type 0) : Type 0 where
  ran : ExperimentRow F → RunDb F → W → Ran F W
  bad_input : InputError → Ran F W
  run_raised : W → Ran F W

-- `generate`: the trace, or none where it raises
pub record Generator (F W : Type 0) : Type 0 where
  pub generate : GenerateRequest → W → Option (Trace F) × W

abbrev pub context_documents : Question → List (String × String)
context_documents q = if q.context == "" then [] else (q.id, q.context) ∷ []

abbrev pub sample : Option ℕ → List Question → List Question
sample none qs = qs
sample (some n) qs = if eqb n 0 then qs else take n qs

module _ {F : Type 0} where
  abbrev pub request_for : RunRequest F → Question → GenerateRequest
  request_for request q = record {
    application_id = request.application_id;
    question = q.question;
    documents = context_documents q;
    preferred_model = request.model;
    use_cache = false;
    prompt_id = request.prompt_id;
    prompt_version = request.prompt_version;
    evaluate = false;
  }

  -- the records of the data set, in a sample of the first ones
  abbrev pub questions_of : RunRequest F → RunDb F → List Question
  questions_of request db =
      sample request.sample_size (keep (λ q. q.dataset_id == request.dataset_id) db.questions)

  abbrev pub prepend : Trace F → Option (List (Trace F)) → Option (List (Trace F))
  prepend t none = none
  prepend t (some ts) = some (t ∷ ts)

  -- the first loop: one trace for each record
  unfoldable pub generate_all :
      {W : Type 0} → Generator F W → RunRequest F → List Question → W → Option (List (Trace F)) × W
  generate_all generator request [] w = (some [], w)
  generate_all generator request (q ∷ qs) w =
      let (made, w') = generator.generate (request_for request q) w in
      elim made [
        | none ↦ (none, w')
        | some t ↦ let (rest, w'') = generate_all generator request qs w' in (prepend t rest, w'')
      ]

  abbrev pub answered_traces : List (Trace F) → List (Trace F)
  answered_traces traces = keep (λ t. is_ok t.status) traces

  -- `trace.evaluation_status = "completed"`
  abbrev pub mark_completed : Trace F → Trace F
  mark_completed t =
      if is_ok t.status then record t { evaluation_status = EvaluationStatus.completed } else t

  abbrev pub metric_rows : String → Option (List (Metric F) × F) → List (MetricScore F)
  metric_rows id none = []
  metric_rows id (some (ms, h)) =
      map (λ m. record { trace_id = id; metric_name = m.metric_name; score = m.score }) ms

-- the tables of the evaluations and of their metrics
abbrev pub Judged : Type 0 → Type 0
Judged F = List (Evaluation F) × List (MetricScore F)

module _ {F : Type 0} ⦃fl : Float F⦄ where
  open fl use {decimal, of_nat, le, over, round}

  abbrev pub scores_of : Option (List (Metric F) × F) → Option (Scores F)
  scores_of none = none
  scores_of (some (ms, h)) = some (evaluate ms h)

  -- `run_and_persist`, from what the evaluators give, with the metrics
  unfoldable pub persist : String → Option (List (Metric F) × F) → Judged F → Option (Judged F)
  unfolding run_and_persist evaluate
  persist id result (evaluations, metrics) =
      elim (run_and_persist evaluations id (scores_of result)) [
        | none ↦ none
        | some evaluations' ↦ some (
          evaluations',
          if has_evaluation evaluations id then metrics else metrics ++ metric_rows id result,
        )
      ]

  -- the second loop, over the answered traces
  unfoldable pub persist_all :
      (Trace F → Option (List (Metric F) × F)) → List (Trace F) → Judged F → Option (Judged F)
  unfolding persist
  persist_all evaluators [] judged = some judged
  persist_all evaluators (t ∷ ts) judged = elim (persist t.id (evaluators t) judged) [
    | none ↦ none
    | some judged' ↦ persist_all evaluators ts judged'
  ]

  -- the mean, or 0 of nothing
  abbrev pub mean_or_zero : ℕ → List F → F
  mean_or_zero digits xs = round (score_or (decimal 0 0) (average xs)) digits

  -- the evaluations of the traces
  abbrev pub evaluations_of : List (Trace F) → List (Evaluation F) → List (Evaluation F)
  evaluations_of traces evaluations = keep (λ e. of_traces traces e.trace_id) evaluations

  abbrev pub scores_named : String → List (Trace F) → List (MetricScore F) → List F
  scores_named name traces metrics =
      map (λ m. m.score) (keep (λ m. m.metric_name == name && of_traces traces m.trace_id) metrics)

  abbrev pub pass_count : F → List (Evaluation F) → ℕ
  pass_count threshold evaluations = length (keep (λ e. le threshold e.overall_quality) evaluations)

  -- `_aggregate_into_experiment`, the row
  unfoldable pub aggregate : RunRequest F → ℕ → List (Trace F) → Judged F → ExperimentRow F
  unfolding average p95_of
  aggregate request now traces (evaluations, metrics) =
      let evals = evaluations_of traces evaluations in
      let served = answered_traces traces in
      record {
        name = request.name;
        model = request.model;
        prompt_id = request.prompt_id;
        prompt_version = request.prompt_version;
        dataset_id = request.dataset_id;
        faithfulness = mean_or_zero 4 (scores_named "faithfulness" traces metrics);
        relevance = mean_or_zero 4 (scores_named "relevance" traces metrics);
        hallucination_rate = mean_or_zero 4 (map (λ e. e.hallucination_score) evals);
        p95_latency_ms = round (score_or (decimal 0 0) (p95_of (map (λ t. t.latency_ms) served))) 2;
        cost_per_request = mean_or_zero 6 (map (λ t. t.estimated_cost) served);
        pass_rate =
            round
              (over (of_nat (pass_count request.quality_pass_threshold evals))
                (of_nat (length traces)))
              4;
        sample_size = length traces;
        created_at = now;
      }

  -- what a run leaves in the tables
  abbrev pub with_run : RunDb F → List (Trace F) → Judged F → ExperimentRow F → RunDb F
  with_run db traces judged row = record db {
    records = record {
      traces = db.records.traces ++ map mark_completed traces;
      evaluations = judged.0;
    };
    metrics = judged.1;
    experiments = db.experiments ++ row ∷ [];
  }

  -- after the evaluations
  unfoldable pub conclude_run :
      {W : Type 0} → RunRequest F → ℕ → RunDb F → List (Trace F) → Option (Judged F) → W → Ran F W
  unfolding aggregate
  conclude_run request now db traces none w = run_raised w
  conclude_run request now db traces (some judged) w =
      ran (aggregate request now traces judged)
        (with_run db traces judged (aggregate request now traces judged)) w

  module _ {W : Type 0} (generator : Generator F W)
      (evaluators : Trace F → Option (List (Metric F) × F)) where
    -- after the traces
    unfoldable pub judge_run : RunRequest F → ℕ → RunDb F → Option (List (Trace F)) × W → Ran F W
    unfolding persist_all conclude_run
    judge_run request now db (none, w) = run_raised w
    judge_run request now db (some traces, w) =
        conclude_run request now db traces
          (persist_all evaluators (answered_traces traces) (db.records.evaluations, db.metrics)) w

    abbrev pub run_over : RunRequest F → ℕ → RunDb F → List Question → W → Ran F W
    run_over request now db [] w = bad_input empty_dataset
    run_over request now db (q ∷ qs) w =
        judge_run request now db (generate_all generator request (q ∷ qs) w)

    unfoldable pub run_experiment : RunRequest F → ℕ → RunDb F → W → Ran F W
    unfolding judge_run generate_all
    run_experiment request now db w =
        if not (any (is_version request.prompt_id request.prompt_version) db.prompts)
        then bad_input unknown_prompt
        else if not (any (λ d. d == request.dataset_id) db.datasets)
        then bad_input unknown_dataset
        else run_over request now db (questions_of request db) w
