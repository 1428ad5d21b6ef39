-- ===== src/Examples/Experiments.antt =====
-- An experiment over a data set of three records, one of whose requests fails.
use sentinellm.Prelude.{
  ℕ, ◌+◌, ◌≡◌, refl, true, false, ◌==◌, String, Option, none, some, List, [], ◌∷◌, ◌++◌, map, keep,
  length, arith, if◌then◌else◌,
}
use sentinellm.Float.Fixed.{ℤ, pos, digit, fixed_float, Fixed-IsOrdered}
use sentinellm.Tables.{Trace, ok, error, skipped}
use sentinellm.Prompts.Versions.{
  testing, under_threshold, promoted, restatus_all, promote_prompt_version,
}
use sentinellm.Evaluations.Jobs.{evaluation_of, run_and_persist, has_evaluation}
use sentinellm.Evaluations.Quality.{Metric, evaluate}
use sentinellm.Experiments.Run.{
  RunRequest, Question, GenerateRequest, Generator, RunDb, ExperimentRow, ran, request_for,
  metric_rows, Judged, generate_all, persist, persist_all, aggregate, with_run, conclude_run,
  judge_run, questions_of, run_experiment,
}
use sentinellm.Experiments.Passes.{passes}
use sentinellm.Experiments.Rated.{run_experiment-pass_rate}
use sentinellm.Experiments.Gated.{gate_row, run_experiment-promote}
use sentinellm.Llm.Provider.{answered}
use sentinellm.Routing.Router.{no_healthy_candidate}
use sentinellm.Generation.Serving.{trace_of, cost_of}
use sentinellm.Experiments.Pipeline.{Site, Process, call_of}
use sentinellm.Experiments.Compare.{
  Better, verdicts, IsLarger, HasNumbers, compare_experiments, compare_experiments-IsLarger,
}

abbrev trace_for : GenerateRequest → ℕ → Trace ℤ
trace_for r n = record {
  id = digit n;
  application_id = r.application_id;
  model = r.preferred_model;
  status = if r.question == "hard" then error else ok;
  latency_ms = pos 1_000_000;
  estimated_cost = pos 100;
  cache_hit = false;
  prompt_id = some r.prompt_id;
  prompt_version = some r.prompt_version;
  failed_attempts = [];
  evaluation_status = skipped;
  created_at = n;
}

-- the state is the number of requests
abbrev generator : Generator ℤ ℕ
generator = record { generate = λ r n. (some (trace_for r n), n + 1) }

abbrev found : List (Metric ℤ)
found = record { metric_name = "relevance"; score = pos 8_000 } ∷ []

abbrev evaluators : Trace ℤ → Option (List (Metric ℤ) × ℤ)
evaluators t = some (found, if t.id == "0" then pos 0 else pos 10_000)

abbrev request : RunRequest ℤ
request = record {
  name = "first";
  model = "gpt";
  prompt_id = "p";
  prompt_version = 2;
  dataset_id = "d";
  application_id = "runner";
  sample_size = none;
  quality_pass_threshold = pos 7_000;
}

abbrev question : String → String → Question
question id text = record { id = id; dataset_id = "d"; question = text; context = "" }

abbrev db : RunDb ℤ
db = record {
  prompts =
      record { prompt_id = "p"; version = 2; template = "{{question}}"; status = testing } ∷ [];
  datasets = "d" ∷ [];
  questions = question "a" "easy" ∷ question "b" "hard" ∷ question "c" "new" ∷ [];
  records = record { traces = []; evaluations = [] };
  metrics = [];
  experiments = [];
}

abbrev made : List (Trace ℤ)
made =
    trace_for (request_for request (question "a" "easy")) 0
    ∷ trace_for (request_for request (question "b" "hard")) 1
    ∷ trace_for (request_for request (question "c" "new")) 2
    ∷ []

abbrev judged : Judged ℤ
judged = (
  evaluation_of "0" (evaluate found (pos 0)) ∷ evaluation_of "2" (evaluate found (pos 10_000)) ∷ [],
  metric_rows "0" (some (found, pos 0)) ++ metric_rows "2" (some (found, pos 10_000)),
)

abbrev row : ExperimentRow ℤ
row = aggregate request 10 made judged

run_ends :
    run_experiment generator evaluators request 10 db 0 ≡ ran row (with_run db made judged row) 3
unfolding run_experiment judge_run conclude_run generate_all persist_all persist run_and_persist
    has_evaluation
run_ends = refl

run_experiment-pass_rate_example :
    (3 ≡ length (questions_of request db))
    × (row.pass_rate
        ≡ fixed_float.round
            (fixed_float.over
              (fixed_float.of_nat (length (keep (passes evaluators (pos 7_000)) made)))
              (fixed_float.of_nat (length (questions_of request db))))
            4)
run_experiment-pass_rate_example =
    run_experiment-pass_rate generator evaluators request 10 db 0 3 row
      (with_run db made judged row) made run_ends (unfold generate_all in refl)
      (unfold has_evaluation in (refl, (refl, (refl, tt)), (refl, (refl, tt), (refl, tt, tt))))

run_experiment-promote_example :
    promote_prompt_version db.prompts (map gate_row (row ∷ [])) "p" 2 (pos 5_000) ≡ (
      if fixed_float.lt row.pass_rate (pos 5_000)
      then under_threshold
      else promoted (restatus_all "p" 2 db.prompts))
run_experiment-promote_example =
    run_experiment-promote generator evaluators request 10 db 0 3 row (with_run db made judged row)
      (pos 5_000) run_ends tt

abbrev figures : ℤ → ExperimentRow ℤ
figures rate = record {
  name = "first";
  model = "gpt";
  prompt_id = "p";
  prompt_version = 2;
  dataset_id = "d";
  faithfulness = pos 8_000;
  relevance = pos 7_000;
  hallucination_rate = pos 0;
  p95_latency_ms = pos 9_000_000;
  cost_per_request = pos 12;
  pass_rate = rate;
  sample_size = 3;
  created_at = 10;
}

figures_numbers : (n : ℕ) → HasNumbers (figures (pos n))
figures_numbers n = record {
  faithfulness = refl;
  relevance = refl;
  hallucination_rate = refl;
  p95_latency_ms = refl;
  cost_per_request = refl;
  pass_rate = ground arith;
}

compare_experiments-IsLarger_example :
    (faithful relevant hallucinating slow dear passing : Better) × (verdicts
        (compare_experiments (figures (pos 6_000)) (figures (pos 9_000)))
      ≡ ("faithfulness", faithful)
        ∷ ("relevance", relevant)
        ∷ ("hallucination_rate", hallucinating)
        ∷ ("p95_latency_ms", slow)
        ∷ ("cost_per_request", dear)
        ∷ ("pass_rate", passing)
        ∷ [])
    × IsLarger faithful (pos 8_000) (pos 8_000)
    × IsLarger relevant (pos 7_000) (pos 7_000)
    × IsLarger hallucinating (pos 0) (pos 0)
    × IsLarger slow (pos 9_000_000) (pos 9_000_000)
    × IsLarger dear (pos 12) (pos 12)
    × IsLarger passing (pos 6_000) (pos 9_000)
compare_experiments-IsLarger_example =
    compare_experiments-IsLarger Fixed-IsOrdered (figures (pos 6_000)) (figures (pos 9_000))
      (figures_numbers 6_000) (figures_numbers 9_000)

-- the pipeline over a provider that counts its calls
abbrev site : Site ℤ ℕ
site = record {
  gateway = record {
    services = record {
      resolves = λ model. true;
      complete = λ model calls.
          (answered (record { content = "yes"; input_tokens = 3; output_tokens = 1 }), calls + 1);
      sleep = λ d calls. calls;
    };
    client = record { max_retries = 2; base_backoff_s = pos 2_000; max_backoff_s = pos 40_000 };
    cache = record { embed = λ text. pos 10_000 ∷ []; threshold = pos 9_500; ttl_seconds = 60 };
    cache_enabled = true;
    redact = λ text. text;
  };
  models = [];
  prompts = db.prompts;
  rollouts = [];
  admits = λ application w. some false;
  context_key = λ r version. "";
  router = λ r candidates. no_healthy_candidate;
  draw = λ n. pos 0;
  stamp = λ n. record { id = digit n; entry_id = "e"; now = n; latency_ms = pos 10_000 };
}

abbrev one : RunDb ℤ
one = record db { questions = question "a" "easy" ∷ [] }

abbrev answer_trace : Trace ℤ
answer_trace =
    trace_of (call_of site (request_for request (question "a" "easy")) 2) (site.stamp 0) "gpt" ok
      (cost_of [] "gpt" (record { content = "yes"; input_tokens = 3; output_tokens = 1 })) false []

abbrev judged_one : Judged ℤ
judged_one =
    (evaluation_of "0" (evaluate found (pos 0)) ∷ [], metric_rows "0" (some (found, pos 0)))

abbrev row_one : ExperimentRow ℤ
row_one = aggregate request 10 (answer_trace ∷ []) judged_one

abbrev began : Process ℤ ℕ
began = record { world = 0; entries = []; requests = 0 }

abbrev ended : Process ℤ ℕ
ended = record { world = 1; entries = []; requests = 1 }
