-- ===== src/Examples/Serving.antt =====
-- A request whose first model is overloaded, and one that is asked twice.
use sentinellm.Prelude.{
  ℕ, ◌+◌, ◌≡◌, ◌≢◌, refl, inr, true, false, ◌==◌, String, none, some, List, [], ◌∷◌, All, Has,
  if◌then◌else◌, arith,
}
use sentinellm.Float.{fsum}
use sentinellm.Float.Fixed.{ℤ, pos, fixed_float, Fixed-IsOrdered}
use sentinellm.Tables.{ok, error}
use sentinellm.Llm.Provider.{answered, raised, rate_limit, Services}
use sentinellm.Llm.Resilient.{
  chain_of, pause, retry_from, try_chain, complete_with_retry, complete_with_fallback,
}
use sentinellm.Cache.Similarity.{cosine_similarity}
use sentinellm.Cache.Entries.{find_candidates, best_of, with_hit, lookup, store}
use sentinellm.Generation.Serving.{
  Call, Gateway, Stamp, Served, strip_nul, failed_models, recorded_failures, cost_of, trace_of,
  remember, conclude, answer, serve,
}
use sentinellm.Generation.Traces.{serve_again}
use sentinellm.Generation.Blame.{serve_blames}

-- the state of the world is the number of calls made
abbrev services : Services ℤ ℕ
services = record {
  resolves = λ model. true;
  complete = λ model calls. (
    if model == "busy"
        then raised rate_limit true
        else answered (record { content = "yes"; input_tokens = 3; output_tokens = 1 }),
    calls + 1,
  );
  sleep = λ d calls. calls;
}

abbrev gateway : Gateway ℤ ℕ
gateway = record {
  services = services;
  client = record { max_retries = 2; base_backoff_s = pos 2_000; max_backoff_s = pos 40_000 };
  cache = record { embed = λ text. pos 10_000 ∷ []; threshold = pos 9_500; ttl_seconds = 60 };
  cache_enabled = true;
  redact = λ text. text;
}

abbrev call : Call
call = record {
  application_id = "shop";
  question = "hi";
  use_cache = true;
  evaluate = true;
  prompt_id = none;
  prompt_version = none;
  metadata_failed = [];
  context_key = "";
}

abbrev stamp : ℕ → Stamp ℤ
stamp now = record { id = "t"; entry_id = "e"; now = now; latency_ms = pos 10_000 }

-- the result of a request over an empty cache, with one model behind the first
abbrev Serves : String → List String → Served ℤ → Type 0
Serves first behind s = (serve gateway [] call (stamp 10) first behind [] 0).0 ≡ some s

abbrev lost : Served ℤ
lost = record {
  trace = trace_of call (stamp 10) "busy" error (pos 0) false [];
  response = "";
  entries = [];
  queued = [];
}

busy_fails : Serves "busy" [] lost
unfolding serve answer conclude failed_models recorded_failures lookup find_candidates best_of
    with_hit complete_with_fallback try_chain complete_with_retry retry_from pause
busy_fails = refl

abbrev fine : Served ℤ
fine = record {
  trace =
      trace_of call (stamp 10) "good" ok
        (cost_of [] "good" (record { content = "yes"; input_tokens = 3; output_tokens = 1 })) false
        [];
  response = "yes";
  entries =
      record {
        id = "e";
        application_id = "shop";
        model = "good";
        query_text = "hi";
        context_key = "";
        embedding = pos 10_000 ∷ [];
        response = "yes";
        hit_count = 0;
        created_at = 10;
      }
      ∷ [];
  queued = "t" ∷ [];
}

good_answers : Serves "good" [] fine
unfolding serve answer conclude failed_models recorded_failures remember store lookup
    find_candidates best_of with_hit complete_with_fallback try_chain complete_with_retry retry_from
    pause strip_nul
good_answers = refl

serve_again_example :
    (s' : Served ℤ) × ((serve gateway [] call (stamp 30) "good" [] fine.entries 1).0 ≡ some s')
    × ((serve gateway [] call (stamp 30) "good" [] fine.entries 1).1 ≡ 1)
    × (s'.trace.cache_hit ≡ true)
    × (s'.trace.estimated_cost ≡ pos 0)
serve_again_example =
    serve_again Fixed-IsOrdered gateway [] [] call (stamp 10) (stamp 30) "good" [] [] [] 0 1 fine
      refl refl (unfold cosine_similarity fsum in refl) tt (inr (omega arith)) good_answers
      (unfold trace_of in refl) (unfold trace_of in refl) (unfold trace_of in refl)

-- the first model is overloaded, and the second one answers
abbrev saved : Served ℤ
saved = record {
  trace =
      trace_of call (stamp 10) "good" ok
        (cost_of [] "good" (record { content = "yes"; input_tokens = 3; output_tokens = 1 })) false
        ("busy" ∷ []);
  response = "yes";
  entries = fine.entries;
  queued = "t" ∷ [];
}

good_saves : Serves "busy" ("good" ∷ []) saved
unfolding serve answer conclude failed_models recorded_failures remember store lookup
    find_candidates best_of with_hit complete_with_fallback try_chain complete_with_retry retry_from
    pause strip_nul
good_saves = refl

serve_blames_example :
    All
      (λ m. Has m (chain_of "busy" ("good" ∷ [])) × (m ≢ saved.trace.model))
      saved.trace.failed_attempts
serve_blames_example =
    serve_blames (λ calls. calls) gateway (λ model w. refl) (λ d w. refl) [] call (stamp 10) "busy"
      ("good" ∷ []) [] 0 saved refl good_saves
