-- ===== src/Examples/Retries.antt =====
-- A request against a model that is always overloaded, with one that answers behind it.
use sentinellm.Prelude.{
  ℕ, ◌+◌, ◌*◌, ◌≤◌, ◌≡◌, refl, true, not, String, List, [], ◌∷◌, length, ◌==◌, if◌then◌else◌,
}
use sentinellm.Float.Fixed.{ℤ, pos, fixed_float}
use sentinellm.Llm.Provider.{
  Answer, answered, raised, rate_limit, context_overflow, Response, Services,
}
use sentinellm.Llm.Resilient.{
  Client, rounds, FallbackAttempt, completed, chain_of, pause, retry_from, try_chain,
  complete_with_retry, complete_with_fallback, attempt_ok, attempt_failed,
}
use sentinellm.Llm.Fallback.{Explains, complete_with_fallback-Explains}

abbrev response : Response
response = record { content = "yes"; input_tokens = 3; output_tokens = 1 }

-- what a model answers; the state of the world is the number of calls made
abbrev answer : String → Answer
answer model =
    if model == "busy"
    then raised rate_limit true
    else if model == "small"
    then raised context_overflow true
    else answered response

abbrev services : Services ℤ ℕ
services = record {
  resolves = λ model. not (model == "gone");
  complete = λ model calls. (answer model, calls + 1);
  sleep = λ d calls. calls;
}

abbrev client : Client ℤ
client = record { max_retries = 3; base_backoff_s = pos 2_000; max_backoff_s = pos 40_000 }

abbrev log : List FallbackAttempt
log = attempt_failed "busy" rate_limit 3 ∷ attempt_ok "fine" 1 ∷ []

falls_back :
    complete_with_fallback services client "busy" ("fine" ∷ "busy" ∷ []) 0
    ≡ (completed response "fine" log, 4)
unfolding complete_with_fallback try_chain complete_with_retry retry_from pause
falls_back = refl

complete_with_fallback-Explains_example :
    let (out, w') = complete_with_fallback services client "busy" ("fine" ∷ []) 0 in
    let chain = chain_of "busy" ("fine" ∷ []) in
    Explains chain out × (w' ≤ 0 + rounds client * length chain)
complete_with_fallback-Explains_example =
    complete_with_fallback-Explains services client (λ calls. calls) (λ model w. refl) (λ d w. refl)
      "busy" ("fine" ∷ []) 0
