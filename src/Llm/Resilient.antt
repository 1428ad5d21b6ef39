-- ===== src/Llm/Resilient.antt =====
-- `ResilientLLMClient` of src/sentinellm/llm/resilient.py.
use Prim.Native.Nat.{max}
use sentinellm.Prelude.{
  ℕ, zero, suc, ◌+◌, ◌-◌, ◌^◌, Bool, true, false, not, ◌||◌, ◌==◌, String, Option, none, some, List,
  [], ◌∷◌, ◌++◌, ltb, if◌then◌else◌, keep,
}
use sentinellm.Float.{Float, fmin}
use sentinellm.Llm.Provider.{
  ErrorKind, provider_error, is_overflow, Response, answered, raised, Services,
}

-- Messages of errors are left out.
pub record FallbackAttempt : Type 0 where
  pub model : String
  pub error_kind : Option ErrorKind
  pub succeeded : Bool
  pub attempts : ℕ

-- What the retries of one model come to; the last is the assertion on `last_error`.
pub data Retried : Type 0 where
  succeeds : Response → ℕ → Retried
  fails : ErrorKind → ℕ → Retried
  assertion_error : Retried

-- What the whole chain comes to; `all_failed` is `AllModelsFailedError`.
pub data Completion : Type 0 where
  completed : Response → String → List FallbackAttempt → Completion
  all_failed : List FallbackAttempt → Completion
  crashed : Completion

pub record Client (F : Type 0) : Type 0 where
  pub max_retries : ℕ
  pub base_backoff_s : F
  pub max_backoff_s : F

-- the attempts that a model gets, `max(1, self._max_retries)`
abbrev pub rounds : {F : Type 0} → Client F → ℕ
rounds c = max 1 c.max_retries

abbrev pub attempt_ok : String → ℕ → FallbackAttempt
attempt_ok model n = record { model = model; error_kind = none; succeeded = true; attempts = n }

abbrev pub attempt_failed : String → ErrorKind → ℕ → FallbackAttempt
attempt_failed model kind n = record {
  model = model;
  error_kind = some kind;
  succeeded = false;
  attempts = n;
}

-- the chain: the first model, then the fallbacks that are not the first model again
unfoldable pub chain_of : String → List String → List String
chain_of model fallback_models = model ∷ keep (λ m. not (m == model)) fallback_models

module _ {F W : Type 0} ⦃fl : Float F⦄ (services : Services F W) (client : Client F) where
  open services use {resolves, complete, sleep}
  open fl use {times, of_nat}

  -- `exp` of `_backoff_delay`: the sleep is drawn from 0 up to it
  unfoldable pub backoff_bound : ℕ → F
  backoff_bound attempt =
      fmin (times client.base_backoff_s (of_nat (2 ^ attempt))) client.max_backoff_s

  -- after the loop
  abbrev exhausted : Option ErrorKind → ℕ → Retried
  exhausted none made = assertion_error
  exhausted (some kind) made = fails kind made

  -- sleeps between attempts, and not after the last one
  unfoldable pub pause : ℕ → W → W
  unfolding backoff_bound
  pause attempt w = if ltb attempt (rounds client) then sleep (backoff_bound attempt) w else w

  -- the loop, with `left` attempts to go; `attempt` is the loop's variable
  unfoldable pub retry_from : (left : ℕ) → String → ℕ → Option ErrorKind → W → Retried × W
  retry_from zero model attempt last w = (exhausted last (attempt - 1), w)
  retry_from (suc left) model attempt last w =
      let (answer, w') = complete model w in
      elim answer [
        | answered r ↦ (succeeds r attempt, w')
        | raised kind retryable ↦
            if is_overflow kind || not retryable
            then (fails kind attempt, w')
            else retry_from left model (attempt + 1) (some kind) (pause attempt w')
      ]

  unfoldable pub complete_with_retry : String → W → Retried × W
  complete_with_retry model w = retry_from (rounds client) model 1 none w

  -- the loop over the chain
  unfoldable pub try_chain : List String → List FallbackAttempt → W → Completion × W
  try_chain [] log w = (all_failed log, w)
  try_chain (model ∷ chain) log w = elim (resolves model) [
    | false ↦ try_chain chain (log ++ attempt_failed model provider_error 0 ∷ []) w
    | true ↦
        let (retried, w') = complete_with_retry model w in
        elim retried [
          | succeeds r n ↦ (completed r model (log ++ attempt_ok model n ∷ []), w')
          | fails kind n ↦ try_chain chain (log ++ attempt_failed model kind n ∷ []) w'
          | assertion_error ↦ (crashed, w')
        ]
  ]

  unfoldable pub complete_with_fallback : String → List String → W → Completion × W
  unfolding chain_of
  complete_with_fallback model fallback_models w = try_chain (chain_of model fallback_models) [] w
