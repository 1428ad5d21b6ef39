-- ===== src/Llm/Provider.antt =====
-- What a provider may answer (src/sentinellm/llm/base.py). Providers are services: the models take
-- their behaviour as a parameter.
use sentinellm.Prelude.{ℕ, String, Bool, true, false, ◌≡◌, refl, ◌⊎◌, inl, inr}

-- `LLMErrorKind`
pub data ErrorKind : Type 0 where
  timeout rate_limit provider_error malformed_response context_overflow : ErrorKind

abbrev pub is_overflow : ErrorKind → Bool
is_overflow context_overflow = true
is_overflow _ = false

-- `LLMResponse`, the fields that are read later
pub record Response : Type 0 where
  pub content : String
  pub input_tokens : ℕ
  pub output_tokens : ℕ

-- One call of `provider.complete`: a response, or a `ProviderError` with its `retryable`.
pub data Answer : Type 0 where
  answered : Response → Answer
  raised : ErrorKind → Bool → Answer

pub Answer-cases :
    (a : Answer)
    → ((r : Response) × (a ≡ answered r))
      ⊎ ((kind : ErrorKind) × (retryable : Bool) × (a ≡ raised kind retryable))
Answer-cases (answered r) = inl (r, refl)
Answer-cases (raised kind retryable) = inr (kind, retryable, refl)

-- The outside world, as a state that calls and sleeps change.
pub record Services (F W : Type 0) : Type 0 where
  -- whether `get_provider_for_model` finds a usable provider, rather than raising
  pub resolves : String → Bool
  -- `provider.complete` for a model
  pub complete : String → W → Answer × W
  -- `asyncio.sleep` for a time drawn from 0 up to a bound
  pub sleep : F → W → W
