-- ===== src/Llm/Fallback.antt =====
-- The fallback chain: which models are tried, in which order, and what the log says of them.
use sentinellm.Prelude.{
  ℕ, ◌+◌, ◌*◌, ◌≤◌, ◌≡◌, ◌≢◌, refl, sym, subst, true, false, Bool-cases, inl, inr, ◌⊎◌, none,
  String, List, [], ◌∷◌, ◌++◌, map, length, All, All-append, arith,
}
use mathlib.Core.List.{append-nil}
use sentinellm.Float.{Float}
use sentinellm.Llm.Provider.{Services, Response, ErrorKind, provider_error}
use sentinellm.Llm.Resilient.{
  Client, rounds, FallbackAttempt, Retried, succeeds, fails, assertion_error, Completion, completed,
  all_failed, crashed, complete_with_retry, attempt_ok, attempt_failed, try_chain, chain_of,
  complete_with_fallback,
}
use sentinellm.Llm.Retries.{complete_with_retry-calls}

abbrev pub models_of : List FallbackAttempt → List String
models_of = map (λ a. a.model)

abbrev pub HasFailed : FallbackAttempt → Type 0
HasFailed a = (a.succeeded ≡ false) × (a.error_kind ≢ none)

-- What an outcome says of the chain. A success names a model of it, every model before it has failed
-- and is in the log, in order, and the models after it were not tried. A failure has the whole chain
-- in the log, failed.
abbrev pub Explains : List String → Completion → Type 0
Explains chain (completed r model log) =
    (failed : List FallbackAttempt) × (n : ℕ) × (untried : List String) × (log
      ≡ failed ++ record { model = model; error_kind = none; succeeded = true; attempts = n } ∷ [])
    × All HasFailed failed
    × (models_of failed ++ model ∷ untried ≡ chain)
Explains chain (all_failed log) = (models_of log ≡ chain) × All HasFailed log
Explains chain crashed = ⊥

-- An attempt appended to the log takes its model off the front of the rest of the chain.
models_of-append :
    (log : List FallbackAttempt) (a : FallbackAttempt) (chain : List String)
    → models_of (log ++ a ∷ []) ++ chain ≡ models_of log ++ a.model ∷ chain
models_of-append [] a chain = refl
models_of-append (x ∷ log) a chain = rw (models_of-append log a chain)

Explains-shift :
    (log : List FallbackAttempt) (a : FallbackAttempt) (chain : List String) (out : Completion)
    → Explains (models_of (log ++ a ∷ []) ++ chain) out
    → Explains (models_of log ++ a.model ∷ chain) out
Explains-shift log a chain out x = subst (λ c. Explains c out) (models_of-append log a chain) x

module _ {F W : Type 0} ⦃fl : Float F⦄ (services : Services F W) (client : Client F) where
  Retried-cases :
      (out : Retried)
      → out ≢ assertion_error
      → ((r : Response) × (n : ℕ) × (out ≡ succeeds r n))
        ⊎ ((kind : ErrorKind) × (n : ℕ) × (out ≡ fails kind n))
  Retried-cases (succeeds r n) h = inl (r, n, refl)
  Retried-cases (fails kind n) h = inr (kind, n, refl)
  Retried-cases assertion_error h = absurd (h refl)

  try_missing :
      (model : String) (chain : List String) (log : List FallbackAttempt) (w : W)
      → services.resolves model ≡ false
      → try_chain services client (model ∷ chain) log w
        ≡ try_chain services client chain (log ++ attempt_failed model provider_error 0 ∷ []) w
  unfolding try_chain
  try_missing model chain log w missing = rw (missing, try_chain)

  try_success :
      (model : String) (chain : List String) (log : List FallbackAttempt) (w : W) (r : Response)
      (n : ℕ)
      → services.resolves model ≡ true
      → (complete_with_retry services client model w).0 ≡ succeeds r n
      → try_chain services client (model ∷ chain) log w ≡ (
        completed r model (log ++ attempt_ok model n ∷ []),
        (complete_with_retry services client model w).1,
      )
  unfolding try_chain
  try_success model chain log w r n up e = rw (up, e, try_chain)

  try_failure :
      (model : String) (chain : List String) (log : List FallbackAttempt) (w : W) (kind : ErrorKind)
      (n : ℕ)
      → services.resolves model ≡ true
      → (complete_with_retry services client model w).0 ≡ fails kind n
      → try_chain services client (model ∷ chain) log w
        ≡ try_chain services client chain
            (log ++ attempt_failed model kind n ∷ [])
            (complete_with_retry services client model w).1
  unfolding try_chain
  try_failure model chain log w kind n up e = rw (up, e, try_chain)

  module _ (calls : W → ℕ)
      (counts : (model : String) (w : W) → calls (services.complete model w).1 ≡ calls w + 1)
      (idle : (d : F) (w : W) → calls (services.sleep d w) ≡ calls w) where
    try_chain-Explains :
        (chain : List String) (log : List FallbackAttempt) (w : W)
        → All HasFailed log
        → let (out, w') = try_chain services client chain log w in
          Explains (models_of log ++ chain) out
          × (calls w' ≤ calls w + rounds client * length chain)
    unfolding try_chain
    try_chain-Explains [] log w h = ((sym (append-nil _), h), omega arith)
    try_chain-Explains (model ∷ chain) log w h = elim (Bool-cases (services.resolves model)) [
      | inr missing ↦
          let a = attempt_failed model provider_error 0 in
          let (x, y) =
            try_chain-Explains chain (log ++ a ∷ []) w
              (All-append HasFailed log (a ∷ []) h ((refl, λ p. cc), tt)) in
          rw (try_missing model chain log w missing) (Explains-shift log a chain _ x, omega arith)
      | inl up ↦
          let (made, some_call, few, fine) =
            complete_with_retry-calls services client calls counts idle model w in
          let w' = (complete_with_retry services client model w).1 in
          (elim (Retried-cases (complete_with_retry services client model w).0 fine) [
            | inl (r, n, e) ↦
                rw (try_success model chain log w r n up e)
                  ((log, n, chain, refl, h, refl), omega arith)
            | inr (kind, n, e) ↦
                let a = attempt_failed model kind n in
                let (x, y) =
                  try_chain-Explains chain (log ++ a ∷ []) w'
                    (All-append HasFailed log (a ∷ []) h ((refl, λ p. cc), tt)) in
                rw (try_failure model chain log w kind n up e)
                  (Explains-shift log a chain _ x, omega arith)
          ])
    ]

    -- Every outcome of a request explains its chain, with at most `max(1, max_retries)` calls for each
    -- model of the chain; the client never crashes.
    pub complete_with_fallback-Explains :
        (model : String) (fallback_models : List String) (w : W)
        → let (out, w') = complete_with_fallback services client model fallback_models w in
          let chain = chain_of model fallback_models in
          Explains chain out × (calls w' ≤ calls w + rounds client * length chain)
    unfolding complete_with_fallback
    complete_with_fallback-Explains model fallback_models w =
        try_chain-Explains (chain_of model fallback_models) [] w tt
