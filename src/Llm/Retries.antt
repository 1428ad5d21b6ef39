-- ===== src/Llm/Retries.antt =====
-- The retries of one model are bounded, and their count is reported truly.
use sentinellm.Prelude.{
  ℕ, zero, suc, ◌+◌, ◌-◌, ◌^◌, inl, inr, ◌⊎◌, ◌≤◌, ◌≡◌, ◌≢◌, true, false, Bool, Option, none, some,
  String, arith,
}
use sentinellm.Float.{Float, IsOrdered, IsNumber}
use sentinellm.Llm.Provider.{ErrorKind, raised, Answer-cases, Services, is_overflow}
use sentinellm.Llm.Resilient.{
  Client, rounds, Retried, succeeds, fails, assertion_error, backoff_bound, pause, retry_from,
  complete_with_retry,
}

-- How many attempts a result reports.
abbrev pub reported : Retried → ℕ
reported (succeeds r n) = n
reported (fails kind n) = n
reported assertion_error = 0

module _ {F W : Type 0} ⦃fl : Float F⦄ (services : Services F W) (client : Client F) where
  -- The sleep before the next attempt is never drawn from beyond `max_backoff_s`.
  pub backoff_bound-le_max :
      (laws : IsOrdered F) (attempt : ℕ)
      → IsNumber client.max_backoff_s
      → IsNumber (fl.times client.base_backoff_s (fl.of_nat (2 ^ attempt)))
      → fl.le (backoff_bound services client attempt) client.max_backoff_s ≡ true
  unfolding backoff_bound
  backoff_bound-le_max laws attempt h k = ground (
    arith,
    laws.lt-eq-not-le client.max_backoff_s
        (fl.times client.base_backoff_s (fl.of_nat (2 ^ attempt))) h k,
  )

  -- A `calls` counter of the world: a call is one call, and a sleep is none.
  module _ (calls : W → ℕ)
      (counts : (model : String) (w : W) → calls (services.complete model w).1 ≡ calls w + 1)
      (idle : (d : F) (w : W) → calls (services.sleep d w) ≡ calls w) where
    pause-calls : (attempt : ℕ) (w : W) → calls (pause services client attempt w) ≡ calls w
    unfolding pause
    pause-calls attempt w = ground (arith, idle (backoff_bound services client attempt) w)

    -- Between two rounds: the first one is still to come, or an error is at hand.
    abbrev Going : Option ErrorKind → ℕ → ℕ → Type 0
    Going none attempt left = (attempt ≡ 1) × (1 ≤ left)
    Going (some kind) attempt left = 2 ≤ attempt

    Going-pos : (last : Option ErrorKind) (attempt left : ℕ) → Going last attempt left → 1 ≤ attempt
    Going-pos none attempt left h = omega arith
    Going-pos (some kind) attempt left h = omega arith

    retry_from-calls :
        (left : ℕ) (model : String) (attempt : ℕ) (last : Option ErrorKind) (w : W)
        → Going last attempt left
        → let (out, w') = retry_from services client left model attempt last w in
          (reported out + calls w + 1 ≡ attempt + calls w')
          × (reported out + 1 ≤ attempt + left)
          × (1 ≤ reported out)
          × (out ≢ assertion_error)
    unfolding retry_from
    retry_from-calls zero model attempt none w h = absurd (omega arith)
    retry_from-calls zero model attempt (some kind) w h = ground arith
    retry_from-calls (suc left) model attempt last w h =
        let w' = (services.complete model w).1 in
        let late = Going-pos last attempt (suc left) h in
        elim (Answer-cases (services.complete model w).0) [
          | inl (r, e) ↦ ground (arith, counts model w)
          | inr (kind, retryable, e) ↦ ground (
            arith,
            counts model w,
            pause-calls attempt w',
            retry_from-calls left model (attempt + 1) (some kind) (pause services client attempt w')
                (omega arith),
          )
        ]

    -- A model gets between one attempt and `max(1, max_retries)`, the attempts reported are the calls
    -- made, and the assertion on the last error never fails.
    pub complete_with_retry-calls :
        (model : String) (w : W)
        → let (out, w') = complete_with_retry services client model w in
          (calls w' ≡ calls w + reported out)
          × (1 ≤ reported out)
          × (reported out ≤ rounds client)
          × (out ≢ assertion_error)
    unfolding complete_with_retry
    complete_with_retry-calls model w =
        let facts = retry_from-calls (rounds client) model 1 none w (omega arith) in
        (omega arith, omega arith, omega arith, facts.3)

  retry_from_final :
      (left : ℕ) (model : String) (attempt : ℕ) (last : Option ErrorKind) (w : W) (kind : ErrorKind)
      (retryable : Bool)
      → (services.complete model w).0 ≡ raised kind retryable
      → (retryable ≡ false) ⊎ (is_overflow kind ≡ true)
      → retry_from services client (suc left) model attempt last w
        ≡ (fails kind attempt, (services.complete model w).1)
  unfolding retry_from
  retry_from_final left model attempt last w kind retryable e stop = ground arith

  -- An error that must not be retried, and an overflow of the context, end the model's turn at once.
  pub complete_with_retry_final :
      (model : String) (w : W) (kind : ErrorKind) (retryable : Bool)
      → (services.complete model w).0 ≡ raised kind retryable
      → (retryable ≡ false) ⊎ (is_overflow kind ≡ true)
      → complete_with_retry services client model w ≡ (fails kind 1, (services.complete model w).1)
  unfolding complete_with_retry
  complete_with_retry_final model w kind retryable e stop =
      let some_round : rounds client ≡ suc (rounds client - 1) = omega arith in
      rw some_round (retry_from_final (rounds client - 1) model 1 none w kind retryable e stop)
