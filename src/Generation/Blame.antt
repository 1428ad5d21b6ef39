-- ===== src/Generation/Blame.antt =====
-- Whom the trace of a request blames.
use sentinellm.Prelude.{
  ℕ, ◌≡◌, ◌≢◌, ◌+◌, refl, sym, ap, subst, ◌∙◌, ◌⊎◌, inl, inr, Bool-cases, eq_iff, String, Option,
  some, List, [], ◌∷◌, ◌++◌, All, All-Has, Has, arith,
}
use sentinellm.Float.{Float}
use sentinellm.Tables.{Model}
use sentinellm.Llm.Provider.{Response}
use sentinellm.Llm.Resilient.{
  FallbackAttempt, Completion, completed, all_failed, crashed, complete_with_fallback, chain_of,
  attempt_ok,
}
use sentinellm.Llm.Fallback.{Explains, models_of, complete_with_fallback-Explains}
use sentinellm.Cache.Entries.{Entry, Hit}
use sentinellm.Generation.Serving.{
  Call, Gateway, Stamp, Served, failed_models, counts_against, recorded_failures, trace_of,
  conclude, from_cache, serve,
}
use sentinellm.Generation.Traces.{serve_cases}

-- the models of attempts that count against somebody are models of the log
failed_models-All :
    (P : String → Type 0) (log : List FallbackAttempt) (exclude : String)
    → All P (models_of log)
    → All (λ m. P m × (m ≢ exclude)) (failed_models log exclude)
unfolding failed_models
failed_models-All P [] exclude h = tt
failed_models-All P (a ∷ log) exclude (k, ks) =
    let rest = failed_models-All P log exclude ks in
    elim (Bool-cases (counts_against exclude a)) [
      | inl counts ↦ rw counts ((k, λ same. ground (arith, eq_iff a.model exclude)), rest)
      | inr spared ↦ rw spared rest
    ]

recorded_failures-nil : (failed : List String) → recorded_failures [] failed ≡ failed
unfolding recorded_failures
recorded_failures-nil [] = refl
recorded_failures-nil (m ∷ ms) = refl

some_inj : {A : Type 0} {a b : A} → some a ≡ some b → a ≡ b
some_inj h = cc h

-- the models of a log that a success explains are models of its chain
All-log :
    (P : String → Type 0) (failed : List FallbackAttempt) (a : FallbackAttempt)
    (untried : List String)
    → All P (models_of failed ++ a.model ∷ untried)
    → All P (models_of (failed ++ a ∷ []))
All-log P [] a untried (k, ks) = (k, tt)
All-log P (x ∷ failed) a untried (k, ks) = (k, All-log P failed a untried ks)

Explains-All :
    (chain : List String) (out : Completion)
    → Explains chain out
    → (log : List FallbackAttempt)
    → ((r : Response) × (m : String) × (out ≡ completed r m log)) ⊎ (out ≡ all_failed log)
    → All (λ m. Has m chain) (models_of log)
Explains-All chain (completed r' m' log') (failed, n, untried, shape, bad, whole) log
      (inl (r, m, e)) =
    let same : log' ≡ log = ground arith in
    rw (← same, shape)
      (All-log (λ m. Has m chain) failed (attempt_ok m' n) untried
        (subst (λ c. All (λ m. Has m chain) c) (sym whole) (All-Has _ chain (λ x m. m))))
Explains-All chain (completed r' m' log') x log (inr e) = absurd (cc e)
Explains-All chain (all_failed log') (whole, bad) log (inl (r, m, e)) = absurd (cc e)
Explains-All chain (all_failed log') (whole, bad) log (inr e) =
    let same : log' ≡ log = ground arith in
    rw (← same) (subst (λ c. All (λ m. Has m chain) c) (sym whole) (All-Has _ chain (λ x m. m)))
Explains-All chain crashed x log h = absurd x

module _ {F W : Type 0} ⦃fl : Float F⦄ where
  -- what the trace of a conclusion records, by the log of the client
  conclude_failures :
      (g : Gateway F W) (models : List (Model F)) (call : Call) (stamp : Stamp F)
      (selected : String) (entries : List (Entry F)) (out : Completion) (s : Served F)
      → call.metadata_failed ≡ []
      → conclude g models call stamp selected entries out ≡ some s
      → (log : List FallbackAttempt) × (((r : Response) × (m : String) × (out ≡ completed r m log))
          ⊎ (out ≡ all_failed log))
        × (s.trace.failed_attempts ≡ failed_models log s.trace.model)
  unfolding conclude trace_of
  conclude_failures g models call stamp selected entries (completed r m log) s own h =
      (log, inl (r, m, refl), ground (arith, recorded_failures-nil (failed_models log m)))
  conclude_failures g models call stamp selected entries (all_failed log) s own h =
      (log, inr refl, ground (arith, recorded_failures-nil (failed_models log selected)))
  conclude_failures g models call stamp selected entries crashed s own h = absurd (cc h)

  cached_failures :
      (g : Gateway F W) (models : List (Model F)) (call : Call) (stamp : Stamp F)
      (selected : String) (hit : Hit F) (entries : List (Entry F))
      → call.metadata_failed ≡ []
      → (from_cache g models call stamp selected hit entries).trace.failed_attempts ≡ []
  unfolding trace_of recorded_failures
  cached_failures g models call stamp selected hit entries own = own

  -- Where the caller's metadata claims no failures, the failures that a trace records are of models of
  -- its chain, and never of the model that the trace itself is for.
  pub serve_blames :
      (calls : W → ℕ) (g : Gateway F W)
      → ((model : String) (w : W) → calls (g.services.complete model w).1 ≡ calls w + 1)
      → ((bound : F) (w : W) → calls (g.services.sleep bound w) ≡ calls w)
      → (models : List (Model F)) (call : Call) (stamp : Stamp F) (selected : String)
        (fallbacks : List String) (entries : List (Entry F)) (w : W) (s : Served F)
      → call.metadata_failed ≡ []
      → (serve g models call stamp selected fallbacks entries w).0 ≡ some s
      → All (λ m. Has m (chain_of selected fallbacks) × (m ≢ s.trace.model)) s.trace.failed_attempts
  serve_blames calls g counts quiet models call stamp selected fallbacks entries w s own h =
      elim (serve_cases g models call stamp selected fallbacks entries w) [
        | inl (hit, e) ↦
            let same : _ ≡ s = some_inj (sym (ap (λ (p : Option (Served F) × W). p.0) e) ∙ h) in
            rw (← same, cached_failures g models call stamp selected hit _ own) tt
        | inr e ↦
            let out = (complete_with_fallback g.services g.client selected fallbacks w).0 in
            let (log, ended, recorded) =
              conclude_failures g models call stamp selected entries out s own (sym e ∙ h) in
            let explained =
              (complete_with_fallback-Explains g.services g.client calls counts quiet selected
                fallbacks w).0 in
            let chain = chain_of selected fallbacks in
            rw recorded (
              failed_models-All (λ m. Has m chain) log s.trace.model
                (Explains-All chain out explained log ended))
      ]
