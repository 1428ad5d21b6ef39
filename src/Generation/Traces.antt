-- ===== src/Generation/Traces.antt =====
-- What a request leaves: the trace of a failure, and an entry that serves the same question again.
use sentinellm.Prelude.{
  ℕ, ◌≡◌, ◌≤◌, ◌<◌, ◌+◌, refl, ap, ◌⊎◌, inl, inr, Bool-cases, true, false, ◌&&◌, String, Option,
  none, some, Option-cases, List, [], All, arith,
}
use sentinellm.Float.{Float, IsOrdered}
use sentinellm.Tables.{ok, error, skipped, Model}
use sentinellm.Llm.Provider.{Response}
use sentinellm.Llm.Resilient.{
  FallbackAttempt, Completion, completed, all_failed, crashed, complete_with_fallback,
}
use sentinellm.Cache.Similarity.{cosine_similarity}
use sentinellm.Cache.Entries.{Entry, Hit, Cache, Query, seconds, lookup, with_hit, store}
use sentinellm.Cache.Reuse.{lookup-store}
use sentinellm.Generation.Serving.{
  Call, Gateway, Stamp, Served, query_of, trace_of, remember, conclude, from_cache, answer, serve,
}

Completion-cases :
    (c : Completion)
    → ((r : Response) × (m : String) × (log : List FallbackAttempt) × (c ≡ completed r m log))
      ⊎ (((log : List FallbackAttempt) × (c ≡ all_failed log)) ⊎ (c ≡ crashed))
Completion-cases (completed r m log) = inl (r, m, log, refl)
Completion-cases (all_failed log) = inr (inl (log, refl))
Completion-cases crashed = inr (inr refl)

module _ {F : Type 0} ⦃fl : Float F⦄ where
  -- a miss leaves the table as it is
  lookup-miss :
      (c : Cache F) (entries : List (Entry F)) (now : ℕ) (q : Query)
      → (lookup c entries now q).0 ≡ none
      → (lookup c entries now q).1 ≡ entries
  unfolding lookup with_hit
  lookup-miss c entries now q h = ground arith

module _ {F W : Type 0} ⦃fl : Float F⦄ where
  module _ (g : Gateway F W) (models : List (Model F)) (call : Call) (stamp : Stamp F)
      (selected : String) (fallbacks : List String) (entries : List (Entry F)) (w : W) where
    abbrev pub completion : Completion
    completion = (complete_with_fallback g.services g.client selected fallbacks w).0

    -- a request is served by the cache, or by the client over the table as it was
    pub serve_cases :
        ((hit : Hit F) × (serve g models call stamp selected fallbacks entries w ≡ (
          some (
              from_cache g models call stamp selected hit
                (lookup g.cache entries stamp.now (query_of call selected)).1),
          w,
        )))
        ⊎ ((serve g models call stamp selected fallbacks entries w).0
            ≡ conclude g models call stamp selected entries completion)
    unfolding serve answer
    serve_cases =
        elim (Option-cases (lookup g.cache entries stamp.now (query_of call selected)).0) [
          | inl miss ↦
              inr (ground (arith, lookup-miss g.cache entries stamp.now (query_of call selected)))
          | inr (hit, found) ↦ elim (Bool-cases (g.cache_enabled && call.use_cache)) [
            | inl on ↦ inl (hit, ground arith)
            | inr off ↦ inr (ground arith)
          ]
        ]

    -- A request whose trace is an error is charged to the first model of its chain at no cost; it leaves
    -- the table of the cache as it was, is not evaluated, and nothing is put on the queue.
    pub serve_failed :
        (s : Served F)
        → (serve g models call stamp selected fallbacks entries w).0 ≡ some s
        → s.trace.status ≡ error
        → (s.trace.model ≡ selected)
          × (s.trace.estimated_cost ≡ fl.decimal 0 0)
          × (s.trace.cache_hit ≡ false)
          × (s.entries ≡ entries)
          × (s.trace.evaluation_status ≡ skipped)
          × (s.queued ≡ [])
    unfolding conclude trace_of
    serve_failed s h failed = elim serve_cases [
      | inl (hit, e) ↦ absurd (cc (ap (λ (p : Option (Served F) × W). p.0) e, h, failed))
      | inr e ↦ elim (Completion-cases completion) [
        | inl (r, m, log, c) ↦ absurd (ground arith)
        | inr (inl (log, c)) ↦ ground arith
        | inr (inr c) ↦ absurd (ground arith)
      ]
    ]

    -- an answer by the first model is in the table of the cache
    answered_stored :
        (s : Served F)
        → (serve g models call stamp selected fallbacks entries w).0 ≡ some s
        → s.trace.status ≡ ok
        → s.trace.cache_hit ≡ false
        → s.trace.model ≡ selected
        → (g.cache_enabled && call.use_cache) ≡ true
        → g.redact call.question ≡ call.question
        → (response : String) × (s.entries
            ≡ store g.cache entries (query_of call selected) response stamp.entry_id stamp.now)
    unfolding conclude trace_of remember
    answered_stored s h fine fresh first on plain = elim serve_cases [
      | inl (hit, e) ↦ absurd (cc (ap (λ (p : Option (Served F) × W). p.0) e, h, fresh))
      | inr e ↦ elim (Completion-cases completion) [
        | inl (r, m, log, c) ↦ (g.redact s.response, ground arith)
        | inr (inl (log, c)) ↦ absurd (ground arith)
        | inr (inr c) ↦ absurd (ground arith)
      ]
    ]

  module _ (g : Gateway F W) (models : List (Model F)) (call : Call) (stamp : Stamp F)
      (selected : String) (fallbacks : List String) (entries : List (Entry F)) (w : W) where
    hit-served :
        (hit : Hit F)
        → (g.cache_enabled && call.use_cache) ≡ true
        → (lookup g.cache entries stamp.now (query_of call selected)).0 ≡ some hit
        → serve g models call stamp selected fallbacks entries w ≡ (
          some (
              from_cache g models call stamp selected hit
                (lookup g.cache entries stamp.now (query_of call selected)).1),
          w,
        )
    unfolding serve answer
    hit-served hit on found = ground arith

  -- The same question asked again, of the same first model and in the same context, is served from the
  -- cache without a call and at no cost: where the cache is on for it, nothing in it is redacted, the
  -- first model answered it as the newest entry, which is not expired, and its vector is similar enough
  -- to itself.
  pub serve_again :
      (laws : IsOrdered F) (g : Gateway F W) (models models' : List (Model F)) (call : Call)
      (stamp stamp' : Stamp F) (selected : String) (fallbacks fallbacks' : List String)
      (entries : List (Entry F)) (w w' : W) (s : Served F)
      → (g.cache_enabled && call.use_cache) ≡ true
      → g.redact call.question ≡ call.question
      → fl.le g.cache.threshold
          (cosine_similarity (g.cache.embed call.question) (g.cache.embed call.question))
        ≡ true
      → All (λ e. e.created_at < stamp.now) entries
      → (g.cache.ttl_seconds ≡ 0) ⊎ (stamp'.now ≤ stamp.now + seconds g.cache.ttl_seconds)
      → (serve g models call stamp selected fallbacks entries w).0 ≡ some s
      → s.trace.status ≡ ok
      → s.trace.cache_hit ≡ false
      → s.trace.model ≡ selected
      → (s' : Served F) × ((serve g models' call stamp' selected fallbacks' s.entries w').0
          ≡ some s')
        × ((serve g models' call stamp' selected fallbacks' s.entries w').1 ≡ w')
        × (s'.trace.cache_hit ≡ true)
        × (s'.trace.estimated_cost ≡ fl.decimal 0 0)
  unfolding trace_of
  serve_again laws g models models' call stamp stamp' selected fallbacks fallbacks' entries w w' s
        on plain self older alive h fine fresh first =
      let (response, kept) =
        answered_stored g models call stamp selected fallbacks entries w s h fine fresh first on
          plain in
      let q = query_of call selected in
      let (hit, found, near) =
        lookup-store laws g.cache entries q response stamp.entry_id stamp.now stamp'.now older alive
          self in
      let again =
        hit-served g models' call stamp' selected fallbacks' s.entries w' hit on (rw kept found) in
      (
        from_cache g models' call stamp' selected hit (lookup g.cache s.entries stamp'.now q).1,
        ap (λ (p : Option (Served F) × W). p.0) again,
        ap (λ (p : Option (Served F) × W). p.1) again,
        refl,
        refl,
      )
