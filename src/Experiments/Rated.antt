-- ===== src/Experiments/Rated.antt =====
-- What a run of src/sentinellm/services/experiments.py reports, and what the gate of
-- src/sentinellm/services/prompts.py makes of it.
use sentinellm.Prelude.{
  ℕ, suc, ◌≡◌, refl, ap, subst, ◌∙◌, inl, inr, Bool-cases, true, ◌==◌, Option, Option-cases, none,
  some, List, [], ◌∷◌, keep, any, length,
}
use sentinellm.Float.{Float}
use sentinellm.Tables.{Trace}
use sentinellm.Prompts.Versions.{is_version}
use sentinellm.Evaluations.Quality.{Metric}
use sentinellm.Experiments.Run.{
  RunRequest, Question, RunDb, ExperimentRow, ran, Generator, generate_all, prepend, request_for,
  answered_traces, Judged, persist_all, aggregate, with_run, conclude_run, judge_run, run_over,
  questions_of, run_experiment,
}
use sentinellm.Experiments.Passes.{AreFresh, passes, pass_count_run}

module _ {F W : Type 0} (generator : Generator F W) (request : RunRequest F) where
  abbrev HasLength : ℕ → Option (List (Trace F)) → Type 0
  HasLength n none = Unit
  HasLength n (some ts) = length ts ≡ n

  prepend-HasLength :
      (t : Trace F) (n : ℕ) (o : Option (List (Trace F)))
      → HasLength n o
      → HasLength (suc n) (prepend t o)
  prepend-HasLength t n none h = tt
  prepend-HasLength t n (some ts) h = ap suc h

  -- one trace for each record
  generate_all-HasLength :
      (qs : List Question) (w : W) → HasLength (length qs) (generate_all generator request qs w).0
  unfolding generate_all
  generate_all-HasLength [] w = refl
  generate_all-HasLength (q ∷ qs) w =
      let (made, w') = generator.generate (request_for request q) w in
      elim (Option-cases made) [
        | inl raised ↦ rw (raised, generate_all) tt
        | inr (t, e) ↦
            rw (e, generate_all)
              (prepend-HasLength t (length qs) (generate_all generator request qs w').0
                (generate_all-HasLength qs w'))
      ]

module _ {F W : Type 0} ⦃fl : Float F⦄ (generator : Generator F W)
    (evaluators : Trace F → Option (List (Metric F) × F)) (request : RunRequest F) (now : ℕ)
    (db : RunDb F) where
  -- what stands behind a run that succeeds
  pub record Stages (w : W) (row : ExperimentRow F) (db' : RunDb F) (w' : W) : Type 0 where
    pub traces : List (Trace F)
    pub judged : Judged F
    pub made : generate_all generator request (questions_of request db) w ≡ (some traces, w')
    pub kept :
        persist_all evaluators (answered_traces traces) (db.records.evaluations, db.metrics)
        ≡ some judged
    pub known : any (is_version request.prompt_id request.prompt_version) db.prompts ≡ true
    pub reported : row ≡ aggregate request now traces judged
    pub left : db' ≡ with_run db traces judged row

  module _ (w w' : W) (row : ExperimentRow F) (db' : RunDb F)
      (known : any (is_version request.prompt_id request.prompt_version) db.prompts ≡ true) where
    from_judged :
        (traces : List (Trace F)) (o : Option (Judged F)) (w1 : W)
        → generate_all generator request (questions_of request db) w ≡ (some traces, w1)
        → persist_all evaluators (answered_traces traces) (db.records.evaluations, db.metrics) ≡ o
        → conclude_run request now db traces o w1 ≡ ran row db' w'
        → Stages w row db' w'
    unfolding conclude_run
    from_judged traces none w1 made kept h = absurd (cc h)
    from_judged traces (some judged) w1 made kept h = record {
      traces = traces;
      judged = judged;
      made = cc (made, h);
      known = known;
      kept = kept;
      reported = cc h;
      left = cc h;
    }

    from_made :
        (p : Option (List (Trace F)) × W)
        → generate_all generator request (questions_of request db) w ≡ p
        → judge_run generator evaluators request now db p ≡ ran row db' w'
        → Stages w row db' w'
    unfolding judge_run
    from_made (none, w1) made h = absurd (cc h)
    from_made (some traces, w1) made h =
        from_judged traces
          (persist_all evaluators (answered_traces traces) (db.records.evaluations, db.metrics)) w1
          made refl h

    from_questions :
        (qs : List Question)
        → questions_of request db ≡ qs
        → run_over generator evaluators request now db qs w ≡ ran row db' w'
        → Stages w row db' w'
    from_questions [] e h = absurd (cc h)
    from_questions (q ∷ qs) e h =
        from_made (generate_all generator request (q ∷ qs) w)
          (ap (λ xs. generate_all generator request xs w) e) h

  pub run_experiment-Stages :
      (w w' : W) (row : ExperimentRow F) (db' : RunDb F)
      → run_experiment generator evaluators request now db w ≡ ran row db' w'
      → Stages w row db' w'
  unfolding run_experiment
  run_experiment-Stages w w' row db' h =
      elim (Bool-cases (any (is_version request.prompt_id request.prompt_version) db.prompts)) [
        | inr unknown ↦ absurd (cc (rw (unknown, run_experiment) at h))
        | inl known ↦ elim (Bool-cases (any (λ d. d == request.dataset_id) db.datasets)) [
          | inr missing ↦ absurd (cc (rw (known, missing, run_experiment) at h))
          | inl there ↦
              from_questions w w' row db' known (questions_of request db) refl
                (rw (known, there, run_experiment) at h)
        ]
      ]

  Stages-pass_rate :
      (w w' : W) (row : ExperimentRow F) (db' : RunDb F) (s : Stages w row db' w')
      → AreFresh db.records.evaluations s.traces
      → row.pass_rate
        ≡ fl.round
            (fl.over
              (fl.of_nat
                (length (keep (passes evaluators request.quality_pass_threshold) s.traces)))
              (fl.of_nat (length s.traces)))
            4
  unfolding aggregate
  Stages-pass_rate w w' row db' s fresh =
      ap (λ (r : ExperimentRow F). r.pass_rate) s.reported
      ∙ ap (λ n. fl.round (fl.over (fl.of_nat n) (fl.of_nat (length s.traces))) 4)
          (pass_count_run evaluators request.quality_pass_threshold s.traces
            (db.records.evaluations, db.metrics) s.judged fresh s.kept)

  -- A run that succeeds makes one trace for each record of its sample. Where their ids are new, its pass
  -- rate is the rounded share, among the records of the sample, of those whose request was answered with
  -- an evaluation that reaches the threshold.
  pub run_experiment-pass_rate :
      (w w' : W) (row : ExperimentRow F) (db' : RunDb F) (traces : List (Trace F))
      → run_experiment generator evaluators request now db w ≡ ran row db' w'
      → generate_all generator request (questions_of request db) w ≡ (some traces, w')
      → AreFresh db.records.evaluations traces
      → (length traces ≡ length (questions_of request db))
        × (row.pass_rate
            ≡ fl.round
                (fl.over
                  (fl.of_nat
                    (length (keep (passes evaluators request.quality_pass_threshold) traces)))
                  (fl.of_nat (length (questions_of request db))))
                4)
  run_experiment-pass_rate w w' row db' traces h made fresh =
      let s = run_experiment-Stages w w' row db' h in
      let same : s.traces ≡ traces = cc (s.made, made) in
      let long : length traces ≡ length (questions_of request db) =
        subst (HasLength generator request (length (questions_of request db)))
          (ap (λ (p : Option (List (Trace F)) × W). p.0) made)
          (generate_all-HasLength generator request (questions_of request db) w) in
      (long, rw (← long, ← same) (Stages-pass_rate w w' row db' s (rw same fresh)))
