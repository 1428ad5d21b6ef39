-- ===== src/Experiments/Passes.antt =====
-- What the pass rate of an experiment counts.
use sentinellm.Prelude.{
  suc, ◌≡◌, refl, sym, ap, ◌∙◌, inl, inr, Bool, Bool-cases, true, false, ◌&&◌, ◌==◌, eq_iff, String,
  Option, Option-cases, none, some, List, [], ◌∷◌, ◌++◌, keep, length, All, All-keep, All-Has, Has,
  keep-append, arith, if◌then◌else◌,
}
use mathlib.Core.List.{append_assoc, append-nil}
use sentinellm.Float.{Float}
use sentinellm.Tables.{Trace, Evaluation, is_ok}
use sentinellm.Evaluations.Jobs.{Scores, has_evaluation, evaluation_of, run_and_persist}
use sentinellm.Evaluations.Quality.{Metric}
use sentinellm.Regressions.Windows.{MetricScore, of_traces}
use sentinellm.Experiments.Run.{
  answered_traces, metric_rows, Judged, scores_of, persist, persist_all, evaluations_of, pass_count,
}

eq_comm : (a b : String) → (a == b) ≡ (b == a)
eq_comm a b = ground (arith, eq_iff a b, eq_iff b a)

module _ {F : Type 0} where
  -- new ids: no trace has an evaluation, and no two have the same id
  abbrev pub AreFresh : List (Evaluation F) → List (Trace F) → Type 0
  AreFresh evaluations [] = Unit
  AreFresh evaluations (t ∷ ts) =
      (has_evaluation evaluations t.id ≡ false)
      × All (λ u. (t.id == u.id) ≡ false) ts
      × AreFresh evaluations ts

  AreFresh-keep :
      (evaluations : List (Evaluation F)) (p : Trace F → Bool) (ts : List (Trace F))
      → AreFresh evaluations ts
      → AreFresh evaluations (keep p ts)
  AreFresh-keep evaluations p [] h = tt
  AreFresh-keep evaluations p (t ∷ ts) (new, apart, rest) = elim (Bool-cases (p t)) [
    | inl kept ↦ rw kept (new, All-keep _ p ts apart, AreFresh-keep evaluations p ts rest)
    | inr dropped ↦ rw dropped (AreFresh-keep evaluations p ts rest)
  ]

  has_evaluation_other :
      (evaluations : List (Evaluation F)) (e : Evaluation F) (id : String)
      → has_evaluation evaluations id ≡ false
      → (e.trace_id == id) ≡ false
      → has_evaluation (evaluations ++ e ∷ []) id ≡ false
  unfolding has_evaluation
  has_evaluation_other [] e id h k = rw k
  has_evaluation_other (x ∷ evaluations) e id h k =
      ground (arith, has_evaluation_other evaluations e id)

  AreFresh-append :
      (evaluations : List (Evaluation F)) (e : Evaluation F) (ts : List (Trace F))
      → All (λ u. (e.trace_id == u.id) ≡ false) ts
      → AreFresh evaluations ts
      → AreFresh (evaluations ++ e ∷ []) ts
  AreFresh-append evaluations e [] a h = tt
  AreFresh-append evaluations e (t ∷ ts) (other, others) (new, apart, rest) = (
    has_evaluation_other evaluations e t.id new other,
    apart,
    AreFresh-append evaluations e ts others rest,
  )

  not_of_fresh :
      (evaluations : List (Evaluation F)) (e : Evaluation F) (ts : List (Trace F))
      → AreFresh (e ∷ evaluations) ts
      → of_traces ts e.trace_id ≡ false
  unfolding has_evaluation
  not_of_fresh evaluations e [] h = refl
  not_of_fresh evaluations e (t ∷ ts) (new, apart, rest) =
      ground (arith, eq_comm t.id e.trace_id, not_of_fresh evaluations e ts rest)

  AreFresh-tail :
      (evaluations : List (Evaluation F)) (e : Evaluation F) (ts : List (Trace F))
      → AreFresh (e ∷ evaluations) ts
      → AreFresh evaluations ts
  unfolding has_evaluation
  AreFresh-tail evaluations e [] h = tt
  AreFresh-tail evaluations e (t ∷ ts) (new, apart, rest) =
      (ground arith, apart, AreFresh-tail evaluations e ts rest)

  -- no evaluation from before is of a new trace
  old_none :
      (evaluations : List (Evaluation F)) (ts : List (Trace F))
      → AreFresh evaluations ts
      → keep (λ (e : Evaluation F). of_traces ts e.trace_id) evaluations ≡ []
  old_none [] ts h = refl
  old_none (e ∷ evaluations) ts h =
      rw (not_of_fresh evaluations e ts h)
        (old_none evaluations ts (AreFresh-tail evaluations e ts h))

  of_traces-Has : (ts : List (Trace F)) (t : Trace F) → Has t ts → of_traces ts t.id ≡ true
  of_traces-Has [] t m = absurd m
  of_traces-Has (u ∷ ts) t (inl same) =
      let e : u.id ≡ t.id = ap (λ (z : Trace F). z.id) same in ground (arith, eq_iff u.id t.id, e)
  of_traces-Has (u ∷ ts) t (inr later) = ground (arith, of_traces-Has ts t later)

module _ {F : Type 0} where
  abbrev new_of : String → Option (Scores F) → List (Evaluation F) → List (Evaluation F)
  new_of id none rest = rest
  new_of id (some s) rest = evaluation_of id s ∷ rest

  keep-new_of :
      (all : List (Trace F)) (id : String) (o : Option (Scores F)) (rest : List (Evaluation F))
      → of_traces all id ≡ true
      → keep (λ (e : Evaluation F). of_traces all e.trace_id) (new_of id o rest)
        ≡ new_of id o (keep (λ (e : Evaluation F). of_traces all e.trace_id) rest)
  keep-new_of all id none rest h = refl
  keep-new_of all id (some s) rest h = rw h

module _ {F : Type 0} ⦃fl : Float F⦄ where
  abbrev pub reaches : F → Option (Scores F) → Bool
  reaches threshold none = false
  reaches threshold (some s) = fl.le threshold s.overall_quality

  pass_count-new_of :
      (threshold : F) (id : String) (o : Option (Scores F)) (rest : List (Evaluation F))
      → pass_count threshold (new_of id o rest) ≡ (
          if reaches threshold o
          then suc (pass_count threshold rest)
          else pass_count threshold rest)
  pass_count-new_of threshold id none rest = refl
  pass_count-new_of threshold id (some s) rest = ground arith

module _ {F : Type 0} ⦃fl : Float F⦄ (evaluators : Trace F → Option (List (Metric F) × F)) where
  -- the evaluations of traces that have none
  abbrev new_evaluations : List (Trace F) → List (Evaluation F)
  new_evaluations [] = []
  new_evaluations (t ∷ ts) = new_of t.id (scores_of (evaluators t)) (new_evaluations ts)

  -- an answer whose evaluation reaches the threshold
  abbrev pub passes : F → Trace F → Bool
  passes threshold t = is_ok t.status && reaches threshold (scores_of (evaluators t))

  abbrev tables_of : Option (Judged F) → List (Evaluation F) → List (Evaluation F)
  tables_of none evaluations = evaluations
  tables_of (some judged) evaluations = judged.0

  persist_raises :
      (id : String) (result : Option (List (Metric F) × F)) (evaluations : List (Evaluation F))
      (metrics : List (MetricScore F))
      → has_evaluation evaluations id ≡ false
      → scores_of result ≡ none
      → persist id result (evaluations, metrics) ≡ none
  unfolding persist run_and_persist
  persist_raises id result evaluations metrics new raised =
      rw (new, raised, persist, run_and_persist)

  persist_new :
      (id : String) (result : Option (List (Metric F) × F)) (evaluations : List (Evaluation F))
      (metrics : List (MetricScore F)) (s : Scores F)
      → has_evaluation evaluations id ≡ false
      → scores_of result ≡ some s
      → persist id result (evaluations, metrics)
        ≡ some (evaluations ++ evaluation_of id s ∷ [], metrics ++ metric_rows id result)
  unfolding persist run_and_persist
  persist_new id result evaluations metrics s new scored =
      rw (new, scored, persist, run_and_persist, new)

  persist_all_new :
      (ts : List (Trace F)) (evaluations : List (Evaluation F)) (metrics : List (MetricScore F))
      (after : Judged F)
      → AreFresh evaluations ts
      → persist_all evaluators ts (evaluations, metrics) ≡ some after
      → after.0 ≡ evaluations ++ new_evaluations ts
  unfolding persist_all
  persist_all_new [] evaluations metrics after fresh h =
      sym (ap (λ (o : Option (Judged F)). tables_of o evaluations) h) ∙ sym (append-nil evaluations)
  persist_all_new (t ∷ ts) evaluations metrics after (new, apart, rest) h =
      elim (Option-cases (scores_of (evaluators t))) [
        | inl raised ↦ absurd (
            cc (
              rw (persist_raises t.id (evaluators t) evaluations metrics new raised, persist_all) at
                h))
        | inr (s, scored) ↦ rw scored (
            persist_all_new ts (evaluations ++ evaluation_of t.id s ∷ [])
              (metrics ++ metric_rows t.id (evaluators t)) after
              (AreFresh-append evaluations (evaluation_of t.id s) ts apart rest)
              (rw (persist_new t.id (evaluators t) evaluations metrics s new scored, persist_all) at
                h)
            ∙ append_assoc evaluations (evaluation_of t.id s ∷ []) (new_evaluations ts))
      ]

  -- the new evaluations are all of the traces
  new_kept :
      (all ts : List (Trace F))
      → All (λ u. of_traces all u.id ≡ true) ts
      → keep (λ (e : Evaluation F). of_traces all e.trace_id) (new_evaluations ts)
        ≡ new_evaluations ts
  new_kept all [] h = refl
  new_kept all (t ∷ ts) (mine, rest) =
      keep-new_of all t.id (scores_of (evaluators t)) (new_evaluations ts) mine
      ∙ ap (new_of t.id (scores_of (evaluators t))) (new_kept all ts rest)

  pass_count-new :
      (threshold : F) (ts : List (Trace F))
      → pass_count threshold (new_evaluations (answered_traces ts))
        ≡ length (keep (passes threshold) ts)
  pass_count-new threshold [] = refl
  pass_count-new threshold (t ∷ ts) = elim (Bool-cases (is_ok t.status)) [
    | inr failed ↦ rw (failed, keep) (pass_count-new threshold ts)
    | inl answered ↦
        rw (answered, keep)
          (elim (Bool-cases (reaches threshold (scores_of (evaluators t)))) [
            | inl over ↦
                rw
                  (
                    pass_count-new_of threshold t.id (scores_of (evaluators t))
                        (new_evaluations (answered_traces ts)),
                    over,
                  )
                  (ap suc (pass_count-new threshold ts))
            | inr under ↦
                rw
                  (
                    pass_count-new_of threshold t.id (scores_of (evaluators t))
                        (new_evaluations (answered_traces ts)),
                    under,
                  )
                  (pass_count-new threshold ts)
          ])
  ]

  -- the passing evaluations of a run over new traces
  pub pass_count_run :
      (threshold : F) (ts : List (Trace F)) (judged after : Judged F)
      → AreFresh judged.0 ts
      → persist_all evaluators (answered_traces ts) judged ≡ some after
      → pass_count threshold (evaluations_of ts after.0) ≡ length (keep (passes threshold) ts)
  pass_count_run threshold ts judged after fresh h =
      rw
        (persist_all_new (answered_traces ts) judged.0 judged.1 after
          (AreFresh-keep judged.0 (λ t. is_ok t.status) ts fresh) h)
        (ap (pass_count threshold) only_new ∙ pass_count-new threshold ts)
    where
      only_new :
          evaluations_of ts (judged.0 ++ new_evaluations (answered_traces ts))
          ≡ new_evaluations (answered_traces ts)
      only_new =
          keep-append (λ (e : Evaluation F). of_traces ts e.trace_id) judged.0
            (new_evaluations (answered_traces ts))
          ∙ rw (old_none judged.0 ts fresh) (
              new_kept ts (answered_traces ts) (
                All-keep (λ u. of_traces ts u.id ≡ true) (λ t. is_ok t.status) ts
                  (All-Has (λ u. of_traces ts u.id ≡ true) ts (of_traces-Has ts))))
