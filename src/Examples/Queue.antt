-- ===== src/Examples/Queue.antt =====
-- A trace evaluated once although its job is delivered twice, and one that was never queued.
use sentinellm.Prelude.{◌≡◌, refl, inl, true, false, ◌==◌, Option, none, some, [], ◌∷◌, Has, arith}
use sentinellm.Float.Fixed.{ℤ, pos}
use sentinellm.Tables.{Trace, TraceStatus, EvaluationStatus, pending}
use sentinellm.Evaluations.Jobs.{
  Records, Scores, process_evaluation_job, run_and_persist, settle_job, set_status, has_evaluation,
}
use sentinellm.Evaluations.Recovery.{
  QueueState, insert_oldest, oldest_first, stuck_ids_of, orphan_ids, repaired, enqueue_all,
  recover_orphans, requeue_stuck, recover_evaluations,
}
use sentinellm.Evaluations.Lifecycle.{IsSound, start, then_one, runs, submits, History-IsSound}
use sentinellm.Evaluations.Requeued.{IsPushed, returned, recover_evaluations_orphans}

abbrev trace : EvaluationStatus → Trace ℤ
trace status = record {
  id = "t1";
  application_id = "app";
  model = "m";
  status = TraceStatus.ok;
  latency_ms = pos 1_000_000;
  estimated_cost = pos 10;
  cache_hit = false;
  prompt_id = none;
  prompt_version = none;
  failed_attempts = [];
  evaluation_status = status;
  created_at = 5;
}

abbrev scores : Option (Scores ℤ)
scores = some (record { overall_quality = pos 9_000; hallucination_score = pos 100 })

abbrev empty : Records ℤ
empty = record { traces = []; evaluations = [] }

abbrev one : Records ℤ
one = record { traces = trace pending ∷ []; evaluations = [] }

abbrev after_job : Records ℤ
after_job = (process_evaluation_job one "t1" scores).1

evaluated : (process_evaluation_job one "t1" scores).0 ≡ true
unfolding process_evaluation_job run_and_persist settle_job
evaluated = refl

empty-IsSound : IsSound empty
empty-IsSound = record { completed_evaluated = tt; evaluated_once = λ id. omega arith }

History-IsSound_example : IsSound after_job
History-IsSound_example =
    History-IsSound empty after_job
      (then_one (then_one start (submits (trace pending) (λ e. cc))) (runs "t1" scores))
      empty-IsSound

-- a queue that takes one id and raises for the others
abbrev queue : QueueState
queue = record { accepts = λ i. i == "t1"; depth = some 0 }

recover_evaluations_orphans_example :
    Has (trace pending) (recover_evaluations one 1_000_000_000 queue).records.traces
    × IsPushed queue
        (trace pending)
        (recover_evaluations one 1_000_000_000 queue).pushed
        (returned (recover_evaluations one 1_000_000_000 queue).counts)
recover_evaluations_orphans_example =
    recover_evaluations_orphans one 1_000_000_000 queue (trace pending) (inl refl) refl refl
      (unfold has_evaluation in refl) (unfold has_evaluation in omega arith) refl

requeued : (recover_evaluations one 1_000_000_000 queue).pushed ≡ "t1" ∷ []
unfolding recover_evaluations requeue_stuck recover_orphans enqueue_all orphan_ids oldest_first
    insert_oldest stuck_ids_of repaired set_status has_evaluation
requeued = refl
