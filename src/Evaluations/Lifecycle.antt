-- ===== src/Evaluations/Lifecycle.antt =====
-- Every history of submissions, jobs (delivered any number of times) and recoveries.
use sentinellm.Prelude.{
  ℕ, ◌≤◌, ◌≡◌, ◌≢◌, refl, inl, inr, Bool, Bool-cases, true, false, ◌==◌, eq_iff, eq_refl, String,
  Option, Option-cases, none, some, List, [], ◌∷◌, ◌++◌, length, keep, any, All, All-append, arith,
  if◌then◌else◌,
}
use sentinellm.Tables.{Trace, Evaluation, EvaluationStatus, pending, evaluating, completed, failed}
use sentinellm.Evaluations.Jobs.{
  Records, Scores, set_status, has_evaluation, evaluation_of, run_and_persist, claims, settle_job,
  process_evaluation_job, is_pending,
}
use sentinellm.Evaluations.Recovery.{
  QueueState, is_finished, stuck_ids_of, repaired, enqueue_all, recover_orphans, requeue_stuck,
  recover_evaluations,
}

module _ {F : Type 0} where
  abbrev pub count_of : String → List (Evaluation F) → ℕ
  count_of id evaluations = length (keep (λ e. e.trace_id == id) evaluations)

  -- A completed trace has an evaluation, and no trace has two.
  abbrev pub Evaluated : List (Evaluation F) → Trace F → Type 0
  Evaluated evaluations t = t.evaluation_status ≡ completed → has_evaluation evaluations t.id ≡ true

  pub record IsSound (db : Records F) : Type 0 where
    pub completed_evaluated : All (Evaluated db.evaluations) db.traces
    pub evaluated_once : (id : String) → count_of id db.evaluations ≤ 1

  -- a status set to something else than completed, or where there is an evaluation
  set_status-Evaluated :
      (evaluations : List (Evaluation F)) (p : Trace F → Bool) (s : EvaluationStatus)
      (ts : List (Trace F))
      → ((t : Trace F) → p t ≡ true → s ≡ completed → has_evaluation evaluations t.id ≡ true)
      → All (Evaluated evaluations) ts
      → All (Evaluated evaluations) (set_status p s ts)
  unfolding set_status
  set_status-Evaluated evaluations p s [] ok h = tt
  set_status-Evaluated evaluations p s (t ∷ ts) ok (k, ks) =
      (head, set_status-Evaluated evaluations p s ts ok ks)
    where
      head : Evaluated evaluations (if p t then record t { evaluation_status = s } else t)
      head = elim (Bool-cases (p t)) [ inl hit ↦ rw hit (ok t hit) | inr miss ↦ rw miss k ]

  has_evaluation-append :
      (evaluations : List (Evaluation F)) (e : Evaluation F) (id : String)
      → has_evaluation evaluations id ≡ true
      → has_evaluation (evaluations ++ e ∷ []) id ≡ true
  unfolding has_evaluation
  has_evaluation-append [] e id h = absurd (cc h)
  has_evaluation-append (x ∷ evaluations) e id h =
      ground (arith, has_evaluation-append evaluations e id)

  has_evaluation_new :
      (evaluations : List (Evaluation F)) (e : Evaluation F)
      → has_evaluation (evaluations ++ e ∷ []) e.trace_id ≡ true
  unfolding has_evaluation
  has_evaluation_new [] e = ground (arith, eq_refl e.trace_id)
  has_evaluation_new (x ∷ evaluations) e = ground (arith, has_evaluation_new evaluations e)

  count_of-append_other :
      (evaluations : List (Evaluation F)) (e : Evaluation F) (id : String)
      → (e.trace_id == id) ≡ false
      → count_of id (evaluations ++ e ∷ []) ≡ count_of id evaluations
  count_of-append_other [] e id h = rw h
  count_of-append_other (x ∷ evaluations) e id h =
      ground (arith, count_of-append_other evaluations e id h)

  count_of-append_first :
      (evaluations : List (Evaluation F)) (e : Evaluation F) (id : String)
      → has_evaluation evaluations id ≡ false
      → count_of id (evaluations ++ e ∷ []) ≤ 1
  unfolding has_evaluation
  count_of-append_first [] e id h = ground arith
  count_of-append_first (x ∷ evaluations) e id h =
      ground (arith, count_of-append_first evaluations e id)

  count_of-append :
      (evaluations : List (Evaluation F)) (e : Evaluation F) (id : String)
      → has_evaluation evaluations e.trace_id ≡ false
      → count_of id evaluations ≤ 1
      → count_of id (evaluations ++ e ∷ []) ≤ 1
  count_of-append evaluations e id h k = elim (Bool-cases (e.trace_id == id)) [
    | inl mine ↦
        let same : e.trace_id ≡ id = ground (arith, eq_iff e.trace_id id) in
        count_of-append_first evaluations e id (rw (← same) h)
    | inr other ↦ rw (count_of-append_other evaluations e id other) k
  ]

  -- a longer table of evaluations takes none away
  Evaluated-append :
      (evaluations : List (Evaluation F)) (e : Evaluation F) (ts : List (Trace F))
      → All (Evaluated evaluations) ts
      → All (Evaluated (evaluations ++ e ∷ [])) ts
  Evaluated-append evaluations e [] h = tt
  Evaluated-append evaluations e (t ∷ ts) (k, ks) =
      (λ c. has_evaluation-append evaluations e t.id (k c), Evaluated-append evaluations e ts ks)

  -- the traces after a job that commits
  abbrev done_traces : String → List (Trace F) → List (Trace F)
  done_traces id ts = set_status (λ t. t.id == id) completed (set_status (claims id) evaluating ts)

  done_traces-Evaluated :
      (evaluations : List (Evaluation F)) (id : String) (ts : List (Trace F))
      → has_evaluation evaluations id ≡ true
      → All (Evaluated evaluations) ts
      → All (Evaluated evaluations) (done_traces id ts)
  done_traces-Evaluated evaluations id ts has h =
      set_status-Evaluated evaluations (λ t. t.id == id) completed _
        (λ t hit c. let same : t.id ≡ id = ground (arith, eq_iff t.id id) in rw same has)
        (set_status-Evaluated evaluations (claims id) evaluating ts (λ t hit c. absurd (cc c)) h)

  failed_traces-Evaluated :
      (evaluations : List (Evaluation F)) (id : String) (ts : List (Trace F))
      → All (Evaluated evaluations) ts
      → All (Evaluated evaluations) (set_status (λ t. t.id == id) failed ts)
  failed_traces-Evaluated evaluations id ts h =
      set_status-Evaluated evaluations (λ t. t.id == id) failed ts (λ t hit c. absurd (cc c)) h

  -- the ways that a job may end: nothing claimed, an evaluation that was there, a new one, a failure
  data JobEnd (db : Records F) (id : String) (out : Bool × Records F) : Type 0 where
    skipped_job : any (claims id) db.traces ≡ false → out ≡ (false, db) → JobEnd db id out
    found_job :
        has_evaluation db.evaluations id ≡ true
        → out ≡ (true, record db { traces = done_traces id db.traces })
        → JobEnd db id out
    new_job :
        (s : Scores F)
        → has_evaluation db.evaluations id ≡ false
        → out ≡ (
          true,
          record {
            traces = done_traces id db.traces;
            evaluations = db.evaluations ++ evaluation_of id s ∷ [];
          },
        )
        → JobEnd db id out
    failed_job :
        out ≡ (false, record db { traces = set_status (λ t. t.id == id) failed db.traces })
        → JobEnd db id out

  job_end :
      (db : Records F) (id : String) (result : Option (Scores F))
      → JobEnd db id (process_evaluation_job db id result)
  unfolding process_evaluation_job run_and_persist settle_job
  job_end db id result = elim (Bool-cases (any (claims id) db.traces)) [
    | inr free ↦ skipped_job free (rw free)
    | inl hit ↦ elim (Bool-cases (has_evaluation db.evaluations id)) [
      | inl has ↦ found_job has (rw (hit, has))
      | inr none_yet ↦ elim (Option-cases result) [
        | inl raised ↦ failed_job (rw (hit, none_yet, raised))
        | inr (s, e) ↦ new_job s none_yet (rw (hit, none_yet, e))
      ]
    ]
  ]

  job-IsSound :
      (db : Records F) (id : String) (out : Bool × Records F)
      → JobEnd db id out
      → IsSound db
      → IsSound out.1
  job-IsSound db id out (skipped_job free e) h = rw e h
  job-IsSound db id out (found_job has e) h = rw e (record {
    completed_evaluated =
        done_traces-Evaluated db.evaluations id db.traces has h.completed_evaluated;
    evaluated_once = h.evaluated_once;
  })
  job-IsSound db id out (new_job s none_yet e) h =
      let new : Evaluation F = evaluation_of id s in
      rw e (record {
        completed_evaluated =
            done_traces-Evaluated (db.evaluations ++ new ∷ []) id db.traces
              (has_evaluation_new db.evaluations new)
              (Evaluated-append db.evaluations new db.traces h.completed_evaluated);
        evaluated_once = λ i. count_of-append db.evaluations new i none_yet (h.evaluated_once i);
      })
  job-IsSound db id out (failed_job e) h = rw e (record {
    completed_evaluated = failed_traces-Evaluated db.evaluations id db.traces h.completed_evaluated;
    evaluated_once = h.evaluated_once;
  })

  recover_orphans-records :
      (queue : QueueState) (db : Records F) (stuck_ids : List String) (now finished : ℕ)
      (depth : Option ℕ)
      → (recover_orphans queue db stuck_ids now finished depth).records ≡ db
  unfolding recover_orphans
  recover_orphans-records queue db stuck_ids now finished none = refl
  recover_orphans-records queue db stuck_ids now finished (some depth) = refl

  requeue_stuck-records :
      (queue : QueueState) (db : Records F) (stuck_ids : List String) (now finished : ℕ)
      → (requeue_stuck queue db stuck_ids now finished).records ≡ db
  unfolding requeue_stuck
  requeue_stuck-records queue db stuck_ids now finished =
      elim (Bool-cases (enqueue_all queue.accepts stuck_ids).1) [
        | inl all ↦ rw all (recover_orphans-records queue db stuck_ids now finished queue.depth)
        | inr some_raised ↦ rw some_raised refl
      ]

  -- whatever the queue does, the tables are what was committed before the first push
  pub recover-records :
      (db : Records F) (now : ℕ) (queue : QueueState)
      → (recover_evaluations db now queue).records ≡ record db {
        traces =
            repaired db.evaluations
              (stuck_ids_of db.evaluations now
                (set_status (is_finished db.evaluations now) completed db.traces))
              now
              db.traces;
      }
  unfolding recover_evaluations
  recover-records db now queue =
      requeue_stuck-records queue _ _ now (length (keep (is_finished db.evaluations now) db.traces))

  recover-IsSound :
      (db : Records F) (now : ℕ) (queue : QueueState)
      → IsSound db
      → IsSound (recover_evaluations db now queue).records
  unfolding repaired
  recover-IsSound db now queue h = rw (recover-records db now queue) (record {
    completed_evaluated =
        set_status-Evaluated db.evaluations _ pending _ (λ t hit c. absurd (cc c))
          (set_status-Evaluated db.evaluations (is_finished db.evaluations now) completed db.traces
            (λ t hit c. ground arith) h.completed_evaluated);
    evaluated_once = h.evaluated_once;
  })

  -- One event: a trace is written, pending or skipped; a job is run, whatever the evaluators do; or a
  -- recovery is run.
  pub data Event (db : Records F) : Records F → Type 0 where
    submits :
        (t : Trace F)
        → t.evaluation_status ≢ completed
        → Event db (record db { traces = db.traces ++ t ∷ [] })
    runs :
        (id : String) (result : Option (Scores F))
        → Event db (process_evaluation_job db id result).1
    recovers : (now : ℕ) (queue : QueueState) → Event db (recover_evaluations db now queue).records

  pub data History (db : Records F) : Records F → Type 0 where
    start : History db db
    then_one : {mid db' : Records F} → History db mid → Event mid db' → History db db'

  Event-IsSound : (db db' : Records F) → Event db db' → IsSound db → IsSound db'
  Event-IsSound db db' (submits t open_status) h = record {
    completed_evaluated =
        All-append (Evaluated db.evaluations) db.traces (t ∷ []) h.completed_evaluated
          (λ c. absurd (open_status c), tt);
    evaluated_once = h.evaluated_once;
  }
  Event-IsSound db db' (runs id result) h =
      job-IsSound db id (process_evaluation_job db id result) (job_end db id result) h
  Event-IsSound db db' (recovers now queue) h = recover-IsSound db now queue h

  -- In every history of submissions, jobs delivered any number of times and recoveries, a completed
  -- trace has an evaluation, and no trace has two.
  pub History-IsSound : (db db' : Records F) → History db db' → IsSound db → IsSound db'
  History-IsSound db db' start h = h
  History-IsSound db db' (then_one {mid = mid} before event) h =
      Event-IsSound mid db' event (History-IsSound db mid before h)

  -- nothing is left to claim once the rows of an id have another status
  claims-set :
      (id : String) (s : EvaluationStatus) (ts : List (Trace F))
      → is_pending s ≡ false
      → any (claims id) (set_status (λ t. t.id == id) s ts) ≡ false
  unfolding set_status
  claims-set id s [] h = refl
  claims-set id s (t ∷ ts) h = ground (arith, claims-set id s ts h)

  not_claimed :
      (db : Records F) (id : String) (result : Option (Scores F))
      → any (claims id) db.traces ≡ false
      → process_evaluation_job db id result ≡ (false, db)
  unfolding process_evaluation_job
  not_claimed db id result h = rw h

  unclaimed :
      (db : Records F) (id : String) (out : Bool × Records F)
      → JobEnd db id out
      → any (claims id) out.1.traces ≡ false
  unclaimed db id out (skipped_job free e) = rw e free
  unclaimed db id out (found_job has e) = rw e (claims-set id completed _ refl)
  unclaimed db id out (new_job s none_yet e) = rw e (claims-set id completed _ refl)
  unclaimed db id out (failed_job e) = rw e (claims-set id failed db.traces refl)

  -- A job that is delivered a second time does nothing, whatever the first delivery did.
  pub process_evaluation_job_twice :
      (db : Records F) (id : String) (first second : Option (Scores F))
      → process_evaluation_job (process_evaluation_job db id first).1 id second
        ≡ (false, (process_evaluation_job db id first).1)
  process_evaluation_job_twice db id first second =
      not_claimed (process_evaluation_job db id first).1 id second
        (unclaimed db id (process_evaluation_job db id first) (job_end db id first))
