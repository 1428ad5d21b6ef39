-- ===== src/Evaluations/Recovery.antt =====
-- `recover_evaluations` of src/sentinellm/worker/tasks/evaluation_recovery.py. What the queue does is an
-- argument: each of its calls may raise, and the tables are committed before the first of them.
use sentinellm.Prelude.{
  ℕ, ◌-◌, ◌*◌, Bool, true, false, Option, none, some, not, ◌&&◌, ◌||◌, ◌==◌, String, List, [], ◌∷◌,
  ◌++◌, map, length, keep, any, take, ltb, eqb, if◌then◌else◌,
}
use sentinellm.Tables.{Trace, Evaluation, pending, completed}
use sentinellm.Evaluations.Jobs.{Records, set_status, has_evaluation, is_pending, is_evaluating}

-- 10 and 15 minutes
abbrev pub stuck_evaluating_after : ℕ
stuck_evaluating_after = 10 * 60 * 1_000_000

abbrev pub orphaned_pending_after : ℕ
orphaned_pending_after = 15 * 60 * 1_000_000

abbrev pub requeue_batch : ℕ
requeue_batch = 200

-- `counts`
pub record Counts : Type 0 where
  pub finished : ℕ
  pub requeued : ℕ
  pub orphaned : ℕ

-- What the queue does during a recovery: `enqueue_evaluation` of an id is accepted, or raises; and the
-- answer of `queue_depth`, which is none where it raises.
pub record QueueState : Type 0 where
  pub accepts : String → Bool
  pub depth : Option ℕ

-- The committed tables, the ids pushed to the queue in order, and the counts, which are none where the
-- recovery raises.
pub record Recovered (F : Type 0) : Type 0 where
  pub records : Records F
  pub pushed : List String
  pub counts : Option Counts

-- a loop of `enqueue_evaluation`: the ids pushed before the first call that raises, and whether none does
unfoldable pub enqueue_all : (String → Bool) → List String → List String × Bool
enqueue_all accepts [] = ([], true)
enqueue_all accepts (i ∷ is) =
    let rest = enqueue_all accepts is in if accepts i then (i ∷ rest.0, rest.1) else ([], false)

-- the end of a recovery, after its loop over the orphans
abbrev pub counted : ℕ → ℕ → List String × Bool → Option Counts
counted finished requeued (pushed, false) = none
counted finished requeued (pushed, true) =
    some (record { finished = finished; requeued = requeued; orphaned = length pushed })

module _ {F : Type 0} where
  -- 1. evaluated, but the status was never flipped
  abbrev pub is_finished : List (Evaluation F) → ℕ → Trace F → Bool
  is_finished evaluations now t =
      (is_pending t.evaluation_status || is_evaluating t.evaluation_status)
      && has_evaluation evaluations t.id
      && ltb t.created_at (now - stuck_evaluating_after)

  -- 2. claimed by a worker that never came back
  abbrev pub is_stuck : List (Evaluation F) → ℕ → Trace F → Bool
  is_stuck evaluations now t =
      is_evaluating t.evaluation_status
      && ltb t.created_at (now - stuck_evaluating_after)
      && not (has_evaluation evaluations t.id)

  -- 3. never queued
  abbrev pub is_orphaned : List (Evaluation F) → List String → ℕ → Trace F → Bool
  is_orphaned evaluations stuck_ids now t =
      is_pending t.evaluation_status
      && ltb t.created_at (now - orphaned_pending_after)
      && not (any (λ i. i == t.id) stuck_ids)
      && not (has_evaluation evaluations t.id)

  abbrev pub ids_of : List (Trace F) → List String
  ids_of ts = map (λ t. t.id) ts

  -- `ORDER BY created_at`, by insertion
  unfoldable pub insert_oldest : Trace F → List (Trace F) → List (Trace F)
  insert_oldest t [] = t ∷ []
  insert_oldest t (x ∷ xs) =
      let rest = insert_oldest t xs in
      if ltb x.created_at t.created_at then x ∷ rest else t ∷ x ∷ xs

  unfoldable pub oldest_first : List (Trace F) → List (Trace F)
  unfolding insert_oldest
  oldest_first [] = []
  oldest_first (t ∷ ts) = insert_oldest t (oldest_first ts)

  -- the ids of the first batch of stuck traces
  unfoldable pub stuck_ids_of : List (Evaluation F) → ℕ → List (Trace F) → List String
  stuck_ids_of evaluations now traces =
      ids_of (take requeue_batch (keep (is_stuck evaluations now) traces))

  -- the ids of the oldest orphans, if the queue is empty
  unfoldable pub orphan_ids :
      List (Evaluation F) → List String → ℕ → ℕ → List (Trace F) → List String
  unfolding oldest_first
  orphan_ids evaluations stuck_ids now depth traces =
      if eqb depth 0
      then ids_of
          (take requeue_batch (oldest_first (keep (is_orphaned evaluations stuck_ids now) traces)))
      else []

  -- the traces after the first two steps
  unfoldable pub repaired : List (Evaluation F) → List String → ℕ → List (Trace F) → List (Trace F)
  unfolding set_status
  repaired evaluations stuck_ids now traces =
      set_status (λ t. any (λ i. i == t.id) stuck_ids && is_evaluating t.evaluation_status) pending
        (set_status (is_finished evaluations now) completed traces)

  -- the third step, on the committed tables
  unfoldable pub recover_orphans :
      QueueState → Records F → List String → ℕ → ℕ → Option ℕ → Recovered F
  unfolding orphan_ids enqueue_all
  recover_orphans queue db stuck_ids now finished none = record {
    records = db;
    pushed = stuck_ids;
    counts = none;
  }
  recover_orphans queue db stuck_ids now finished (some depth) =
      let loop =
        enqueue_all queue.accepts (orphan_ids db.evaluations stuck_ids now depth db.traces) in
      record {
        records = db;
        pushed = stuck_ids ++ loop.0;
        counts = counted finished (length stuck_ids) loop;
      }

  -- after the commit: the stuck ids go to the queue, and an error there ends the recovery
  unfoldable pub requeue_stuck : QueueState → Records F → List String → ℕ → ℕ → Recovered F
  unfolding enqueue_all recover_orphans
  requeue_stuck queue db stuck_ids now finished =
      let loop = enqueue_all queue.accepts stuck_ids in
      if loop.1
      then recover_orphans queue db stuck_ids now finished queue.depth
      else record { records = db; pushed = loop.0; counts = none }

  unfoldable pub recover_evaluations : Records F → ℕ → QueueState → Recovered F
  unfolding repaired stuck_ids_of requeue_stuck
  recover_evaluations db now queue =
      let settled = set_status (is_finished db.evaluations now) completed db.traces in
      let stuck_ids = stuck_ids_of db.evaluations now settled in
      requeue_stuck queue (record db { traces = repaired db.evaluations stuck_ids now db.traces })
        stuck_ids now (length (keep (is_finished db.evaluations now) db.traces))
