-- ===== src/Evaluations/Jobs.antt =====
-- `process_evaluation_job` of src/sentinellm/worker/tasks/evaluate.py with `run_and_persist` of
-- src/sentinellm/evaluation/pipeline.py. A job is one transaction on the row that it claims; what the
-- evaluators make of a trace, or that they raise, is an argument.
use sentinellm.Prelude.{
  Bool, true, false, ◌&&◌, ◌==◌, String, Option, none, some, List, [], ◌∷◌, ◌++◌, any,
  if◌then◌else◌,
}
use sentinellm.Tables.{Trace, Evaluation, EvaluationStatus, pending, evaluating, completed, failed}

abbrev pub is_pending : EvaluationStatus → Bool
is_pending pending = true
is_pending _ = false

abbrev pub is_evaluating : EvaluationStatus → Bool
is_evaluating evaluating = true
is_evaluating _ = false

-- The two tables.
pub record Records (F : Type 0) : Type 0 where
  pub traces : List (Trace F)
  pub evaluations : List (Evaluation F)

-- What the evaluators give: the overall quality and the hallucination score.
pub record Scores (F : Type 0) : Type 0 where
  pub overall_quality : F
  pub hallucination_score : F

module _ {F : Type 0} where
  -- `UPDATE … SET evaluation_status = s WHERE p`
  unfoldable pub set_status : (Trace F → Bool) → EvaluationStatus → List (Trace F) → List (Trace F)
  set_status p s [] = []
  set_status p s (t ∷ ts) =
      (if p t then record t { evaluation_status = s } else t) ∷ set_status p s ts

  -- a trace has an evaluation
  unfoldable pub has_evaluation : List (Evaluation F) → String → Bool
  has_evaluation evaluations id = any (λ e. e.trace_id == id) evaluations

  abbrev pub evaluation_of : String → Scores F → Evaluation F
  evaluation_of id s = record {
    trace_id = id;
    overall_quality = s.overall_quality;
    hallucination_score = s.hallucination_score;
  }

  -- the table of evaluations after `run_and_persist`, or that it raised
  unfoldable pub run_and_persist :
      List (Evaluation F) → String → Option (Scores F) → Option (List (Evaluation F))
  unfolding has_evaluation
  run_and_persist evaluations id result =
      if has_evaluation evaluations id
      then some evaluations
      else elim result [ none ↦ none | some s ↦ some (evaluations ++ evaluation_of id s ∷ []) ]

  -- the claim's `WHERE`
  abbrev pub claims : String → Trace F → Bool
  claims id t = t.id == id && is_pending t.evaluation_status

  -- after the claim: the commit, or the rollback of everything and the mark of failure
  unfoldable pub settle_job : Records F → String → Option (List (Evaluation F)) → Bool × Records F
  unfolding set_status
  settle_job db id none =
      (false, record db { traces = set_status (λ t. t.id == id) failed db.traces })
  settle_job db id (some evaluations) = (
    true,
    record {
      traces = set_status (λ t. t.id == id) completed (set_status (claims id) evaluating db.traces);
      evaluations = evaluations;
    },
  )

  unfoldable pub process_evaluation_job : Records F → String → Option (Scores F) → Bool × Records F
  unfolding settle_job run_and_persist
  process_evaluation_job db id result =
      if any (claims id) db.traces
      then settle_job db id (run_and_persist db.evaluations id result)
      else (false, db)
