-- ===== src/Experiments/Origin.antt =====
-- The traces that an experiment counts: which model, which application.
use sentinellm.Prelude.{◌≡◌, Bool, false, String, Option, none, some, List, All}
use sentinellm.Float.{Float}
use sentinellm.Tables.{Trace, skipped}
use sentinellm.Llm.Resilient.{Completion, completed, all_failed, crashed}
use sentinellm.Generation.Serving.{Served}
use sentinellm.Experiments.Run.{RunRequest, Generator}

abbrev IsBy : String → Completion → Type 0
IsBy m (completed r model log) = model ≡ m
IsBy m (all_failed log) = Unit
IsBy m crashed = Unit

-- what a trace is of
abbrev pub IsTraceOf : {F : Type 0} → String → String → Bool → Option (Trace F) → Type 0
IsTraceOf model application evaluates none = Unit
IsTraceOf model application evaluates (some t) =
    (t.model ≡ model)
    × (t.application_id ≡ application)
    × (evaluates ≡ false → t.evaluation_status ≡ skipped)

abbrev trace_in : {F : Type 0} → Option (Served F) → Option (Trace F)
trace_in none = none
trace_in (some s) = some s.trace

module _ {F W : Type 0} (generator : Generator F W) (request : RunRequest F) where
  -- a trace of the experiment's model and application, which the queue is not to evaluate
  abbrev pub IsMine : Trace F → Type 0
  IsMine t =
      (t.model ≡ request.model)
      × (t.application_id ≡ request.application_id)
      × (t.evaluation_status ≡ skipped)

  abbrev AreMine : Option (List (Trace F)) → Type 0
  AreMine none = Unit
  AreMine (some ts) = All IsMine ts
