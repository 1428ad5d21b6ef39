-- ===== src/Tables.antt =====
-- The rows of the database that more than one part reads (src/sentinellm/db/models.py), with the
-- columns that the modelled code reads or writes. Times are counted from an epoch, in microseconds.
use sentinellm.Prelude.{ℕ, Bool, true, false, String, Option, List}

-- `Trace.status`
pub data TraceStatus : Type 0 where
  ok error : TraceStatus

abbrev pub is_error : TraceStatus → Bool
is_error TraceStatus.error = true
is_error TraceStatus.ok = false

abbrev pub is_ok : TraceStatus → Bool
is_ok TraceStatus.ok = true
is_ok TraceStatus.error = false

-- `Trace.evaluation_status`
pub data EvaluationStatus : Type 0 where
  pending evaluating completed failed skipped : EvaluationStatus

pub record Trace (F : Type 0) : Type 0 where
  pub id : String
  pub application_id : String
  pub model : String
  pub status : TraceStatus
  pub latency_ms : F
  pub estimated_cost : F
  pub cache_hit : Bool
  pub prompt_id : Option String
  pub prompt_version : Option ℕ
  -- the models in `trace_metadata["failed_attempts"]`
  pub failed_attempts : List String
  pub evaluation_status : EvaluationStatus
  pub created_at : ℕ

pub record Evaluation (F : Type 0) : Type 0 where
  pub trace_id : String
  pub overall_quality : F
  pub hallucination_score : F

-- `ModelPricing.status`
pub data ModelStatus : Type 0 where
  healthy degraded down : ModelStatus

abbrev pub is_down : ModelStatus → Bool
is_down ModelStatus.down = true
is_down _ = false

abbrev pub is_degraded : ModelStatus → Bool
is_degraded ModelStatus.degraded = true
is_degraded _ = false

abbrev pub is_healthy : ModelStatus → Bool
is_healthy ModelStatus.healthy = true
is_healthy _ = false

-- `ModelPricing.status_reason`, in the two texts that the health monitor writes: that a model which was
-- down is retried, and an error rate as text with the number of requests.
pub data StatusReason : Type 0 where
  no_evidence : StatusReason
  measured : String → ℕ → StatusReason

-- `ModelPricing`
pub record Model (F : Type 0) : Type 0 where
  pub id : String
  pub input_price_per_1k : F
  pub output_price_per_1k : F
  pub context_window : ℕ
  pub quality_tier : F
  pub avg_latency_ms_prior : F
  pub status : ModelStatus
  pub status_auto : Bool
  pub status_reason : Option StatusReason

-- `severity` is a constant at each place that creates an alert, and is left out.
pub record Alert (F : Type 0) : Type 0 where
  pub rule : String
  pub current_value : F
  pub threshold : F
  pub affected_service : String
  pub affected_model : Option String
