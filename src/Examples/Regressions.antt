-- ===== src/Examples/Regressions.antt =====
-- Forty traces of an application, the newest of which was answered worse than the oldest.
use Prim.Native.String
use sentinellm.Prelude.{
  ◌/◌, ◌%◌, ℕ, zero, suc, refl, false, eqb, none, List, [], ◌∷◌, if◌then◌else◌,
}
use sentinellm.Float.Fixed.{ℤ, pos, digit, fixed_float}
use sentinellm.Tables.{Trace, TraceStatus, EvaluationStatus}
use sentinellm.Regressions.Windows.{Regression, QualityDb}
use sentinellm.Regressions.Detect.{detect_regressions}
use sentinellm.Regressions.Flagged.{AreApart, nothing_yet, detected, Passed-AreApart}

abbrev trace_at : ℕ → Trace ℤ
trace_at n = record {
  id = String.◌++◌ (digit (n / 10)) (digit (n % 10));
  application_id = "shop";
  model = if eqb n 0 then "gpt-4" else "gpt-mini";
  status = TraceStatus.ok;
  latency_ms = pos 1_000_000;
  estimated_cost = pos 30_000;
  cache_hit = false;
  prompt_id = none;
  prompt_version = none;
  failed_attempts = [];
  evaluation_status = EvaluationStatus.completed;
  created_at = n;
}

-- the newest first
abbrev traces_before : ℕ → List (Trace ℤ)
traces_before zero = []
traces_before (suc n) = trace_at n ∷ traces_before n

abbrev db : QualityDb ℤ
db = record {
  traces = traces_before 40;
  evaluations =
      record { trace_id = "39"; overall_quality = pos 6_000; hallucination_score = pos 0 }
      ∷ record { trace_id = "00"; overall_quality = pos 8_000; hallucination_score = pos 0 }
      ∷ [];
  metrics = [];
}

abbrev table : List (Regression ℤ)
table = detect_regressions (pos 100_000) db 50 []

Passed-AreApart_example : AreApart (detect_regressions (pos 100_000) db 60 table)
Passed-AreApart_example =
    Passed-AreApart
      (detected (pos 100_000) db 60 (detected (pos 100_000) db 50 nothing_yet refl) refl)
