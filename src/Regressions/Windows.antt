-- ===== src/Regressions/Windows.antt =====
-- src/sentinellm/worker/tasks/regression.py. A pass reads the clock once; the rows are a list with the
-- newest first, and the likely cause keeps what changed, without the text.
use sentinellm.Prelude.{
  ℕ, zero, suc, ◌-◌, ◌*◌, Bool, true, false, not, ◌&&◌, ◌==◌, String, Option, none, some, List, [],
  ◌∷◌, ◌++◌, map, keep, any, length, take, leb, ltb, eqb, if◌then◌else◌,
}
use sentinellm.Tables.{Trace, Evaluation, EvaluationStatus, completed}
use sentinellm.Routing.Statistics.{newest_first}
use sentinellm.Alerting.Rules.{Severity}

-- `_WINDOW_SIZE` and `_DEDUPE_WINDOW`
abbrev pub window_size : ℕ
window_size = 30

abbrev pub flag_window : ℕ
flag_window = 3_600 * 1_000_000

-- A row of `evaluation_metrics`, with the trace of its evaluation.
pub record MetricScore (F : Type 0) : Type 0 where
  pub trace_id : String
  pub metric_name : String
  pub score : F

-- The prompt of a trace, as a cause names it.
abbrev pub PromptRef : Type 0
PromptRef = String × Option ℕ

-- What changed between the windows, from one value to the other; none is "unknown".
pub data Cause : Type 0 where
  model_changed : Option String → Option String → Cause
  prompt_changed : Option PromptRef → Option PromptRef → Cause

pub record Regression (F : Type 0) : Type 0 where
  pub metric_name : String
  pub previous_value : F
  pub new_value : F
  pub delta_pct : F
  pub severity : Severity
  pub application_id : String
  pub likely_cause : List Cause
  pub detected_at : ℕ

-- The tables that a pass reads.
pub record QualityDb (F : Type 0) : Type 0 where
  pub traces : List (Trace F)
  pub evaluations : List (Evaluation F)
  pub metrics : List (MetricScore F)

abbrev pub is_completed : EvaluationStatus → Bool
is_completed completed = true
is_completed _ = false

abbrev pub offset_by : {A : Type 0} → ℕ → List A → List A
offset_by zero xs = xs
offset_by (suc n) [] = []
offset_by (suc n) (x ∷ xs) = offset_by n xs

module _ {A : Type 0} (same : A → A → Bool) where
  abbrev count_of : A → List A → ℕ
  count_of x xs = length (keep (same x) xs)

  -- the most frequent value, the first one of a tie
  unfoldable pub most_common : List A → A → List A → A
  most_common all best [] = best
  most_common all best (y ∷ ys) =
      most_common all (if ltb (count_of best all) (count_of y all) then y else best) ys

  -- `_dominant`
  unfoldable pub dominant : List A → Option A
  unfolding most_common
  dominant [] = none
  dominant (x ∷ xs) = some (most_common (x ∷ xs) x xs)

abbrev same_number : Option ℕ → Option ℕ → Bool
same_number none none = true
same_number none (some n) = false
same_number (some m) none = false
same_number (some m) (some n) = eqb m n

abbrev same_prompt : PromptRef → PromptRef → Bool
same_prompt (p, v) (q, w) = p == q && same_number v w

abbrev pub same_option : {A : Type 0} → (A → A → Bool) → Option A → Option A → Bool
same_option same none none = true
same_option same none (some y) = false
same_option same (some x) none = false
same_option same (some x) (some y) = same x y

abbrev is_known : Option PromptRef → Bool
is_known none = false
is_known (some p) = true

module _ {F : Type 0} where
  -- `_windowed_traces`
  unfoldable pub windowed_traces : List (Trace F) → String → ℕ → ℕ → List (Trace F)
  unfolding newest_first
  windowed_traces traces app offset limit = take limit (
      offset_by offset (
        newest_first
          (keep (λ t. t.application_id == app && is_completed t.evaluation_status) traces)))

  abbrev pub of_traces : List (Trace F) → String → Bool
  of_traces ts id = any (λ t. t.id == id) ts

  -- `f"{t.prompt_id}:v{t.prompt_version}"` of the traces with a prompt
  unfoldable pub prompts_of : List (Trace F) → List PromptRef
  prompts_of [] = []
  prompts_of (t ∷ ts) = elim t.prompt_id [
    | none ↦ prompts_of ts
    | some p ↦ if p == "" then prompts_of ts else (p, t.prompt_version) ∷ prompts_of ts
  ]

  unfoldable pub causes_of : List (Trace F) → List (Trace F) → List Cause
  unfolding dominant prompts_of
  causes_of current previous =
      let models = dominant (λ x y. x == y) (map (λ t. t.model) current) in
      let old_models = dominant (λ x y. x == y) (map (λ t. t.model) previous) in
      let prompts = dominant same_prompt (prompts_of current) in
      let old_prompts = dominant same_prompt (prompts_of previous) in
      (if same_option (λ x y. x == y) models old_models
        then []
        else model_changed old_models models ∷ [])
      ++ (if not (same_option same_prompt prompts old_prompts) && is_known prompts
          then prompt_changed old_prompts prompts ∷ []
          else [])

  -- the row of an application and a metric in the last hour
  unfoldable pub recently_flagged : List (Regression F) → ℕ → String → String → Bool
  recently_flagged rows now app metric =
      any
        (λ r.
          r.application_id == app
          && r.metric_name == metric
          && leb (now - flag_window) r.detected_at)
        rows
