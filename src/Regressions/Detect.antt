-- ===== src/Regressions/Detect.antt =====
-- The pass of src/sentinellm/worker/tasks/regression.py over the windows of each application.
use sentinellm.Prelude.{
  ℕ, ◌&&◌, ◌||◌, ◌==◌, String, Option, none, some, List, [], ◌∷◌, ◌++◌, map, keep, any, length, ltb,
  if◌then◌else◌,
}
use sentinellm.Float.{Float, fmin, fsum}
use sentinellm.Tables.{Trace, Evaluation}
use sentinellm.Cache.Similarity.{is_empty}
use sentinellm.Alerting.Rules.{Severity, low, medium, high, critical}
use sentinellm.Alerting.Pass.{applications_of}
use sentinellm.Regressions.Windows.{
  window_size, Cause, Regression, QualityDb, windowed_traces, of_traces, causes_of,
  recently_flagged,
}

module _ {F : Type 0} ⦃fl : Float F⦄ where
  open fl use {decimal, of_nat, lt, le, eq, neg, minus, times, over, round}

  -- `_severity_for`
  unfoldable pub severity_for : F → Severity
  severity_for delta_pct =
      let magnitude = if lt delta_pct (decimal 0 0) then neg delta_pct else delta_pct in
      if le (decimal 35 0) magnitude
      then critical
      else if le (decimal 20 0) magnitude
      then high
      else if le (decimal 10 0) magnitude
      then medium
      else low

  -- none of no values
  unfoldable pub average : List F → Option F
  average [] = none
  average (x ∷ xs) = some (over (fsum (x ∷ xs)) (of_nat (length (x ∷ xs))))

  abbrev both : String → Option F → Option F → List (String × F × F)
  both name (some current) (some previous) = (name, current, previous) ∷ []
  both name none previous = []
  both name (some current) none = []

  -- the scores of a deterministic metric over the evaluations of the traces
  abbrev metric_scores : QualityDb F → List (Evaluation F) → String → List F
  metric_scores db evals name =
      map (λ m. m.score)
        (keep (λ m. m.metric_name == name && any (λ e. e.trace_id == m.trace_id) evals) db.metrics)

  -- `windows`: each metric with its average now and before
  unfoldable pub metric_windows :
      QualityDb F → List (Evaluation F) → List (Evaluation F) → List (String × F × F)
  unfolding average
  metric_windows db current previous =
      both "overall_quality" (average (map (λ e. e.overall_quality) current))
        (average (map (λ e. e.overall_quality) previous))
      ++ both "hallucination_score" (average (map (λ e. e.hallucination_score) current))
          (average (map (λ e. e.hallucination_score) previous))
      ++ both "faithfulness" (average (metric_scores db current "faithfulness"))
          (average (metric_scores db previous "faithfulness"))
      ++ both "relevance" (average (metric_scores db current "relevance"))
          (average (metric_scores db previous "relevance"))

  -- how much worse a metric became, in percent; none is nothing to compare with
  unfoldable pub worsening : String → F → F → Option F
  worsening name current previous =
      if name == "hallucination_score"
      then (let increase = minus current previous in
          if eq previous (decimal 0 0)
          then (if lt increase (decimal 5 2)
              then none
              else some
                  (fmin (decimal 1000 0) (times (over increase (decimal 5 2)) (decimal 100 0))))
          else some (fmin (decimal 1000 0) (times (over increase previous) (decimal 100 0))))
      else if eq previous (decimal 0 0)
      then none
      else some (times (over (minus previous current) previous) (decimal 100 0))

  abbrev pub regression_of : String → ℕ → List Cause → String → F → F → F → Regression F
  regression_of app now causes name current previous delta = record {
    metric_name = name;
    previous_value = round previous 4;
    new_value = round current 4;
    delta_pct = round delta 2;
    severity = severity_for delta;
    application_id = app;
    likely_cause = causes;
    detected_at = now;
  }

  -- a metric that is worse by the threshold: its row
  unfoldable pub flag : F → String → ℕ → List Cause → String × F × F → Option (Regression F)
  unfolding worsening severity_for
  flag threshold app now causes (name, current, previous) = elim (worsening name current previous) [
    | none ↦ none
    | some delta ↦
        if lt delta threshold
        then none
        else some (regression_of app now causes name current previous delta)
  ]

  -- a row is written unless the last hour has one
  unfoldable pub flag_once : Option (Regression F) → List (Regression F) → List (Regression F)
  unfolding recently_flagged
  flag_once none rows = rows
  flag_once (some r) rows =
      if recently_flagged rows r.detected_at r.application_id r.metric_name then rows else r ∷ rows

  -- the loop over the windows
  unfoldable pub flag_all :
      F
      → String
      → ℕ
      → List Cause
      → List (String × F × F)
      → List (Regression F)
      → List (Regression F)
  unfolding flag flag_once
  flag_all threshold app now causes [] rows = rows
  flag_all threshold app now causes (w ∷ ws) rows =
      flag_all threshold app now causes ws (flag_once (flag threshold app now causes w) rows)

  -- enough traces and evaluations in both windows: the averages to compare
  unfoldable pub comparable : QualityDb F → List (Trace F) → List (Trace F) → List (String × F × F)
  unfolding metric_windows
  comparable db current previous =
      let evals = keep (λ e. of_traces current e.trace_id) db.evaluations in
      let old_evals = keep (λ e. of_traces previous e.trace_id) db.evaluations in
      if ltb (length current) 10 || ltb (length previous) 10 || is_empty evals || is_empty old_evals
      then []
      else metric_windows db evals old_evals

  -- `detect_regressions_for_application`, the rows after it
  unfoldable pub detect_for_application :
      F → QualityDb F → ℕ → String → List (Regression F) → List (Regression F)
  unfolding windowed_traces comparable causes_of flag_all
  detect_for_application threshold db now app rows =
      let current = windowed_traces db.traces app 0 window_size in
      let previous = windowed_traces db.traces app window_size window_size in
      flag_all threshold app now (causes_of current previous) (comparable db current previous) rows

  unfoldable pub detect_each :
      F → QualityDb F → ℕ → List String → List (Regression F) → List (Regression F)
  unfolding detect_for_application
  detect_each threshold db now [] rows = rows
  detect_each threshold db now (app ∷ apps) rows =
      detect_each threshold db now apps (detect_for_application threshold db now app rows)

  -- `detect_regressions`
  unfoldable pub detect_regressions :
      F → QualityDb F → ℕ → List (Regression F) → List (Regression F)
  unfolding detect_each applications_of
  detect_regressions threshold db now rows =
      detect_each threshold db now (applications_of [] db.traces) rows
