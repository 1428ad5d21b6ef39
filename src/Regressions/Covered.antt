-- ===== src/Regressions/Covered.antt =====
-- What a pass of worker/tasks/regression.py leaves in the table for each application.
use sentinellm.Prelude.{ℕ, ◌≡◌, refl, false, String, some, List, arith}
use sentinellm.Float.{Float}
use sentinellm.Regressions.Windows.{window_size, Cause, Regression, QualityDb, windowed_traces}
use sentinellm.Regressions.Detect.{regression_of, worsening, flag, comparable}

module _ {F : Type 0} ⦃fl : Float F⦄ where
  flag_lem :
      (threshold : F) (app : String) (now : ℕ) (causes : List Cause) (metric : String)
      (current previous delta : F)
      → worsening metric current previous ≡ some delta
      → fl.lt delta threshold ≡ false
      → (r : Regression F) × (flag threshold app now causes (metric, current, previous) ≡ some r)
        × (r.detected_at ≡ now)
        × (r.application_id ≡ app)
        × (r.metric_name ≡ metric)
  unfolding flag
  flag_lem threshold app now causes metric current previous delta w reached =
      (regression_of app now causes metric current previous delta, ground arith, refl, refl, refl)

  -- what a pass compares for an application: its last 30 evaluated traces and the 30 before
  abbrev pub compared : QualityDb F → String → List (String × F × F)
  compared db app =
      comparable db (windowed_traces db.traces app 0 window_size)
        (windowed_traces db.traces app window_size window_size)
