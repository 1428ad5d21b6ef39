-- ===== src/Regressions/Flagged.antt =====
-- The rows that passes write, and the rows that they leave out.
use sentinellm.Prelude.{
  ℕ, ◌+◌, ◌≡◌, inl, inr, Bool, Bool-cases, false, ◌&&◌, ◌==◌, String, Option, none, some, List, [],
  ◌∷◌, leb, All, arith,
}
use sentinellm.Float.{Float}
use sentinellm.Alerting.Pass.{applications_of}
use sentinellm.Regressions.Windows.{
  flag_window, window_size, Cause, Regression, QualityDb, windowed_traces, causes_of,
  recently_flagged,
}
use sentinellm.Regressions.Detect.{
  flag, flag_once, flag_all, comparable, detect_for_application, detect_each, detect_regressions,
}

module _ {F : Type 0} where
  -- a row that comes within an hour of an older one on its application and metric
  abbrev pub follows : Regression F → Regression F → Bool
  follows r o =
      o.application_id == r.application_id
      && o.metric_name == r.metric_name
      && leb r.detected_at (o.detected_at + flag_window)

  -- of a table with the newest row first
  abbrev pub AreApart : List (Regression F) → Type 0
  AreApart [] = Unit
  AreApart (r ∷ older) = All (λ o. follows r o ≡ false) older × AreApart older

  quiet_apart :
      (rows : List (Regression F)) (r : Regression F)
      → recently_flagged rows r.detected_at r.application_id r.metric_name ≡ false
      → All (λ o. follows r o ≡ false) rows
  unfolding recently_flagged
  quiet_apart [] r h = tt
  quiet_apart (o ∷ rows) r h = (ground arith, quiet_apart rows r (ground arith))

module _ {F : Type 0} ⦃fl : Float F⦄ where
  flag_once-AreApart :
      (found : Option (Regression F)) (rows : List (Regression F))
      → AreApart rows
      → AreApart (flag_once found rows)
  unfolding flag_once
  flag_once-AreApart none rows apart = apart
  flag_once-AreApart (some r) rows apart =
      elim (Bool-cases (recently_flagged rows r.detected_at r.application_id r.metric_name)) [
        | inl recent ↦ rw recent apart
        | inr quiet ↦ rw quiet (quiet_apart rows r quiet, apart)
      ]

  flag_all-AreApart :
      (threshold : F) (app : String) (now : ℕ) (causes : List Cause) (ws : List (String × F × F))
      (rows : List (Regression F))
      → AreApart rows
      → AreApart (flag_all threshold app now causes ws rows)
  unfolding flag_all
  flag_all-AreApart threshold app now causes [] rows apart = apart
  flag_all-AreApart threshold app now causes (w ∷ ws) rows apart =
      flag_all-AreApart threshold app now causes ws
        (flag_once (flag threshold app now causes w) rows)
        (flag_once-AreApart (flag threshold app now causes w) rows apart)

  detect_each-AreApart :
      (threshold : F) (db : QualityDb F) (now : ℕ) (apps : List String) (rows : List (Regression F))
      → AreApart rows
      → AreApart (detect_each threshold db now apps rows)
  unfolding detect_each detect_for_application
  detect_each-AreApart threshold db now [] rows apart = apart
  detect_each-AreApart threshold db now (app ∷ apps) rows apart =
      detect_each-AreApart threshold db now apps (detect_for_application threshold db now app rows)
        (flag_all-AreApart threshold app now
          (causes_of (windowed_traces db.traces app 0 window_size)
            (windowed_traces db.traces app window_size window_size))
          (comparable db (windowed_traces db.traces app 0 window_size)
            (windowed_traces db.traces app window_size window_size))
          rows apart)

  -- The tables that passes make from an empty one, at any times and on any data.
  pub data Passed : List (Regression F) → Type 0 where
    nothing_yet : Passed []
    detected :
        {rows after : List (Regression F)} (threshold : F) (db : QualityDb F) (now : ℕ)
        → Passed rows
        → after ≡ detect_regressions threshold db now rows
        → Passed after

  -- Through every history of passes, a regression comes more than an hour after every older one of its
  -- application and metric.
  pub Passed-AreApart : {rows : List (Regression F)} → Passed rows → AreApart rows
  unfolding detect_regressions
  Passed-AreApart nothing_yet = tt
  Passed-AreApart (detected {rows = rows} threshold db now before e) = rw e (
      detect_each-AreApart threshold db now (applications_of [] db.traces) rows
        (Passed-AreApart before))
