-- ===== src/Rollout/Windows.antt =====
-- The evidence of a decision: which traces count, how often, and what they must show.
use sentinellm.Prelude.{
  ℕ, ◌-◌, ◌≤◌, ◌<◌, ◌≡◌, ◌≢◌, inl, inr, Bool, Bool-cases, true, String, Option, some, List, [], ◌∷◌,
  arith, All, keep,
}
use sentinellm.Float.{Float}
use sentinellm.Tables.{Trace, Alert}
use sentinellm.Rollout.Window.{load_arm_window, load_arm_window-traces}
use sentinellm.Rollout.Table.{Rollout}
use sentinellm.Rollout.Worker.{
  Evidence, decided, Decision, rollback, evaluate_rollout, settle, rolled, cursor,
  challenger_window, evaluation_grace,
}

module _ {F : Type 0} ⦃fl : Float F⦄ where
  All-keep :
      {P : Trace F → Type 0} (p : Trace F → Bool) (ts : List (Trace F))
      → ((t : Trace F) → p t ≡ true → P t)
      → All P (keep p ts)
  All-keep p [] h = tt
  All-keep {P} p (t ∷ ts) h = elim (Bool-cases (p t)) [
    | inl e ↦ rw e (h t e, All-keep {P = P} p ts h)
    | inr e ↦ rw e (All-keep {P = P} p ts h)
  ]

  -- the bounds of a window, read off its query
  load_arm_window-bounds :
      (db : Evidence F) (app model : String) (since until : ℕ)
      → All
          (λ t. (since < t.created_at) × (t.created_at ≤ until))
          (load_arm_window db.traces db.evaluations app model since (some until)).traces
  load_arm_window-bounds db app model since until =
      rw load_arm_window-traces (All-keep _ db.traces (λ t e. ground arith))

  -- a pass that does not roll back leaves the cursor at the end of its window
  advance-cursor :
      (db : Evidence F) (now : ℕ) (r r' : Rollout F) (d : Decision) (a : Option (Alert F))
      → d ≢ rollback
      → evaluate_rollout db now r ≡ decided d r' a
      → (cursor r < cursor r') × (cursor r' ≡ now - evaluation_grace)
  unfolding evaluate_rollout settle rolled
  advance-cursor db now r r' d a ne h = ground arith

  -- No trace is evidence twice: after a decision that keeps or promotes the challenger, every trace
  -- of the window judged lies at or before the new cursor, the cursor has grown, and every trace of
  -- any later window of the row lies after it.
  pub evidence_once :
      (db later : Evidence F) (now until : ℕ) (r r' : Rollout F) (d : Decision)
      (a : Option (Alert F))
      → d ≢ rollback
      → evaluate_rollout db now r ≡ decided d r' a
      → (cursor r < cursor r')
        × All
            (λ t. (cursor r < t.created_at) × (t.created_at ≤ cursor r'))
            (challenger_window db r (now - evaluation_grace)).traces
        × All
            (λ t. (cursor r' < t.created_at) × (t.created_at ≤ until))
            (challenger_window later r' until).traces
  evidence_once db later now until r r' d a ne h =
      let (grown, at) = advance-cursor db now r r' d a ne h in
      (
        grown,
        rw at (
            load_arm_window-bounds db r.application_id r.challenger_model (cursor r)
              (now - evaluation_grace)),
        load_arm_window-bounds later r'.application_id r'.challenger_model (cursor r') until,
      )
