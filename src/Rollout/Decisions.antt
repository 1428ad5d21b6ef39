-- ===== src/Rollout/Decisions.antt =====
-- When the worker rolls back, keeps going, or leaves a rollout alone.
use sentinellm.Prelude.{
  ℕ, ◌-◌, ◌≤◌, ◌<◌, ◌≡◌, ◌≢◌, ◌↔◌, inl, inr, Option, none, some, Option-cases, [], ◌∷◌, arith,
  String,
}
use mathlib.Core.Option
use sentinellm.Float.{Float}
use sentinellm.Tables.{Alert}
use sentinellm.Rollout.Window.{request_count}
use sentinellm.Rollout.Policy.{Verdict, IsWithin, judge_challenger, judge_challenger-none_iff}
use sentinellm.Rollout.Table.{Rollout, rolled_back}
use sentinellm.Rollout.Worker.{
  Evidence, decided, unchanged, rollback, evaluate_rollout, settle, settle_on, rolled,
  rollback_alert, unhealthy_model, cursor, guards_of, challenger_window, incumbent_window,
  evaluation_grace, decisions_of,
}

module _ {F : Type 0} ⦃fl : Float F⦄ (db : Evidence F) (now : ℕ) (r : Rollout F) where
  -- The time up to which evidence is taken.
  abbrev until : ℕ
  until = now - evaluation_grace

  -- the guard rails hold over the window since the cursor
  abbrev pub WithinGuards : Type 0
  WithinGuards = IsWithin (challenger_window db r until) (incumbent_window db r until) (guards_of r)

  -- the window is not empty of time and has enough challenger requests
  abbrev pub HasEvidence : Type 0
  HasEvidence =
      (cursor r < until) × (r.min_sample_size ≤ request_count (challenger_window db r until))

  abbrev verdict : Verdict F
  verdict =
      judge_challenger (challenger_window db r until) (incumbent_window db r until) (guards_of r)

  evaluate_rollout-settle :
      unhealthy_model db.models r ≡ none
      → HasEvidence
      → evaluate_rollout db now r ≡ settle r until verdict
  unfolding evaluate_rollout
  evaluate_rollout-settle up ev = ground arith

  settle-rollback :
      (v : Verdict F) → (decisions_of (settle r until v) ≡ rollback ∷ []) ↔ (v.violation ≢ none)
  unfolding settle
  settle-rollback v = elim (Option-cases v.violation) [
    | inl e ↦ (λ h. ground arith, λ h. absurd (h e))
    | inr (x, e) ↦ (λ h k. cc, λ h. rw (e, settle_on))
  ]

  -- With both models up and enough evidence, the pass rolls back exactly when a guard rail is
  -- broken.
  pub rollback_iff :
      unhealthy_model db.models r ≡ none
      → HasEvidence
      → (decisions_of (evaluate_rollout db now r) ≡ rollback ∷ []) ↔ (¬ WithinGuards)
  rollback_iff up ev =
      let (within, none_of) =
        judge_challenger-none_iff (challenger_window db r until) (incumbent_window db r until)
          (guards_of r) in
      rw (evaluate_rollout-settle up ev) (
        λ h w. (settle-rollback verdict).0 h (none_of w),
        λ h. (settle-rollback verdict).1 (λ e. h (within e)),
      )

  -- A model that is down is rolled back at once, whatever the evidence.
  pub down-rolls_back :
      (model : String)
      → unhealthy_model db.models r ≡ some model
      → decisions_of (evaluate_rollout db now r) ≡ rollback ∷ []
  unfolding evaluate_rollout
  down-rolls_back model h = ground arith

  -- With both models up and too little evidence, the row is left alone and so is its cursor.
  pub thin_evidence-unchanged :
      unhealthy_model db.models r ≡ none → ¬ HasEvidence → evaluate_rollout db now r ≡ unchanged
  unfolding evaluate_rollout
  thin_evidence-unchanged up thin = ground arith

  -- A rollback takes all traffic away and fires an alert about the challenger.
  pub rollback_effect :
      (r' : Rollout F) (a : Option (Alert F))
      → evaluate_rollout db now r ≡ decided rollback r' a
      → (r'.stage ≡ rolled_back)
        × (r'.traffic_pct ≡ fl.decimal 0 0)
        × (Option.map (λ (x : Alert F). x.affected_model) a ≡ some (some r.challenger_model))
  unfolding evaluate_rollout settle rolled rollback_alert
  rollback_effect r' a h = ground arith
