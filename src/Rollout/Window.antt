-- ===== src/Rollout/Window.antt =====
-- `ArmWindow` and its queries, of src/sentinellm/services/rollouts.py.
use sentinellm.Prelude.{
  ℕ, ◌≡◌, arith, Bool, true, ◌&&◌, ◌==◌, String, Option, none, some, List, [], ◌∷◌, map, ltb, leb,
  length, keep, any,
}
use sentinellm.Float.{Float, fsum}
use sentinellm.Tables.{Trace, Evaluation, is_error}

-- One arm's traffic over a time window, with the scores of the traces evaluated so far.
pub record ArmWindow (F : Type 0) : Type 0 where
  pub traces : List (Trace F)
  pub quality_scores : List F

module _ {F : Type 0} ⦃fl : Float F⦄ where
  open fl use {over, of_nat, decimal}

  abbrev pub request_count : ArmWindow F → ℕ
  request_count w = length w.traces

  -- `if not traces: return 0.0`
  rate_of : List (Trace F) → F
  rate_of [] = decimal 0 0
  rate_of (t ∷ ts) =
      over (of_nat (length (keep (λ x. is_error x.status) (t ∷ ts)))) (of_nat (length (t ∷ ts)))

  unfoldable pub error_rate : ArmWindow F → F
  unfolding rate_of
  error_rate w = rate_of w.traces

  abbrev pub evaluated_count : ArmWindow F → ℕ
  evaluated_count w = length w.quality_scores

  mean_of : List F → Option F
  mean_of [] = none
  mean_of (x ∷ xs) = some (over (fsum (x ∷ xs)) (of_nat (length (x ∷ xs))))

  unfoldable pub avg_quality : ArmWindow F → Option F
  unfolding mean_of
  avg_quality w = mean_of w.quality_scores

-- `created_at <= until`, where there is an `until`
abbrev pub not_after : Option ℕ → ℕ → Bool
not_after none created = true
not_after (some until) created = leb created until

module _ {F : Type 0} where
  -- the scores are those of the evaluations whose trace is among the selected ones
  window_of : List (Evaluation F) → List (Trace F) → ArmWindow F
  window_of evaluations [] = record { traces = []; quality_scores = [] }
  window_of evaluations (t ∷ ts) = record {
    traces = t ∷ ts;
    quality_scores =
        map (λ e. e.overall_quality)
          (keep (λ e. any (λ x. x.id == e.trace_id) (t ∷ ts)) evaluations);
  }

  -- `load_window`, over the two tables that it reads
  unfoldable pub load_window :
      List (Trace F) → List (Evaluation F) → (Trace F → Bool) → ℕ → Option ℕ → ArmWindow F
  unfolding window_of
  load_window traces evaluations conditions since until =
      window_of evaluations (
        keep (λ t. conditions t && (ltb since t.created_at && not_after until t.created_at)) traces)

  unfoldable pub load_arm_window :
      List (Trace F) → List (Evaluation F) → String → String → ℕ → Option ℕ → ArmWindow F
  unfolding load_window
  load_arm_window traces evaluations application_id model since until =
      load_window traces evaluations (λ t. t.application_id == application_id && t.model == model)
        since until

  -- The window's traces are the selected rows.
  pub load_arm_window-traces :
      (traces : List (Trace F)) (evaluations : List (Evaluation F)) (app model : String) (since : ℕ)
      (until : Option ℕ)
      → (load_arm_window traces evaluations app model since until).traces
        ≡ keep
            (λ t.
              (t.application_id == app && t.model == model)
              && (ltb since t.created_at && not_after until t.created_at))
            traces
  unfolding load_arm_window
  load_arm_window-traces traces evaluations app model since until = ground arith
