-- ===== src/Rollout/Policy.antt =====
-- The guard-rail decision of src/sentinellm/services/rollout_policy.py.
use sentinellm.Prelude.{
  ℕ, ◌≤◌, ◌≡◌, ◌↔◌, Bool, true, false, Option, none, some, ◌⊎◌, inl, inr, Bool-cases, Option-cases,
  arith, leb, if◌then◌else◌,
}
use sentinellm.Float.{Float, IsOrdered, IsNumber, fmin}
use sentinellm.Rollout.Window.{ArmWindow, request_count, error_rate, evaluated_count, avg_quality}

pub record Guards (F : Type 0) : Type 0 where
  pub quality_floor : F
  pub max_quality_regression : F
  pub max_error_rate : F
  pub min_sample_size : ℕ

-- The three texts of `reason`; the numbers in them are those of the violation and the verdict.
pub data Gate : Type 0 where
  errors floor regression : Gate

pub record Violation (F : Type 0) : Type 0 where
  pub reason : Gate
  pub current : F
  pub threshold : F

pub record Verdict (F : Type 0) : Type 0 where
  pub violation : Option (Violation F)
  pub requests : ℕ
  pub error_rate : F
  pub challenger_quality : Option F

module _ {F : Type 0} ⦃fl : Float F⦄ where
  open fl use {lt, le, plus, minus}

  -- the quality of an arm, once `min_sample_size` of its traces are evaluated
  abbrev pub judged_quality : ArmWindow F → Guards F → Option F
  judged_quality w g = if leb g.min_sample_size (evaluated_count w) then avg_quality w else none

  -- the two quality gates, on the qualities that may be judged
  quality_gates : Option F → Option F → Guards F → Option (Violation F)
  quality_gates none incumbent g = none
  quality_gates (some q) none g =
      if lt q g.quality_floor
      then some (record { reason = floor; current = q; threshold = g.quality_floor })
      else none
  quality_gates (some q) (some base) g =
      if lt q g.quality_floor
      then some (record { reason = floor; current = q; threshold = g.quality_floor })
      else if lt q (minus base g.max_quality_regression)
      then some (record {
        reason = regression;
        current = q;
        threshold = minus base g.max_quality_regression;
      })
      else none

  unfoldable pub judge_challenger : ArmWindow F → ArmWindow F → Guards F → Verdict F
  unfolding quality_gates
  judge_challenger challenger incumbent g =
      let rate = error_rate challenger in
      let quality = judged_quality challenger g in
      record {
        violation =
            if lt g.max_error_rate rate
            then some (record { reason = errors; current = rate; threshold = g.max_error_rate })
            else quality_gates quality (judged_quality incumbent g) g;
        requests = request_count challenger;
        error_rate = rate;
        challenger_quality = quality;
      }

  unfoldable pub next_traffic : F → F → F → F × Bool
  next_traffic current step ceiling =
      let new = fmin ceiling (plus current step) in (new, le ceiling new)

  -- What the guard rails promise: the error rate is not over its limit; an arm with enough
  -- evaluated traces is not under the floor; and if the incumbent has as many, the challenger is not
  -- more than the allowed regression below it.
  pub record IsWithin (challenger incumbent : ArmWindow F) (g : Guards F) : Type 0 where
    pub errors_ok : lt g.max_error_rate (error_rate challenger) ≡ false
    pub floor_ok :
        (q : F)
        → g.min_sample_size ≤ evaluated_count challenger
        → avg_quality challenger ≡ some q
        → lt q g.quality_floor ≡ false
    pub regression_ok :
        (q base : F)
        → g.min_sample_size ≤ evaluated_count challenger
        → avg_quality challenger ≡ some q
        → g.min_sample_size ≤ evaluated_count incumbent
        → avg_quality incumbent ≡ some base
        → lt q (minus base g.max_quality_regression) ≡ false

  -- The pass finds no violation exactly when the challenger is within all three guard rails.
  pub judge_challenger-none_iff :
      (c i : ArmWindow F) (g : Guards F)
      → ((judge_challenger c i g).violation ≡ none) ↔ IsWithin c i g
  unfolding judge_challenger
  judge_challenger-none_iff c i g = (
    λ h. record {
      errors_ok = ground arith;
      floor_ok = λ q n e. ground arith;
      regression_ok = λ q b n e m k. ground arith;
    },
    λ w. elim (Option-cases (avg_quality c)) [
      | inl e ↦ ground (arith, w.errors_ok)
      | inr (q, e) ↦ elim (Option-cases (avg_quality i)) [
        | inl d ↦ ground (arith, w.errors_ok, w.floor_ok q)
        | inr (b, d) ↦ ground (arith, w.errors_ok, w.floor_ok q, w.regression_ok q b)
      ]
    ],
  )

  -- A violation is a gate that is really broken: the current value that it names is on the wrong
  -- side of the threshold that it names.
  abbrev pub IsBroken : Violation F → Type 0
  IsBroken v = breaks v.reason v.current v.threshold ≡ true
    where
      breaks : Gate → F → F → Bool
      breaks errors current threshold = lt threshold current
      breaks _ current threshold = lt current threshold

  pub judge_challenger-IsBroken :
      (c i : ArmWindow F) (g : Guards F) (v : Violation F)
      → (judge_challenger c i g).violation ≡ some v
      → IsBroken v
  unfolding judge_challenger
  judge_challenger-IsBroken c i g v h = ground arith

  -- The judged quality is the average, and only with enough evaluated traces.
  pub judge_challenger-quality :
      (c i : ArmWindow F) (g : Guards F) (q : F)
      → (judge_challenger c i g).challenger_quality ≡ some q
      → (g.min_sample_size ≤ evaluated_count c) × (avg_quality c ≡ some q)
  unfolding judge_challenger
  judge_challenger-quality c i g q h = ground arith

  module _ (laws : IsOrdered F) where
    open laws use {le_self, le_trans, lt-le, lt-eq-not-le}

    -- Between numbers, the new traffic is the step up if that stays under the ceiling, and then the
    -- ceiling is not reached; otherwise it is the ceiling itself, and the ceiling is reached.
    pub next_traffic_bounds :
        (current step ceiling : F)
        → IsNumber ceiling
        → IsNumber (plus current step)
        → ((next_traffic current step ceiling ≡ (plus current step, false))
            × (lt (plus current step) ceiling ≡ true))
          ⊎ ((next_traffic current step ceiling ≡ (ceiling, true))
              × (le ceiling (plus current step) ≡ true))
    unfolding next_traffic
    next_traffic_bounds current step ceiling hc hs =
        let order = lt-eq-not-le (plus current step) ceiling hs hc in
        elim (Bool-cases (lt (plus current step) ceiling)) [
          | inl under ↦ inl (ground (arith, order), under)
          | inr over ↦ inr (ground (arith, order), ground (arith, order))
        ]
