-- ===== src/Rollout/Arms.antt =====
-- Which arm a request is served: `_generate` of src/sentinellm/services/generation.py.
use sentinellm.Prelude.{◌≡◌, true, Bool, String, arith, if◌then◌else◌}
use sentinellm.Float.{Float, IsOrdered, IsNumber}
use sentinellm.Rollout.Table.{Rollout, IsValid, rolled_back, promoted}

pub data Arm : Type 0 where
  challenger incumbent : Arm

module _ {F : Type 0} ⦃fl : Float F⦄ where
  open fl use {lt, le, over, decimal}

  -- `random.random() < (rollout.traffic_pct / 100.0)`, where `draw` is the random number
  unfoldable pub is_challenger : F → F → Bool
  is_challenger traffic_pct draw = lt draw (over traffic_pct (decimal 100 0))

  -- the arm and the model, which is the whole candidate chain
  unfoldable pub rollout_choice : Rollout F → F → Arm × String
  unfolding is_challenger
  rollout_choice r draw =
      if is_challenger r.traffic_pct draw
      then (challenger, r.challenger_model)
      else (incumbent, r.incumbent_model)

  module _ (laws : IsOrdered F) where
    open laws use {le_self, le_trans, lt-le, lt-eq-not-le, over_mono, zero-over, over_self}

    -- A random number that is not negative never picks the challenger of a valid rolled back row.
    pub rolled_back_pins :
        (r : Rollout F) (draw : F)
        → IsValid r
        → le (decimal 0 0) draw ≡ true
        → r.stage ≡ rolled_back
        → rollout_choice r draw ≡ (incumbent, r.incumbent_model)
    unfolding rollout_choice
    rolled_back_pins r draw v low e =
        rw (v.rolled_back_zero e) (
          ground (arith, zero-over 99, le_self (decimal 0 0) draw, lt-eq-not-le draw (decimal 0 0)))

    -- A random number below 1 always picks the challenger of a valid row that is promoted to a ceiling
    -- of 100 percent.
    pub promoted_pins :
        (r : Rollout F) (draw : F)
        → IsValid r
        → lt draw (decimal 1 0) ≡ true
        → r.stage ≡ promoted
        → r.max_pct ≡ decimal 100 0
        → rollout_choice r draw ≡ (challenger, r.challenger_model)
    unfolding rollout_choice
    promoted_pins r draw v below e m = rw (v.promoted_full e, m) (ground (arith, over_self 99))

    -- A request that goes to the challenger still does so when the traffic share is raised.
    pub is_challenger_mono :
        (low high draw : F)
        → le low high ≡ true
        → IsNumber draw
        → is_challenger low draw ≡ true
        → is_challenger high draw ≡ true
    unfolding is_challenger
    is_challenger_mono low high draw h n c = ground (
      arith,
      over_mono low high 99 h,
      le_self (over low (decimal 100 0)) (over high (decimal 100 0)),
      lt-eq-not-le draw (over low (decimal 100 0)),
      lt-eq-not-le draw (over high (decimal 100 0)),
      le_trans (over low (decimal 100 0)) (over high (decimal 100 0)) draw,
    )
