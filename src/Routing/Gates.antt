-- ===== src/Routing/Gates.antt =====
-- What the router guarantees of the model that it selects, and when it selects none.
use sentinellm.Prelude.{
  ℕ, ◌≤◌, ◌≡◌, ◌∙◌, ◌≢◌, ◌↔◌, refl, inl, inr, ◌⊎◌, Bool, Bool-cases, true, false, none, List, [],
  ◌∷◌, map, keep, All, Has, String, arith,
}
use sentinellm.Float.{Float, IsOrdered, IsNumber}
use sentinellm.Tables.{is_down}
use sentinellm.Text.{search_words}
use sentinellm.Routing.Complexity.{
  TaskComplexity, simple, medium, complex, classify_complexity, quality_floor_for, assess_risk,
  high_risk_terms,
}
use sentinellm.Routing.Router.{
  Candidate, Stats, Weights, Rated, is_eligible, best_from, exclusion, rate, Frame, RiskLevel,
  floor_of, request_floor, estimated_tokens, request_frame, Routing, routed, no_healthy_candidate,
  choose, route, risk_level_of,
}
use sentinellm.Routing.Choice.{best_from-either}

module _ {F : Type 0} ⦃fl : Float F⦄ where
  open fl use {lt, le, decimal}

  -- the row comes from an eligible candidate of the list
  abbrev Comes : Weights F → Frame F → (String → Stats F) → List (Candidate F) → Rated F → Type 0
  Comes w f stats cs r =
      (c : Candidate F) × Has c cs
      × (r.model ≡ c.model_id)
      × (exclusion f c (stats c.model_id) ≡ none)

  rate_lem :
      (w : Weights F) (f : Frame F) (stats : String → Stats F) (c : Candidate F)
      → ((rate w f stats c).model ≡ c.model_id)
        × (is_eligible (rate w f stats c) ≡ true → exclusion f c (stats c.model_id) ≡ none)
        × (is_eligible (rate w f stats c) ≡ false → exclusion f c (stats c.model_id) ≢ none)
  unfolding rate
  rate_lem w f stats c = ground arith

  All-Comes :
      (w : Weights F) (f : Frame F) (stats : String → Stats F) (all cs : List (Candidate F))
      → ((c : Candidate F) → Has c cs → Has c all)
      → All (Comes w f stats all) (keep is_eligible (map (rate w f stats) cs))
  All-Comes w f stats all [] within = tt
  All-Comes w f stats all (c ∷ cs) within =
      let rest = All-Comes w f stats all cs (λ x m. within x (inr m)) in
      let (named, pass, stop) = rate_lem w f stats c in
      elim (Bool-cases (is_eligible (rate w f stats c))) [
        | inl yes_it ↦ rw yes_it ((c, within c (inl refl), named, pass yes_it), rest)
        | inr no_it ↦ rw no_it rest
      ]

  choose_lem :
      (complexity : TaskComplexity) (level : RiskLevel) (results eligible : List (Rated F))
      (res : Routing F) (P : Rated F → Type 0)
      → choose complexity level results eligible ≡ routed res
      → All P eligible
      → (r : Rated F) × P r × (res.selected_model ≡ r.model)
  unfolding choose
  choose_lem complexity level results [] res P e h = absurd (cc e)
  choose_lem complexity level results (r ∷ rs) res P e (k, ks) =
      (best_from r rs, best_from-either P r rs k ks, ground arith)

  exclusion-none :
      (f : Frame F) (c : Candidate F) (s : Stats F)
      → exclusion f c s ≡ none
      → (is_down s.status ≡ false)
        × (f.tokens ≤ c.context_window)
        × (lt s.predicted_quality f.floor ≡ false)
  unfolding exclusion
  exclusion-none f c s h = ground arith

  module _ (stats : String → Stats F) (weights : Weights F) (prompt : List ℕ) (context_length : ℕ)
      (override : Bool) where
    -- The selected model is a candidate that is not down, whose window takes the estimated request and
    -- whose predicted quality is not under the floor of the request.
    pub route_sound :
        (cs : List (Candidate F)) (res : Routing F)
        → route cs stats weights prompt context_length override ≡ routed res
        → (c : Candidate F) × Has c cs
          × (res.selected_model ≡ c.model_id)
          × (is_down (stats c.model_id).status ≡ false)
          × (estimated_tokens F prompt context_length ≤ c.context_window)
          × (lt (stats c.model_id).predicted_quality (request_floor prompt context_length override)
              ≡ false)
    unfolding route request_frame
    route_sound [] res h = absurd (cc h)
    route_sound (x ∷ xs) res h =
        let frame = request_frame stats prompt context_length override x xs in
        let (r, (c, member, named, free), selected) =
          choose_lem _ _ _ _ res (Comes weights frame stats (x ∷ xs)) h
            (All-Comes weights frame stats (x ∷ xs) (x ∷ xs) (λ c m. m)) in
        let (up, fits, good) = exclusion-none frame c (stats c.model_id) free in
        (c, member, selected ∙ named, up, fits, good)

    choose-none :
        (complexity : TaskComplexity) (level : RiskLevel) (results eligible : List (Rated F))
        → (choose complexity level results eligible ≡ no_healthy_candidate) ↔ (eligible ≡ [])
    unfolding choose
    choose-none complexity level results [] = (λ h. refl, λ h. refl)
    choose-none complexity level results (r ∷ rs) = (λ h. cc, λ h. cc)

    excluded-All :
        (w : Weights F) (f : Frame F) (cs : List (Candidate F))
        → (keep is_eligible (map (rate w f stats) cs) ≡ [])
          ↔ All (λ c. exclusion f c (stats c.model_id) ≢ none) cs
    excluded-All w f [] = (λ h. tt, λ h. refl)
    excluded-All w f (c ∷ cs) =
        let (there, back) = excluded-All w f cs in
        let (named, pass, stop) = rate_lem w f stats c in
        elim (Bool-cases (is_eligible (rate w f stats c))) [
          | inl fit ↦ rw fit (λ h. cc, λ (k, ks). absurd (k (pass fit)))
          | inr unfit ↦ rw unfit (λ h. (stop unfit, there h), λ (k, ks). back ks)
        ]

    -- With candidates at hand the router gives up exactly when every one of them is excluded.
    pub route-none_iff :
        (x : Candidate F) (xs : List (Candidate F))
        → (route (x ∷ xs) stats weights prompt context_length override ≡ no_healthy_candidate)
          ↔ All
              (λ c.
                exclusion
                  (request_frame stats prompt context_length override x xs)
                  c
                  (stats c.model_id)
                ≢ none)
              (x ∷ xs)
    unfolding route
    route-none_iff x xs =
        let frame = request_frame stats prompt context_length override x xs in
        let (a, b) =
          choose-none (classify_complexity prompt context_length)
            (risk_level_of (assess_risk prompt override)) (map (rate weights frame stats) (x ∷ xs))
            (keep is_eligible (map (rate weights frame stats) (x ∷ xs))) in
        let (c, d) = excluded-All weights frame (x ∷ xs) in (λ h. c (a h), λ h. b (d h))

module _ {F : Type 0} ⦃fl : Float F⦄ (laws : IsOrdered F) where
  open fl use {lt, le, decimal}
  open laws use {le_self, le_trans, lt-le, lt-eq-not-le, decimal_mono}

  above :
      (bound floor q : F)
      → le bound floor ≡ true
      → IsNumber q
      → lt q floor ≡ false
      → le bound q ≡ true
  above bound floor q b n good =
      ground (arith, le_self bound floor b, lt-eq-not-le q floor n, le_trans bound floor q b)

  quality_floor_for-IsNumber :
      (complexity : TaskComplexity) → IsNumber {F = F} (quality_floor_for complexity)
  unfolding quality_floor_for
  quality_floor_for-IsNumber simple = decimal_mono 0 0 2 (omega arith)
  quality_floor_for-IsNumber medium = decimal_mono 45 45 2 (omega arith)
  quality_floor_for-IsNumber complex = decimal_mono 80 80 2 (omega arith)

  floor_of-high :
      (complexity : TaskComplexity) (risk : F)
      → le (decimal 80 2) risk ≡ true
      → le (decimal 85 2) (floor_of complexity risk) ≡ true
  unfolding floor_of
  floor_of-high complexity risk h =
      let q : F = quality_floor_for complexity in
      ground (
        arith,
        decimal_mono 85 85 2 (omega arith),
        quality_floor_for-IsNumber complexity,
        lt-eq-not-le q (decimal 85 2),
      )

  floor_of-complex : (risk : F) → le (decimal 80 2) (floor_of complex risk) ≡ true
  unfolding floor_of quality_floor_for
  floor_of-complex risk =
      ground (arith, decimal_mono 80 80 2 (omega arith), decimal_mono 80 85 2 (omega arith))

  assess_risk-high :
      (prompt : List ℕ) (override : Bool)
      → (search_words high_risk_terms true prompt ≡ true) ⊎ (override ≡ true)
      → le (decimal 80 2) (assess_risk prompt override) ≡ true
  unfolding assess_risk
  assess_risk-high prompt override h = ground (
    arith,
    decimal_mono 80 85 2 (omega arith),
    decimal_mono 80 90 2 (omega arith),
    decimal_mono 10 90 2 (omega arith),
    decimal_mono 10 10 2 (omega arith),
    decimal_mono 85 85 2 (omega arith),
    decimal_mono 90 90 2 (omega arith),
    lt-eq-not-le (decimal 10 2) (decimal 90 2),
    le_trans (decimal 80 2) (decimal 90 2) (decimal 10 2),
  )

  -- the quality of the selected model is over what the floor of the request is over
  selected-above :
      (stats : String → Stats F) (weights : Weights F) (prompt : List ℕ) (context_length : ℕ)
      (override : Bool) (cs : List (Candidate F)) (res : Routing F) (bound : F)
      → IsNumber (stats res.selected_model).predicted_quality
      → route cs stats weights prompt context_length override ≡ routed res
      → le bound (request_floor prompt context_length override) ≡ true
      → le bound (stats res.selected_model).predicted_quality ≡ true
  selected-above stats weights prompt context_length override cs res bound number h b =
      let (c, member, named, up, fits, good) =
        route_sound stats weights prompt context_length override cs res h in
      above bound (request_floor prompt context_length override)
        (stats res.selected_model).predicted_quality b number (rw named good)

  -- A model selected for a request with a high-risk word, or with the override, has a predicted
  -- quality of at least 0.85, where that quality is a number.
  pub route-risky :
      (stats : String → Stats F) (weights : Weights F) (prompt : List ℕ) (context_length : ℕ)
      (override : Bool) (cs : List (Candidate F)) (res : Routing F)
      → IsNumber (stats res.selected_model).predicted_quality
      → route cs stats weights prompt context_length override ≡ routed res
      → (search_words high_risk_terms true prompt ≡ true) ⊎ (override ≡ true)
      → le (decimal 85 2) (stats res.selected_model).predicted_quality ≡ true
  unfolding request_floor
  route-risky stats weights prompt context_length override cs res number h risky =
      selected-above stats weights prompt context_length override cs res (decimal 85 2) number h (
        floor_of-high (classify_complexity prompt context_length) (assess_risk prompt override)
          (assess_risk-high prompt override risky))

  -- A model selected for a complex task has a predicted quality of at least 0.80, where that quality
  -- is a number.
  pub route-complex :
      (stats : String → Stats F) (weights : Weights F) (prompt : List ℕ) (context_length : ℕ)
      (override : Bool) (cs : List (Candidate F)) (res : Routing F)
      → IsNumber (stats res.selected_model).predicted_quality
      → route cs stats weights prompt context_length override ≡ routed res
      → classify_complexity prompt context_length ≡ complex
      → le (decimal 80 2) (stats res.selected_model).predicted_quality ≡ true
  unfolding request_floor
  route-complex stats weights prompt context_length override cs res number h hard =
      selected-above stats weights prompt context_length override cs res (decimal 80 2) number h
        (rw hard (floor_of-complex (assess_risk prompt override)))
