-- ===== src/Routing/Chain.antt =====
-- From the router's result to the chain of models that `_generate` calls
-- (src/sentinellm/services/generation.py).
use sentinellm.Prelude.{
  ℕ, ◌≡◌, refl, sym, ◌∙◌, ap, Bool, false, String, List, [], ◌∷◌, map, keep, All, arith,
}
use sentinellm.Float.{Float, IsOrdered}
use sentinellm.Routing.Complexity.{TaskComplexity, classify_complexity, assess_risk}
use sentinellm.Routing.Router.{
  Candidate, Stats, Weights, Rated, is_eligible, best_from, rate, request_frame, RiskLevel,
  risk_level_of, Routing, routed, choose, route,
}
use sentinellm.Routing.Choice.{IsScored, HeadIs, ranked, ranked-head, best_from-unbeaten}

module _ {F : Type 0} ⦃fl : Float F⦄ where
  -- the eligible models by falling score
  unfoldable pub candidate_chain : Routing F → List String
  candidate_chain res = map (λ r. r.model) (ranked (keep is_eligible res.candidates))

  -- what `choose` saw when it answered
  choose-routed :
      (complexity : TaskComplexity) (level : RiskLevel) (results eligible : List (Rated F))
      (res : Routing F)
      → choose complexity level results eligible ≡ routed res
      → (r : Rated F) × (rs : List (Rated F)) × (eligible ≡ r ∷ rs)
        × (res.selected_model ≡ (best_from r rs).model)
        × (res.candidates ≡ results)
  unfolding choose
  choose-routed complexity level results [] res h = absurd (cc h)
  choose-routed complexity level results (r ∷ rs) res h = (r, rs, refl, ground arith, ground arith)

  head_model :
      (r : Rated F) (rows : List (Rated F))
      → HeadIs r rows
      → (rest : List String) × (map (λ x. x.model) rows ≡ r.model ∷ rest)
  head_model r [] h = absurd h
  head_model r (x ∷ rows) h = (map (λ y. y.model) rows, ground arith)

  module _ (laws : IsOrdered F) where
    chain_of_rows :
        (r : Rated F) (rs results : List (Rated F)) (res : Routing F)
        → keep is_eligible results ≡ r ∷ rs
        → res.selected_model ≡ (best_from r rs).model
        → res.candidates ≡ results
        → All IsScored (keep is_eligible res.candidates)
        → ((rest : List String) × (candidate_chain res ≡ res.selected_model ∷ rest))
          × ((best : Rated F) × (best.model ≡ res.selected_model)
              × All
                  (λ x. fl.lt best.routing_score x.routing_score ≡ false)
                  (keep is_eligible res.candidates))
    unfolding candidate_chain
    chain_of_rows r rs results res e s c scored =
        let rows : keep is_eligible res.candidates ≡ r ∷ rs = ap (keep is_eligible) c ∙ e in
        let (hr, hs) : All IsScored (r ∷ rs) = rw rows at scored in
        let (rest, chain) =
          head_model (best_from r rs) (ranked (r ∷ rs)) (ranked-head laws r rs hr hs) in
        (
          (rest, rw (rows, s) chain),
          (best_from r rs, sym s, rw rows (best_from-unbeaten laws r rs hr hs)),
        )

    -- The model that the router selects is the first of the chain that is called, and no eligible
    -- candidate has a higher score than its row (where the scores are numbers).
    pub route-chain :
        (stats : String → Stats F) (weights : Weights F) (prompt : List ℕ) (context_length : ℕ)
        (override : Bool) (cs : List (Candidate F)) (res : Routing F)
        → route cs stats weights prompt context_length override ≡ routed res
        → All IsScored (keep is_eligible res.candidates)
        → ((rest : List String) × (candidate_chain res ≡ res.selected_model ∷ rest))
          × ((best : Rated F) × (best.model ≡ res.selected_model)
              × All
                  (λ x. fl.lt best.routing_score x.routing_score ≡ false)
                  (keep is_eligible res.candidates))
    unfolding route
    route-chain stats weights prompt context_length override [] res h scored = absurd (cc h)
    route-chain stats weights prompt context_length override (c ∷ cs) res h scored =
        let results =
          map (rate weights (request_frame stats prompt context_length override c cs) stats)
            (c ∷ cs) in
        let (r, rs, e, s, k) =
          choose-routed (classify_complexity prompt context_length)
            (risk_level_of (assess_risk prompt override)) results (keep is_eligible results) res
            h in
        chain_of_rows r rs results res e s k scored
