-- ===== src/Generation/Targets.antt =====
-- What a downgrade moves a request to, and where the traffic of a finished rollout goes.
use sentinellm.Prelude.{
  ◌≡◌, refl, sym, subst, inl, inr, ◌⊎◌, Bool, Bool-cases, true, false, String, Option, none, some,
  Option-cases, List, [], ◌∷◌, All, All-at, Has, arith,
}
use sentinellm.Float.{Float, IsOrdered, IsNumber, unbeaten_trans, unbeaten_refl}
use sentinellm.Tables.{Model, is_down}
use sentinellm.Rollout.Table.{Rollout, IsValid, rolled_back}
use sentinellm.Rollout.Service.{get_active_rollout}
use sentinellm.Rollout.Arms.{incumbent, rolled_back_pins}
use sentinellm.Routing.Router.{Candidate, Routed, blended_price}
use sentinellm.Generation.Plan.{
  Request, canary, planned, candidate_of, serves, load_candidates, truthy, cheapest_from,
  pinned_candidate, downgrade_target, plan,
}

module _ {F : Type 0} where
  -- a candidate is a model of the table that is up
  load_candidates-up :
      (models : List (Model F)) (c : Candidate F)
      → Has c (load_candidates models)
      → (r : Model F) × Has r models × (c ≡ candidate_of r) × (is_down r.status ≡ false)
  unfolding load_candidates serves
  load_candidates-up [] c h = absurd h
  load_candidates-up (r ∷ models) c h = elim (Bool-cases (serves r)) [
    | inl up ↦ elim (rw up at h) [
      | inl same ↦ (r, inl refl, sym same, ground arith)
      | inr m ↦ let (x, k, e, u) = load_candidates-up models c m in (x, inr k, e, u)
    ]
    | inr stop ↦ let (x, k, e, u) = load_candidates-up models c (rw stop at h) in (x, inr k, e, u)
  ]

module _ {F : Type 0} ⦃fl : Float F⦄ where
  open fl use {lt, le, decimal}

  abbrev pub HasPrice : Candidate F → Type 0
  HasPrice c = IsNumber (blended_price c)

  cheapest_from_less :
      (best c : Candidate F) (cs : List (Candidate F))
      → lt (blended_price c) (blended_price best) ≡ true
      → cheapest_from best (c ∷ cs) ≡ cheapest_from c cs
  unfolding cheapest_from
  cheapest_from_less best c cs h = rw h

  cheapest_from_kept :
      (best c : Candidate F) (cs : List (Candidate F))
      → lt (blended_price c) (blended_price best) ≡ false
      → cheapest_from best (c ∷ cs) ≡ cheapest_from best cs
  unfolding cheapest_from
  cheapest_from_kept best c cs h = rw h

  cheapest_from-Has :
      (best : Candidate F) (cs : List (Candidate F)) → Has (cheapest_from best cs) (best ∷ cs)
  cheapest_from-Has best [] = inl (unfold cheapest_from in refl)
  cheapest_from-Has best (c ∷ cs) = elim (Bool-cases (lt (blended_price c) (blended_price best))) [
    | inl less ↦
        subst (λ w. Has w (best ∷ c ∷ cs)) (sym (cheapest_from_less best c cs less))
          (inr (cheapest_from-Has c cs))
    | inr not_less ↦
        subst (λ w. Has w (best ∷ c ∷ cs)) (sym (cheapest_from_kept best c cs not_less))
          (elim (cheapest_from-Has best cs) [ inl same ↦ inl same | inr m ↦ inr (inr m) ])
  ]

  target_lem :
      (preferred : Option String) (c : Candidate F) (cs : List (Candidate F)) (t : Candidate F)
      → downgrade_target preferred (c ∷ cs) ≡ some t
      → (t ≡ cheapest_from c cs)
        × ((asked : Candidate F)
            → pinned_candidate preferred (c ∷ cs) ≡ some asked
            → lt (blended_price t) (blended_price asked) ≡ true)
  unfolding downgrade_target
  target_lem preferred c cs t h = elim (Option-cases (pinned_candidate preferred (c ∷ cs))) [
    | inl free ↦ (ground arith, λ asked e. absurd (ground arith))
    | inr (x, e) ↦ (ground arith, λ asked k. ground arith)
  ]

  -- A downgrade never moves a request from a candidate that it asks for to one that is not cheaper.
  pub downgrade_target-cheaper :
      (preferred : Option String) (candidates : List (Candidate F)) (t asked : Candidate F)
      → downgrade_target preferred candidates ≡ some t
      → pinned_candidate preferred candidates ≡ some asked
      → lt (blended_price t) (blended_price asked) ≡ true
  downgrade_target-cheaper preferred [] t asked h e = absurd (unfold downgrade_target in cc h)
  downgrade_target-cheaper preferred (c ∷ cs) t asked h e =
      (target_lem preferred c cs t h).1 asked e

  module _ (laws : IsOrdered F) where
    open laws use {lt-eq-not-le, lt-le}

    -- none is cheaper than `t`
    abbrev pub Unbeaten : Candidate F → List (Candidate F) → Type 0
    Unbeaten t = All (λ c. lt (blended_price c) (blended_price t) ≡ false)

    cheapest_from-Unbeaten :
        (best : Candidate F) (cs : List (Candidate F))
        → HasPrice best
        → All HasPrice cs
        → Unbeaten (cheapest_from best cs) (best ∷ cs)
    cheapest_from-Unbeaten best [] h hs =
        unfold cheapest_from in (unbeaten_refl laws (blended_price best) h, tt)
    cheapest_from-Unbeaten best (c ∷ cs) h (k, ks) =
        elim (Bool-cases (lt (blended_price c) (blended_price best))) [
          | inl less ↦
              let (x, xs) = cheapest_from-Unbeaten c cs k ks in
              let w = cheapest_from c cs in
              let hw = All-at HasPrice (c ∷ cs) w (k, ks) (cheapest_from-Has c cs) in
              let over : lt (blended_price best) (blended_price c) ≡ false = ground (
                arith,
                lt-eq-not-le (blended_price best) (blended_price c) h k,
                lt-le (blended_price c) (blended_price best),
              ) in
              subst (λ w. Unbeaten w (best ∷ c ∷ cs)) (sym (cheapest_from_less best c cs less))
                (
                  unbeaten_trans laws (blended_price best) (blended_price c) (blended_price w) h k
                      hw over x,
                  (x, xs),
                )
          | inr not_less ↦
              let (x, xs) = cheapest_from-Unbeaten best cs h ks in
              let w = cheapest_from best cs in
              let hw = All-at HasPrice (best ∷ cs) w (h, ks) (cheapest_from-Has best cs) in
              subst (λ w. Unbeaten w (best ∷ c ∷ cs)) (sym (cheapest_from_kept best c cs not_less))
                (
                  x,
                  (
                    unbeaten_trans laws (blended_price c) (blended_price best) (blended_price w) k h
                        hw not_less x,
                    xs,
                  ),
                )
        ]

    among :
        (preferred : Option String) (cs : List (Candidate F)) (t : Candidate F)
        → All HasPrice cs
        → downgrade_target preferred cs ≡ some t
        → Has t cs × Unbeaten t cs
    among preferred [] t prices h = absurd (unfold downgrade_target in cc h)
    among preferred (c ∷ cs) t (k, ks) h =
        let same = (target_lem preferred c cs t h).0 in
        (
          subst (λ w. Has w (c ∷ cs)) (sym same) (cheapest_from-Has c cs),
          subst (λ w. Unbeaten w (c ∷ cs)) (sym same) (cheapest_from-Unbeaten c cs k ks),
        )

    -- The model of a downgrade is one of the table that is up, and no candidate is cheaper, where the
    -- prices are numbers.
    pub downgrade_target-Unbeaten :
        (preferred : Option String) (models : List (Model F)) (t : Candidate F)
        → All HasPrice (load_candidates models)
        → downgrade_target preferred (load_candidates models) ≡ some t
        → ((r : Model F) × Has r models × (t ≡ candidate_of r) × (is_down r.status ≡ false))
          × Unbeaten t (load_candidates models)
    downgrade_target-Unbeaten preferred models t prices h =
        let (member, cheap) = among preferred (load_candidates models) t prices h in
        (load_candidates-up models t member, cheap)

    -- While the newest rollout of the application is a valid one that is rolled back, a request that
    -- asks for no model and is not downgraded is served by the incumbent alone.
    pub plan_rolled_back :
        (request : Request) (downgrade : Bool) (models : List (Model F))
        (rollouts : List (Rollout F)) (draw : F) (router : List (Candidate F) → Routed F)
        (r : Rollout F)
        → (downgrade ≡ false)
          ⊎ (downgrade_target request.preferred_model (load_candidates models) ≡ none)
        → truthy request.preferred_model ≡ none
        → get_active_rollout rollouts request.application_id ≡ some r
        → r.stage ≡ rolled_back
        → IsValid r
        → le (decimal 0 0) draw ≡ true
        → plan request downgrade models rollouts draw router
          ≡ planned (canary incumbent) (r.incumbent_model ∷ [])
    unfolding plan
    plan_rolled_back request downgrade models rollouts draw router r cheap unasked newest e v low =
        ground (arith, rolled_back_pins laws r draw v low e)
