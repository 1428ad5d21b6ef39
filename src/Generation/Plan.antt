-- ===== src/Generation/Plan.antt =====
-- The choice of the chain of models in `_generate` of src/sentinellm/services/generation.py: a
-- downgrade for a spent budget, the arm of a rollout, the model that was asked for, or the router.
use sentinellm.Prelude.{
  Bool, not, ◌&&◌, ◌==◌, String, Option, none, some, List, [], ◌∷◌, map, keep, find, if◌then◌else◌,
}
use sentinellm.Float.{Float}
use sentinellm.Tables.{Model, is_down}
use sentinellm.Text.{codes, occurs_in}
use sentinellm.Rollout.Table.{Rollout}
use sentinellm.Rollout.Service.{get_active_rollout}
use sentinellm.Rollout.Arms.{Arm, rollout_choice}
use sentinellm.Routing.Router.{
  Candidate, Routed, routed, value_error, no_healthy_candidate, blended_price,
}
use sentinellm.Routing.Chain.{candidate_chain}

-- The fields of a request that the choice reads.
pub record Request : Type 0 where
  pub application_id : String
  pub preferred_model : Option String
  pub fallback_models : List String

-- Where a chain comes from.
pub data Source : Type 0 where
  downgraded : Source
  canary : Arm → Source
  pinned : Source
  by_router : Source

-- A chain, or `NoHealthyCandidateError`.
pub data Plan : Type 0 where
  planned : Source → List String → Plan
  no_candidate : Plan

module _ {F : Type 0} where
  abbrev pub candidate_of : Model F → Candidate F
  candidate_of r = record {
    model_id = r.id;
    input_price_per_1k = r.input_price_per_1k;
    output_price_per_1k = r.output_price_per_1k;
    context_window = r.context_window;
  }

  -- a model that is up and not only a judge
  unfoldable pub serves : Model F → Bool
  unfolding occurs_in
  serves r = not (is_down r.status) && not (occurs_in (codes "judge") (codes r.id))

  unfoldable pub load_candidates : List (Model F) → List (Candidate F)
  load_candidates models = map candidate_of (keep serves models)

-- an empty name counts as none
unfoldable pub truthy : Option String → Option String
truthy none = none
truthy (some m) = if m == "" then none else some m

module _ {F : Type 0} ⦃fl : Float F⦄ where
  open fl use {lt}

  -- `min(candidates, key=_blended_price)` of a list that starts with `best`
  unfoldable pub cheapest_from : Candidate F → List (Candidate F) → Candidate F
  cheapest_from best [] = best
  cheapest_from best (c ∷ cs) =
      cheapest_from (if lt (blended_price c) (blended_price best) then c else best) cs

  -- the candidate that the request asks for
  unfoldable pub pinned_candidate : Option String → List (Candidate F) → Option (Candidate F)
  pinned_candidate none candidates = none
  pinned_candidate (some m) candidates = find (λ c. c.model_id == m) candidates

  -- the cheapest candidate, unless the one asked for is as cheap
  cheaper : Candidate F → Option (Candidate F) → Option (Candidate F)
  cheaper cheapest none = some cheapest
  cheaper cheapest (some asked) =
      if lt (blended_price cheapest) (blended_price asked) then some cheapest else none

  unfoldable pub downgrade_target : Option String → List (Candidate F) → Option (Candidate F)
  unfolding cheapest_from pinned_candidate cheaper
  downgrade_target preferred [] = none
  downgrade_target preferred (c ∷ cs) =
      cheaper (cheapest_from c cs) (pinned_candidate preferred (c ∷ cs))

  -- the chain of a router's answer
  router_plan : List (Candidate F) → (List (Candidate F) → Routed F) → Plan
  router_plan [] router = no_candidate
  router_plan (c ∷ cs) router = elim (router (c ∷ cs)) [
    | routed result ↦ planned by_router (candidate_chain result)
    | value_error ↦ no_candidate
    | no_healthy_candidate ↦ no_candidate
  ]

  -- an arm of the application's newest rollout, or else the router
  rollout_plan :
      Option (Rollout F) → F → List (Candidate F) → (List (Candidate F) → Routed F) → Plan
  unfolding router_plan
  rollout_plan none draw candidates router = router_plan candidates router
  rollout_plan (some r) draw candidates router =
      let (arm, model) = rollout_choice r draw in planned (canary arm) (model ∷ [])

  unfoldable pub open_plan :
      Request
      → Option String
      → Option (Rollout F)
      → F
      → List (Candidate F)
      → (List (Candidate F) → Routed F)
      → Plan
  unfolding rollout_plan
  open_plan request (some preferred) rollout draw candidates router =
      planned pinned (preferred ∷ request.fallback_models)
  open_plan request none rollout draw candidates router =
      rollout_plan rollout draw candidates router

  -- the whole choice; `draw` is the random number and `router` the call of the router
  unfoldable pub plan :
      Request
      → Bool
      → List (Model F)
      → List (Rollout F)
      → F
      → (List (Candidate F) → Routed F)
      → Plan
  unfolding open_plan downgrade_target truthy
  plan request downgrade models rollouts draw router =
      elim (if downgrade
        then downgrade_target request.preferred_model (load_candidates models)
        else none) [
          | some target ↦ planned downgraded (target.model_id ∷ [])
          | none ↦
              open_plan request (truthy request.preferred_model)
                (get_active_rollout rollouts request.application_id) draw (load_candidates models)
                router
        ]
