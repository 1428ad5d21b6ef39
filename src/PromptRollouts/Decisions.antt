-- ===== src/PromptRollouts/Decisions.antt =====
-- When the worker rolls the challenger of a prompt back, and how it treats a rollout just created.
use sentinellm.Prelude.{
  ℕ, ◌-◌, ◌≤◌, ◌<◌, ◌≡◌, ◌↔◌, ◌⊎◌, ◌≢◌, ◌∙◌, inl, inr, Bool-cases, true, refl, none, some,
  Option-cases, List, [], ◌∷◌, arith, String, find,
}
use sentinellm.Float.{Float}
use sentinellm.Prompts.Versions.{
  VersionStatus, draft, testing, production, deprecated, PromptVersion, is_version,
}
use sentinellm.Rollout.Window.{request_count}
use sentinellm.Rollout.Policy.{IsWithin, judge_challenger-none_iff}
use sentinellm.Rollout.Worker.{rollback, evaluation_grace}
use sentinellm.PromptRollouts.Service.{
  PromptRollout, PromptRolloutCreate, added, create_prompt_rollout, admit_rollout, check_versions,
  flush_rollout, is_deprecated, started,
}
use sentinellm.PromptRollouts.Worker.{
  PromptEvidence, left_alone, evaluate_prompt_rollout, weigh_evidence, retirement, ruling,
  version_window, version_guards, version_verdict, judged_until,
}

deprecated_iff : (s : VersionStatus) → (is_deprecated s ≡ true) ↔ (s ≡ VersionStatus.deprecated)
deprecated_iff draft = (λ h. absurd (cc h), λ h. absurd (cc h))
deprecated_iff testing = (λ h. absurd (cc h), λ h. absurd (cc h))
deprecated_iff production = (λ h. absurd (cc h), λ h. absurd (cc h))
deprecated_iff deprecated = (λ h. refl, λ h. refl)

module _ {F : Type 0} where
  -- Every row of the challenger's version is deprecated, or there is none.
  abbrev pub IsRetired : List PromptVersion → PromptRollout F → Type 0
  IsRetired versions r =
      (c : PromptVersion)
      → find (is_version r.prompt_id r.challenger_version) versions ≡ some c
      → c.status ≡ VersionStatus.deprecated

module _ {F : Type 0} ⦃fl : Float F⦄ (db : PromptEvidence F) (now : ℕ) (r : PromptRollout F) where
  abbrev until : ℕ
  until = now - evaluation_grace

  abbrev pub EnoughRequests : Type 0
  EnoughRequests =
      (judged_until r < until)
      × (r.min_sample_size ≤ request_count (version_window db r r.challenger_version until))

  abbrev pub VersionWithin : Type 0
  VersionWithin =
      IsWithin (version_window db r r.challenger_version until)
        (version_window db r r.incumbent_version until) (version_guards r)

  weigh_evidence-rollback :
      EnoughRequests
      → (ruling (weigh_evidence db r until) ≡ rollback ∷ [])
        ↔ ((version_verdict db r until).violation ≢ none)
  unfolding weigh_evidence
  weigh_evidence-rollback (newer, enough) =
      elim (Option-cases (version_verdict db r until).violation) [
        | inl e ↦ (λ h. ground arith, λ h. absurd (h e))
        | inr (x, e) ↦ (λ h k. cc, λ h. ground arith)
      ]

  weigh_evidence-thin : ¬ EnoughRequests → weigh_evidence db r until ≡ left_alone
  unfolding weigh_evidence
  weigh_evidence-thin thin = ground arith

  enough_of_rollback : ruling (weigh_evidence db r until) ≡ rollback ∷ [] → EnoughRequests
  unfolding weigh_evidence
  enough_of_rollback h = ground arith

  broken_of_rollback :
      ruling (weigh_evidence db r until) ≡ rollback ∷ []
      → (version_verdict db r until).violation ≢ none
  broken_of_rollback h = (weigh_evidence-rollback (enough_of_rollback h)).0 h

  -- the outcome when the challenger is retired, and when it is not
  evaluate_prompt_rollout_cases :
      (IsRetired db.versions r × (ruling (evaluate_prompt_rollout db now r) ≡ rollback ∷ []))
      ⊎ ((¬ IsRetired db.versions r)
          × (evaluate_prompt_rollout db now r ≡ weigh_evidence db r until))
  unfolding evaluate_prompt_rollout retirement
  evaluate_prompt_rollout_cases =
      elim (Option-cases (find (is_version r.prompt_id r.challenger_version) db.versions)) [
        | inl e ↦ inl (λ c f. absurd (cc (e, f)), ground arith)
        | inr (c, e) ↦ elim (Bool-cases (is_deprecated c.status)) [
          | inl d ↦ inl (λ c' f. cc ((deprecated_iff c.status).0 d, e, f), ground arith)
          | inr d ↦ inr (λ gone. cc ((deprecated_iff c.status).1 (gone c e), d), ground arith)
        ]
      ]

  -- The worker's iteration rolls a rollout back exactly when its challenger version is gone or deprecated, or when
  -- there is enough evidence and a guard rail is broken.
  pub rolls_back_iff :
      (ruling (evaluate_prompt_rollout db now r) ≡ rollback ∷ [])
      ↔ (IsRetired db.versions r ⊎ (EnoughRequests × (¬ VersionWithin)))
  rolls_back_iff =
      let (within, none_of) =
        judge_challenger-none_iff (version_window db r r.challenger_version until)
          (version_window db r r.incumbent_version until) (version_guards r) in
      elim evaluate_prompt_rollout_cases [
        | inl (gone, back) ↦ (λ h. inl gone, λ h. back)
        | inr (served, weighed) ↦ rw weighed (
          λ h. inr (enough_of_rollback h, λ w. broken_of_rollback h (none_of w)),
          λ h. elim h [
            | inl gone ↦ absurd (served gone)
            | inr (enough, broken) ↦ (weigh_evidence-rollback enough).1 (λ e. broken (within e))
          ],
        )
      ]

  created_not-IsRetired :
      (rollouts rs' : List (PromptRollout F)) (p : PromptRolloutCreate F) (id : String) (time : ℕ)
      → create_prompt_rollout db.versions rollouts p id time ≡ added r rs'
      → ¬ IsRetired db.versions r
  unfolding create_prompt_rollout admit_rollout check_versions flush_rollout
  created_not-IsRetired rollouts rs' p id time h gone =
      elim (Option-cases (find (is_version p.prompt_id p.challenger_version) db.versions)) [
        | inl e ↦ absurd (ground arith)
        | inr (c, e) ↦
            let same : r ≡ started p id time = ground arith in
            let dead = (deprecated_iff c.status).1 (gone c (rw same e)) in absurd (ground arith)
      ]

  -- A rollout that was created is left alone by an iteration on the same versions, as long as there is
  -- not enough evidence.
  pub created-left_alone :
      (rollouts rs' : List (PromptRollout F)) (p : PromptRolloutCreate F) (id : String) (time : ℕ)
      → create_prompt_rollout db.versions rollouts p id time ≡ added r rs'
      → ¬ EnoughRequests
      → evaluate_prompt_rollout db now r ≡ left_alone
  created-left_alone rollouts rs' p id time h thin = elim evaluate_prompt_rollout_cases [
    | inl (gone, back) ↦ absurd (created_not-IsRetired rollouts rs' p id time h gone)
    | inr (served, weighed) ↦ weighed ∙ weigh_evidence-thin thin
  ]
