-- ===== src/PromptRollouts/History.antt =====
-- At most one rollout of a prompt is running or paused for an application, in every history.
use sentinellm.Prelude.{
  ℕ, ◌≤◌, ◌≡◌, inl, inr, Bool, Bool-cases, true, false, not, ◌&&◌, ◌==◌, eq_iff, String, none, some,
  Option-cases, List, [], ◌∷◌, ◌++◌, arith, length, keep, any, find,
}
use sentinellm.Float.{Float}
use sentinellm.Prompts.Versions.{PromptVersion}
use sentinellm.Rollout.Table.{is_running}
use sentinellm.Rollout.Operator.{Action, ApplicationScope}
use sentinellm.PromptRollouts.Service.{
  PromptRollout, PromptRolloutCreate, rolls_out, started, admit_rollout, is_consistent,
  flush_rollout, added,
}
use sentinellm.PromptRollouts.Operator.{
  get_scoped, write_rollout, act_on_prompt, operate_on_prompt, replied,
}
use sentinellm.PromptRollouts.Worker.{
  PromptEvidence, ruled_row, evaluate_prompt_rollout, evaluate_prompt_rollouts, rolled_version,
  rule_on, weigh_evidence,
}

module _ {F : Type 0} where
  unfoldable pub ongoing_count : String → String → List (PromptRollout F) → ℕ
  ongoing_count app prompt rs = length (keep (rolls_out app prompt) rs)

  -- at most one ongoing rollout for every application and prompt
  abbrev pub OneOngoing : List (PromptRollout F) → Type 0
  OneOngoing rs = (app prompt : String) → ongoing_count app prompt rs ≤ 1

  -- the row is ongoing only if it was, for the same application and prompt
  abbrev Wanes : PromptRollout F → PromptRollout F → Type 0
  Wanes r r' =
      (app prompt : String) → rolls_out app prompt r' ≡ true → rolls_out app prompt r ≡ true

  find-id :
      (rs : List (PromptRollout F)) (i : String) (r : PromptRollout F)
      → find (λ x. x.id == i) rs ≡ some r
      → r.id ≡ i
  find-id [] i r e = absurd (cc e)
  find-id (x ∷ rs) i r e = ground (arith, eq_iff x.id i, find-id rs i r)

  ongoing_count-write :
      (app prompt : String) (rs : List (PromptRollout F)) (r r' : PromptRollout F)
      → find (λ x. x.id == r'.id) rs ≡ some r
      → Wanes r r'
      → ongoing_count app prompt (write_rollout r' rs) ≤ ongoing_count app prompt rs
  unfolding ongoing_count write_rollout
  ongoing_count-write app prompt [] r r' e w = omega arith
  ongoing_count-write app prompt (x ∷ rs) r r' e w = elim (Bool-cases (x.id == r'.id)) [
    | inl same ↦
        let p : r ≡ x = ground arith in
        let wx : Wanes x r' = rw (← p) w in ground (arith, wx app prompt)
    | inr other ↦ ground (arith, ongoing_count-write app prompt rs r r' (ground arith) w)
  ]

  ongoing_count-append_other :
      (app prompt : String) (r : PromptRollout F) (rs : List (PromptRollout F))
      → rolls_out app prompt r ≡ false
      → ongoing_count app prompt (rs ++ r ∷ []) ≡ ongoing_count app prompt rs
  unfolding ongoing_count
  ongoing_count-append_other app prompt r [] h = rw h
  ongoing_count-append_other app prompt r (x ∷ rs) h =
      ground (arith, ongoing_count-append_other app prompt r rs h)

  ongoing_count-append_free :
      (app prompt : String) (r : PromptRollout F) (rs : List (PromptRollout F))
      → any (rolls_out app prompt) rs ≡ false
      → ongoing_count app prompt (rs ++ r ∷ []) ≤ 1
  unfolding ongoing_count
  ongoing_count-append_free app prompt r [] h = ground arith
  ongoing_count-append_free app prompt r (x ∷ rs) h =
      ground (arith, ongoing_count-append_free app prompt r rs)

  rolls_out-eq :
      (app prompt : String) (r : PromptRollout F)
      → rolls_out app prompt r ≡ true
      → (app ≡ r.application_id) × (prompt ≡ r.prompt_id)
  rolls_out-eq app prompt r h =
      ground (arith, eq_iff r.application_id app, eq_iff r.prompt_id prompt)

  flush_rollout-OneOngoing :
      (r r' : PromptRollout F) (rs rs' : List (PromptRollout F))
      → flush_rollout r rs ≡ added r' rs'
      → OneOngoing rs
      → OneOngoing rs'
  unfolding flush_rollout
  flush_rollout-OneOngoing r r' rs rs' h one app prompt =
      let free : any (rolls_out r.application_id r.prompt_id) rs ≡ false = ground arith in
      let e : rs' ≡ rs ++ r ∷ [] = ground arith in
      rw e (elim (Bool-cases (rolls_out app prompt r)) [
        | inl mine ↦
            let (a, p) = rolls_out-eq app prompt r mine in
            rw (a, p) (ongoing_count-append_free r.application_id r.prompt_id r rs free)
        | inr other ↦ rw (ongoing_count-append_other app prompt r rs other) (one app prompt)
      ])

module _ {F : Type 0} ⦃fl : Float F⦄ where
  act_on_prompt-Wanes :
      (a : Action) (now : ℕ) (r r' : PromptRollout F)
      → act_on_prompt a now r ≡ some r'
      → (r'.id ≡ r.id) × Wanes r r'
  unfolding act_on_prompt
  act_on_prompt-Wanes a now r r' h = (ground arith, λ app prompt act. ground arith)

  operate_on_prompt-replied :
      (a : Action) (scope : ApplicationScope) (i : String) (now : ℕ)
      (rs rs' : List (PromptRollout F)) (r' : PromptRollout F)
      → operate_on_prompt a scope i now rs ≡ replied r' rs'
      → (r : PromptRollout F) × (find (λ x. x.id == i) rs ≡ some r)
        × (act_on_prompt a now r ≡ some r')
        × (rs' ≡ write_rollout r' rs)
  unfolding operate_on_prompt get_scoped
  operate_on_prompt-replied a scope i now rs rs' r' h =
      elim (Option-cases (find (λ x. x.id == i) rs)) [
        | inl e ↦ absurd (ground arith)
        | inr (r, e) ↦ elim (Option-cases (act_on_prompt a now r)) [
          | inl f ↦ absurd (ground arith)
          | inr (r'', f) ↦ (r, e, ground arith, ground arith)
        ]
      ]

  evaluate_prompt_rollout-Wanes :
      (db : PromptEvidence F) (now : ℕ) (r : PromptRollout F)
      → is_running r.stage ≡ true
      → Wanes r (ruled_row r (evaluate_prompt_rollout db now r))
  unfolding evaluate_prompt_rollout weigh_evidence rule_on rolled_version
  evaluate_prompt_rollout-Wanes db now r run app prompt h = ground arith

  evaluate_prompt_rollouts-count :
      (db : PromptEvidence F) (now : String → ℕ) (locked : String → Bool) (app prompt : String)
      (rs : List (PromptRollout F))
      → ongoing_count app prompt (evaluate_prompt_rollouts db now locked rs).rollouts
        ≤ ongoing_count app prompt rs
  unfolding evaluate_prompt_rollouts ongoing_count
  evaluate_prompt_rollouts-count db now locked app prompt [] = omega arith
  evaluate_prompt_rollouts-count db now locked app prompt (r ∷ rs) =
      let rest = evaluate_prompt_rollouts-count db now locked app prompt rs in
      elim (Bool-cases (is_running r.stage && not (locked r.id))) [
        | inl mine ↦
            let running : is_running r.stage ≡ true = ground arith in
            let wanes = evaluate_prompt_rollout-Wanes db (now r.id) r running app prompt in
            rw mine (ground (arith, rest, wanes))
        | inr other ↦ rw other (ground (arith, rest))
      ]

  operate_on_prompt-count :
      (a : Action) (scope : ApplicationScope) (i : String) (now : ℕ)
      (rs rs' : List (PromptRollout F)) (r' : PromptRollout F) (app prompt : String)
      → operate_on_prompt a scope i now rs ≡ replied r' rs'
      → ongoing_count app prompt rs' ≤ ongoing_count app prompt rs
  operate_on_prompt-count a scope i now rs rs' r' app prompt h =
      let (r, e, f, g) = operate_on_prompt-replied a scope i now rs rs' r' h in
      let (same, w) = act_on_prompt-Wanes a now r r' f in
      rw g (ongoing_count-write app prompt rs r r' (rw (same, find-id rs i r e) e) w)

  -- One event. A creation was admitted on what its session read, `old`, which other events may have
  -- overtaken.
  pub data Event (rs rs' : List (PromptRollout F)) : Type 0 where
    starts :
        (versions : List PromptVersion) (old : List (PromptRollout F)) (p : PromptRolloutCreate F)
        (id : String) (now : ℕ) (r : PromptRollout F)
        → is_consistent p ≡ true
        → admit_rollout versions old p ≡ none
        → flush_rollout (started p id now) rs ≡ added r rs'
        → Event rs rs'
    acts :
        (a : Action) (scope : ApplicationScope) (i : String) (now : ℕ) (r : PromptRollout F)
        → operate_on_prompt a scope i now rs ≡ replied r rs'
        → Event rs rs'
    evaluates :
        (db : PromptEvidence F) (now : String → ℕ) (locked : String → Bool)
        → rs' ≡ (evaluate_prompt_rollouts db now locked rs).rollouts
        → Event rs rs'

  pub data Past (rs : List (PromptRollout F)) : List (PromptRollout F) → Type 0 where
    none_yet : Past rs rs
    then_came : {mid rs' : List (PromptRollout F)} → Past rs mid → Event mid rs' → Past rs rs'

  Event-OneOngoing :
      (rs rs' : List (PromptRollout F)) → Event rs rs' → OneOngoing rs → OneOngoing rs'
  Event-OneOngoing rs rs' (starts versions old p id now r ok ad ins) one =
      flush_rollout-OneOngoing (started p id now) r rs rs' ins one
  Event-OneOngoing rs rs' (acts a scope i now r h) one = λ app prompt.
      omega (arith, one app prompt, operate_on_prompt-count a scope i now rs rs' r app prompt h)
  Event-OneOngoing rs rs' (evaluates db now locked e) one = λ app prompt.
      rw e
        (omega (arith, one app prompt, evaluate_prompt_rollouts-count db now locked app prompt rs))

  -- From a table with at most one running or paused rollout for each application and prompt, every
  -- history of creations (concurrent ones too), operators' actions and worker passes leaves it so.
  pub Past-OneOngoing :
      (rs rs' : List (PromptRollout F)) → OneOngoing rs → Past rs rs' → OneOngoing rs'
  Past-OneOngoing rs rs' one none_yet = one
  Past-OneOngoing rs rs' one (then_came {mid = mid} before event) =
      Event-OneOngoing mid rs' event (Past-OneOngoing rs mid one before)
