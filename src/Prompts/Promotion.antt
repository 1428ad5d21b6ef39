-- ===== src/Prompts/Promotion.antt =====
-- What a promotion leaves: one production version of the prompt, with the evidence for it.
use sentinellm.Prelude.{
  ℕ, ◌≡◌, refl, inl, inr, Bool, Bool-cases, false, ◌&&◌, ◌==◌, String, none, some, Option-cases,
  List, [], ◌∷◌, find, keep, All, arith, ltb, if◌then◌else◌,
}
use sentinellm.Float.{Float}
use sentinellm.Prompts.Versions.{
  production, is_production, PromptVersion, Experiment, is_version, newest_version,
  resolve_prompt_version, promoted, latest_experiment, restatus_all, promote_prompt_version,
  passes_gate,
}

-- the production rows of a prompt
abbrev pub in_production : String → PromptVersion → Bool
in_production prompt_id r = r.prompt_id == prompt_id && is_production r.status

restatus_all-version :
    (prompt_id : String) (version : ℕ) (rows : List PromptVersion)
    → All
        (λ r. r.version ≡ version)
        (keep (in_production prompt_id) (restatus_all prompt_id version rows))
unfolding restatus_all
restatus_all-version prompt_id version [] = tt
restatus_all-version prompt_id version (r ∷ rows) =
    ground (arith, restatus_all-version prompt_id version rows)

restatus_all-target :
    (prompt_id : String) (version : ℕ) (rows : List PromptVersion) (target : PromptVersion)
    → find (is_version prompt_id version) rows ≡ some target
    → (r : PromptVersion) × (rest : List PromptVersion) × (keep
          (in_production prompt_id)
          (restatus_all prompt_id version rows)
        ≡ r ∷ rest)
unfolding restatus_all
restatus_all-target prompt_id version [] target h = absurd (cc h)
restatus_all-target prompt_id version (x ∷ rows) target h =
    elim (Bool-cases (is_version prompt_id version x)) [
      | inl mine ↦ (
        record x { status = production },
        keep (in_production prompt_id) (restatus_all prompt_id version rows),
        ground arith,
      )
      | inr other ↦
          let (r, rest, e) = restatus_all-target prompt_id version rows target (ground arith) in
          (r, rest, ground arith)
    ]

newest_version-version :
    (version : ℕ) (best : PromptVersion) (rs : List PromptVersion)
    → best.version ≡ version
    → All (λ r. r.version ≡ version) rs
    → (newest_version best rs).version ≡ version
unfolding newest_version
newest_version-version version best [] h hs = h
newest_version-version version best (r ∷ rs) h (k, ks) =
    newest_version-version version (if ltb best.version r.version then r else best) rs
      (ground arith) ks

module _ {F : Type 0} ⦃fl : Float F⦄ where
  -- A version is only promoted if it exists, and its latest experiment does not have a pass rate under
  -- the threshold; the table is then the old one with the new statuses.
  pub promote_prompt_version_gate :
      (rows rows' : List PromptVersion) (experiments : List (Experiment F)) (prompt_id : String)
      (version : ℕ) (threshold : F)
      → promote_prompt_version rows experiments prompt_id version threshold ≡ promoted rows'
      → (target : PromptVersion) × (e : Experiment F) × (find (is_version prompt_id version) rows
          ≡ some target)
        × (latest_experiment experiments prompt_id version ≡ some e)
        × (fl.lt e.pass_rate threshold ≡ false)
        × (rows' ≡ restatus_all prompt_id version rows)
  unfolding promote_prompt_version passes_gate
  promote_prompt_version_gate rows rows' experiments prompt_id version threshold h =
      elim (Option-cases (find (is_version prompt_id version) rows)) [
        | inl none_there ↦ absurd (ground arith)
        | inr (target, t) ↦ elim (Option-cases (latest_experiment experiments prompt_id version)) [
          | inl no_evidence ↦ absurd (ground arith)
          | inr (e, x) ↦ (target, e, t, x, ground arith, ground arith)
        ]
      ]

  -- After a promotion, resolving the prompt without a version gives the promoted version, and every
  -- version of the prompt that is in production is that one.
  pub resolve_prompt_version-promote_prompt_version :
      (rows rows' : List PromptVersion) (experiments : List (Experiment F)) (prompt_id : String)
      (version : ℕ) (threshold : F)
      → promote_prompt_version rows experiments prompt_id version threshold ≡ promoted rows'
      → ((r : PromptVersion) × (resolve_prompt_version rows' prompt_id none ≡ some r)
          × (r.version ≡ version))
        × All (λ r. r.version ≡ version) (keep (in_production prompt_id) rows')
  unfolding resolve_prompt_version
  resolve_prompt_version-promote_prompt_version rows rows' experiments prompt_id version threshold
        h =
      let (target, e, t, x, over, same) =
        promote_prompt_version_gate rows rows' experiments prompt_id version threshold h in
      let (r, rest, shape) = restatus_all-target prompt_id version rows target t in
      let all_new = restatus_all-version prompt_id version rows in
      let (first, others) : All (λ r. r.version ≡ version) (r ∷ rest) = rw shape at all_new in
      rw same (
        (newest_version r rest, rw shape refl, newest_version-version version r rest first others),
        all_new,
      )
