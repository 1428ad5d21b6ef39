-- ===== src/Prompts/Registered.antt =====
-- The versions of a prompt are numbered from 1 without a gap, whatever happens to the registry.
use sentinellm.Prelude.{
  ℕ, ◌+◌, ◌≤◌, ◌≡◌, refl, ap, ◌∙◌, false, String, some, List, [], ◌∷◌, ◌++◌, any, length, arith,
}
use sentinellm.Float.{Float}
use sentinellm.Access.Keys.{ApiKey}
use sentinellm.Prompts.Versions.{
  VersionStatus, PromptVersion, Experiment, is_version, restatus_all, promoted,
  promote_prompt_version, passes_gate,
}
use sentinellm.Prompts.Registry.{
  PromptCreate, version_done, max_version, prepare_version, flush_version, create_prompt_version,
  write_status, update_prompt_status, promote_endpoint,
}
use sentinellm.Prompts.Numbering.{
  numbers, AreNumbered, numbers-write_status, numbers-restatus_all, created-AreNumbered,
  grown-append,
}

create-done :
    (seen rows rows' : List PromptVersion) (actor : ApiKey) (payload : PromptCreate)
    (r : PromptVersion)
    → create_prompt_version seen rows actor payload ≡ version_done r rows'
    → (r.prompt_id ≡ payload.prompt_id)
      × (r.version ≡ max_version payload.prompt_id seen + 1)
      × (any (is_version r.prompt_id r.version) rows ≡ false)
      × (rows' ≡ rows ++ r ∷ [])
unfolding create_prompt_version prepare_version flush_version
create-done seen rows rows' actor payload r h =
    (ground arith, ground arith, ground arith, ground arith)

update-done :
    (rows rows' : List PromptVersion) (actor : ApiKey) (q : String) (v : ℕ) (s : VersionStatus)
    (r : PromptVersion)
    → update_prompt_status rows actor q v s ≡ version_done r rows'
    → rows' ≡ write_status q v s rows
unfolding update_prompt_status
update-done rows rows' actor q v s r h = ground arith

promote-done :
    {F : Type 0} ⦃fl : Float F⦄ (rows rows' : List PromptVersion)
    (experiments : List (Experiment F)) (actor : ApiKey) (q : String) (v : ℕ) (threshold : F)
    → promote_endpoint rows experiments actor q v threshold ≡ some (promoted rows')
    → rows' ≡ restatus_all q v rows
unfolding promote_endpoint promote_prompt_version passes_gate
promote-done rows rows' experiments actor q v threshold h = ground arith

-- What can happen to the table of versions between two times: creations, each with a read of an earlier
-- table and a flush that may come after other changes, updates of a status, and promotions.
pub data Later (F : Type 0) ⦃fl : Float F⦄ : List PromptVersion → List PromptVersion → Type 0 where
  unchanged : {a b : List PromptVersion} → b ≡ a → Later F a b
  created :
      {a seen rows rows' : List PromptVersion} (actor : ApiKey) (payload : PromptCreate)
      (r : PromptVersion)
      → Later F a seen
      → Later F seen rows
      → create_prompt_version seen rows actor payload ≡ version_done r rows'
      → Later F a rows'
  updated :
      {a rows rows' : List PromptVersion} (actor : ApiKey) (q : String) (v : ℕ) (s : VersionStatus)
      (r : PromptVersion)
      → Later F a rows
      → update_prompt_status rows actor q v s ≡ version_done r rows'
      → Later F a rows'
  raised :
      {a rows rows' : List PromptVersion} (experiments : List (Experiment F)) (actor : ApiKey)
      (q : String) (v : ℕ) (threshold : F)
      → Later F a rows
      → promote_endpoint rows experiments actor q v threshold ≡ some (promoted rows')
      → Later F a rows'

module _ {F : Type 0} ⦃fl : Float F⦄ where
  Later-AreNumbered :
      {a b : List PromptVersion}
      → Later F a b
      → AreNumbered a
      → AreNumbered b × ((p : String) → length (numbers p a) ≤ length (numbers p b))
  Later-AreNumbered (unchanged e) numbered = rw e (numbered, λ p. omega arith)
  Later-AreNumbered
        (created {seen = seen} {rows = rows} {rows' = rows'} actor payload r before since done)
        numbered =
      let (old, grew) = Later-AreNumbered before numbered in
      let (now, grown) = Later-AreNumbered since old in
      let (named, next, free, e) = create-done seen rows rows' actor payload r done in
      rw e (
        created-AreNumbered seen rows r old now (grown r.prompt_id) (rw named next) free,
        λ p. omega (arith, grew p, grown p, grown-append p rows r),
      )
  Later-AreNumbered (updated {rows = rows} {rows' = rows'} actor q v s r before done) numbered =
      let (now, grown) = Later-AreNumbered before numbered in
      let same : (p : String) → numbers p rows' ≡ numbers p rows = λ p.
        ap (numbers p) (update-done rows rows' actor q v s r done)
        ∙ numbers-write_status p q v s rows in
      (λ p. rw (same p) (now p), λ p. rw (same p) (grown p))
  Later-AreNumbered
        (raised {rows = rows} {rows' = rows'} experiments actor q v threshold before done)
        numbered =
      let (now, grown) = Later-AreNumbered before numbered in
      let same : (p : String) → numbers p rows' ≡ numbers p rows = λ p.
        ap (numbers p) (promote-done rows rows' experiments actor q v threshold done)
        ∙ numbers-restatus_all p q v rows in
      (λ p. rw (same p) (now p), λ p. rw (same p) (grown p))

  -- In every history of the registry from an empty table, with creations that race too, the versions of
  -- each prompt are numbered 1, 2, 3 and so on, in the order of their creation.
  pub versions-AreNumbered : {rows : List PromptVersion} → Later F [] rows → AreNumbered rows
  versions-AreNumbered later = (Later-AreNumbered later (λ p. unfold numbers in refl)).0
