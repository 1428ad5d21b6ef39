-- ===== src/Prompts/Registry.antt =====
-- The endpoints of src/sentinellm/api/routers/prompts.py. The variables, the author and the metadata of
-- a version are stored as they come, and are left out.
use sentinellm.Prelude.{
  ℕ, ◌+◌, Bool, true, not, ◌&&◌, ◌==◌, String, Option, none, some, List, [], ◌∷◌, ◌++◌, keep, any,
  find, ltb, if◌then◌else◌,
}
use sentinellm.Float.{Float}
use sentinellm.Text.{codes}
use sentinellm.Cache.Similarity.{is_empty}
use sentinellm.Access.Keys.{ApiKey, scope_of, is_scoped}
use sentinellm.Prompts.Versions.{
  VersionStatus, PromptVersion, Experiment, is_version, resolve_prompt_version, Promoted,
  promote_prompt_version,
}
use sentinellm.Prompts.Templates.{
  same_text, template_placeholders, Values, has_value, Rendered, render_template,
}

-- `PromptVersionCreate`
pub record PromptCreate : Type 0 where
  pub prompt_id : String
  pub template : String
  pub variables : List (List ℕ)
  pub status : VersionStatus

-- `HTTPException`; `conflict` is the error of the unique constraint of the table
pub data RegistryError : Type 0 where
  scoped_key : RegistryError
  undeclared : List (List ℕ) → RegistryError
  conflict : RegistryError
  unknown_version : RegistryError

-- The row of the response with the table after it, or an error.
pub data RegistryReply : Type 0 where
  version_done : PromptVersion → List PromptVersion → RegistryReply
  version_refused : RegistryError → RegistryReply

-- What a creation has before the flush: the row, or an error.
pub data Prepared : Type 0 where
  prepared : PromptVersion → Prepared
  not_prepared : RegistryError → Prepared

abbrev pub of_prompt : String → PromptVersion → Bool
of_prompt prompt_id r = r.prompt_id == prompt_id

-- `latest or 0`
unfoldable pub max_version : String → List PromptVersion → ℕ
max_version prompt_id [] = 0
max_version prompt_id (r ∷ rs) =
    let rest = max_version prompt_id rs in
    if of_prompt prompt_id r && ltb rest r.version then r.version else rest

unfoldable pub undeclared_names : PromptCreate → List (List ℕ)
undeclared_names payload =
    keep (λ name. not (is_empty payload.variables) && not (any (same_text name) payload.variables))
      (template_placeholders (codes payload.template))

-- the row, with the number after the largest in the table that it read
unfoldable pub prepare_version : List PromptVersion → ApiKey → PromptCreate → Prepared
unfolding max_version undeclared_names scope_of
prepare_version rows actor payload =
    if is_scoped (scope_of actor)
    then not_prepared scoped_key
    else if not (is_empty (undeclared_names payload))
    then not_prepared (undeclared (undeclared_names payload))
    else prepared (record {
      prompt_id = payload.prompt_id;
      version = max_version payload.prompt_id rows + 1;
      template = payload.template;
      status = payload.status;
    })

-- the flush, which the unique constraint guards
unfoldable pub flush_version : PromptVersion → List PromptVersion → RegistryReply
flush_version row rows =
    if any (is_version row.prompt_id row.version) rows
    then version_refused conflict
    else version_done row (rows ++ row ∷ [])

-- `create_prompt_version`: `seen` is the table at the read, and `rows` at the flush
unfoldable pub create_prompt_version :
    List PromptVersion → List PromptVersion → ApiKey → PromptCreate → RegistryReply
unfolding prepare_version flush_version
create_prompt_version seen rows actor payload = elim (prepare_version seen actor payload) [
  | not_prepared e ↦ version_refused e
  | prepared row ↦ flush_version row rows
]

-- the session writes a changed row back by its prompt and number
unfoldable pub write_status : String → ℕ → VersionStatus → List PromptVersion → List PromptVersion
write_status prompt_id version status [] = []
write_status prompt_id version status (r ∷ rs) =
    (if is_version prompt_id version r then record r { status = status } else r)
    ∷ write_status prompt_id version status rs

-- `update_prompt_status`
unfoldable pub update_prompt_status :
    List PromptVersion → ApiKey → String → ℕ → VersionStatus → RegistryReply
unfolding scope_of write_status
update_prompt_status rows actor prompt_id version status =
    if is_scoped (scope_of actor)
    then version_refused scoped_key
    else elim (find (is_version prompt_id version) rows) [
      | none ↦ version_refused unknown_version
      | some r ↦
          version_done (record r { status = status }) (write_status prompt_id version status rows)
    ]

-- The response of the preview: the rendered text if no name is missing.
pub record Preview : Type 0 where
  pub rendered : Option Rendered
  pub missing : List (List ℕ)

-- `render_prompt_version`; none is the error of an unknown version
unfoldable pub render_prompt_version : List PromptVersion → String → ℕ → Values → Option Preview
unfolding resolve_prompt_version render_template template_placeholders
render_prompt_version rows prompt_id version values =
    elim (resolve_prompt_version rows prompt_id (some version)) [
      | none ↦ none
      | some row ↦
          let missing =
            keep (λ n. not (has_value values n)) (template_placeholders (codes row.template)) in
          some (record {
            rendered =
                if is_empty missing
                then some (render_template (codes row.template) values true)
                else none;
            missing = missing;
          })
    ]

-- `promote_prompt_version_endpoint`: none is that the key is scoped
unfoldable pub promote_endpoint :
    {F : Type 0}
    → ⦃fl : Float F⦄ → List PromptVersion
    → List (Experiment F)
    → ApiKey
    → String
    → ℕ
    → F
    → Option Promoted
unfolding scope_of promote_prompt_version
promote_endpoint rows experiments actor prompt_id version threshold =
    if is_scoped (scope_of actor)
    then none
    else some (promote_prompt_version rows experiments prompt_id version threshold)
