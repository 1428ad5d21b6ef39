-- ===== src/Examples/Registry.antt =====
-- Two versions of a prompt, made one after the other from a table that was read before both.
use sentinellm.Prelude.{◌≡◌, refl, false, none, [], ◌∷◌}
use sentinellm.Float.Fixed.{ℤ, fixed_float}
use sentinellm.Access.Keys.{ApiKey, scope_of}
use sentinellm.Prompts.Versions.{VersionStatus, PromptVersion}
use sentinellm.Prompts.Templates.{
  template_placeholders, pieces, scan, placeholder_at, first_seen, name_length, is_name_start,
}
use sentinellm.Prompts.Registry.{
  PromptCreate, version_done, version_refused, conflict, max_version, undeclared_names,
  prepare_version, flush_version, create_prompt_version,
}
use sentinellm.Prompts.Numbering.{AreNumbered}
use sentinellm.Prompts.Registered.{Later, unchanged, created, versions-AreNumbered}
use sentinellm.Text.{is_word, is_space, starts_with}

abbrev editor : ApiKey
editor = record {
  id = "k";
  application_id = "a";
  application_name = "shop";
  key_hash = "h";
  role = "write";
  last_used_at = none;
  revoked = false;
  revoked_at = none;
  expires_at = none;
  scoped_to_application = false;
}

abbrev payload : PromptCreate
payload = record {
  prompt_id = "greet";
  template = "hi";
  variables = [];
  status = VersionStatus.draft;
}

abbrev first : PromptVersion
first = record { prompt_id = "greet"; version = 1; template = "hi"; status = VersionStatus.draft }

abbrev second : PromptVersion
second = record first { version = 2 }

makes_first : create_prompt_version [] [] editor payload ≡ version_done first (first ∷ [])
unfolding create_prompt_version prepare_version flush_version max_version undeclared_names
    template_placeholders pieces scan placeholder_at first_seen name_length is_name_start is_word
    is_space starts_with scope_of
makes_first = refl

-- a table that was read before the first version gives the same number, which is refused
races : create_prompt_version [] (first ∷ []) editor payload ≡ version_refused conflict
unfolding create_prompt_version prepare_version flush_version max_version undeclared_names
    template_placeholders pieces scan placeholder_at first_seen name_length is_name_start is_word
    is_space starts_with scope_of
races = refl

makes_second :
    create_prompt_version (first ∷ []) (first ∷ []) editor payload
    ≡ version_done second (first ∷ second ∷ [])
unfolding create_prompt_version prepare_version flush_version max_version undeclared_names
    template_placeholders pieces scan placeholder_at first_seen name_length is_name_start is_word
    is_space starts_with scope_of
makes_second = refl

after_first : Later ℤ [] (first ∷ [])
after_first = created editor payload first (unchanged refl) (unchanged refl) makes_first

versions-AreNumbered_example : AreNumbered (first ∷ second ∷ [])
versions-AreNumbered_example =
    versions-AreNumbered (created editor payload second after_first (unchanged refl) makes_second)
