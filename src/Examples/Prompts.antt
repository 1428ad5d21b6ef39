-- ===== src/Examples/Prompts.antt =====
-- A template, and a promotion of the second version of a prompt.
use sentinellm.Prelude.{ℕ, ◌≡◌, refl, true, none, some, List, [], ◌∷◌, All, keep, if◌then◌else◌}
use sentinellm.Float.Fixed.{ℤ, pos, fixed_float}
use sentinellm.Text.{codes, is_word, is_space, starts_with}
use sentinellm.Prompts.Templates.{
  pieces, scan, placeholder_at, Values, same_text, fill, rendered, missing, render_template,
  template_placeholders, render_with, first_seen, name_length, is_name_start,
}
use sentinellm.Prompts.Versions.{
  VersionStatus, PromptVersion, Experiment, resolve_prompt_version, promote_prompt_version,
  promoted, restatus_all, passes_gate, latest_experiment,
}
use sentinellm.Prompts.Promotion.{in_production, resolve_prompt_version-promote_prompt_version}

abbrev template : List ℕ
template = codes "{{ q}}!"

abbrev values : Values
values name = if same_text name (codes "q") then some (codes "{{z}}") else none

-- a value is not scanned again
one_pass : render_template template values true ≡ rendered (codes "{{z}}!")
unfolding render_template render_with template_placeholders pieces scan placeholder_at fill
    first_seen name_length is_name_start is_word is_space starts_with
one_pass = refl

raises : render_template template (λ name. none) true ≡ missing (codes "q" ∷ [])
unfolding render_template render_with template_placeholders pieces scan placeholder_at fill
    first_seen name_length is_name_start is_word is_space starts_with
raises = refl

abbrev row : ℕ → VersionStatus → PromptVersion
row version status = record { prompt_id = "p"; version = version; template = ""; status = status }

abbrev rows : List PromptVersion
rows = row 1 VersionStatus.production ∷ row 2 VersionStatus.testing ∷ []

abbrev rows_after : List PromptVersion
rows_after = row 1 VersionStatus.deprecated ∷ row 2 VersionStatus.production ∷ []

abbrev experiments : List (Experiment ℤ)
experiments =
    record { prompt_id = "p"; prompt_version = 2; pass_rate = pos 9_000; created_at = 5 } ∷ []

promotes : promote_prompt_version rows experiments "p" 2 (pos 8_000) ≡ promoted rows_after
unfolding promote_prompt_version passes_gate restatus_all latest_experiment
promotes = refl

resolve_prompt_version-promote_prompt_version_example :
    ((r : PromptVersion) × (resolve_prompt_version rows_after "p" none ≡ some r) × (r.version ≡ 2))
    × All (λ r. r.version ≡ 2) (keep (in_production "p") rows_after)
resolve_prompt_version-promote_prompt_version_example =
    resolve_prompt_version-promote_prompt_version rows rows_after experiments "p" 2 (pos 8_000)
      promotes
