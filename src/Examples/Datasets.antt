-- ===== src/Examples/Datasets.antt =====
-- Two files of lines, the second of which cannot be read at its fourth line.
use sentinellm.Prelude.{ℕ, refl, false, none, some, List, [], ◌∷◌, ◌++◌, if◌then◌else◌}
use sentinellm.Text.{codes, is_space}
use sentinellm.Access.Keys.{ApiKey}
use sentinellm.Prompts.Templates.{same_text}
use sentinellm.Datasets.Texts.{
  text, object, field, no_fields, loaded, decode_error, csv_unreadable, Readers, invalid_json,
  question_key, splitlines,
}
use sentinellm.Datasets.Parsing.{parse_jsonl, import_dataset}
use sentinellm.Datasets.Blamed.{Blames, parse_jsonl-Blames}
use sentinellm.Datasets.Imported.{AddsAsked, import_dataset-AddsAsked}

abbrev readers : Readers
readers = record {
  loads = λ line.
      if same_text line (codes "{Q}")
      then loaded (object (field question_key (text (codes "why")) no_fields))
      else decode_error;
  str_of_fields = λ fs. codes "{}";
  dict_reader = λ content. csv_unreadable;
  decode = λ raw. some raw;
}

abbrev admin : ApiKey
admin = record {
  id = "k1";
  application_id = "a1";
  application_name = "shop";
  key_hash = "h";
  role = "admin";
  last_used_at = none;
  revoked = false;
  revoked_at = none;
  expires_at = none;
  scoped_to_application = false;
}

abbrev readable : List ℕ
readable = codes " {Q} " ++ 13 ∷ 10 ∷ 10 ∷ codes "{Q}"

abbrev unreadable : List ℕ
unreadable = readable ++ 10 ∷ codes "{"

import_dataset-AddsAsked_example :
    AddsAsked [] (import_dataset readers admin "d" "1" none (codes "a.JSONL") readable [])
import_dataset-AddsAsked_example =
    import_dataset-AddsAsked readers admin "d" "1" none (codes "a.JSONL") readable []

parse_jsonl-Blames_example : Blames readers 1 (splitlines unreadable) (invalid_json 4)
parse_jsonl-Blames_example =
    parse_jsonl-Blames readers unreadable (invalid_json 4) (unfold parse_jsonl is_space in refl)
