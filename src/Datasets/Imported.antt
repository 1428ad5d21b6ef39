-- ===== src/Datasets/Imported.antt =====
-- What an import by src/sentinellm/api/routers/datasets.py adds to the data sets.
use sentinellm.Prelude.{
  ℕ, ◌≡◌, refl, inl, inr, Bool-cases, false, not, String, Option, none, some, List, ◌∷◌, keep,
  length, any, All, ltb, eqb,
}
use sentinellm.Cache.Similarity.{is_empty}
use sentinellm.Access.Keys.{ApiKey, Denial, require_unscoped}
use sentinellm.Datasets.Texts.{Readers, Parsed, parsed, refused, crashed}
use sentinellm.Datasets.Parsing.{
  Dataset, ImportReply, import_denied, too_large, not_utf8, dataset_conflict, is_dataset,
  import_crashed, import_refused, imported, max_import_bytes, add_dataset, decoded_import,
  checked_import, import_dataset, parse_dataset_file,
}
use sentinellm.Datasets.Asked.{IsAsked, ImportIsAsked, parse_dataset_file-AreAsked}

-- an import leaves the other data sets, and one more of a new name and version whose records have questions
abbrev pub AddsAsked : List Dataset → ImportReply → Type 0
AddsAsked datasets (imported after) =
    (d : Dataset) × (after ≡ d ∷ datasets)
    × (any (is_dataset d.name d.version) datasets ≡ false)
    × (is_empty d.records ≡ false)
    × All IsAsked d.records
AddsAsked datasets (import_denied x) = Unit
AddsAsked datasets too_large = Unit
AddsAsked datasets not_utf8 = Unit
AddsAsked datasets dataset_conflict = Unit
AddsAsked datasets import_crashed = Unit
AddsAsked datasets (import_refused e) = Unit

add_dataset-AddsAsked :
    (name version : String) (description : Option String) (datasets : List Dataset) (p : Parsed)
    → ImportIsAsked p
    → AddsAsked datasets (add_dataset name version description datasets p)
unfolding add_dataset
add_dataset-AddsAsked name version description datasets (parsed rs) (one, asked) =
    elim (Bool-cases (any (is_dataset name version) datasets)) [
      | inl taken ↦ rw taken tt
      | inr free ↦ rw free (
        record { name = name; version = version; description = description; records = rs },
        refl,
        free,
        one,
        asked,
      )
    ]
add_dataset-AddsAsked name version description datasets (refused e) h = tt
add_dataset-AddsAsked name version description datasets crashed h = tt

module _ (readers : Readers) where
  decoded_import-AddsAsked :
      (name version : String) (description : Option String) (filename : List ℕ)
      (datasets : List Dataset) (content : Option (List ℕ))
      → AddsAsked datasets
          (decoded_import readers name version description filename datasets content)
  unfolding decoded_import
  decoded_import-AddsAsked name version description filename datasets none = tt
  decoded_import-AddsAsked name version description filename datasets (some content) =
      add_dataset-AddsAsked name version description datasets
        (parse_dataset_file readers filename (keep (λ c. not (eqb c 0)) content))
        (parse_dataset_file-AreAsked readers filename (keep (λ c. not (eqb c 0)) content))

  checked_import-AddsAsked :
      (name version : String) (description : Option String) (filename raw : List ℕ)
      (datasets : List Dataset) (denied : Option Denial)
      → AddsAsked datasets
          (checked_import readers name version description filename raw datasets denied)
  unfolding checked_import
  checked_import-AddsAsked name version description filename raw datasets (some denial) = tt
  checked_import-AddsAsked name version description filename raw datasets none =
      elim (Bool-cases (ltb max_import_bytes (length raw))) [
        | inl over ↦ rw over tt
        | inr within ↦ rw within (
            decoded_import-AddsAsked name version description filename datasets
              (readers.decode raw))
      ]

  -- An import that succeeds leaves the other data sets as they are and adds one, whose name and version
  -- no other has, of at least one record, each of which has a question with a character that is no white
  -- space, whatever the readers of UTF-8, JSON and CSV give.
  pub import_dataset-AddsAsked :
      (actor : ApiKey) (name version : String) (description : Option String) (filename raw : List ℕ)
      (datasets : List Dataset)
      → AddsAsked datasets
          (import_dataset readers actor name version description filename raw datasets)
  unfolding import_dataset
  import_dataset-AddsAsked actor name version description filename raw datasets =
      checked_import-AddsAsked name version description filename raw datasets
        (require_unscoped actor)
