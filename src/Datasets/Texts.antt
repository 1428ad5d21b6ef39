-- ===== src/Datasets/Texts.antt =====
-- The data of src/sentinellm/services/dataset_import.py, and what it does with texts.
-- `json.loads`, `str` of an object, `csv.DictReader` and `bytes.decode` are arguments.
use sentinellm.Prelude.{
  ℕ, Bool, false, ◌&&◌, ◌||◌, Option, none, some, List, [], ◌∷◌, leb, eqb, if◌then◌else◌,
}
use sentinellm.Text.{codes, is_space}
use sentinellm.Cache.Similarity.{is_empty}
use sentinellm.Prompts.Templates.{same_text}

-- what `json.loads` gives; a number, a boolean or a list is kept as its `str`
mutual
  pub data Json : Type 0 where
    null : Json
    text : List ℕ → Json
    object : Fields → Json
    other : List ℕ → Json

  pub data Fields : Type 0 where
    no_fields : Fields
    field : List ℕ → Json → Fields → Fields

-- `JSONDecodeError`, or another error of `json.loads`, which is not caught
pub data Loaded : Type 0 where
  loaded : Json → Loaded
  decode_error loads_raises : Loaded

-- a value of a row of `csv.DictReader`: a cell, None where the row is too short, and the list of the
-- cells that have no column
pub data Cell : Type 0 where
  cell : List ℕ → Cell
  absent : Cell
  surplus : List (List ℕ) → Cell

-- a key of None is that of the surplus cells
abbrev pub CsvRow : Type 0
CsvRow = List (Option (List ℕ) × Cell)

-- the rows as the reader gives them, which may end in a `csv.Error`
pub data CsvRows : Type 0 where
  csv_end csv_raises : CsvRows
  csv_row : CsvRow → CsvRows → CsvRows

pub data CsvFile : Type 0 where
  csv_unreadable : CsvFile
  csv_file : Option (List (List ℕ)) → CsvRows → CsvFile

pub record Readers : Type 0 where
  pub loads : List ℕ → Loaded
  pub str_of_fields : Fields → List ℕ
  pub dict_reader : List ℕ → CsvFile
  pub decode : List ℕ → Option (List ℕ)

pub data Metadata : Type 0 where
  of_fields : Fields → Metadata
  of_cells : CsvRow → Metadata

pub record ParsedRecord : Type 0 where
  pub question : List ℕ
  pub context : List ℕ
  pub expected_answer : List ℕ
  pub metadata : Metadata

-- `DatasetImportError`
pub data ImportError : Type 0 where
  invalid_json missing_question : ℕ → ImportError
  no_question_column : ImportError
  row_without_question : ℕ → ImportError
  unsupported_file no_records : ImportError

-- `crashed` is an error that is no `DatasetImportError`
pub data Parsed : Type 0 where
  parsed : List ParsedRecord → Parsed
  refused : ImportError → Parsed
  crashed : Parsed

-- `str.strip`
unfoldable pub lstrip : List ℕ → List ℕ
lstrip [] = []
lstrip (c ∷ cs) = let rest = lstrip cs in if is_space c then rest else c ∷ cs

unfoldable pub rstrip : List ℕ → List ℕ
rstrip [] = []
rstrip (c ∷ cs) = let rest = rstrip cs in if is_empty rest && is_space c then [] else c ∷ rest

abbrev pub strip : List ℕ → List ℕ
strip cs = rstrip (lstrip cs)

-- `str.splitlines`
abbrev is_break : ℕ → Bool
is_break c = leb 10 c && leb c 13 || leb 28 c && leb c 30

abbrev push : ℕ → List (List ℕ) → List (List ℕ)
push c [] = (c ∷ []) ∷ []
push c (l ∷ ls) = (c ∷ l) ∷ ls

-- after a carriage return, a line feed belongs to the break
unfoldable pub lines_from : Bool → List ℕ → List (List ℕ)
lines_from after_cr [] = []
lines_from after_cr (c ∷ cs) =
    let skips = after_cr && eqb c 10 in
    let rest = lines_from (eqb c 13) cs in
    if skips then rest else if is_break c then [] ∷ rest else push c rest

abbrev pub splitlines : List ℕ → List (List ℕ)
splitlines = lines_from false

-- `data.get`
unfoldable pub lookup_field : List ℕ → Fields → Option Json
lookup_field key no_fields = none
lookup_field key (field k v fs) =
    let rest = lookup_field key fs in if same_text k key then some v else rest

abbrev pub question_key : List ℕ
question_key = codes "question"

abbrev pub context_key : List ℕ
context_key = codes "context"

abbrev pub answer_key : List ℕ
answer_key = codes "expected_answer"

abbrev pub metadata_key : List ℕ
metadata_key = codes "metadata"

-- `_KNOWN_FIELDS`
abbrev pub is_known_field : List ℕ → Bool
is_known_field k = same_text k question_key || same_text k context_key || same_text k answer_key

unfoldable pub extra_fields : Fields → Fields
extra_fields no_fields = no_fields
extra_fields (field k v fs) =
    let rest = extra_fields fs in
    if is_known_field k || same_text k metadata_key then rest else field k v rest

-- an explicit `metadata` that is an object with a field, or the other fields
unfoldable pub metadata_of : Fields → Fields
unfolding lookup_field extra_fields
metadata_of fs = elim (lookup_field metadata_key fs) [
  | none ↦ extra_fields fs
  | some v ↦ elim v [
    | object given ↦ elim given [ no_fields ↦ extra_fields fs | field k w more ↦ field k w more ]
    | null ↦ extra_fields fs
    | text t ↦ extra_fields fs
    | other t ↦ extra_fields fs
  ]
]
