-- ===== src/Datasets/Parsing.antt =====
-- The parsing of a file by src/sentinellm/services/dataset_import.py, and the import by
-- src/sentinellm/api/routers/datasets.py.
use sentinellm.Prelude.{
  ℕ, ◌+◌, ◌*◌, Bool, false, not, ◌&&◌, ◌||◌, ◌==◌, String, Option, none, some, List, [], ◌∷◌, map,
  keep, any, length, ltb, eqb, if◌then◌else◌,
}
use sentinellm.Text.{codes, lower}
use sentinellm.Cache.Similarity.{is_empty}
use sentinellm.Access.Keys.{ApiKey, Denial, require_unscoped}
use sentinellm.Prompts.Templates.{same_text}
use sentinellm.Datasets.Texts.{
  Json, null, text, object, other, Fields, Loaded, loaded, decode_error, loads_raises, Cell, cell,
  absent, surplus, CsvRow, CsvRows, csv_end, csv_raises, csv_row, CsvFile, csv_unreadable, csv_file,
  Readers, of_fields, of_cells, ParsedRecord, ImportError, invalid_json, missing_question,
  no_question_column, row_without_question, unsupported_file, no_records, Parsed, parsed, refused,
  crashed, lstrip, rstrip, strip, lines_from, splitlines, lookup_field, question_key, context_key,
  answer_key, is_known_field, metadata_of,
}

-- what a line gives; a blank one is skipped
pub data Line : Type 0 where
  blank : Line
  bad : Parsed → Line
  good : ParsedRecord → Line

unfoldable pub add_record : ParsedRecord → Parsed → Parsed
add_record r (parsed rs) = parsed (r ∷ rs)
add_record r (refused e) = refused e
add_record r crashed = crashed

unfoldable pub after_line : Line → Parsed → Parsed
unfolding add_record
after_line blank rest = rest
after_line (bad p) rest = p
after_line (good r) rest = add_record r rest

abbrev pub cell_text : Cell → List ℕ
cell_text (cell t) = t
cell_text absent = []
cell_text (surplus ts) = []

-- `(row.get(key) or "").strip()`, of a column
unfoldable pub column : List ℕ → CsvRow → List ℕ
unfolding lstrip rstrip
column key [] = []
column key ((none, c) ∷ row) = column key row
column key ((some k, c) ∷ row) =
    let rest = column key row in if same_text k key then strip (cell_text c) else rest

-- `k not in _KNOWN_FIELDS and v`
abbrev is_extra : Option (List ℕ) × Cell → Bool
is_extra (none, cell t) = not (is_empty t)
is_extra (none, absent) = false
is_extra (none, surplus ts) = not (is_empty ts)
is_extra (some k, cell t) = not (is_known_field k) && not (is_empty t)
is_extra (some k, absent) = false
is_extra (some k, surplus ts) = not (is_known_field k) && not (is_empty ts)

-- the loop of `parse_csv`, from a row number
unfoldable pub parse_rows : ℕ → CsvRows → Parsed
unfolding column add_record
parse_rows n csv_end = parsed []
parse_rows n csv_raises = crashed
parse_rows n (csv_row row rows) =
    let rest = parse_rows (n + 1) rows in
    if is_empty (column question_key row)
    then refused (row_without_question n)
    else add_record
        (record {
          question = column question_key row;
          context = column context_key row;
          expected_answer = column answer_key row;
          metadata = of_cells (keep is_extra row);
        })
        rest

-- `parse_csv`, of what the reader gives
unfoldable pub rows_of : CsvFile → Parsed
unfolding parse_rows
rows_of csv_unreadable = crashed
rows_of (csv_file none rows) = refused no_question_column
rows_of (csv_file (some columns) rows) =
    if any (λ c. same_text c question_key) columns
    then parse_rows 2 rows
    else refused no_question_column

-- `if not records: raise`
abbrev pub some_records : Parsed → Parsed
some_records (parsed []) = refused no_records
some_records (parsed (r ∷ rs)) = parsed (r ∷ rs)
some_records (refused e) = refused e
some_records crashed = crashed

unfoldable pub ends_with : List ℕ → List ℕ → Bool
ends_with suffix [] = same_text suffix []
ends_with suffix (c ∷ cs) = let rest = ends_with suffix cs in same_text suffix (c ∷ cs) || rest

-- `_MAX_IMPORT_BYTES`
abbrev pub max_import_bytes : ℕ
max_import_bytes = 5 * 1024 * 1024

-- `Dataset`
pub record Dataset : Type 0 where
  pub name : String
  pub version : String
  pub description : Option String
  pub records : List ParsedRecord

-- the answers 403, 400, 409 and 500, and the data sets after the request
pub data ImportReply : Type 0 where
  import_denied : Denial → ImportReply
  too_large not_utf8 dataset_conflict import_crashed : ImportReply
  import_refused : ImportError → ImportReply
  imported : List Dataset → ImportReply

-- the unique constraint of the table
abbrev pub is_dataset : String → String → Dataset → Bool
is_dataset name version d = d.name == name && d.version == version

-- `Dataset(…)` of the form and the records
unfoldable pub add_dataset : String → String → Option String → List Dataset → Parsed → ImportReply
add_dataset name version description datasets (parsed rs) =
    if any (is_dataset name version) datasets
    then dataset_conflict
    else imported (
        record { name = name; version = version; description = description; records = rs }
        ∷ datasets)
add_dataset name version description datasets (refused e) = import_refused e
add_dataset name version description datasets crashed = import_crashed

-- `create_dataset`, of the records in the request
unfoldable pub create_dataset :
    ApiKey → String → String → Option String → List ParsedRecord → List Dataset → ImportReply
unfolding require_unscoped add_dataset
create_dataset actor name version description records datasets = elim (require_unscoped actor) [
  | some denial ↦ import_denied denial
  | none ↦ add_dataset name version description datasets (parsed records)
]

module _ (readers : Readers) where
  -- `_text`, of what `data.get` gives
  unfoldable pub text_of : Option Json → List ℕ
  text_of none = []
  text_of (some null) = []
  text_of (some (text t)) = t
  text_of (some (object fs)) = readers.str_of_fields fs
  text_of (some (other t)) = t

  unfoldable pub record_of_fields : ℕ → Fields → Line
  unfolding lstrip rstrip lookup_field metadata_of text_of
  record_of_fields n fs =
      if is_empty (strip (text_of (lookup_field question_key fs)))
      then bad (refused (missing_question n))
      else good (record {
        question = text_of (lookup_field question_key fs);
        context = text_of (lookup_field context_key fs);
        expected_answer = text_of (lookup_field answer_key fs);
        metadata = of_fields (metadata_of fs);
      })

  unfoldable pub record_of_json : ℕ → Json → Line
  unfolding record_of_fields
  record_of_json n (object fs) = record_of_fields n fs
  record_of_json n null = bad (refused (missing_question n))
  record_of_json n (text t) = bad (refused (missing_question n))
  record_of_json n (other t) = bad (refused (missing_question n))

  unfoldable pub line_of : ℕ → Loaded → Line
  unfolding record_of_json
  line_of n (loaded data_) = record_of_json n data_
  line_of n decode_error = bad (refused (invalid_json n))
  line_of n loads_raises = bad crashed

  unfoldable pub read_line : ℕ → List ℕ → Line
  unfolding lstrip rstrip line_of
  read_line n line = if is_empty (strip line) then blank else line_of n (readers.loads (strip line))

  -- the loop of `parse_jsonl`, from a line number
  unfoldable pub parse_lines : ℕ → List (List ℕ) → Parsed
  unfolding read_line after_line
  parse_lines n [] = parsed []
  parse_lines n (line ∷ lines) =
      let rest = parse_lines (n + 1) lines in after_line (read_line n line) rest

  unfoldable pub parse_jsonl : List ℕ → Parsed
  unfolding parse_lines lines_from
  parse_jsonl content = parse_lines 1 (splitlines content)

  unfoldable pub parse_csv : List ℕ → Parsed
  unfolding rows_of
  parse_csv content = rows_of (readers.dict_reader content)

  unfoldable pub parse_dataset_file : List ℕ → List ℕ → Parsed
  unfolding lower ends_with parse_jsonl parse_csv
  parse_dataset_file filename content =
      let lowered = map lower filename in
      if ends_with (codes ".jsonl") lowered || ends_with (codes ".ndjson") lowered
      then some_records (parse_jsonl content)
      else if ends_with (codes ".csv") lowered
      then some_records (parse_csv content)
      else refused unsupported_file

  unfoldable pub decoded_import :
      String → String → Option String → List ℕ → List Dataset → Option (List ℕ) → ImportReply
  unfolding parse_dataset_file add_dataset
  decoded_import name version description filename datasets none = not_utf8
  decoded_import name version description filename datasets (some content) =
      add_dataset name version description datasets
        (parse_dataset_file filename (keep (λ c. not (eqb c 0)) content))

  unfoldable pub checked_import :
      String → String → Option String → List ℕ → List ℕ → List Dataset → Option Denial → ImportReply
  unfolding decoded_import
  checked_import name version description filename raw datasets (some denial) = import_denied denial
  checked_import name version description filename raw datasets none =
      if ltb max_import_bytes (length raw)
      then too_large
      else decoded_import name version description filename datasets (readers.decode raw)

  -- `raw` is the file; its name is empty where it has none
  unfoldable pub import_dataset :
      ApiKey → String → String → Option String → List ℕ → List ℕ → List Dataset → ImportReply
  unfolding require_unscoped checked_import
  import_dataset actor name version description filename raw datasets =
      checked_import name version description filename raw datasets (require_unscoped actor)
