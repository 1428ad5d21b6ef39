-- ===== src/Datasets/Asked.antt =====
-- The questions of the records that src/sentinellm/services/dataset_import.py reads from a file.
use sentinellm.Prelude.{
  ℕ, ◌+◌, ◌≡◌, refl, inl, inr, Bool, Bool-cases, true, false, not, ◌||◌, map, none, some, List, [],
  ◌∷◌, any, All, arith,
}
use sentinellm.Text.{codes, is_space, lower}
use sentinellm.Cache.Similarity.{is_empty}
use sentinellm.Prompts.Templates.{same_text}
use sentinellm.Datasets.Texts.{
  Json, null, text, object, other, Fields, Loaded, loaded, decode_error, loads_raises, CsvRow,
  CsvFile, CsvRows, csv_end, csv_raises, csv_row, csv_unreadable, csv_file, Readers, ParsedRecord,
  Parsed, parsed, refused, crashed, lstrip, rstrip, strip, splitlines, lookup_field, question_key,
}
use sentinellm.Datasets.Parsing.{
  Line, blank, bad, good, add_record, after_line, text_of, record_of_fields, record_of_json,
  line_of, cell_text, rows_of, read_line, parse_lines, parse_jsonl, column, parse_rows, parse_csv,
  ends_with, parse_dataset_file, some_records,
}

-- a character that is no white space
abbrev pub has_ink : List ℕ → Bool
has_ink cs = any (λ c. not (is_space c)) cs

lstrip-ink : (cs : List ℕ) → has_ink (lstrip cs) ≡ has_ink cs
unfolding lstrip
lstrip-ink [] = refl
lstrip-ink (c ∷ cs) = ground (arith, lstrip-ink cs)

rstrip-empty : (cs : List ℕ) → is_empty (rstrip cs) ≡ not (has_ink cs)
unfolding rstrip
rstrip-empty [] = refl
rstrip-empty (c ∷ cs) = ground (arith, rstrip-empty cs)

rstrip-ink : (cs : List ℕ) → has_ink (rstrip cs) ≡ has_ink cs
unfolding rstrip
rstrip-ink [] = refl
rstrip-ink (c ∷ cs) = ground (arith, rstrip-ink cs, rstrip-empty cs)

strip-ink : (cs : List ℕ) → has_ink (strip cs) ≡ has_ink cs
strip-ink cs = rw (rstrip-ink (lstrip cs), lstrip-ink cs)

strip-empty : (cs : List ℕ) → is_empty (strip cs) ≡ not (has_ink cs)
strip-empty cs = rw (rstrip-empty (lstrip cs), lstrip-ink cs)

abbrev pub IsAsked : ParsedRecord → Type 0
IsAsked r = has_ink r.question ≡ true

abbrev pub AreAsked : Parsed → Type 0
AreAsked (parsed rs) = All IsAsked rs
AreAsked (refused e) = Unit
AreAsked crashed = Unit

abbrev LineIsAsked : Line → Type 0
LineIsAsked blank = Unit
LineIsAsked (bad p) = AreAsked p
LineIsAsked (good r) = IsAsked r

add_record-AreAsked :
    (r : ParsedRecord) (p : Parsed) → IsAsked r → AreAsked p → AreAsked (add_record r p)
unfolding add_record
add_record-AreAsked r (parsed rs) h t = (h, t)
add_record-AreAsked r (refused e) h t = tt
add_record-AreAsked r crashed h t = tt

after_line-AreAsked :
    (l : Line) (p : Parsed) → LineIsAsked l → AreAsked p → AreAsked (after_line l p)
unfolding after_line
after_line-AreAsked blank p h t = t
after_line-AreAsked (bad q) p h t = h
after_line-AreAsked (good r) p h t = add_record-AreAsked r p h t

-- records of which there is at least one
abbrev pub ImportIsAsked : Parsed → Type 0
ImportIsAsked (parsed rs) = (is_empty rs ≡ false) × All IsAsked rs
ImportIsAsked (refused e) = Unit
ImportIsAsked crashed = Unit

some_records-IsAsked : (p : Parsed) → AreAsked p → ImportIsAsked (some_records p)
some_records-IsAsked (parsed []) h = tt
some_records-IsAsked (parsed (r ∷ rs)) h = (refl, h)
some_records-IsAsked (refused e) h = tt
some_records-IsAsked crashed h = tt

strip-full : (cs : List ℕ) → is_empty (strip cs) ≡ not (has_ink (strip cs))
strip-full cs = rw (strip-ink cs) (strip-empty cs)

column-ink :
    (key : List ℕ) (row : CsvRow) → is_empty (column key row) ≡ not (has_ink (column key row))
unfolding column
column-ink key [] = refl
column-ink key ((none, c) ∷ row) = column-ink key row
column-ink key ((some k, c) ∷ row) = elim (Bool-cases (same_text k key)) [
  | inl here ↦ rw here (strip-full (cell_text c))
  | inr differs ↦ rw differs (column-ink key row)
]

parse_rows-AreAsked : (n : ℕ) (rows : CsvRows) → AreAsked (parse_rows n rows)
unfolding parse_rows
parse_rows-AreAsked n csv_end = tt
parse_rows-AreAsked n csv_raises = tt
parse_rows-AreAsked n (csv_row row rows) = elim (Bool-cases (is_empty (column question_key row))) [
  | inl empty ↦ rw empty tt
  | inr full ↦ rw full (
      add_record-AreAsked _ (parse_rows (n + 1) rows)
        (ground (arith, column-ink question_key row, full)) (parse_rows-AreAsked (n + 1) rows))
]

rows_of-AreAsked : (file : CsvFile) → AreAsked (rows_of file)
unfolding rows_of
rows_of-AreAsked csv_unreadable = tt
rows_of-AreAsked (csv_file none rows) = tt
rows_of-AreAsked (csv_file (some columns) rows) =
    elim (Bool-cases (any (λ c. same_text c question_key) columns)) [
      | inl there ↦ rw there (parse_rows-AreAsked 2 rows)
      | inr missing ↦ rw missing tt
    ]

module _ (readers : Readers) where
  record_of_fields-IsAsked : (n : ℕ) (fs : Fields) → LineIsAsked (record_of_fields readers n fs)
  unfolding record_of_fields
  record_of_fields-IsAsked n fs =
      elim (Bool-cases (is_empty (strip (text_of readers (lookup_field question_key fs))))) [
        | inl empty ↦ rw empty tt
        | inr full ↦
            rw full
              (ground (arith, strip-empty (text_of readers (lookup_field question_key fs)), full))
      ]

  record_of_json-IsAsked : (n : ℕ) (j : Json) → LineIsAsked (record_of_json readers n j)
  unfolding record_of_json
  record_of_json-IsAsked n (object fs) = record_of_fields-IsAsked n fs
  record_of_json-IsAsked n null = tt
  record_of_json-IsAsked n (text t) = tt
  record_of_json-IsAsked n (other t) = tt

  line_of-IsAsked : (n : ℕ) (l : Loaded) → LineIsAsked (line_of readers n l)
  unfolding line_of
  line_of-IsAsked n (loaded j) = record_of_json-IsAsked n j
  line_of-IsAsked n decode_error = tt
  line_of-IsAsked n loads_raises = tt

  read_line-IsAsked : (n : ℕ) (line : List ℕ) → LineIsAsked (read_line readers n line)
  unfolding read_line
  read_line-IsAsked n line = elim (Bool-cases (is_empty (strip line))) [
    | inl empty ↦ rw empty tt
    | inr full ↦ rw full (line_of-IsAsked n (readers.loads (strip line)))
  ]

  parse_lines-AreAsked : (n : ℕ) (lines : List (List ℕ)) → AreAsked (parse_lines readers n lines)
  unfolding parse_lines
  parse_lines-AreAsked n [] = tt
  parse_lines-AreAsked n (line ∷ lines) =
      after_line-AreAsked (read_line readers n line) (parse_lines readers (n + 1) lines)
        (read_line-IsAsked n line) (parse_lines-AreAsked (n + 1) lines)

  -- The records that are read from a file are at least one, and the question of each has a character
  -- that is no white space, whatever the readers of JSON and CSV give.
  pub parse_dataset_file-AreAsked :
      (filename content : List ℕ) → ImportIsAsked (parse_dataset_file readers filename content)
  unfolding parse_dataset_file parse_jsonl parse_csv
  parse_dataset_file-AreAsked filename content =
      elim (Bool-cases (
        ends_with (codes ".jsonl") (map lower filename)
        || ends_with (codes ".ndjson") (map lower filename))) [
          | inl lines ↦ rw lines (
              some_records-IsAsked (parse_lines readers 1 (splitlines content))
                (parse_lines-AreAsked 1 (splitlines content)))
          | inr not_lines ↦ elim (Bool-cases (ends_with (codes ".csv") (map lower filename))) [
            | inl csv ↦
                rw (not_lines, csv)
                  (some_records-IsAsked (rows_of (readers.dict_reader content))
                    (rows_of-AreAsked (readers.dict_reader content)))
            | inr neither ↦ rw (not_lines, neither) tt
          ]
        ]
