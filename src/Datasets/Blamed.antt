-- ===== src/Datasets/Blamed.antt =====
-- The lines of a file that `parse_jsonl` of src/sentinellm/services/dataset_import.py reads or refuses.
use sentinellm.Prelude.{
  ℕ, suc, ◌+◌, ◌≡◌, ◌⊎◌, ◌∙◌, refl, inl, inr, Bool, true, false, List, [], ◌∷◌, ◌++◌, length, arith,
  ap,
}
use sentinellm.Datasets.Texts.{
  Readers, ParsedRecord, ImportError, Parsed, parsed, refused, crashed, splitlines,
}
use sentinellm.Datasets.Parsing.{
  Line, blank, bad, good, add_record, after_line, read_line, parse_lines, parse_jsonl,
}

abbrev pub is_bad : Line → Bool
is_bad blank = false
is_bad (bad p) = true
is_bad (good r) = false

shift : (m n : ℕ) → m + suc n ≡ m + 1 + n
shift m n = omega arith

no_shift : (n : ℕ) → n + 0 ≡ n
no_shift n = omega arith

module _ (readers : Readers) where
  -- no line is refused, from a line number
  abbrev pub AreFine : ℕ → List (List ℕ) → Type 0
  AreFine n [] = Unit
  AreFine n (line ∷ lines) = (is_bad (read_line readers n line) ≡ false) × AreFine (n + 1) lines

  -- the first line that is refused, with its number
  abbrev pub Blames : ℕ → List (List ℕ) → ImportError → Type 0
  Blames n lines e =
      (before after : List (List ℕ)) × (line : List ℕ) × (lines ≡ before ++ line ∷ after)
      × AreFine n before
      × (read_line readers (n + length before) line ≡ bad (refused e))

  add_record-refused :
      (r : ParsedRecord) (p : Parsed) (e : ImportError) → add_record r p ≡ refused e → p ≡ refused e
  unfolding add_record
  add_record-refused r (parsed rs) e h = absurd (cc h)
  add_record-refused r (refused x) e h = h
  add_record-refused r crashed e h = absurd (cc h)

  -- a line is refused, or the rest is
  after_line-refused :
      (l : Line) (p : Parsed) (e : ImportError)
      → after_line l p ≡ refused e
      → (l ≡ bad (refused e)) ⊎ ((is_bad l ≡ false) × (p ≡ refused e))
  unfolding after_line
  after_line-refused blank p e h = inr (refl, h)
  after_line-refused (bad q) p e h = inl (ap bad h)
  after_line-refused (good r) p e h = inr (refl, add_record-refused r p e h)

  later :
      (n : ℕ) (line : List ℕ) (lines : List (List ℕ)) (e : ImportError)
      → is_bad (read_line readers n line) ≡ false
      → Blames (n + 1) lines e
      → Blames n (line ∷ lines) e
  later n line lines e fine (before, after, bad_line, split, rest, hit) = (
    line ∷ before,
    after,
    bad_line,
    ap (λ ls. line ∷ ls) split,
    (fine, rest),
    ap (λ k. read_line readers k bad_line) (shift n (length before)) ∙ hit,
  )

  parse_lines-Blames :
      (n : ℕ) (lines : List (List ℕ)) (e : ImportError)
      → parse_lines readers n lines ≡ refused e
      → Blames n lines e
  unfolding parse_lines
  parse_lines-Blames n [] e h = absurd (cc h)
  parse_lines-Blames n (line ∷ lines) e h =
      elim (after_line-refused (read_line readers n line) (parse_lines readers (n + 1) lines) e h) [
        | inl here ↦
            ([], lines, line, refl, tt, ap (λ k. read_line readers k line) (no_shift n) ∙ here)
        | inr (fine, below) ↦ later n line lines e fine (parse_lines-Blames (n + 1) lines e below)
      ]

  -- A refusal of a file of lines is that of its first line that cannot be read, by the number of that
  -- line: the lines before it are blank or give a record.
  pub parse_jsonl-Blames :
      (content : List ℕ) (e : ImportError)
      → parse_jsonl readers content ≡ refused e
      → Blames 1 (splitlines content) e
  unfolding parse_jsonl
  parse_jsonl-Blames content e h = parse_lines-Blames 1 (splitlines content) e h
