-- ===== src/Prompts/Templates.antt =====
-- `template_placeholders` and `render_template` of src/sentinellm/services/prompts.py, over code points.
use sentinellm.Prelude.{
  ℕ, zero, suc, ◌+◌, ◌-◌, Bool, true, false, not, ◌&&◌, Option, none, some, List, [], ◌∷◌, ◌++◌,
  take, keep, any, eqb, leb, if◌then◌else◌,
}
use sentinellm.Text.{codes, is_space, is_word, starts_with}

abbrev pub drop : ℕ → List ℕ → List ℕ
drop zero xs = xs
drop (suc n) [] = []
drop (suc n) (x ∷ xs) = drop n xs

-- how many characters of a class a text begins with
abbrev pub count_while : (ℕ → Bool) → List ℕ → ℕ
count_while p [] = 0
count_while p (c ∷ cs) = let rest = count_while p cs in if p c then suc rest else 0

-- `[A-Za-z_]`
unfoldable pub is_name_start : ℕ → Bool
unfolding is_word
is_name_start c = is_word c && not (leb b'0' c && leb c b'9')

-- the length of a name at the head of a text, 0 if there is none
unfoldable pub name_length : List ℕ → ℕ
unfolding is_word is_name_start
name_length [] = 0
name_length (c ∷ cs) = if is_name_start c then suc (count_while is_word cs) else 0

-- `{{`, white space, a name, white space, `}}` at the head of a text: the name and the length of the
-- whole
unfoldable pub placeholder_at : List ℕ → Option (List ℕ × ℕ)
unfolding starts_with is_space is_word name_length
placeholder_at text =
    let inner = drop 2 text in
    let before = count_while is_space inner in
    let name = drop before inner in
    let n = name_length name in
    let after = count_while is_space (drop n name) in
    if starts_with (codes "{{") text
      && not (eqb n 0)
      && starts_with (codes "}}") (drop after (drop n name))
    then some (take n name, suc (suc (suc (suc (before + n + after)))))
    else none

-- A template, cut at its placeholders: a character, or a name with the text that it stands in.
pub data Piece : Type 0 where
  literal : ℕ → Piece
  field : List ℕ → List ℕ → Piece

-- the pieces of a text after `skip` characters of it
unfoldable pub scan : ℕ → List ℕ → List Piece
unfolding placeholder_at
scan skip [] = []
scan (suc skip) (c ∷ cs) = scan skip cs
scan zero (c ∷ cs) = elim (placeholder_at (c ∷ cs)) [
  | none ↦ literal c ∷ scan zero cs
  | some found ↦ field found.0 (take found.1 (c ∷ cs)) ∷ scan (found.1 - 1) cs
]

unfoldable pub pieces : List ℕ → List Piece
unfolding scan
pieces template = scan zero template

abbrev pub names_of : List Piece → List (List ℕ)
names_of [] = []
names_of (literal c ∷ ps) = names_of ps
names_of (field name raw ∷ ps) = name ∷ names_of ps

abbrev pub same_text : List ℕ → List ℕ → Bool
same_text [] [] = true
same_text [] (y ∷ ys) = false
same_text (x ∷ xs) [] = false
same_text (x ∷ xs) (y ∷ ys) = eqb x y && same_text xs ys

-- `list(dict.fromkeys(…))`: each name once, in the order of first appearance
unfoldable pub first_seen : List (List ℕ) → List (List ℕ) → List (List ℕ)
first_seen seen [] = []
first_seen seen (n ∷ ns) =
    if any (same_text n) seen then first_seen seen ns else n ∷ first_seen (n ∷ seen) ns

unfoldable pub template_placeholders : List ℕ → List (List ℕ)
unfolding first_seen pieces
template_placeholders template = first_seen [] (names_of (pieces template))

-- The values: a mapping from names to texts.
abbrev pub Values : Type 0
Values = List ℕ → Option (List ℕ)

abbrev pub has_value : Values → List ℕ → Bool
has_value values name = elim (values name) [ none ↦ false | some v ↦ true ]

-- one pass: a value is put in as it is
unfoldable pub fill : Values → List Piece → List ℕ
fill values [] = []
fill values (literal c ∷ ps) = c ∷ fill values ps
fill values (field name raw ∷ ps) =
    (elim (values name) [ none ↦ raw | some v ↦ v ]) ++ fill values ps

-- A text, or `PromptRenderError` with the names that have no value.
pub data Rendered : Type 0 where
  rendered : List ℕ → Rendered
  missing : List (List ℕ) → Rendered

unfoldable pub render_with : Values → List ℕ → List (List ℕ) → Rendered
unfolding fill pieces
render_with values template [] = rendered (fill values (pieces template))
render_with values template (n ∷ ns) = missing (n ∷ ns)

unfoldable pub render_template : List ℕ → Values → Bool → Rendered
unfolding render_with template_placeholders
render_template template values strict =
    render_with values template
      (if strict then keep (λ n. not (has_value values n)) (template_placeholders template) else [])
