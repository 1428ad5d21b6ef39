-- ===== src/Prompts/Numbering.antt =====
-- The numbers of the versions of a prompt, and what an insertion makes of them.
use sentinellm.Prelude.{
  ℕ, zero, suc, ◌+◌, ◌≤◌, ◌<◌, ◌≡◌, refl, ap, sym, ◌∙◌, inl, inr, Bool, Bool-cases, true, false,
  eq_iff, String, List, [], ◌∷◌, ◌++◌, any, length, length-append, eqb, ltb, arith, if◌then◌else◌,
}
use sentinellm.Prompts.Versions.{VersionStatus, PromptVersion, is_version, restatus_all}
use sentinellm.Prompts.Registry.{of_prompt, max_version, write_status}

-- the version numbers of a prompt, in the order of the table
unfoldable pub numbers : String → List PromptVersion → List ℕ
numbers prompt_id [] = []
numbers prompt_id (r ∷ rs) =
    let rest = numbers prompt_id rs in if of_prompt prompt_id r then r.version ∷ rest else rest

-- 1, 2, …, n
abbrev pub up_to : ℕ → List ℕ
up_to zero = []
up_to (suc n) = up_to n ++ suc n ∷ []

abbrev pub AreNumbered : List PromptVersion → Type 0
AreNumbered rows = (p : String) → numbers p rows ≡ up_to (length (numbers p rows))

max_of : List ℕ → ℕ
max_of [] = 0
max_of (v ∷ vs) = let rest = max_of vs in if ltb rest v then v else rest

max_version-eq :
    (p : String) (rows : List PromptVersion) → max_version p rows ≡ max_of (numbers p rows)
unfolding max_version max_of numbers
max_version-eq p [] = refl
max_version-eq p (r ∷ rs) = ground (arith, max_version-eq p rs)

max_of-append_le : (vs : List ℕ) (v : ℕ) → max_of vs < v → max_of (vs ++ v ∷ []) ≡ v
unfolding max_of
max_of-append_le [] v h = ground arith
max_of-append_le (w ∷ vs) v h = ground (arith, max_of-append_le vs v)

max_of-up_to : (n : ℕ) → max_of (up_to n) ≡ n
max_of-up_to zero = unfold max_of in refl
max_of-up_to (suc n) = max_of-append_le (up_to n) (suc n) (omega (arith, max_of-up_to n))

any-last :
    (p : ℕ → Bool) (vs : List ℕ) (v : ℕ)
    → any p (vs ++ v ∷ []) ≡ false
    → any p vs ≡ false × (p v ≡ false)
any-last p [] v h = ground arith
any-last p (w ∷ vs) v h = ground (arith, any-last p vs v)

free_number : (n v : ℕ) → any (λ w. eqb w (suc v)) (up_to n) ≡ false → n ≤ v
free_number zero v h = omega arith
free_number (suc n) v h =
    let (rest, last) = any-last (λ w. eqb w (suc v)) (up_to n) (suc n) h in
    ground (arith, free_number n v rest)

any-numbers :
    (p : String) (v : ℕ) (rows : List PromptVersion)
    → any (is_version p v) rows ≡ any (λ w. eqb w v) (numbers p rows)
unfolding numbers
any-numbers p v [] = refl
any-numbers p v (r ∷ rs) = ground (arith, any-numbers p v rs)

numbers-append_own :
    (p : String) (rows : List PromptVersion) (r : PromptVersion)
    → of_prompt p r ≡ true
    → numbers p (rows ++ r ∷ []) ≡ numbers p rows ++ r.version ∷ []
unfolding numbers
numbers-append_own p [] r h = ground arith
numbers-append_own p (x ∷ rows) r h = ground (arith, numbers-append_own p rows r)

numbers-append_other :
    (p : String) (rows : List PromptVersion) (r : PromptVersion)
    → of_prompt p r ≡ false
    → numbers p (rows ++ r ∷ []) ≡ numbers p rows
unfolding numbers
numbers-append_other p [] r h = ground arith
numbers-append_other p (x ∷ rows) r h = ground (arith, numbers-append_other p rows r)

pub numbers-write_status :
    (p q : String) (v : ℕ) (s : VersionStatus) (rows : List PromptVersion)
    → numbers p (write_status q v s rows) ≡ numbers p rows
unfolding numbers write_status
numbers-write_status p q v s [] = refl
numbers-write_status p q v s (r ∷ rs) = ground (arith, numbers-write_status p q v s rs)

pub numbers-restatus_all :
    (p q : String) (v : ℕ) (rows : List PromptVersion)
    → numbers p (restatus_all q v rows) ≡ numbers p rows
unfolding numbers restatus_all
numbers-restatus_all p q v [] = refl
numbers-restatus_all p q v (r ∷ rs) = ground (arith, numbers-restatus_all p q v rs)

-- the largest number is the count
max_version-count :
    (q : String) (rows : List PromptVersion)
    → AreNumbered rows
    → max_version q rows ≡ length (numbers q rows)
max_version-count q rows numbered =
    max_version-eq q rows ∙ ap max_of (numbered q) ∙ max_of-up_to (length (numbers q rows))

-- the number of a row that was inserted, though its table may have been older
inserted_number :
    (seen rows : List PromptVersion) (q : String) (v : ℕ)
    → AreNumbered seen
    → AreNumbered rows
    → length (numbers q seen) ≤ length (numbers q rows)
    → v ≡ max_version q seen + 1
    → any (is_version q v) rows ≡ false
    → v ≡ suc (length (numbers q rows))
inserted_number seen rows q v old now grown next free =
    let m = length (numbers q seen) in
    let n = length (numbers q rows) in
    let at : v ≡ suc m = omega (arith, next, max_version-count q seen old) in
    let clear : any (λ w. eqb w v) (up_to n) ≡ false =
      ap (any (λ w. eqb w v)) (sym (now q)) ∙ sym (any-numbers q v rows) ∙ free in
    let few : n ≤ m = free_number n m (rw (← at) clear) in omega arith

numbers-insert :
    (rows : List PromptVersion) (q : String) (r : PromptVersion)
    → of_prompt q r ≡ true
    → AreNumbered rows
    → r.version ≡ suc (length (numbers q rows))
    → numbers q (rows ++ r ∷ []) ≡ up_to (length (numbers q (rows ++ r ∷ [])))
numbers-insert rows q r own now next =
    let n = length (numbers q rows) in
    let whole : numbers q (rows ++ r ∷ []) ≡ up_to (suc n) =
      numbers-append_own q rows r own
      ∙ ap (λ (v : ℕ). numbers q rows ++ v ∷ []) next
      ∙ ap (λ (vs : List ℕ). vs ++ suc n ∷ []) (now q) in
    let count : length (numbers q (rows ++ r ∷ [])) ≡ suc n = omega (
      arith,
      ap length (numbers-append_own q rows r own),
      length-append (numbers q rows) (r.version ∷ []),
    ) in
    whole ∙ ap up_to (sym count)

pub created-AreNumbered :
    (seen rows : List PromptVersion) (r : PromptVersion)
    → AreNumbered seen
    → AreNumbered rows
    → length (numbers r.prompt_id seen) ≤ length (numbers r.prompt_id rows)
    → r.version ≡ max_version r.prompt_id seen + 1
    → any (is_version r.prompt_id r.version) rows ≡ false
    → AreNumbered (rows ++ r ∷ [])
created-AreNumbered seen rows r old now grown next free p = elim (Bool-cases (of_prompt p r)) [
  | inr other ↦ rw (numbers-append_other p rows r other) (now p)
  | inl own ↦
      let named : r.prompt_id ≡ p = (eq_iff r.prompt_id p).0 own in
      numbers-insert rows p r own now
        (rw (← named) (inserted_number seen rows r.prompt_id r.version old now grown next free))
]

pub grown-append :
    (p : String) (rows : List PromptVersion) (r : PromptVersion)
    → length (numbers p rows) ≤ length (numbers p (rows ++ r ∷ []))
grown-append p rows r = elim (Bool-cases (of_prompt p r)) [
  | inr other ↦ omega (arith, ap length (numbers-append_other p rows r other))
  | inl own ↦ omega (
    arith,
    ap length (numbers-append_own p rows r own),
    length-append (numbers p rows) (r.version ∷ []),
  )
]
