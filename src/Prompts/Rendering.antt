-- ===== src/Prompts/Rendering.antt =====
-- What a rendered prompt is made of.
use sentinellm.Prelude.{
  ℕ, zero, suc, ◌-◌, ◌≡◌, ◌↔◌, refl, sym, subst, ◌∙◌, ap, inl, inr, Bool, Bool-cases, true, false,
  not, Option, none, some, Option-cases, List, [], ◌∷◌, ◌++◌, take, keep, any, All, arith,
  if◌then◌else◌,
}
use sentinellm.Prompts.Templates.{
  drop, placeholder_at, Piece, literal, field, scan, pieces, names_of, same_text, first_seen,
  template_placeholders, Values, has_value, fill, rendered, render_with, render_template,
}

-- the text that the pieces were cut from
abbrev pub text_of : List Piece → List ℕ
text_of [] = []
text_of (literal c ∷ ps) = c ∷ text_of ps
text_of (field name raw ∷ ps) = raw ++ text_of ps

take-drop : (n : ℕ) (xs : List ℕ) → take n xs ++ drop n xs ≡ xs
take-drop zero xs = refl
take-drop (suc n) [] = refl
take-drop (suc n) (x ∷ xs) = ap (λ ys. x ∷ ys) (take-drop n xs)

cond_pos :
    (b : Bool) (m name : List ℕ) (k n : ℕ)
    → if◌then◌else◌ {A = Option (List ℕ × ℕ)} b (some (m, suc k)) none ≡ some (name, n)
    → n ≡ suc (n - 1)
cond_pos true m name k n h = let same : suc k ≡ n = ground arith in omega arith
cond_pos false m name k n h = absurd (cc h)

placeholder_at_pos :
    (text name : List ℕ) (n : ℕ) → placeholder_at text ≡ some (name, n) → n ≡ suc (n - 1)
unfolding placeholder_at
placeholder_at_pos text name n h = cond_pos _ _ name _ n h

scan_skip : (skip c : ℕ) (cs : List ℕ) → scan (suc skip) (c ∷ cs) ≡ scan skip cs
unfolding scan
scan_skip skip c cs = refl

scan-none :
    (c : ℕ) (cs : List ℕ)
    → placeholder_at (c ∷ cs) ≡ none
    → scan zero (c ∷ cs) ≡ literal c ∷ scan zero cs
unfolding scan
scan-none c cs h = rw (h, scan)

scan-some :
    (c : ℕ) (cs name : List ℕ) (n : ℕ)
    → placeholder_at (c ∷ cs) ≡ some (name, n)
    → scan zero (c ∷ cs) ≡ field name (take n (c ∷ cs)) ∷ scan (n - 1) cs
unfolding scan
scan-some c cs name n h = rw (h, scan)

take-drop-suc :
    (n : ℕ) (c : ℕ) (cs : List ℕ) → n ≡ suc (n - 1) → take n (c ∷ cs) ++ drop (n - 1) cs ≡ c ∷ cs
take-drop-suc zero c cs h = absurd (omega arith)
take-drop-suc (suc n) c cs h =
    let back : suc n - 1 ≡ n = omega arith in rw back (take-drop (suc n) (c ∷ cs))

text_of-scan : (skip : ℕ) (text : List ℕ) → text_of (scan skip text) ≡ drop skip text
text_of-scan zero [] = unfold scan in refl
text_of-scan (suc skip) [] = unfold scan in refl
text_of-scan (suc skip) (c ∷ cs) = ap text_of (scan_skip skip c cs) ∙ text_of-scan skip cs
text_of-scan zero (c ∷ cs) = elim (Option-cases (placeholder_at (c ∷ cs))) [
  | inl stop ↦ ap text_of (scan-none c cs stop) ∙ ap (λ ys. c ∷ ys) (text_of-scan zero cs)
  | inr ((name, n), hit) ↦
      ap text_of (scan-some c cs name n hit)
      ∙ ap (λ ys. take n (c ∷ cs) ++ ys) (text_of-scan (n - 1) cs)
      ∙ take-drop-suc n c cs (placeholder_at_pos (c ∷ cs) name n hit)
]

-- The pieces of a template are cut from it without a gap.
pub text_of-pieces : (template : List ℕ) → text_of (pieces template) ≡ template
unfolding pieces
text_of-pieces template = text_of-scan zero template

-- A value of the placeholder itself, or none at all, leaves it as it is written.
fill_nothing : (ps : List Piece) → fill (λ name. none) ps ≡ text_of ps
unfolding fill
fill_nothing [] = refl
fill_nothing (literal c ∷ ps) = ap (λ ys. c ∷ ys) (fill_nothing ps)
fill_nothing (field name raw ∷ ps) = ap (λ ys. raw ++ ys) (fill_nothing ps)

-- Rendering leniently without a value gives the template back, character for character.
pub render_template_nothing :
    (template : List ℕ) → render_template template (λ name. none) false ≡ rendered template
unfolding render_template
render_template_nothing template =
    ap rendered (fill_nothing (pieces template) ∙ text_of-pieces template)

same_text-eq : (xs ys : List ℕ) → same_text xs ys ≡ true → xs ≡ ys
same_text-eq [] [] h = refl
same_text-eq [] (y ∷ ys) h = absurd (cc h)
same_text-eq (x ∷ xs) [] h = absurd (cc h)
same_text-eq (x ∷ xs) (y ∷ ys) h = ground (arith, same_text-eq xs ys)

any_same-All :
    (P : List ℕ → Type 0) (n : List ℕ) (seen : List (List ℕ))
    → any (same_text n) seen ≡ true
    → All P seen
    → P n
any_same-All P n [] h k = absurd (cc h)
any_same-All P n (x ∷ seen) h (k, ks) = elim (Bool-cases (same_text n x)) [
  | inl same ↦ subst P (sym (same_text-eq n x same)) k
  | inr other ↦ any_same-All P n seen (rw other at h) ks
]

first_seen-All :
    (P : List ℕ → Type 0) (seen ns : List (List ℕ))
    → All P seen
    → All P (first_seen seen ns)
    → All P ns
unfolding first_seen
first_seen-All P seen [] k h = tt
first_seen-All P seen (n ∷ ns) k h = elim (Bool-cases (any (same_text n) seen)) [
  | inl old ↦ (any_same-All P n seen old k, first_seen-All P seen ns k (rw old at h))
  | inr new ↦
      let (here, rest) : P n × All P (first_seen (n ∷ seen) ns) = rw new at h in
      (here, first_seen-All P (n ∷ seen) ns (here, k) rest)
]

All-first_seen :
    (P : List ℕ → Type 0) (seen ns : List (List ℕ)) → All P ns → All P (first_seen seen ns)
unfolding first_seen
All-first_seen P seen [] h = tt
All-first_seen P seen (n ∷ ns) (k, ks) = elim (Bool-cases (any (same_text n) seen)) [
  | inl old ↦ rw old (All-first_seen P seen ns ks)
  | inr new ↦ rw new (k, All-first_seen P (n ∷ seen) ns ks)
]

keep-none :
    (values : Values) (ns : List (List ℕ))
    → (keep (λ n. not (has_value values n)) ns ≡ []) ↔ All (λ n. has_value values n ≡ true) ns
keep-none values [] = (λ h. tt, λ h. refl)
keep-none values (n ∷ ns) =
    let (there, back) = keep-none values ns in
    elim (Bool-cases (has_value values n)) [
      | inl has ↦ rw has (λ h. (refl, there h), λ (k, ks). back ks)
      | inr lacks ↦ rw lacks (λ h. absurd (cc h), λ (k, ks). absurd (cc k))
    ]

render_with_iff :
    (values : Values) (template : List ℕ) (lacking : List (List ℕ))
    → (render_with values template lacking ≡ rendered (fill values (pieces template)))
      ↔ (lacking ≡ [])
unfolding render_with
render_with_iff values template [] = (λ h. refl, λ h. refl)
render_with_iff values template (n ∷ ns) = (λ h. absurd (cc h), λ h. absurd (cc h))

-- Strict rendering fills the template in exactly when each of its placeholders has a value, and else
-- it raises.
pub render_template_iff :
    (template : List ℕ) (values : Values)
    → (render_template template values true ≡ rendered (fill values (pieces template)))
      ↔ All (λ n. has_value values n ≡ true) (names_of (pieces template))
unfolding render_template template_placeholders
render_template_iff template values =
    let names = names_of (pieces template) in
    let P : List ℕ → Type 0 = λ n. has_value values n ≡ true in
    let (a, b) =
      render_with_iff values template
        (keep (λ n. not (has_value values n)) (first_seen [] names)) in
    let (c, d) = keep-none values (first_seen [] names) in
    (λ h. first_seen-All P [] names tt (c (a h)), λ h. b (d (All-first_seen P [] names h)))
