-- ===== src/Alerting/Defaults.antt =====
-- What the seeding of the rules leaves alone, and what it provides.
use sentinellm.Prelude.{
  ◌≡◌, refl, inl, inr, ◌≢◌, eq_refl, String, none, some, Option-cases, List, [], ◌∷◌, ◌++◌, map,
  find, All, All-Has, Has, arith,
}
use sentinellm.Alerting.Rules.{
  RuleDefinition, rule_definitions, RuleConfig, has_rule, seed_row, described, ensure_rules,
  ensure_default_alert_rules,
}

module _ {F : Type 0} where
  -- the columns that an operator edits
  pub record SameTuning (c c' : RuleConfig F) : Type 0 where
    pub threshold : c'.threshold ≡ c.threshold
    pub severity : c'.severity ≡ c.severity
    pub enabled : c'.enabled ≡ c.enabled

  -- the row of a rule is there, as it was tuned
  abbrev pub Keeps : List (RuleConfig F) → String → RuleConfig F → Type 0
  Keeps rows rule c = (c' : RuleConfig F) × (find (has_rule rule) rows ≡ some c') × SameTuning c c'

  find-described :
      (d : RuleDefinition) (rule : String) (rows : List (RuleConfig F)) (c : RuleConfig F)
      → find (has_rule rule) rows ≡ some c
      → find (has_rule rule) (map (described d) rows) ≡ some (described d c)
  find-described d rule [] c h = absurd (cc h)
  find-described d rule (x ∷ rows) c h = ground (arith, find-described d rule rows c)

  find-append :
      (rule : String) (rows more : List (RuleConfig F)) (c : RuleConfig F)
      → find (has_rule rule) rows ≡ some c
      → find (has_rule rule) (rows ++ more) ≡ some c
  find-append rule [] more c h = absurd (cc h)
  find-append rule (x ∷ rows) more c h = ground (arith, find-append rule rows more c)

  find-seed :
      (rows : List (RuleConfig F)) (row : RuleConfig F)
      → find (has_rule row.rule) (rows ++ row ∷ []) ≢ none
  find-seed [] row h = ground (arith, eq_refl row.rule)
  find-seed (x ∷ rows) row h = ground (arith, find-seed rows row)

  described-SameTuning :
      (d : RuleDefinition) (c c' : RuleConfig F) → SameTuning c c' → SameTuning c (described d c')
  described-SameTuning d c c' t = ground (arith, t.threshold, t.severity, t.enabled)

  module _ (settings : String → F) (existing : List (RuleConfig F)) where
    ensure_rules-Keeps :
        (ds : List RuleDefinition) (rows : List (RuleConfig F)) (rule : String) (c : RuleConfig F)
        → Keeps rows rule c
        → Keeps (ensure_rules settings existing ds rows) rule c
    unfolding ensure_rules
    ensure_rules-Keeps [] rows rule c k = k
    ensure_rules-Keeps (d ∷ ds) rows rule c (c', at, same) =
        elim (Option-cases (find (has_rule d.rule) existing)) [
          | inl new ↦ rw new (
              ensure_rules-Keeps ds (rows ++ seed_row settings d ∷ []) rule c
                (c', find-append rule rows (seed_row settings d ∷ []) c' at, same))
          | inr (row, old) ↦ rw old (
              ensure_rules-Keeps ds (map (described d) rows) rule c (
                described d c',
                find-described d rule rows c' at,
                described-SameTuning d c c' same,
              ))
        ]

    abbrev Known : List (RuleConfig F) → Type 0
    Known rows =
        (rule : String) → find (has_rule rule) existing ≢ none → find (has_rule rule) rows ≢ none

    present_of_Keeps :
        (rows : List (RuleConfig F)) (rule : String) (c : RuleConfig F)
        → Keeps rows rule c
        → find (has_rule rule) rows ≢ none
    present_of_Keeps rows rule c (c', at, same) h = cc (at, h)

    ensure_rules-present :
        (ds : List RuleDefinition) (rows : List (RuleConfig F)) (rule : String)
        → find (has_rule rule) rows ≢ none
        → find (has_rule rule) (ensure_rules settings existing ds rows) ≢ none
    ensure_rules-present ds rows rule h = elim (Option-cases (find (has_rule rule) rows)) [
      | inl gone ↦ absurd (h gone)
      | inr (c, at) ↦ present_of_Keeps (ensure_rules settings existing ds rows) rule c (
          ensure_rules-Keeps ds rows rule c
            (c, at, record { threshold = refl; severity = refl; enabled = refl }))
    ]

    find-append_present :
        (rule : String) (rows more : List (RuleConfig F))
        → find (has_rule rule) rows ≢ none
        → find (has_rule rule) (rows ++ more) ≢ none
    find-append_present rule rows more h k = elim (Option-cases (find (has_rule rule) rows)) [
      | inl gone ↦ h gone
      | inr (c, at) ↦ cc (find-append rule rows more c at, k)
    ]

    find-described_present :
        (d : RuleDefinition) (rule : String) (rows : List (RuleConfig F))
        → find (has_rule rule) rows ≢ none
        → find (has_rule rule) (map (described d) rows) ≢ none
    find-described_present d rule rows h k = elim (Option-cases (find (has_rule rule) rows)) [
      | inl gone ↦ h gone
      | inr (c, at) ↦ cc (find-described d rule rows c at, k)
    ]

    ensure_rules-provides :
        (ds : List RuleDefinition) (rows : List (RuleConfig F)) (d : RuleDefinition)
        → Known rows
        → Has d ds
        → find (has_rule d.rule) (ensure_rules settings existing ds rows) ≢ none
    unfolding ensure_rules
    ensure_rules-provides [] rows d known m = absurd m
    ensure_rules-provides (x ∷ ds) rows d known m =
        elim (Option-cases (find (has_rule x.rule) existing)) [
          | inl new ↦
              let rows' = rows ++ seed_row settings x ∷ [] in
              rw new (elim m [
                | inl same ↦
                    rw (← same)
                      (ensure_rules-present ds rows' x.rule (find-seed rows (seed_row settings x)))
                | inr later ↦
                    ensure_rules-provides ds rows' d
                      (λ r e. find-append_present r rows (seed_row settings x ∷ []) (known r e))
                      later
              ])
          | inr (row, old) ↦
              let rows' = map (described x) rows in
              let there : find (has_rule x.rule) existing ≢ none = λ h. cc (h, old) in
              rw old (elim m [
                | inl same ↦ rw (← same) (
                    ensure_rules-present ds rows' x.rule
                      (find-described_present x x.rule rows (known x.rule there)))
                | inr later ↦
                    ensure_rules-provides ds rows' d
                      (λ r e. find-described_present x r rows (known r e)) later
              ])
        ]

  -- After the seeding every defined rule has a row, and the row that a rule had before still has its
  -- threshold, its severity and whether it is enabled.
  pub ensure_default_alert_rules-Keeps :
      (settings : String → F) (rows : List (RuleConfig F)) (rule : String) (c : RuleConfig F)
      → find (has_rule rule) rows ≡ some c
      → All
          (λ d. find (has_rule d.rule) (ensure_default_alert_rules settings rows) ≢ none)
          rule_definitions
        × Keeps (ensure_default_alert_rules settings rows) rule c
  unfolding ensure_default_alert_rules
  ensure_default_alert_rules-Keeps settings rows rule c at = (
    All-Has _ rule_definitions
        (λ d m. ensure_rules-provides settings rows rule_definitions rows d (λ r h. h) m),
    ensure_rules-Keeps settings rows rule_definitions rows rule c
        (c, at, record { threshold = refl; severity = refl; enabled = refl }),
  )
