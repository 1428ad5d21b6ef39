-- ===== src/Alerting/Operator.antt =====
-- `update_alert_rule` of src/sentinellm/api/routers/alerts.py.
use sentinellm.Prelude.{
  ◌≡◌, refl, ap, ◌∙◌, inl, inr, Bool-cases, Option-cases, find, any-find, arith, Bool, String,
  Option, none, some, List, [], ◌∷◌, map, any, if◌then◌else◌,
}
use sentinellm.Access.Keys.{ApiKey, Denial, require_unscoped}
use sentinellm.Alerting.Rules.{RuleConfig, has_rule, ensure_default_alert_rules}
use sentinellm.Alerting.Defaults.{ensure_default_alert_rules-Keeps}

-- `AlertRuleUpdate`
pub record RuleUpdate (F : Type 0) : Type 0 where
  pub threshold : Option F
  pub enabled : Option Bool

-- the answers 403 and 404, with the rows after the seeding, and the rows after the request
pub data RuleReply (F : Type 0) : Type 0 where
  rule_denied : Denial → RuleReply F
  rule_missing rule_done : List (RuleConfig F) → RuleReply F

abbrev pub or_old : {A : Type 0} → Option A → A → A
or_old none old = old
or_old (some new) old = new

module _ {F : Type 0} where
  abbrev pub tune : RuleUpdate F → RuleConfig F → RuleConfig F
  tune payload row = record row {
    threshold = or_old payload.threshold row.threshold;
    enabled = or_old payload.enabled row.enabled;
  }

  unfoldable pub update_alert_rule :
      (String → F) → ApiKey → String → RuleUpdate F → List (RuleConfig F) → RuleReply F
  unfolding require_unscoped ensure_default_alert_rules
  update_alert_rule settings actor rule payload rows = elim (require_unscoped actor) [
    | some denial ↦ rule_denied denial
    | none ↦
        let seeded = ensure_default_alert_rules settings rows in
        if any (has_rule rule) seeded
        then rule_done (map (λ r. if has_rule rule r then tune payload r else r) seeded)
        else rule_missing seeded
  ]

module _ {F : Type 0} where
  -- the rows after passes of the alerting, each of which seeds them from its settings
  unfoldable pub after_seedings : List (String → F) → List (RuleConfig F) → List (RuleConfig F)
  unfolding ensure_default_alert_rules
  after_seedings [] rows = rows
  after_seedings (settings ∷ later) rows =
      after_seedings later (ensure_default_alert_rules settings rows)

  after_seedings-threshold :
      (later : List (String → F)) (rows : List (RuleConfig F)) (rule : String) (c : RuleConfig F)
      → find (has_rule rule) rows ≡ some c
      → (c' : RuleConfig F) × (find (has_rule rule) (after_seedings later rows) ≡ some c')
        × (c'.threshold ≡ c.threshold)
  unfolding after_seedings
  after_seedings-threshold [] rows rule c at = (c, at, refl)
  after_seedings-threshold (settings ∷ later) rows rule c at =
      let (all, (c', found, tuning)) = ensure_default_alert_rules-Keeps settings rows rule c at in
      let (c'', end, kept) =
        after_seedings-threshold later (ensure_default_alert_rules settings rows) rule c' found in
      (c'', end, kept ∙ tuning.threshold)

module _ {F : Type 0} (rule : String) (payload : RuleUpdate F) where
  abbrev tuned_rows : List (RuleConfig F) → List (RuleConfig F)
  tuned_rows rows = map (λ r. if has_rule rule r then tune payload r else r) rows

  find-tuned_rows :
      (rows : List (RuleConfig F)) (c : RuleConfig F)
      → find (has_rule rule) rows ≡ some c
      → find (has_rule rule) (tuned_rows rows) ≡ some (tune payload c)
  find-tuned_rows [] c h = absurd (cc h)
  find-tuned_rows (r ∷ rows) c h = ground (arith, find-tuned_rows rows c)

  -- A threshold that an operator sets on a rule is the threshold of the rule's row after any number of
  -- later seedings, whatever the settings of each are, while no operator updates the rule again.
  pub update_alert_rule-lasts :
      (settings : String → F) (later : List (String → F)) (actor : ApiKey)
      (rows rows' : List (RuleConfig F)) (x : F)
      → payload.threshold ≡ some x
      → update_alert_rule settings actor rule payload rows ≡ rule_done rows'
      → (c : RuleConfig F) × (find (has_rule rule) (after_seedings later rows') ≡ some c)
        × (c.threshold ≡ x)
  unfolding update_alert_rule
  update_alert_rule-lasts settings later actor rows rows' x set done =
      elim (Option-cases (require_unscoped actor)) [
        | inr (denial, e) ↦ absurd (cc (rw (e, update_alert_rule) at done))
        | inl free ↦
            let seeded = ensure_default_alert_rules settings rows in
            elim (Bool-cases (any (has_rule rule) seeded)) [
              | inr missing ↦ absurd (cc (rw (free, missing, update_alert_rule) at done))
              | inl there ↦
                  let (c, at) = any-find (has_rule rule) seeded there in
                  let same : rows' ≡ tuned_rows seeded =
                    cc (rw (free, there, update_alert_rule) at done) in
                  let (c', found, kept) =
                    after_seedings-threshold later (tuned_rows seeded) rule (tune payload c)
                      (find-tuned_rows seeded c at) in
                  (c', rw same found, kept ∙ ap (λ o. or_old o c.threshold) set)
            ]
      ]
