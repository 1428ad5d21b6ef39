-- ===== src/Alerting/Spacing.antt =====
-- A threshold that stays breached does not repeat its alert within the hour.
use Prim.Native.String
use sentinellm.Prelude.{
  ℕ, ◌+◌, ◌≡◌, refl, inl, inr, Bool, Bool-cases, true, false, not, ◌&&◌, ◌||◌, ◌==◌, eq_iff, String,
  Option, none, some, List, [], ◌∷◌, any, map, leb, All, All-append, arith,
}
use sentinellm.Float.{Float}
use sentinellm.Tables.{Trace, Evaluation}
use sentinellm.Budget.Spend.{Application}
use sentinellm.Alerting.Rules.{rule_definitions, RuleConfig, ensure_default_alert_rules}
use sentinellm.Alerting.Pass.{
  dedupe_window, FiredAlert, already_alerted, breach, fire_once, fire_rules, overspent,
  fire_budgets, AlertDb, evaluate_alert_rules, day_of, hour_of, current_values, quality_values,
  traffic_values, latency_value, p95_of,
}

-- a rule that a pass over the thresholds writes alerts for
abbrev pub is_threshold : String → Bool
is_threshold rule = any (λ d. d.rule == rule) rule_definitions || rule == "app_cost_budget"

module _ {F : Type 0} where
  -- the same rule, and for the budget of an application the same application
  abbrev pub same_subject : FiredAlert F → FiredAlert F → Bool
  same_subject a o =
      o.rule == a.rule
      && (not (a.rule == "app_cost_budget") || o.affected_service == a.affected_service)

  -- an alert of a threshold that comes within an hour of an older one on its subject
  abbrev pub repeats : FiredAlert F → FiredAlert F → Bool
  repeats a o =
      is_threshold a.rule && same_subject a o && leb a.timestamp (o.timestamp + dedupe_window)

  abbrev pub IsLate : FiredAlert F → FiredAlert F → Type 0
  IsLate a o = repeats a o ≡ false

  -- of a table with the newest alert first
  abbrev pub IsSpaced : List (FiredAlert F) → Type 0
  IsSpaced [] = Unit
  IsSpaced (a ∷ older) = All (IsLate a) older × IsSpaced older

  -- how a pass asks for an alert: by the rule alone, or by the application too
  abbrev Asked : Option String → FiredAlert F → Type 0
  Asked none a = (a.rule == "app_cost_budget") ≡ false
  Asked (some service) a = (service ≡ a.affected_service) × ((a.rule == "app_cost_budget") ≡ true)

  quiet-IsLate :
      (alerts : List (FiredAlert F)) (now : ℕ) (service : Option String) (a : FiredAlert F)
      → Asked service a
      → a.timestamp ≡ now
      → already_alerted alerts now a.rule service ≡ false
      → All (IsLate a) alerts
  unfolding already_alerted
  quiet-IsLate [] now service a asked at quiet = tt
  quiet-IsLate (o ∷ alerts) now none a asked at quiet =
      (ground arith, quiet-IsLate alerts now none a asked at (ground arith))
  quiet-IsLate (o ∷ alerts) now (some s) a asked at quiet =
      (ground (arith, asked.0, asked.1), quiet-IsLate alerts now (some s) a asked at (ground arith))

  fire_once-IsSpaced :
      (now : ℕ) (service : Option String) (fired : Option (FiredAlert F))
      (alerts : List (FiredAlert F))
      → ((a : FiredAlert F) → fired ≡ some a → Asked service a × (a.timestamp ≡ now))
      → IsSpaced alerts
      → IsSpaced (fire_once now service fired alerts)
  unfolding fire_once
  fire_once-IsSpaced now service none alerts h spaced = spaced
  fire_once-IsSpaced now service (some a) alerts h spaced =
      let (asked, at) = h a refl in
      elim (Bool-cases (already_alerted alerts now a.rule service)) [
        | inl recent ↦ rw recent spaced
        | inr quiet ↦ rw quiet (quiet-IsLate alerts now service a asked at quiet, spaced)
      ]

module _ {F : Type 0} ⦃fl : Float F⦄ where
  -- the rules of the values do not name the budgets of applications
  abbrev Named : List (String × F) → Type 0
  Named = All (λ v. (v.0 == "app_cost_budget") ≡ false)

  pub breach_lem :
      (configs : List (RuleConfig F)) (now : ℕ) (rule : String) (current : F) (a : FiredAlert F)
      → breach configs now rule current ≡ some a
      → (a.rule ≡ rule) × (a.timestamp ≡ now)
  unfolding breach
  breach_lem configs now rule current a h = (ground arith, ground arith)

  pub overspent_lem :
      (day : List (Trace F)) (now : ℕ) (app : Application F) (a : FiredAlert F)
      → overspent day now app ≡ some a
      → ((String.◌++◌ "app:" app.name ≡ a.affected_service)
          × ((a.rule == "app_cost_budget") ≡ true))
        × (a.timestamp ≡ now)
  unfolding overspent
  overspent_lem day now app a h = ground (arith, eq_iff a.rule "app_cost_budget")

  fire_rules-IsSpaced :
      (configs : List (RuleConfig F)) (now : ℕ) (values : List (String × F))
      (alerts : List (FiredAlert F))
      → Named values
      → IsSpaced alerts
      → IsSpaced (fire_rules configs now values alerts)
  unfolding fire_rules
  fire_rules-IsSpaced configs now [] alerts named spaced = spaced
  fire_rules-IsSpaced configs now ((rule, current) ∷ values) alerts (n, ns) spaced =
      fire_rules-IsSpaced configs now values
        (fire_once now none (breach configs now rule current) alerts) ns
        (fire_once-IsSpaced now none (breach configs now rule current) alerts
          (λ a e. let (r, t) = breach_lem configs now rule current a e in (rw r n, t)) spaced)

  fire_budgets-IsSpaced :
      (day : List (Trace F)) (now : ℕ) (apps : List (Application F)) (alerts : List (FiredAlert F))
      → IsSpaced alerts
      → IsSpaced (fire_budgets day now apps alerts)
  unfolding fire_budgets
  fire_budgets-IsSpaced day now [] alerts spaced = spaced
  fire_budgets-IsSpaced day now (app ∷ apps) alerts spaced =
      let service = some (String.◌++◌ "app:" app.name) in
      fire_budgets-IsSpaced day now apps (fire_once now service (overspent day now app) alerts) (
        fire_once-IsSpaced now service (overspent day now app) alerts
          (λ a e. overspent_lem day now app a e) spaced)

  quality_values-Named : (es : List (Evaluation F)) → Named (quality_values es)
  unfolding quality_values
  quality_values-Named [] = tt
  quality_values-Named (e ∷ es) = (refl, (refl, tt))

  traffic_values-Named :
      (es : List (Evaluation F)) (ts : List (Trace F)) → Named (traffic_values es ts)
  unfolding traffic_values
  traffic_values-Named es [] = tt
  traffic_values-Named es (t ∷ ts) = (
    refl,
    All-append _ (latency_value (p95_of (map (λ x. x.latency_ms) (t ∷ ts)))) _
        (elim (p95_of (map (λ x. x.latency_ms) (t ∷ ts))) as (λ o. Named (latency_value o)) [
          | none ↦ tt
          | some v ↦ (refl, tt)
        ])
        (quality_values-Named _),
  )

  evaluate_alert_rules-IsSpaced :
      (settings : String → F) (db : AlertDb F) (now : ℕ) (configs : List (RuleConfig F))
      (alerts : List (FiredAlert F))
      → IsSpaced alerts
      → IsSpaced (evaluate_alert_rules settings db now configs alerts).1
  unfolding evaluate_alert_rules current_values
  evaluate_alert_rules-IsSpaced settings db now configs alerts spaced =
      fire_budgets-IsSpaced (day_of db now) now db.applications _ (
        fire_rules-IsSpaced (ensure_default_alert_rules settings configs) now
          (current_values db now) alerts
          (refl, traffic_values-Named db.evaluations (hour_of db now)) spaced)

  -- What comes to the table of alerts: the alerts of a pass, at any time and on any data, or one that
  -- another part of the program writes under a rule of its own.
  pub data AlertHistory : List (FiredAlert F) → Type 0 where
    no_alerts : AlertHistory []
    pass :
        {alerts after : List (FiredAlert F)} (settings : String → F) (db : AlertDb F) (now : ℕ)
        (configs : List (RuleConfig F))
        → AlertHistory alerts
        → after ≡ (evaluate_alert_rules settings db now configs alerts).1
        → AlertHistory after
    foreign :
        {alerts : List (FiredAlert F)} (a : FiredAlert F)
        → AlertHistory alerts
        → is_threshold a.rule ≡ false
        → AlertHistory (a ∷ alerts)

  foreign-IsLate :
      (a : FiredAlert F) (alerts : List (FiredAlert F))
      → is_threshold a.rule ≡ false
      → All (IsLate a) alerts
  foreign-IsLate a [] h = tt
  foreign-IsLate a (o ∷ alerts) h = (rw h refl, foreign-IsLate a alerts h)

  -- Through every history of passes, an alert of a threshold comes more than an hour after every older
  -- alert of its rule, or for the budget of an application, of that application.
  pub AlertHistory-IsSpaced : {alerts : List (FiredAlert F)} → AlertHistory alerts → IsSpaced alerts
  AlertHistory-IsSpaced no_alerts = tt
  AlertHistory-IsSpaced (pass {alerts = alerts} settings db now configs before e) =
      rw e (
        evaluate_alert_rules-IsSpaced settings db now configs alerts (AlertHistory-IsSpaced before))
  AlertHistory-IsSpaced (foreign {alerts = alerts} a before other) =
      (foreign-IsLate a alerts other, AlertHistory-IsSpaced before)
