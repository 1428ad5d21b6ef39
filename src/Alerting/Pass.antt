-- ===== src/Alerting/Pass.antt =====
-- `evaluate_alert_rules` of src/sentinellm/worker/tasks/alerting.py, with the budgets of the
-- applications. A pass reads the clock once; the alerts are a list, the newest first.
use Prim.Native.String
use sentinellm.Prelude.{
  ℕ, ◌-◌, ◌*◌, Bool, true, ◌&&◌, ◌==◌, String, Option, none, some, List, [], ◌∷◌, ◌++◌, map, find,
  keep, any, length, get_elem?, ltb, leb, if◌then◌else◌,
}
use sentinellm.Float.{Float, fsum}
use sentinellm.Tables.{Trace, Evaluation, is_error}
use sentinellm.Budget.Spend.{Application, budget_window}
use sentinellm.Alerting.Rules.{
  Severity, medium, Direction, above, below, RuleDefinition, rule_definitions, RuleConfig, has_rule,
  ensure_default_alert_rules,
}

-- `_WINDOW` and `_DEDUPE_WINDOW`, one hour
abbrev pub alert_window : ℕ
alert_window = 3_600 * 1_000_000

abbrev pub dedupe_window : ℕ
dedupe_window = 3_600 * 1_000_000

-- A row of `alerts`, as this pass writes it: `affected_model` is none.
pub record FiredAlert (F : Type 0) : Type 0 where
  pub rule : String
  pub current_value : F
  pub threshold : F
  pub severity : Severity
  pub affected_service : String
  pub timestamp : ℕ

abbrev service_matches : Option String → String → Bool
service_matches none service = true
service_matches (some s) service = service == s

-- The tables that a pass reads.
pub record AlertDb (F : Type 0) : Type 0 where
  pub traces : List (Trace F)
  pub evaluations : List (Evaluation F)
  pub applications : List (Application F)

module _ {F : Type 0} where
  unfoldable pub already_alerted : List (FiredAlert F) → ℕ → String → Option String → Bool
  already_alerted alerts now rule service =
      any
        (λ a.
          a.rule == rule
          && leb (now - dedupe_window) a.timestamp
          && service_matches service a.affected_service)
        alerts

  -- an alert fires unless the last hour has one
  unfoldable pub fire_once :
      ℕ → Option String → Option (FiredAlert F) → List (FiredAlert F) → List (FiredAlert F)
  fire_once now service none alerts = alerts
  fire_once now service (some a) alerts =
      if already_alerted alerts now a.rule service then alerts else a ∷ alerts

  -- the keys of a `GROUP BY application_id`, in the order of their first rows
  unfoldable pub applications_of : List String → List (Trace F) → List String
  applications_of seen [] = []
  applications_of seen (t ∷ ts) =
      let rest = applications_of (t.application_id ∷ seen) ts in
      if any (λ s. s == t.application_id) seen then rest else t.application_id ∷ rest

-- `min(len(latencies) - 1, int(0.95 * len(latencies)))`
abbrev pub p95_index : (F : Type 0) ⦃fl : Float F⦄ → ℕ → ℕ
p95_index F ⦃fl⦄ n =
    let at = fl.truncate (fl.times (fl.decimal 95 2) (fl.of_nat n)) in
    if ltb at (n - 1) then at else n - 1

module _ {F : Type 0} ⦃fl : Float F⦄ where
  open fl use {of_nat, lt, le, plus, over, round}

  -- `sorted` of numbers, equal ones in their order
  unfoldable pub insert_value : F → List F → List F
  insert_value x [] = x ∷ []
  insert_value x (y ∷ ys) = let rest = insert_value x ys in if lt x y then x ∷ y ∷ ys else y ∷ rest

  unfoldable pub sorted_from : List F → List F → List F
  unfolding insert_value
  sorted_from acc [] = acc
  sorted_from acc (x ∷ xs) = sorted_from (insert_value x acc) xs

  unfoldable pub p95_of : List F → Option F
  unfolding sorted_from
  p95_of latencies = get_elem? (sorted_from [] latencies) (p95_index F (length latencies))

  abbrev pub mean_of : (Evaluation F → F) → List (Evaluation F) → F
  mean_of score es = over (fsum (map score es)) (of_nat (length es))

  -- the day's cost of one application, 0 without traces
  unfoldable pub spend_of : List (Trace F) → String → F
  spend_of day app = fsum (map (λ t. t.estimated_cost) (keep (λ t. t.application_id == app) day))

  abbrev pub day_of : AlertDb F → ℕ → List (Trace F)
  day_of db now = keep (λ t. leb (now - budget_window) t.created_at) db.traces

  abbrev pub hour_of : AlertDb F → ℕ → List (Trace F)
  hour_of db now = keep (λ t. leb (now - alert_window) t.created_at) db.traces

  -- `_spend_over_the_day`, the total
  unfoldable pub total_spend : List (Trace F) → F
  unfolding spend_of applications_of
  total_spend day = fsum (map (spend_of day) (applications_of [] day))

  unfoldable pub quality_values : List (Evaluation F) → List (String × F)
  quality_values [] = []
  quality_values (e ∷ es) =
      ("quality_score", mean_of (λ x. x.overall_quality) (e ∷ es))
      ∷ ("hallucination_rate", mean_of (λ x. x.hallucination_score) (e ∷ es))
      ∷ []

  abbrev pub latency_value : Option F → List (String × F)
  latency_value none = []
  latency_value (some v) = ("p95_latency", v) ∷ []

  unfoldable pub traffic_values : List (Evaluation F) → List (Trace F) → List (String × F)
  unfolding quality_values p95_of
  traffic_values evaluations [] = []
  traffic_values evaluations (t ∷ ts) =
      (
        "error_rate",
        over (of_nat (length (keep (λ x. is_error x.status) (t ∷ ts)))) (of_nat (length (t ∷ ts))),
      )
        ∷ latency_value (p95_of (map (λ x. x.latency_ms) (t ∷ ts)))
      ++ quality_values (keep (λ e. any (λ x. x.id == e.trace_id) (t ∷ ts)) evaluations)

  -- `current_values`
  unfoldable pub current_values : AlertDb F → ℕ → List (String × F)
  unfolding traffic_values total_spend
  current_values db now =
      ("daily_cost", total_spend (day_of db now)) ∷ traffic_values db.evaluations (hour_of db now)

  unfoldable pub breached : Direction → F → F → Bool
  breached above current threshold = lt threshold current
  breached below current threshold = lt current threshold

  -- `_fire`, for the two callers
  abbrev pub rule_alert : ℕ → String → F → RuleConfig F → RuleDefinition → FiredAlert F
  rule_alert now rule current c d = record {
    rule = rule;
    current_value = round current 4;
    threshold = c.threshold;
    severity = c.severity;
    affected_service = d.service;
    timestamp = now;
  }

  abbrev pub budget_alert : ℕ → Application F → F → F → FiredAlert F
  budget_alert now app budget current = record {
    rule = "app_cost_budget";
    current_value = round current 4;
    threshold = budget;
    severity = medium;
    affected_service = String.◌++◌ "app:" app.name;
    timestamp = now;
  }

  -- a rule that is configured and enabled, and on the wrong side of its threshold: its alert
  unfoldable pub breach : List (RuleConfig F) → ℕ → String → F → Option (FiredAlert F)
  unfolding breached
  breach configs now rule current = elim (find (has_rule rule) configs) [
    | none ↦ none
    | some c ↦ elim (find (λ d. d.rule == rule) rule_definitions) [
      | none ↦ none
      | some d ↦
          if c.enabled && breached d.direction current c.threshold
          then some (rule_alert now rule current c d)
          else none
    ]
  ]

  -- the loop over the current values
  unfoldable pub fire_rules :
      List (RuleConfig F) → ℕ → List (String × F) → List (FiredAlert F) → List (FiredAlert F)
  unfolding breach fire_once
  fire_rules configs now [] alerts = alerts
  fire_rules configs now ((rule, current) ∷ values) alerts =
      fire_rules configs now values (fire_once now none (breach configs now rule current) alerts)

  -- an application over its budget: its alert
  unfoldable pub overspent : List (Trace F) → ℕ → Application F → Option (FiredAlert F)
  overspent day now app = elim app.daily_cost_budget [
    | none ↦ none
    | some budget ↦
        let current = plus (spend_of day app.id) (spend_of day app.name) in
        if le current budget then none else some (budget_alert now app budget current)
  ]

  -- `_evaluate_application_budgets`
  unfoldable pub fire_budgets :
      List (Trace F) → ℕ → List (Application F) → List (FiredAlert F) → List (FiredAlert F)
  unfolding overspent fire_once
  fire_budgets day now [] alerts = alerts
  fire_budgets day now (app ∷ apps) alerts =
      fire_budgets day now apps
        (fire_once now (some (String.◌++◌ "app:" app.name)) (overspent day now app) alerts)

  -- the tables of rules and of alerts after the pass
  unfoldable pub evaluate_alert_rules :
      (String → F)
      → AlertDb F
      → ℕ
      → List (RuleConfig F)
      → List (FiredAlert F)
      → List (RuleConfig F) × List (FiredAlert F)
  unfolding ensure_default_alert_rules current_values fire_rules fire_budgets
  evaluate_alert_rules settings db now configs alerts =
      let rules = ensure_default_alert_rules settings configs in
      (
        rules,
        fire_budgets (day_of db now) now db.applications
            (fire_rules rules now (current_values db now) alerts),
      )
