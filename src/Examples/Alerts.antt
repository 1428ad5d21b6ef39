-- ===== src/Examples/Alerts.antt =====
-- An hour in which every request fails, of an application that is over its budget.
use sentinellm.Prelude.{
  ◌≡◌, refl, true, false, ◌==◌, String, none, some, List, [], ◌∷◌, find, map, if◌then◌else◌,
}
use sentinellm.Float.Fixed.{ℤ, pos, fixed_float}
use sentinellm.Tables.{Trace, TraceStatus, EvaluationStatus}
use sentinellm.Budget.Spend.{BudgetAction, Application}
use sentinellm.Alerting.Rules.{
  has_rule, Severity, RuleConfig, RuleDefinition, above, ensure_rules, ensure_default_alert_rules,
}
use sentinellm.Alerting.Pass.{FiredAlert, AlertDb, evaluate_alert_rules}
use sentinellm.Access.Keys.{ApiKey, scope_of, require_unscoped}
use sentinellm.Alerting.Operator.{
  RuleUpdate, tune, update_alert_rule, after_seedings, update_alert_rule-lasts,
}
use sentinellm.Alerting.Spacing.{IsSpaced, no_alerts, pass, AlertHistory-IsSpaced}

abbrev settings : String → ℤ
settings attr = if attr == "error_rate_threshold" then pos 500 else pos 1_000_000

abbrev definition : RuleDefinition
definition = record {
  rule = "error_rate";
  default_threshold_attr = "error_rate_threshold";
  severity = Severity.high;
  service = "sentinel-api";
  direction = above;
  description = "Fraction of requests returning an error status in the trailing 1h window.";
}

abbrev tuned : RuleConfig ℤ
tuned = record {
  rule = "error_rate";
  threshold = pos 2_000;
  severity = Severity.low;
  enabled = true;
  description = "";
}

abbrev trace : Trace ℤ
trace = record {
  id = "t1";
  application_id = "shop";
  model = "m";
  status = TraceStatus.error;
  latency_ms = pos 1_000_000;
  estimated_cost = pos 30_000;
  cache_hit = false;
  prompt_id = none;
  prompt_version = none;
  failed_attempts = [];
  evaluation_status = EvaluationStatus.pending;
  created_at = 50;
}

abbrev shop : Application ℤ
shop = record {
  id = "a1";
  name = "shop";
  daily_cost_budget = some (pos 20_000);
  budget_action = BudgetAction.block;
}

abbrev db : AlertDb ℤ
db = record { traces = trace ∷ []; evaluations = []; applications = shop ∷ [] }

abbrev alerts : List (FiredAlert ℤ)
alerts = (evaluate_alert_rules settings db 60 (tuned ∷ []) []).1

AlertHistory-IsSpaced_example : IsSpaced (evaluate_alert_rules settings db 70 (tuned ∷ []) alerts).1
AlertHistory-IsSpaced_example =
    AlertHistory-IsSpaced
      (pass settings db 70 (tuned ∷ []) (pass settings db 60 (tuned ∷ []) no_alerts refl) refl)

abbrev operator : ApiKey
operator = record {
  id = "k";
  application_id = "a1";
  application_name = "shop";
  key_hash = "h";
  role = "write";
  last_used_at = none;
  revoked = false;
  revoked_at = none;
  expires_at = none;
  scoped_to_application = false;
}

abbrev raised_threshold : RuleUpdate ℤ
raised_threshold = record { threshold = some (pos 3_000); enabled = none }

abbrev after_update : List (RuleConfig ℤ)
after_update =
    map (λ r. if has_rule "error_rate" r then tune raised_threshold r else r)
      (ensure_default_alert_rules settings (tuned ∷ []))

update_alert_rule-lasts_example :
    (c : RuleConfig ℤ) × (find
        (has_rule "error_rate")
        (after_seedings ((λ attr. pos 1) ∷ settings ∷ []) after_update)
      ≡ some c)
    × (c.threshold ≡ pos 3_000)
update_alert_rule-lasts_example =
    update_alert_rule-lasts "error_rate" raised_threshold settings ((λ attr. pos 1) ∷ settings ∷ [])
      operator (tuned ∷ []) after_update (pos 3_000) refl
      (unfold update_alert_rule require_unscoped scope_of ensure_default_alert_rules ensure_rules in
        refl)
