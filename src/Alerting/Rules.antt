-- ===== src/Alerting/Rules.antt =====
-- `RULE_DEFINITIONS` and `ensure_default_alert_rules` of src/sentinellm/worker/tasks/alerting.py.
use sentinellm.Prelude.{
  Bool, true, ◌==◌, String, none, some, List, [], ◌∷◌, ◌++◌, map, find, if◌then◌else◌,
}

pub data Severity : Type 0 where
  low medium high critical : Severity

pub data Direction : Type 0 where
  above below : Direction

pub record RuleDefinition : Type 0 where
  pub rule : String
  pub default_threshold_attr : String
  pub severity : Severity
  pub service : String
  pub direction : Direction
  pub description : String

abbrev pub rule_definitions : List RuleDefinition
rule_definitions =
    record {
      rule = "error_rate";
      default_threshold_attr = "error_rate_threshold";
      severity = high;
      service = "sentinel-api";
      direction = above;
      description = "Fraction of requests returning an error status in the trailing 1h window.";
    }
    ∷ record {
      rule = "p95_latency";
      default_threshold_attr = "p95_latency_threshold_ms";
      severity = medium;
      service = "sentinel-api";
      direction = above;
      description = "P95 end-to-end request latency (ms) in the trailing 1h window.";
    }
    ∷ record {
      rule = "daily_cost";
      default_threshold_attr = "daily_cost_budget";
      severity = medium;
      service = "sentinel-router";
      direction = above;
      description = "Total estimated LLM spend (USD) in the trailing 24h window.";
    }
    ∷ record {
      rule = "quality_score";
      default_threshold_attr = "quality_score_threshold";
      severity = high;
      service = "sentinel-evaluator";
      direction = below;
      description = "Average overall_quality across evaluated traces in the trailing 1h window.";
    }
    ∷ record {
      rule = "hallucination_rate";
      default_threshold_attr = "hallucination_rate_threshold";
      severity = critical;
      service = "sentinel-evaluator";
      direction = above;
      description =
          "Average hallucination_score across evaluated traces in the trailing 1h window.";
    }
    ∷ []

-- `AlertRuleConfig`: the row of a rule, which is unique
pub record RuleConfig (F : Type 0) : Type 0 where
  pub rule : String
  pub threshold : F
  pub severity : Severity
  pub enabled : Bool
  pub description : String

module _ {F : Type 0} where
  abbrev pub has_rule : String → RuleConfig F → Bool
  has_rule rule row = row.rule == rule

  -- `settings` gives the values of the environment by their attributes
  abbrev pub seed_row : (String → F) → RuleDefinition → RuleConfig F
  seed_row settings d = record {
    rule = d.rule;
    threshold = settings d.default_threshold_attr;
    severity = d.severity;
    enabled = true;
    description = d.description;
  }

  -- only the prose of a row is refreshed
  abbrev pub described : RuleDefinition → RuleConfig F → RuleConfig F
  described d row = if row.rule == d.rule then record row { description = d.description } else row

  -- the loop over the definitions; `existing` are the rows before the pass
  unfoldable pub ensure_rules :
      (String → F)
      → List (RuleConfig F)
      → List RuleDefinition
      → List (RuleConfig F)
      → List (RuleConfig F)
  ensure_rules settings existing [] rows = rows
  ensure_rules settings existing (d ∷ ds) rows =
      ensure_rules settings existing ds (elim (find (has_rule d.rule) existing) [
        | some row ↦ map (described d) rows
        | none ↦ rows ++ seed_row settings d ∷ []
      ])

  -- the rows after the pass
  unfoldable pub ensure_default_alert_rules :
      (String → F) → List (RuleConfig F) → List (RuleConfig F)
  unfolding ensure_rules
  ensure_default_alert_rules settings rows = ensure_rules settings rows rule_definitions rows
