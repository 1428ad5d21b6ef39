-- ===== src/Alerting/Coverage.antt =====
-- What a pass reports: every breach that it finds.
use Prim.Native.String
use sentinellm.Prelude.{
  ℕ, ◌≡◌, inl, inr, true, false, eq_refl, eq_iff, String, Option, none, some, List, [], ◌∷◌, Has,
  arith,
}
use sentinellm.Float.{Float}
use sentinellm.Tables.{Trace}
use sentinellm.Budget.Spend.{Application}
use sentinellm.Alerting.Rules.{Direction, above, below, RuleConfig}
use sentinellm.Alerting.Pass.{
  FiredAlert, already_alerted, fire_once, fire_rules, overspent, fire_budgets, AlertDb,
  evaluate_alert_rules, day_of, current_values, spend_of, budget_alert,
}
use sentinellm.Alerting.Spacing.{overspent_lem}

module _ {F : Type 0} where
  -- firing takes no alert away
  fire_once-keeps :
      (now : ℕ) (service asked : Option String) (fired : Option (FiredAlert F)) (rule : String)
      (alerts : List (FiredAlert F))
      → already_alerted alerts now rule asked ≡ true
      → already_alerted (fire_once now service fired alerts) now rule asked ≡ true
  unfolding fire_once already_alerted
  fire_once-keeps now service asked none rule alerts h = h
  fire_once-keeps now service asked (some a) rule alerts h = ground arith

  fire_once-some :
      (now : ℕ) (service : String) (a : FiredAlert F) (alerts : List (FiredAlert F))
      → a.timestamp ≡ now
      → service ≡ a.affected_service
      → already_alerted (fire_once now (some service) (some a) alerts) now a.rule (some service)
        ≡ true
  unfolding fire_once already_alerted
  fire_once-some now service a alerts at same =
      rw same (ground (arith, eq_refl a.rule, eq_refl a.affected_service))

module _ {F : Type 0} ⦃fl : Float F⦄ (now : ℕ) where
  fire_budgets-keeps :
      (day : List (Trace F)) (apps : List (Application F)) (asked : Option String) (rule : String)
      (alerts : List (FiredAlert F))
      → already_alerted alerts now rule asked ≡ true
      → already_alerted (fire_budgets day now apps alerts) now rule asked ≡ true
  unfolding fire_budgets
  fire_budgets-keeps day [] asked rule alerts h = h
  fire_budgets-keeps day (app ∷ apps) asked rule alerts h =
      fire_budgets-keeps day apps asked rule _ (
        fire_once-keeps now (some (String.◌++◌ "app:" app.name)) asked (overspent day now app) rule
          alerts h)

  fire_budgets-covers :
      (day : List (Trace F)) (apps : List (Application F)) (app : Application F) (a : FiredAlert F)
      (alerts : List (FiredAlert F))
      → Has app apps
      → overspent day now app ≡ some a
      → already_alerted
          (fire_budgets day now apps alerts)
          now
          a.rule
          (some (String.◌++◌ "app:" app.name))
        ≡ true
  unfolding fire_budgets
  fire_budgets-covers day [] app a alerts m b = absurd m
  fire_budgets-covers day (x ∷ apps) app a alerts (inl same) b =
      let ((service, rule), at) = overspent_lem day now app a b in
      rw same (
        fire_budgets-keeps day apps (some (String.◌++◌ "app:" app.name)) a.rule _
          (rw b (fire_once-some now (String.◌++◌ "app:" app.name) a alerts at service)))
  fire_budgets-covers day (x ∷ apps) app a alerts (inr later) b =
      fire_budgets-covers day apps app a _ later b

module _ {F : Type 0} ⦃fl : Float F⦄ where
  -- on the side of the threshold that the rule is there to report
  abbrev pub IsWrong : Direction → F → F → Type 0
  IsWrong above current threshold = fl.lt threshold current ≡ true
  IsWrong below current threshold = fl.lt current threshold ≡ true

  overspent_of :
      (day : List (Trace F)) (now : ℕ) (app : Application F) (budget : F)
      → app.daily_cost_budget ≡ some budget
      → fl.le (fl.plus (spend_of day app.id) (spend_of day app.name)) budget ≡ false
      → (a : FiredAlert F) × (overspent day now app ≡ some a)
  unfolding overspent
  overspent_of day now app budget e over = (
    budget_alert now app budget (fl.plus (spend_of day app.id) (spend_of day app.name)),
    ground arith,
  )

module _ {F : Type 0} ⦃fl : Float F⦄ (settings : String → F) (db : AlertDb F) (now : ℕ)
    (configs : List (RuleConfig F)) (alerts : List (FiredAlert F)) where
  abbrev pub after_pass : List (RuleConfig F) × List (FiredAlert F)
  after_pass = evaluate_alert_rules settings db now configs alerts

  -- After a pass, an application with a budget that its spend over the day is not within has an alert
  -- of its own in the last hour.
  pub budgets_covered :
      (app : Application F) (budget : F)
      → Has app db.applications
      → app.daily_cost_budget ≡ some budget
      → fl.le (fl.plus (spend_of (day_of db now) app.id) (spend_of (day_of db now) app.name)) budget
        ≡ false
      → already_alerted after_pass.1 now "app_cost_budget" (some (String.◌++◌ "app:" app.name))
        ≡ true
  unfolding evaluate_alert_rules
  budgets_covered app budget m e over =
      let (a, b) = overspent_of (day_of db now) now app budget e over in
      let named : a.rule ≡ "app_cost_budget" =
        (eq_iff a.rule "app_cost_budget").0 (overspent_lem (day_of db now) now app a b).0.1 in
      rw (← named) (
        fire_budgets-covers now (day_of db now) db.applications app a
          (fire_rules after_pass.0 now (current_values db now) alerts) m b)
