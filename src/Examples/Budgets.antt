-- ===== src/Examples/Budgets.antt =====
-- An application that has spent its budget.
use sentinellm.Prelude.{◌≡◌, ◌↔◌, refl, false, String, none, some, [], ◌∷◌}
use sentinellm.Float.{fsum}
use sentinellm.Float.Fixed.{ℤ, pos, fixed_float}
use sentinellm.Tables.{Trace, TraceStatus, EvaluationStatus}
use sentinellm.Budget.Spend.{
  BudgetAction, Caches, Db, BudgetStatus, registration_row, day_spend, registration,
  spend_over_the_day, enforces, enforced_budget, admission, refused, live,
}
use sentinellm.Budget.Staleness.{IsFaithful, Backed, enforced_budget-Backed}
use sentinellm.Budget.Enforcement.{Exhausted, refused_iff}

abbrev trace : Trace ℤ
trace = record {
  id = "t1";
  application_id = "shop";
  model = "m";
  status = TraceStatus.ok;
  latency_ms = pos 1_000_000;
  estimated_cost = pos 30_000;
  cache_hit = false;
  prompt_id = none;
  prompt_version = none;
  failed_attempts = [];
  evaluation_status = EvaluationStatus.pending;
  created_at = 50;
}

abbrev db : Db ℤ
db = record {
  applications =
      record {
        id = "a1";
        name = "shop";
        daily_cost_budget = some (pos 20_000);
        budget_action = BudgetAction.block;
      }
      ∷ [];
  traces = trace ∷ [];
  wall = 60;
}

abbrev cold : Caches ℤ
cold = record { registrations = λ k. none; spend = λ k. none }

abbrev spent_out : BudgetStatus ℤ
spent_out = record {
  application_id = "a1";
  application_name = "shop";
  budget = some (pos 20_000);
  action = BudgetAction.block;
  spent = pos 30_000;
}

blocked : (enforced_budget 10 5 db cold "shop").0 ≡ some spent_out
unfolding enforced_budget registration registration_row spend_over_the_day day_spend enforces live
    fsum
blocked = refl

abbrev name_of : String → String
name_of id = "shop"

cold-IsFaithful : IsFaithful (λ m. db) name_of 10 5 cold
cold-IsFaithful = record {
  registration_read = λ application expiry found h. absurd (cc h);
  spend_read = λ id expiry spent h. absurd (cc h);
}

enforced_budget-Backed_example : Backed (λ m. db) name_of 10 5 "shop" spent_out
enforced_budget-Backed_example =
    enforced_budget-Backed (λ m. db) name_of 10 5 cold "shop" spent_out (λ m. (refl, tt))
      cold-IsFaithful blocked

refused_iff_example :
    ((s : BudgetStatus ℤ) × (admission (enforced_budget 0 5 db cold "shop").0 ≡ refused s))
    ↔ Exhausted db (registration_row db "shop")
refused_iff_example = refused_iff 5 db cold "shop"
