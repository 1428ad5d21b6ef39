-- ===== src/Budget/Spend.antt =====
-- src/sentinellm/services/budget.py, and the admission of a request in `_generate` of
-- src/sentinellm/services/generation.py. The two dictionaries of a replica are a state that the
-- functions return.
use sentinellm.Prelude.{
  ℕ, ◌+◌, ◌-◌, ◌*◌, Bool, true, false, ◌&&◌, ◌||◌, ◌==◌, String, Option, none, some, List, map,
  find, keep, ltb, leb, if◌then◌else◌,
}
use sentinellm.Float.{Float, fmax, fsum}
use sentinellm.Tables.{Trace}

-- `Application.budget_action`
pub data BudgetAction : Type 0 where
  alert downgrade block : BudgetAction

abbrev pub is_alert : BudgetAction → Bool
is_alert BudgetAction.alert = true
is_alert _ = false

abbrev pub is_block : BudgetAction → Bool
is_block BudgetAction.block = true
is_block _ = false

-- `Application`
pub record Application (F : Type 0) : Type 0 where
  pub id : String
  pub name : String
  pub daily_cost_budget : Option F
  pub budget_action : BudgetAction

pub record BudgetStatus (F : Type 0) : Type 0 where
  pub application_id : String
  pub application_name : String
  pub budget : Option F
  pub action : BudgetAction
  pub spent : F

-- `_Registration`
pub record Registration (F : Type 0) : Type 0 where
  pub application_id : String
  pub name : String
  pub budget : Option F
  pub action : BudgetAction

-- `_registrations` and `_spend`: a value with the time at which it expires
pub record Caches (F : Type 0) : Type 0 where
  pub registrations : String → Option (ℕ × Option (Registration F))
  pub spend : String → Option (ℕ × F)

-- What a call reads: the two tables, and the wall clock.
pub record Db (F : Type 0) : Type 0 where
  pub applications : List (Application F)
  pub traces : List (Trace F)
  pub wall : ℕ

-- `BUDGET_WINDOW`, 24 hours
abbrev pub budget_window : ℕ
budget_window = 24 * 3_600 * 1_000_000

module _ {A : Type 0} where
  -- a cached value that is still valid
  unfoldable pub live : ℕ → ℕ → Option (ℕ × A) → Option A
  live ttl now none = none
  live ttl now (some (expiry, v)) = if ltb 0 ttl && ltb now expiry then some v else none

  -- `d[key] = value`
  abbrev pub put : String → A → (String → Option A) → String → Option A
  put key value d k = if k == key then some value else d k

module _ {F : Type 0} where
  abbrev pub register : Application F → Registration F
  register row = record {
    application_id = row.id;
    name = row.name;
    budget = row.daily_cost_budget;
    action = row.budget_action;
  }

  abbrev registered : Option (Application F) → Option (Registration F)
  registered none = none
  registered (some row) = some (register row)

  -- the query of `_registration`
  unfoldable pub registration_row : Db F → String → Option (Registration F)
  registration_row db application =
      registered (find (λ a. a.id == application || a.name == application) db.applications)

  unfoldable pub registration :
      ℕ → ℕ → Db F → Caches F → String → Option (Registration F) × Caches F
  unfolding live
  registration ttl now db caches application =
      let found = registration_row db application in
      elim (live ttl now (caches.registrations application)) [
        | some cached ↦ (cached, caches)
        | none ↦ (
          found,
          if ltb 0 ttl
              then record caches {
                registrations = put application (now + ttl, found) caches.registrations;
              }
              else caches,
        )
      ]

module _ {F : Type 0} ⦃fl : Float F⦄ where
  open fl use {le, minus, decimal}

  -- the query of `spend_over_the_day`
  unfoldable pub day_spend : Db F → String → String → F
  unfolding fsum
  day_spend db application_id application_name = fsum (
      map (λ t. t.estimated_cost)
        (keep
          (λ t.
            (t.application_id == application_id || t.application_id == application_name)
            && leb (db.wall - budget_window) t.created_at)
          db.traces))

  unfoldable pub spend_over_the_day :
      ℕ → ℕ → Db F → Caches F → String → String → Bool → F × Caches F
  unfolding live
  spend_over_the_day ttl now db caches application_id application_name use_cache =
      let spent = day_spend db application_id application_name in
      elim (if use_cache then live ttl now (caches.spend application_id) else none) [
        | some cached ↦ (cached, caches)
        | none ↦ (
          spent,
          if ltb 0 ttl
              then record caches { spend = put application_id (now + ttl, spent) caches.spend }
              else caches,
        )
      ]

  -- `exceeded`
  unfoldable pub exceeded : BudgetStatus F → Bool
  exceeded b = elim b.budget [ none ↦ false | some budget ↦ le budget b.spent ]

  -- `remaining`
  unfoldable pub remaining : BudgetStatus F → Option F
  remaining b = elim b.budget [
    | none ↦ none
    | some budget ↦ some (fmax (decimal 0 0) (minus budget b.spent))
  ]

  abbrev pub status_of : Registration F → F → BudgetStatus F
  status_of r spent = record {
    application_id = r.application_id;
    application_name = r.name;
    budget = r.budget;
    action = r.action;
    spent = spent;
  }

  -- a registration whose budget is enforced
  unfoldable pub enforces : Option (Registration F) → Option (Registration F)
  enforces none = none
  enforces (some r) = elim r.budget [
    | none ↦ none
    | some b ↦ if is_alert r.action then none else some r
  ]

  unfoldable pub enforced_budget :
      ℕ → ℕ → Db F → Caches F → String → Option (BudgetStatus F) × Caches F
  unfolding registration enforces spend_over_the_day
  enforced_budget ttl now db caches application =
      let (found, caches') = registration ttl now db caches application in
      elim (enforces found) [
        | none ↦ (none, caches')
        | some r ↦
            let (spent, caches'') =
              spend_over_the_day ttl now db caches' r.application_id r.name true in
            (some (status_of r spent), caches'')
      ]

  -- `live_budget_status`
  unfoldable pub live_budget_status :
      ℕ → ℕ → Db F → Caches F → Application F → BudgetStatus F × Caches F
  unfolding spend_over_the_day
  live_budget_status ttl now db caches row =
      let (spent, caches') = spend_over_the_day ttl now db caches row.id row.name false in
      (status_of (register row) spent, caches')

-- What admission says of a request: the 402, or the budget with whether to serve it cheaper.
pub data Admission (F : Type 0) : Type 0 where
  refused : BudgetStatus F → Admission F
  admitted : Option (BudgetStatus F) → Bool → Admission F

module _ {F : Type 0} ⦃fl : Float F⦄ where
  unfoldable pub admission : Option (BudgetStatus F) → Admission F
  unfolding exceeded
  admission none = admitted none false
  admission (some b) =
      if exceeded b && is_block b.action then refused b else admitted (some b) (exceeded b)
