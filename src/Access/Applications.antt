-- ===== src/Access/Applications.antt =====
-- The endpoints of src/sentinellm/api/routers/applications.py for the applications themselves. The description
-- of an application is left out.
use sentinellm.Prelude.{
  ℕ, Bool, ◌==◌, String, Option, none, some, List, [], ◌∷◌, ◌++◌, map, any, find, if◌then◌else◌,
}
use sentinellm.Float.{Float}
use sentinellm.Rollout.Operator.{contains}
use sentinellm.Access.Keys.{ApiKey, scope_of, is_scoped}
use sentinellm.Budget.Spend.{
  BudgetAction, Application, BudgetStatus, Caches, Db, exceeded, remaining, live_budget_status,
}

-- a field of a patch: not in the body, or in it with a value or with null
pub data Patch (A : Type 0) : Type 0 where
  unset : Patch A
  set_to : Option A → Patch A

-- `ApplicationCreate`, with the id of the row
pub record ApplicationCreate (F : Type 0) : Type 0 where
  pub id : String
  pub name : String
  pub daily_cost_budget : Option F
  pub budget_action : BudgetAction

-- `ApplicationUpdate`
pub record ApplicationUpdate (F : Type 0) : Type 0 where
  pub daily_cost_budget : Patch F
  pub budget_action : Patch BudgetAction

pub data ApplicationReply (F : Type 0) : Type 0 where
  scoped_creator name_taken application_missing : ApplicationReply F
  application_done : Application F → List (Application F) → ApplicationReply F

abbrev pub patched : {A : Type 0} → Patch A → Option A → Option A
patched unset old = old
patched (set_to new) old = new

-- null does not clear a column that always has a value
abbrev pub patched_value : {A : Type 0} → Patch A → A → A
patched_value unset old = old
patched_value (set_to none) old = old
patched_value (set_to (some new)) old = new

module _ {F : Type 0} where
  abbrev pub new_application : ApplicationCreate F → Application F
  new_application payload = record {
    id = payload.id;
    name = payload.name;
    daily_cost_budget = payload.daily_cost_budget;
    budget_action = payload.budget_action;
  }

  -- the name of an application is unique
  unfoldable pub create_application :
      ApiKey → ApplicationCreate F → List (Application F) → ApplicationReply F
  unfolding scope_of
  create_application actor payload apps =
      if is_scoped (scope_of actor)
      then scoped_creator
      else if any (λ a. a.name == payload.name) apps
      then name_taken
      else application_done (new_application payload) (apps ++ new_application payload ∷ [])

  abbrev pub apply_patch : ApplicationUpdate F → Application F → Application F
  apply_patch payload row = record row {
    daily_cost_budget = patched payload.daily_cost_budget row.daily_cost_budget;
    budget_action = patched_value payload.budget_action row.budget_action;
  }

  -- the row of an id, where the key may see it
  unfoldable pub visible_application :
      ApiKey → String → List (Application F) → Option (Application F)
  unfolding scope_of contains
  visible_application actor id apps = elim (find (λ a. a.id == id) apps) [
    | none ↦ none
    | some row ↦ if contains (scope_of actor) row.id then some row else none
  ]

  unfoldable pub update_application :
      ApiKey → String → ApplicationUpdate F → List (Application F) → ApplicationReply F
  unfolding visible_application
  update_application actor id payload apps = elim (visible_application actor id apps) [
    | none ↦ application_missing
    | some row ↦
        application_done (apply_patch payload row)
          (map (λ a. if a.id == row.id then apply_patch payload a else a) apps)
  ]

-- `BudgetStatusOut`
pub record BudgetOut (F : Type 0) : Type 0 where
  pub application_id : String
  pub daily_cost_budget : Option F
  pub budget_action : BudgetAction
  pub spent_24h : F
  pub remaining : Option F
  pub exceeded : Bool

module _ {F : Type 0} ⦃fl : Float F⦄ where
  abbrev pub budget_out : String → BudgetStatus F → BudgetOut F
  budget_out id b = record {
    application_id = id;
    daily_cost_budget = b.budget;
    budget_action = b.action;
    spent_24h = fl.round b.spent 6;
    remaining = elim (remaining b) [ none ↦ none | some r ↦ some (fl.round r 6) ];
    exceeded = exceeded b;
  }

  -- none is 404
  unfoldable pub get_application_budget :
      ApiKey → String → ℕ → ℕ → Db F → Caches F → List (Application F) → Option (BudgetOut F)
  unfolding visible_application live_budget_status remaining exceeded
  get_application_budget actor id ttl now db caches apps =
      elim (visible_application actor id apps) [
        | none ↦ none
        | some row ↦ some (budget_out row.id (live_budget_status ttl now db caches row).0)
      ]
