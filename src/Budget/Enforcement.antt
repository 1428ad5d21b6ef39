-- ===== src/Budget/Enforcement.antt =====
-- When a request is refused for its budget.
use sentinellm.Prelude.{
  ℕ, ◌≡◌, ◌↔◌, refl, sym, ◌∙◌, ap, inl, inr, true, String, Option, none, some, Option-cases, arith,
}
use sentinellm.Float.{Float}
use sentinellm.Budget.Spend.{
  block, Registration, Caches, Db, BudgetStatus, live, registration_row, registration, day_spend,
  spend_over_the_day, exceeded, enforces, status_of, enforced_budget, refused, admission,
}

live_off : {A : Type 0} (now : ℕ) (o : Option (ℕ × A)) → live 0 now o ≡ none
unfolding live
live_off now none = refl
live_off now (some (expiry, v)) = refl

module _ {F : Type 0} ⦃fl : Float F⦄ where
  open fl use {le}

  -- what the budget of a registration comes to, with nothing cached
  abbrev direct : Db F → Option (Registration F) → Option (BudgetStatus F)
  direct db none = none
  direct db (some r) = some (status_of r (day_spend db r.application_id r.name))

  registration_off :
      (now : ℕ) (db : Db F) (caches : Caches F) (application : String)
      → registration 0 now db caches application ≡ (registration_row db application, caches)
  unfolding registration registration_row
  registration_off now db caches application =
      rw (live_off now (caches.registrations application), registration)

  spend_off :
      (now : ℕ) (db : Db F) (caches : Caches F) (id name : String)
      → spend_over_the_day 0 now db caches id name true ≡ (day_spend db id name, caches)
  unfolding spend_over_the_day day_spend
  spend_off now db caches id name = rw (live_off now (caches.spend id), spend_over_the_day)

  -- what follows on the registration, in `enforced_budget`
  abbrev from_registration : ℕ → Db F → Option (Registration F) × Caches F → Option (BudgetStatus F)
  from_registration now db found = elim (enforces found.0) [
    | none ↦ none
    | some r ↦
        some (status_of r (spend_over_the_day 0 now db found.1 r.application_id r.name true).0)
  ]

  from_registration_lem :
      (now : ℕ) (db : Db F) (caches : Caches F) (application : String)
      → from_registration now db (registration 0 now db caches application)
        ≡ (enforced_budget 0 now db caches application).0
  unfolding enforced_budget
  from_registration_lem now db caches application =
      elim (Option-cases (enforces (registration 0 now db caches application).0)) [
        | inl off ↦ rw (off, enforced_budget, from_registration)
        | inr (r, on) ↦ rw (on, enforced_budget, from_registration)
      ]

  enforced_budget_off :
      (now : ℕ) (db : Db F) (caches : Caches F) (application : String)
      → (enforced_budget 0 now db caches application).0
        ≡ direct db (enforces (registration_row db application))
  enforced_budget_off now db caches application =
      sym (from_registration_lem now db caches application)
      ∙ ap (from_registration now db) (registration_off now db caches application)
      ∙ elim (Option-cases (enforces (registration_row db application))) [
        | inl off ↦ rw (off, from_registration)
        | inr (r, on) ↦ rw (on, spend_off now db caches r.application_id r.name, from_registration)
      ]

  -- A registration that refuses a request.
  abbrev pub Exhausted : Db F → Option (Registration F) → Type 0
  Exhausted db o =
      (r : Registration F) × (budget : F) × (o ≡ some r)
      × (r.budget ≡ some budget)
      × (r.action ≡ block)
      × (le budget (day_spend db r.application_id r.name) ≡ true)

  direct-refused :
      (db : Db F) (o : Option (Registration F)) (s : BudgetStatus F)
      → admission (direct db (enforces o)) ≡ refused s
      → Exhausted db o
  unfolding admission enforces exceeded
  direct-refused db none s h = absurd (cc h)
  direct-refused db (some r) s h = elim (Option-cases r.budget) [
    | inl free ↦ absurd (ground arith)
    | inr (b, e) ↦ (r, b, refl, e, ground arith, ground arith)
  ]

  Exhausted-refused :
      (db : Db F) (o : Option (Registration F))
      → Exhausted db o
      → (s : BudgetStatus F) × (admission (direct db (enforces o)) ≡ refused s)
  unfolding admission enforces exceeded
  Exhausted-refused db o (r, b, e, h, a, over) =
      (status_of r (day_spend db r.application_id r.name), rw e (ground arith))

  -- With nothing cached, a request is refused exactly when its application is registered with a
  -- budget, the action is to block, and the day's spend has reached the budget.
  pub refused_iff :
      (now : ℕ) (db : Db F) (caches : Caches F) (application : String)
      → ((s : BudgetStatus F) × (admission (enforced_budget 0 now db caches application).0
            ≡ refused s))
        ↔ Exhausted db (registration_row db application)
  refused_iff now db caches application = rw (enforced_budget_off now db caches application) (
    λ (s, h). direct-refused db (registration_row db application) s h,
    λ x. Exhausted-refused db (registration_row db application) x,
  )
