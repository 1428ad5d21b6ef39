-- ===== src/Budget/Staleness.antt =====
-- How old the figures are on which a budget is enforced.
use sentinellm.Prelude.{
  ℕ, ◌+◌, ◌≤◌, ◌<◌, ◌≡◌, refl, inl, inr, ◌⊎◌, Bool-cases, true, ◌==◌, eq_iff, String, Option, none,
  some, Option-cases, ◌∙◌, subst, All, find-All, arith, ltb, find, sym, ap, ◌||◌,
}
use sentinellm.Float.{Float}
use sentinellm.Budget.Spend.{
  Application, Registration, Caches, Db, BudgetStatus, live, put, registration_row, registration,
  day_spend, spend_over_the_day, enforces, status_of, enforced_budget,
}

-- A moment at which a figure was read that is used `now`.
abbrev pub Recent : ℕ → ℕ → ℕ → Type 0
Recent ttl now m = (m ≤ now) × ((m ≡ now) ⊎ (now < m + ttl))

module _ {F : Type 0} ⦃fl : Float F⦄ (db : ℕ → Db F) (name_of : String → String) (ttl : ℕ) where
  -- Every cached value was read from the database, no later than `now`, and expires `ttl` after that.
  pub record IsFaithful (now : ℕ) (caches : Caches F) : Type 0 where
    pub registration_read :
        (application : String) (expiry : ℕ) (found : Option (Registration F))
        → caches.registrations application ≡ some (expiry, found)
        → (m : ℕ) × (m ≤ now) × (expiry ≡ m + ttl) × (found ≡ registration_row (db m) application)
    pub spend_read :
        (id : String) (expiry : ℕ) (spent : F)
        → caches.spend id ≡ some (expiry, spent)
        → (m : ℕ) × (m ≤ now) × (expiry ≡ m + ttl) × (spent ≡ day_spend (db m) id (name_of id))

  live-some :
      {A : Type 0} (now : ℕ) (o : Option (ℕ × A)) (v : A)
      → live ttl now o ≡ some v
      → (expiry : ℕ) × (o ≡ some (expiry, v)) × (now < expiry)
  unfolding live
  live-some now none v h = absurd (cc h)
  live-some now (some (expiry, x)) v h = (expiry, ground arith, ground arith)

  put-cases :
      {A : Type 0} (key k : String) (v w : A) (d : String → Option A)
      → put key v d k ≡ some w
      → ((k ≡ key) × (v ≡ w)) ⊎ (d k ≡ some w)
  put-cases key k v w d h = ground (arith, eq_iff k key)

  put_registration-IsFaithful :
      (now : ℕ) (caches : Caches F) (application : String)
      → IsFaithful now caches
      → IsFaithful now (record caches {
        registrations =
            put application (now + ttl, registration_row (db now) application) caches.registrations;
      })
  put_registration-IsFaithful now caches application f = record {
    registration_read = λ k expiry found h.
        elim (put-cases application k (now + ttl, registration_row (db now) application)
          (expiry, found) caches.registrations h) [
            | inl (same, e) ↦
                (now, omega arith, sym (ap (λ x. x.0) e), rw same (sym (ap (λ x. x.1) e)))
            | inr old ↦ f.registration_read k expiry found old
          ];
    spend_read = f.spend_read;
  }

  put_spend-IsFaithful :
      (now : ℕ) (caches : Caches F) (id : String)
      → IsFaithful now caches
      → IsFaithful now (record caches {
        spend = put id (now + ttl, day_spend (db now) id (name_of id)) caches.spend;
      })
  put_spend-IsFaithful now caches id f = record {
    registration_read = f.registration_read;
    spend_read = λ k expiry spent h.
        elim (put-cases id k (now + ttl, day_spend (db now) id (name_of id)) (expiry, spent)
          caches.spend h) [
            | inl (same, e) ↦
                (now, omega arith, sym (ap (λ x. x.0) e), rw same (sym (ap (λ x. x.1) e)))
            | inr old ↦ f.spend_read k expiry spent old
          ];
  }

  registration-IsFaithful :
      (now : ℕ) (caches : Caches F) (application : String)
      → IsFaithful now caches
      → let (found, caches') = registration ttl now (db now) caches application in
        IsFaithful now caches'
        × (m : ℕ) × Recent ttl now m
        × (found ≡ registration_row (db m) application)
  unfolding registration
  registration-IsFaithful now caches application f =
      elim (Option-cases (live ttl now (caches.registrations application))) [
        | inl miss ↦
            rw (miss, registration)
              (
                elim (Bool-cases (ltb 0 ttl)) [
                  | inl on ↦ rw on (put_registration-IsFaithful now caches application f)
                  | inr off ↦ rw off f
                ],
                now,
                (omega arith, inl refl),
                refl,
              )
        | inr (found, h) ↦
            let (expiry, entry, valid) = live-some now (caches.registrations application) found h in
            let (m, early, at, read) = f.registration_read application expiry found entry in
            rw (h, registration) (f, m, (early, inr (omega arith)), read)
      ]

  spend_over_the_day-IsFaithful :
      (now : ℕ) (caches : Caches F) (id : String)
      → IsFaithful now caches
      → let (spent, caches') = spend_over_the_day ttl now (db now) caches id (name_of id) true in
        IsFaithful now caches'
        × (m : ℕ) × Recent ttl now m
        × (spent ≡ day_spend (db m) id (name_of id))
  unfolding spend_over_the_day
  spend_over_the_day-IsFaithful now caches id f =
      elim (Option-cases (live ttl now (caches.spend id))) [
        | inl miss ↦
            rw (miss, spend_over_the_day)
              (
                elim (Bool-cases (ltb 0 ttl)) [
                  | inl on ↦ rw on (put_spend-IsFaithful now caches id f)
                  | inr off ↦ rw off f
                ],
                now,
                (omega arith, inl refl),
                refl,
              )
        | inr (spent, h) ↦
            let (expiry, entry, valid) = live-some now (caches.spend id) spent h in
            let (m, early, at, read) = f.spend_read id expiry spent entry in
            rw (h, spend_over_the_day) (f, m, (early, inr (omega arith)), read)
      ]

  -- applications keep their names
  abbrev pub NamesFixed : Type 0
  NamesFixed = (m : ℕ) → All (λ a. a.name ≡ name_of a.id) (db m).applications

  registration_row-name :
      (m : ℕ) (application : String) (r : Registration F)
      → NamesFixed
      → registration_row (db m) application ≡ some r
      → r.name ≡ name_of r.application_id
  unfolding registration_row
  registration_row-name m application r names h =
      elim (Option-cases
        (find (λ a. a.id == application || a.name == application) (db m).applications)) [
          | inl miss ↦ absurd (ground arith)
          | inr (a, e) ↦
              let named =
                find-All (λ (x : Application F). x.name ≡ name_of x.id)
                  (λ x. x.id == application || x.name == application) (db m).applications a
                  (names m) e in
              ground arith
        ]

  -- what the query of a registration and that of the spend give to an enforced budget
  abbrev pub Backed : ℕ → String → BudgetStatus F → Type 0
  Backed now application s =
      ((m : ℕ) × (r : Registration F) × Recent ttl now m
        × (registration_row (db m) application ≡ some r)
        × (s ≡ status_of r s.spent))
      × ((m : ℕ) × Recent ttl now m
          × (s.spent ≡ day_spend (db m) s.application_id (name_of s.application_id)))

  abbrev Spends : ℕ → Caches F → String → String → Type 0
  Spends now caches id name =
      let (spent, caches') = spend_over_the_day ttl now (db now) caches id name true in
      IsFaithful now caches'
      × (m : ℕ) × Recent ttl now m
      × (spent ≡ day_spend (db m) id (name_of id))

  enforces-some :
      (o : Option (Registration F)) (r : Registration F) → enforces o ≡ some r → o ≡ some r
  unfolding enforces
  enforces-some none r h = absurd (cc h)
  enforces-some (some x) r h = ground arith

  abbrev Enforced : ℕ → String → Option (BudgetStatus F) × Caches F → Type 0
  Enforced now application out =
      IsFaithful now out.1 × ((s : BudgetStatus F) → out.0 ≡ some s → Backed now application s)

  enforced_lem :
      (now : ℕ) (caches : Caches F) (application : String)
      → NamesFixed
      → IsFaithful now caches
      → Enforced now application (enforced_budget ttl now (db now) caches application)
  unfolding enforced_budget
  enforced_lem now caches application names f =
      let found = (registration ttl now (db now) caches application).0 in
      let caches' = (registration ttl now (db now) caches application).1 in
      let (f', m, recent, read) = registration-IsFaithful now caches application f in
      elim (Option-cases (enforces found)) [
        | inl off ↦ rw (off, enforced_budget) (f', λ s h. absurd (cc h))
        | inr (r, on) ↦
            let row : registration_row (db m) application ≡ some r =
              sym read ∙ enforces-some found r on in
            let named : r.name ≡ name_of r.application_id =
              registration_row-name m application r names row in
            let (f'', m', recent', spend) =
              subst (Spends now caches' r.application_id) (sym named)
                (spend_over_the_day-IsFaithful now caches' r.application_id f') in
            rw (on, enforced_budget)
              (
                f'',
                λ s h.
                    subst (Backed now application) (cc h)
                      ((m, r, recent, row, refl), (m', recent', spend)),
              )
      ]

  -- The dictionaries stay faithful: every value in them was read from the database at a time, and
  -- expires `ttl` after it.
  pub enforced_budget-IsFaithful :
      (now : ℕ) (caches : Caches F) (application : String)
      → NamesFixed
      → IsFaithful now caches
      → IsFaithful now (enforced_budget ttl now (db now) caches application).1
  enforced_budget-IsFaithful now caches application names f =
      (enforced_lem now caches application names f).0

  -- A budget that is enforced comes from a registration and a day's spend that were read from the
  -- database now, or less than `ttl` ago.
  pub enforced_budget-Backed :
      (now : ℕ) (caches : Caches F) (application : String) (s : BudgetStatus F)
      → NamesFixed
      → IsFaithful now caches
      → (enforced_budget ttl now (db now) caches application).0 ≡ some s
      → Backed now application s
  enforced_budget-Backed now caches application s names f h =
      (enforced_lem now caches application names f).1 s h
