-- ===== src/Health/Warranted.antt =====
-- The status that a pass of the health monitor leaves, from the traces themselves.
use sentinellm.Prelude.{
  ℕ, ◌+◌, ◌-◌, ◌≤◌, ◌<◌, ◌≡◌, ◌≢◌, refl, inl, inr, Bool-cases, true, false, String, some, List,
  get_elem?, keep, length, leb, ltb, arith,
}
use mathlib.Core.Option
use sentinellm.Float.{Float}
use sentinellm.Tables.{Trace, Model, ModelStatus, healthy, degraded, down, is_down}
use sentinellm.Health.Evidence.{Tally, tally}
use sentinellm.Health.Monitor.{min_sample, status_for, evaluate_model_health}
use sentinellm.Health.Counts.{served, served_badly, all_failures, tally_counts}
use sentinellm.Health.Statuses.{called_for, evaluate_model_health-called_for}

module _ {F : Type 0} where
  abbrev pub last_hour : List (Trace F) → ℕ → List (Trace F)
  last_hour traces now = keep (λ r. leb (now - 3_600_000_000) r.created_at) traces

  -- the calls of a model in the last hour: what it served itself, and where it failed before a fallback
  abbrev pub calls_of : String → List (Trace F) → ℕ → ℕ
  calls_of m traces now =
      length (served m (last_hour traces now)) + all_failures m (last_hour traces now)

  abbrev pub bad_calls_of : String → List (Trace F) → ℕ → ℕ
  bad_calls_of m traces now =
      length (served_badly m (last_hour traces now)) + all_failures m (last_hour traces now)

is_down-down : (s : ModelStatus) → is_down s ≡ true → s ≡ down
is_down-down s h = ground arith

not_down : (s : ModelStatus) → is_down s ≡ false → s ≢ down
not_down s h e = cc (rw e at h)

module _ {F : Type 0} ⦃fl : Float F⦄ where
  open fl use {decimal, le, over, of_nat}

  -- What a number of calls and the share of the bad ones make of a status: fewer than 5 calls leave it, but
  -- for one that is down, which gets another try; from 5 on the share counts.
  pub data Warrants (calls : ℕ) (rate : F) (before after : ModelStatus) : Type 0 where
    retried : calls < 5 → before ≡ down → after ≡ degraded → Warrants calls rate before after
    left_alone : calls < 5 → before ≢ down → after ≡ before → Warrants calls rate before after
    failing :
        5 ≤ calls → le (decimal 5 1) rate ≡ true → after ≡ down → Warrants calls rate before after
    flaky :
        5 ≤ calls
        → le (decimal 5 1) rate ≡ false
        → le (decimal 2 1) rate ≡ true
        → after ≡ degraded
        → Warrants calls rate before after
    steady :
        5 ≤ calls
        → le (decimal 5 1) rate ≡ false
        → le (decimal 2 1) rate ≡ false
        → after ≡ healthy
        → Warrants calls rate before after

  called_for-Warrants :
      (t : Tally) (row : Model F)
      → Warrants
          (t.requests row.id)
          (over (of_nat (t.errors row.id)) (of_nat (t.requests row.id)))
          row.status
          (called_for t row)
  unfolding status_for
  called_for-Warrants t row = elim (Bool-cases (ltb (t.requests row.id) min_sample)) [
    | inl few ↦ elim (Bool-cases (is_down row.status)) [
      | inl off ↦ retried (ground arith) (is_down-down row.status off) (rw (few, off) refl)
      | inr on ↦ left_alone (ground arith) (not_down row.status on) (rw (few, on) refl)
    ]
    | inr enough ↦
        let rate : F = over (of_nat (t.errors row.id)) (of_nat (t.requests row.id)) in
        elim (Bool-cases (le (decimal 5 1) rate)) [
          | inl most ↦ failing (ground arith) most (rw (enough, most) refl)
          | inr fewer ↦ elim (Bool-cases (le (decimal 2 1) rate)) [
            | inl some_bad ↦ flaky (ground arith) fewer some_bad (rw (enough, fewer, some_bad) refl)
            | inr good ↦ steady (ground arith) fewer good (rw (enough, fewer, good) refl)
          ]
        ]
  ]

  -- A pass leaves a model that is managed automatically with the status that its calls of the last hour
  -- warrant, which are the traces that it served itself, cache hits excluded, and its failures before a
  -- fallback: with at least 5 it is down where 0.5 or more of them are bad, degraded from 0.2 and healthy
  -- below; with fewer, one that was down is degraded and any other is as it was.
  pub evaluate_model_health-Warrants :
      (traces : List (Trace F)) (now : ℕ) (models : List (Model F)) (k : ℕ) (row : Model F)
      → get_elem? models k ≡ some row
      → row.status_auto ≡ true
      → (after : ModelStatus) × (Option.map
            (λ (x : Model F). x.status)
            (get_elem? (evaluate_model_health traces now models).models k)
          ≡ some after)
        × Warrants
            (calls_of row.id traces now)
            (over (of_nat (bad_calls_of row.id traces now)) (of_nat (calls_of row.id traces now)))
            row.status
            after
  evaluate_model_health-Warrants traces now models k row at auto =
      let (requests, errors) = tally_counts row.id traces now in
      (
        called_for (tally traces now) row,
        evaluate_model_health-called_for traces now models k row at auto,
        rw (← requests, ← errors) (called_for-Warrants (tally traces now) row),
      )
