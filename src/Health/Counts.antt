-- ===== src/Health/Counts.antt =====
-- What the counts of a pass are: an independent description of them.
use sentinellm.Prelude.{
  ℕ, ◌+◌, ◌≡◌, ◌-◌, not, ◌&&◌, ◌==◌, eq_iff, String, List, [], ◌∷◌, leb, length, keep, arith,
}
use sentinellm.Tables.{Trace, is_error}
use sentinellm.Health.Evidence.{
  Tally, no_counts, note_failure, note_failures, note_served, tally_from, tally, health_window,
}

-- how often a model failed before a fallback, in a list of attempts
unfoldable pub failures : String → List String → ℕ
failures m attempts = length (keep (λ a. a == m && not (a == "")) attempts)

module _ {F : Type 0} where
  unfoldable pub all_failures : String → List (Trace F) → ℕ
  unfolding failures
  all_failures m [] = 0
  all_failures m (r ∷ rows) = failures m r.failed_attempts + all_failures m rows

  -- the traces that a model served itself
  unfoldable pub served : String → List (Trace F) → List (Trace F)
  served m rows = keep (λ r. not r.cache_hit && r.model == m) rows

  unfoldable pub served_badly : String → List (Trace F) → List (Trace F)
  unfolding served
  served_badly m rows = keep (λ r. is_error r.status) (served m rows)

same : (a b : String) → (a == b) ≡ (b == a)
same a b = ground (arith, eq_iff a b, eq_iff b a)

note_failures-counts :
    (m : String) (attempts : List String) (t : Tally)
    → ((note_failures attempts t).requests m ≡ t.requests m + failures m attempts)
      × ((note_failures attempts t).errors m ≡ t.errors m + failures m attempts)
unfolding note_failures failures
note_failures-counts m [] t = ground arith
note_failures-counts m (a ∷ attempts) t =
    ground (arith, note_failures-counts m attempts (note_failure a t), same m a)

module _ {F : Type 0} where
  tally_from-counts :
      (m : String) (rows : List (Trace F)) (t : Tally)
      → ((tally_from rows t).requests m
          ≡ t.requests m + length (served m rows) + all_failures m rows)
        × ((tally_from rows t).errors m
            ≡ t.errors m + length (served_badly m rows) + all_failures m rows)
  unfolding tally_from served served_badly all_failures
  tally_from-counts m [] t = ground arith
  tally_from-counts m (r ∷ rows) t =
      let mid = note_served r t in
      ground (
        arith,
        note_failures-counts m r.failed_attempts mid,
        tally_from-counts m rows (note_failures r.failed_attempts mid),
        same m r.model,
      )

  -- The requests of a model are the traces of the last hour that it served itself, cache hits
  -- excluded, and its failed attempts before a fallback; its errors are the traces of error among
  -- the former, and all of the latter.
  pub tally_counts :
      (m : String) (traces : List (Trace F)) (now : ℕ)
      → let recent = keep (λ r. leb (now - health_window) r.created_at) traces in
        ((tally traces now).requests m ≡ length (served m recent) + all_failures m recent)
        × ((tally traces now).errors m ≡ length (served_badly m recent) + all_failures m recent)
  unfolding tally
  tally_counts m traces now =
      let recent = keep (λ r. leb (now - health_window) r.created_at) traces in
      let (a, b) = tally_from-counts m recent no_counts in (omega (arith, a), omega (arith, b))
