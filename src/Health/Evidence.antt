-- ===== src/Health/Evidence.antt =====
-- The counts of requests and errors of each model, of
-- src/sentinellm/worker/tasks/model_health.py. A dictionary is a function, 0 where it has no key.
use sentinellm.Prelude.{ℕ, ◌+◌, ◌*◌, ◌-◌, ◌==◌, String, List, [], ◌∷◌, leb, keep, if◌then◌else◌}
use sentinellm.Tables.{Trace, is_error}

-- `_WINDOW`, one hour
abbrev pub health_window : ℕ
health_window = 3_600 * 1_000_000

pub record Tally : Type 0 where
  pub requests : String → ℕ
  pub errors : String → ℕ

abbrev pub no_counts : Tally
no_counts = record { requests = λ m. 0; errors = λ m. 0 }

-- `counts[model] = counts.get(model, 0) + 1`
abbrev pub bump : String → (String → ℕ) → String → ℕ
bump model counts m = if m == model then counts m + 1 else counts m

-- one entry of `failed_attempts`, by its model; an empty name counts for nothing
abbrev pub note_failure : String → Tally → Tally
note_failure model t =
    if model == ""
    then t
    else record { requests = bump model t.requests; errors = bump model t.errors }

unfoldable pub note_failures : List String → Tally → Tally
note_failures [] t = t
note_failures (a ∷ attempts) t = note_failures attempts (note_failure a t)

module _ {F : Type 0} where
  abbrev pub note_served : Trace F → Tally → Tally
  note_served r t = if r.cache_hit then t else record {
    requests = bump r.model t.requests;
    errors = if is_error r.status then bump r.model t.errors else t.errors;
  }

  unfoldable pub tally_from : List (Trace F) → Tally → Tally
  unfolding note_failures
  tally_from [] t = t
  tally_from (r ∷ rows) t = tally_from rows (note_failures r.failed_attempts (note_served r t))

  -- the rows of the window, and their counts
  unfoldable pub tally : List (Trace F) → ℕ → Tally
  unfolding tally_from
  tally traces now =
      tally_from (keep (λ r. leb (now - health_window) r.created_at) traces) no_counts
