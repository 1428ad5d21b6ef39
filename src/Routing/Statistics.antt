-- ===== src/Routing/Statistics.antt =====
-- `DBModelStatsProvider` of src/sentinellm/routing/stats.py.
use sentinellm.Prelude.{
  ℕ, ◌-◌, ◌*◌, ◌==◌, String, Option, none, some, List, [], ◌∷◌, map, find, keep, any, length, take,
  leb, if◌then◌else◌,
}
use sentinellm.Float.{Float, fmin, fsum}
use sentinellm.Tables.{
  Trace, Evaluation, Model, ModelStatus, healthy, degraded, down, is_healthy, is_ok,
}
use sentinellm.Pricing.{get_profile}
use sentinellm.Routing.Router.{Stats}

-- `_MIN_SAMPLES_FOR_TRUST` and `_HEALTH_WINDOW`
abbrev pub min_samples_for_trust : ℕ
min_samples_for_trust = 5

abbrev pub health_window : ℕ
health_window = 3_600 * 1_000_000

-- The tables that the provider reads.
pub record History (F : Type 0) : Type 0 where
  pub models : List (Model F)
  pub traces : List (Trace F)
  pub evaluations : List (Evaluation F)

module _ {F : Type 0} where
  -- `ORDER BY created_at DESC`
  unfoldable pub insert_newest : Trace F → List (Trace F) → List (Trace F)
  insert_newest t [] = t ∷ []
  insert_newest t (x ∷ xs) =
      let rest = insert_newest t xs in
      if leb x.created_at t.created_at then t ∷ x ∷ xs else x ∷ rest

  unfoldable pub newest_first : List (Trace F) → List (Trace F)
  unfolding insert_newest
  newest_first [] = []
  newest_first (t ∷ ts) = insert_newest t (newest_first ts)

  -- the query of the recent traces of a model
  unfoldable pub recent_traces : History F → ℕ → String → List (Trace F)
  unfolding newest_first
  recent_traces db window model_id =
      take window (newest_first (keep (λ t. t.model == model_id) db.traces))

  abbrev pub within_the_hour : ℕ → List (Trace F) → List (Trace F)
  within_the_hour now rows = keep (λ t. leb (now - health_window) t.created_at) rows

  abbrev status_or : Option (Model F) → ModelStatus
  status_or none = healthy
  status_or (some row) = row.status

  -- the status of the registry, where a model that is not registered is healthy
  unfoldable pub registry_status : History F → String → ModelStatus
  registry_status db model_id = status_or (find (λ m. m.id == model_id) db.models)

module _ {F : Type 0} ⦃fl : Float F⦄ where
  open fl use {decimal, of_nat, lt, plus, minus, times, over, round}

  -- the share of the rows that succeeded
  unfoldable pub success_rate : List (Trace F) → F
  success_rate rows =
      over (of_nat (length (keep (λ t. is_ok t.status) rows))) (of_nat (length rows))

  -- the observed status, over the recent rows
  unfoldable pub observed_status : ModelStatus → List (Trace F) → ModelStatus
  unfolding success_rate
  observed_status status recent =
      if leb min_samples_for_trust (length recent)
      then (if lt (success_rate recent) (decimal 5 1)
          then down
          else if lt (success_rate recent) (decimal 85 2)
          then (if is_healthy status then degraded else status)
          else status)
      else status

  -- `func.avg`, none of no rows
  mean_quality : List (Evaluation F) → Option F
  mean_quality [] = none
  mean_quality (e ∷ es) =
      some (over (fsum (map (λ x. x.overall_quality) (e ∷ es))) (of_nat (length (e ∷ es))))

  -- the prior, and the observed quality once there are enough samples
  blended : ℕ → F → Option F → F
  blended count prior none = prior
  blended count prior (some observed) =
      let trust = fmin (decimal 1 0) (over (of_nat count) (of_nat (min_samples_for_trust * 4))) in
      if leb min_samples_for_trust count
      then plus (times observed trust) (times prior (minus (decimal 1 0) trust))
      else prior

  abbrev prior_quality : String → Option (Model F) → F
  prior_quality model_id none = (get_profile model_id).quality_tier
  prior_quality model_id (some row) = row.quality_tier

  abbrev prior_latency : String → Option (Model F) → F
  prior_latency model_id none = (get_profile model_id).avg_latency_ms_prior
  prior_latency model_id (some row) = row.avg_latency_ms_prior

  -- the statistics of a model from its recent rows
  unfoldable pub stats_of : History F → ℕ → String → List (Trace F) → Stats F
  unfolding observed_status registry_status mean_quality blended
  stats_of db now model_id [] =
      let row = find (λ m. m.id == model_id) db.models in
      record {
        predicted_quality = prior_quality model_id row;
        avg_latency_ms = prior_latency model_id row;
        reliability = decimal 1 0;
        sample_count = 0;
        status = registry_status db model_id;
      }
  stats_of db now model_id (t ∷ ts) =
      let row = find (λ m. m.id == model_id) db.models in
      let rows = t ∷ ts in
      let count = length rows in
      record {
        predicted_quality =
            round
              (fmin (decimal 1 0) (
                blended count (prior_quality model_id row)
                  (mean_quality (keep (λ e. any (λ x. x.id == e.trace_id) rows) db.evaluations))))
              4;
        avg_latency_ms = round (over (fsum (map (λ x. x.latency_ms) rows)) (of_nat count)) 2;
        reliability = round (success_rate rows) 4;
        sample_count = count;
        status = observed_status (registry_status db model_id) (within_the_hour now rows);
      }

  -- `get_stats`
  unfoldable pub get_stats : History F → ℕ → ℕ → String → Stats F
  unfolding recent_traces stats_of
  get_stats db now window model_id = stats_of db now model_id (recent_traces db window model_id)
