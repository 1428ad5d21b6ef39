-- ===== src/Examples/Quality.antt =====
-- An answer that is relevant, and hallucinated.
use sentinellm.Prelude.{◌≡◌, refl, true, List, [], ◌∷◌}
use sentinellm.Float.Fixed.{ℤ, pos, fixed_float, Fixed-IsOrdered}
use sentinellm.Evaluations.Quality.{
  Metric, score_of, weigh, raw_quality, aggregate_quality, aggregate_quality_bounds,
}

abbrev metrics : List (Metric ℤ)
metrics =
    record { metric_name = "relevance"; score = pos 9_000 }
    ∷ record { metric_name = "safety"; score = pos 10_000 }
    ∷ []

-- 0.9 less 0.4 of a half
discounted : aggregate_quality metrics (pos 5_000) ≡ pos 7_000
unfolding aggregate_quality raw_quality weigh score_of
discounted = refl

aggregate_quality_bounds_example :
    (fixed_float.le (pos 0) (aggregate_quality metrics (pos 5_000)) ≡ true)
    × (fixed_float.le (aggregate_quality metrics (pos 5_000)) (pos 10_000) ≡ true)
aggregate_quality_bounds_example = aggregate_quality_bounds Fixed-IsOrdered metrics (pos 5_000)
