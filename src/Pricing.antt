-- ===== src/Pricing.antt =====
-- `ModelProfile`, `get_profile` and `calculate_cost` of src/sentinellm/pricing/catalog.py and
-- src/sentinellm/pricing/calculator.py. The name, the provider and the tendency to hallucinate, which
-- the mock provider reads, are left out.
use sentinellm.Prelude.{ℕ, ◌==◌, String, Option, none, some, List, [], ◌∷◌, find}
use sentinellm.Float.{Float}

pub record ModelProfile (F : Type 0) : Type 0 where
  pub id : String
  pub input_price_per_1k : F
  pub output_price_per_1k : F
  pub context_window : ℕ
  pub quality_tier : F
  pub avg_latency_ms_prior : F

module _ {F : Type 0} ⦃fl : Float F⦄ where
  open fl use {decimal, of_nat, plus, times, over, round}

  unfoldable pub default_model_catalog : List (ModelProfile F)
  default_model_catalog =
      record {
        id = "mock:sentinel-nano";
        input_price_per_1k = decimal 1 4;
        output_price_per_1k = decimal 2 4;
        context_window = 8_000;
        quality_tier = decimal 55 2;
        avg_latency_ms_prior = decimal 280 0;
      }
      ∷ record {
        id = "mock:sentinel-flash";
        input_price_per_1k = decimal 15 5;
        output_price_per_1k = decimal 6 4;
        context_window = 32_000;
        quality_tier = decimal 72 2;
        avg_latency_ms_prior = decimal 420 0;
      }
      ∷ record {
        id = "mock:sentinel-pro";
        input_price_per_1k = decimal 25 4;
        output_price_per_1k = decimal 1 2;
        context_window = 128_000;
        quality_tier = decimal 90 2;
        avg_latency_ms_prior = decimal 950 0;
      }
      ∷ record {
        id = "mock:sentinel-opus";
        input_price_per_1k = decimal 15 3;
        output_price_per_1k = decimal 75 3;
        context_window = 200_000;
        quality_tier = decimal 97 2;
        avg_latency_ms_prior = decimal 1_800 0;
      }
      ∷ record {
        id = "mock:sentinel-judge";
        input_price_per_1k = decimal 3 3;
        output_price_per_1k = decimal 12 3;
        context_window = 128_000;
        quality_tier = decimal 93 2;
        avg_latency_ms_prior = decimal 700 0;
      }
      ∷ []

  -- a model that the catalog does not have
  abbrev pub unknown_profile : String → ModelProfile F
  unknown_profile model_id = record {
    id = model_id;
    input_price_per_1k = decimal 1 3;
    output_price_per_1k = decimal 3 3;
    context_window = 16_000;
    quality_tier = decimal 6 1;
    avg_latency_ms_prior = decimal 600 0;
  }

  unfoldable pub get_profile : String → ModelProfile F
  unfolding default_model_catalog
  get_profile model_id = elim (find (λ p. p.id == model_id) default_model_catalog) [
    | none ↦ unknown_profile model_id
    | some p ↦ p
  ]

  abbrev pub price_or : F → Option F → F
  price_or fallback none = fallback
  price_or fallback (some p) = p

  unfoldable pub calculate_cost : String → ℕ → ℕ → Option F → Option F → F
  calculate_cost model_id input_tokens output_tokens input_price output_price =
      let profile = get_profile model_id in
      round
        (plus
          (times (over (of_nat input_tokens) (of_nat 1_000))
            (price_or profile.input_price_per_1k input_price))
          (times (over (of_nat output_tokens) (of_nat 1_000))
            (price_or profile.output_price_per_1k output_price)))
        8
