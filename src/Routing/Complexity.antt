-- ===== src/Routing/Complexity.antt =====
-- src/sentinellm/routing/complexity.py
use sentinellm.Prelude.{ℕ, Bool, true, ◌&&◌, ◌||◌, List, [], ◌∷◌, map, ltb, if◌then◌else◌}
use sentinellm.Float.{Float, fmax}
use sentinellm.Text.{codes, word_count, occurrences, search_words}

pub data TaskComplexity : Type 0 where
  simple medium complex : TaskComplexity

-- the alternatives of the pattern, its optional parts written out
abbrev reasoning_cues : List (List ℕ)
reasoning_cues = map codes (
    "why" ∷ "compare" ∷ "analyze" ∷ "explain" ∷ "trade-off" ∷ "tradeoff" ∷ "step by step" ∷ "design"
    ∷ "architecture" ∷ "root cause" ∷ "debug" ∷ "optimise" ∷ "optimize" ∷ "prove" ∷ "derive" ∷ [])

abbrev pub high_risk_terms : List (List ℕ)
high_risk_terms = map codes (
    "legal" ∷ "lawsuit" ∷ "diagnos" ∷ "medical" ∷ "prescription" ∷ "financial advice" ∷ "tax filing"
    ∷ "security incident" ∷ "breach" ∷ "suicide" ∷ "self-harm" ∷ [])

unfoldable pub has_reasoning_cue : List ℕ → Bool
unfolding search_words
has_reasoning_cue prompt = search_words reasoning_cues true prompt

unfoldable pub classify_complexity : List ℕ → ℕ → TaskComplexity
unfolding word_count occurrences has_reasoning_cue
classify_complexity prompt context_length =
    let words = word_count prompt in
    let cue = has_reasoning_cue prompt in
    let multi_part = ltb 1 (occurrences b'?' prompt) || ltb 3 (occurrences 10 prompt) in
    if ltb 120 words || cue && ltb 25 words || ltb 6000 context_length
    then complex
    else if ltb 30 words || cue || multi_part || ltb 1500 context_length
    then medium
    else simple

module _ {F : Type 0} ⦃fl : Float F⦄ where
  open fl use {decimal}

  unfoldable pub quality_floor_for : TaskComplexity → F
  quality_floor_for simple = decimal 0 2
  quality_floor_for medium = decimal 45 2
  quality_floor_for complex = decimal 80 2

  -- `override` is `metadata.get("risk_override") == "high"`
  unfoldable pub assess_risk : List ℕ → Bool → F
  unfolding search_words
  assess_risk prompt override =
      let base = if search_words high_risk_terms true prompt then decimal 85 2 else decimal 10 2 in
      if override then fmax base (decimal 90 2) else base
