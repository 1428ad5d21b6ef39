-- ===== src/Examples/Cache.antt =====
-- A cache over vectors of two places.
use sentinellm.Prelude.{
  ◌+◌, ◌≤◌, ◌≡◌, ◌⊎◌, refl, String, some, List, [], ◌∷◌, Has, if◌then◌else◌, ◌==◌,
}
use sentinellm.Float.{fsum}
use sentinellm.Float.Fixed.{ℤ, pos, fixed_float}
use sentinellm.Cache.Similarity.{cosine_similarity}
use sentinellm.Cache.Entries.{
  Entry, Hit, Cache, Query, seconds, matches, recent_first, find_candidates, best_of, with_hit,
  lookup, store,
}
use sentinellm.Cache.Lookup.{Reports, lookup-Reports}

abbrev cache : Cache ℤ
cache = record {
  embed = λ text. if text == "hi" then pos 10_000 ∷ pos 0 ∷ [] else pos 0 ∷ pos 10_000 ∷ [];
  threshold = pos 9_500;
  ttl_seconds = 60;
}

abbrev question : String → Query
question text = record { application_id = "app"; model = "m"; query_text = text; context_key = "" }

abbrev entries : List (Entry ℤ)
entries =
    store cache (store cache [] (question "hi") "hello" "e1" 10) (question "bye") "so long" "e2" 20

abbrev hello : Hit ℤ
hello = record { response = "hello"; similarity_score = pos 10_000; entry_id = "e1" }

abbrev first_entry : Entry ℤ
first_entry = record {
  id = "e1";
  application_id = "app";
  model = "m";
  query_text = "hi";
  context_key = "";
  embedding = pos 10_000 ∷ pos 0 ∷ [];
  response = "hello";
  hit_count = 0;
  created_at = 10;
}

found : (lookup cache entries 30 (question "hi")).0 ≡ some hello
unfolding lookup find_candidates best_of with_hit store cosine_similarity fsum matches recent_first
found = refl

lookup-Reports_example :
    (e : Entry ℤ) × Has e entries
    × (e.application_id ≡ "app")
    × (e.model ≡ "m")
    × (e.context_key ≡ "")
    × ((cache.ttl_seconds ≡ 0) ⊎ (30 ≤ e.created_at + seconds 60))
    × Reports cache (cache.embed "hi") e hello
lookup-Reports_example = lookup-Reports cache entries 30 (question "hi") hello found
