-- ===== src/Cache/Entries.antt =====
-- `SemanticCache` of src/sentinellm/caching/semantic_cache.py over the table of its entries. What the
-- embedding provider makes of a text is a parameter.
use sentinellm.Prelude.{
  ℕ, ◌+◌, ◌-◌, ◌*◌, Bool, true, not, ◌&&◌, ◌||◌, ◌==◌, String, Option, none, some, List, [], ◌∷◌,
  ◌++◌, length, take, keep, leb, ltb, eqb, if◌then◌else◌,
}
use sentinellm.Float.{Float}
use sentinellm.Cache.Similarity.{cosine_similarity}

-- `SemanticCacheEntry`
pub record Entry (F : Type 0) : Type 0 where
  pub id : String
  pub application_id : String
  pub model : String
  pub query_text : String
  pub context_key : String
  pub embedding : List F
  pub response : String
  pub hit_count : ℕ
  pub created_at : ℕ

-- `CacheLookupResult`
pub record Hit (F : Type 0) : Type 0 where
  pub response : String
  pub similarity_score : F
  pub entry_id : String

pub record Cache (F : Type 0) : Type 0 where
  pub embed : String → List F
  pub threshold : F
  pub ttl_seconds : ℕ

-- What a lookup is for.
pub record Query : Type 0 where
  pub application_id : String
  pub model : String
  pub query_text : String
  pub context_key : String

-- `_CANDIDATE_SCAN_LIMIT`
abbrev pub scan_limit : ℕ
scan_limit = 200

-- seconds in the unit of the times
abbrev pub seconds : ℕ → ℕ
seconds n = n * 1_000_000

module _ {F : Type 0} where
  -- the `WHERE` of the scan
  unfoldable pub matches : Cache F → ℕ → Query → Entry F → Bool
  matches c now q e =
      e.application_id == q.application_id
      && e.model == q.model
      && e.context_key == q.context_key
      && (eqb c.ttl_seconds 0 || leb (now - seconds c.ttl_seconds) e.created_at)

  -- `ORDER BY created_at DESC`, by insertion
  unfoldable pub insert_recent : Entry F → List (Entry F) → List (Entry F)
  insert_recent e [] = e ∷ []
  insert_recent e (x ∷ xs) =
      let rest = insert_recent e xs in
      if ltb e.created_at x.created_at then x ∷ rest else e ∷ x ∷ xs

  unfoldable pub recent_first : List (Entry F) → List (Entry F)
  unfolding insert_recent
  recent_first [] = []
  recent_first (e ∷ es) = insert_recent e (recent_first es)

  unfoldable pub find_candidates : Cache F → List (Entry F) → ℕ → Query → List (Entry F)
  unfolding matches recent_first
  find_candidates c entries now q = take scan_limit (recent_first (keep (matches c now q) entries))

  -- `entry.hit_count += 1`, written back by the key
  unfoldable pub count_hit : String → List (Entry F) → List (Entry F)
  count_hit id [] = []
  count_hit id (e ∷ es) =
      let rest = count_hit id es in
      if e.id == id then record e { hit_count = e.hit_count + 1 } ∷ es else e ∷ rest

  -- `prune_expired_entries`: the table and the number of rows deleted
  unfoldable pub prune_expired_entries : List (Entry F) → ℕ → ℕ → List (Entry F) × ℕ
  prune_expired_entries entries now ttl_seconds = if eqb ttl_seconds 0 then (entries, 0) else (
    keep (λ e. not (ltb e.created_at (now - seconds ttl_seconds))) entries,
    length (keep (λ e. ltb e.created_at (now - seconds ttl_seconds)) entries),
  )

  -- `store`; `id` and `now` are what the column defaults give
  unfoldable pub store : Cache F → List (Entry F) → Query → String → String → ℕ → List (Entry F)
  store c entries q response id now =
      entries
      ++ record {
        id = id;
        application_id = q.application_id;
        model = q.model;
        query_text = q.query_text;
        context_key = q.context_key;
        embedding = c.embed q.query_text;
        response = response;
        hit_count = 0;
        created_at = now;
      }
        ∷ []

module _ {F : Type 0} ⦃fl : Float F⦄ where
  open fl use {le, lt}

  abbrev pub beats : F → Option (Hit F) → Bool
  beats score none = true
  beats score (some best) = lt best.similarity_score score

  -- the loop over the candidates
  unfoldable pub best_of : F → List F → List (Entry F) → Option (Hit F) → Option (Hit F)
  best_of threshold vector [] best = best
  best_of threshold vector (e ∷ es) best =
      let score = cosine_similarity vector e.embedding in
      best_of threshold vector es (
        if le threshold score && beats score best
        then some (record { response = e.response; similarity_score = score; entry_id = e.id })
        else best)

  -- the best entry found, and the table after the lookup
  unfoldable pub with_hit : List (Entry F) → Option (Hit F) → Option (Hit F) × List (Entry F)
  unfolding count_hit
  with_hit entries none = (none, entries)
  with_hit entries (some hit) = (some hit, count_hit hit.entry_id entries)

  unfoldable pub lookup : Cache F → List (Entry F) → ℕ → Query → Option (Hit F) × List (Entry F)
  unfolding find_candidates best_of with_hit
  lookup c entries now q =
      with_hit entries
        (best_of c.threshold (c.embed q.query_text) (find_candidates c entries now q) none)
