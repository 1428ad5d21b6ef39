-- ===== src/Cache/Lookup.antt =====
-- What a hit of the cache is, and when there is one.
use sentinellm.Prelude.{
  ℕ, ◌≤◌, ◌+◌, ◌≡◌, ◌⊎◌, inl, inr, refl, ◌∙◌, Bool-cases, true, ◌&&◌, eq_iff, Option, none, some,
  List, [], ◌∷◌, Has, Has-keep, Has-take, keep, arith, ltb, if◌then◌else◌,
}
use sentinellm.Float.{Float}
use sentinellm.Cache.Similarity.{cosine_similarity}
use sentinellm.Cache.Entries.{
  Entry, Hit, Cache, Query, scan_limit, seconds, matches, insert_recent, recent_first,
  find_candidates, beats, best_of, with_hit, lookup,
}

module _ {F : Type 0} where
  Has-insert_recent :
      (x : Entry F) (es : List (Entry F)) (e : Entry F)
      → Has e (insert_recent x es)
      → (x ≡ e) ⊎ Has e es
  unfolding insert_recent
  Has-insert_recent x [] e h = h
  Has-insert_recent x (y ∷ es) e h = elim (Bool-cases (ltb x.created_at y.created_at)) [
    | inl older ↦ elim (rw older at h) [
      | inl same ↦ inr (inl same)
      | inr m ↦ elim (Has-insert_recent x es e m) [ inl same ↦ inl same | inr k ↦ inr (inr k) ]
    ]
    | inr newer ↦ rw newer at h
  ]

  Has-recent_first : (es : List (Entry F)) (e : Entry F) → Has e (recent_first es) → Has e es
  unfolding recent_first
  Has-recent_first [] e h = h
  Has-recent_first (x ∷ es) e h = elim (Has-insert_recent x (recent_first es) e h) [
    | inl same ↦ inl same
    | inr m ↦ inr (Has-recent_first es e m)
  ]

  -- the scan returns rows of the table that match
  pub find_candidates-matches :
      (c : Cache F) (entries : List (Entry F)) (now : ℕ) (q : Query) (e : Entry F)
      → Has e (find_candidates c entries now q)
      → Has e entries × (matches c now q e ≡ true)
  unfolding find_candidates
  find_candidates-matches c entries now q e h =
      Has-keep (matches c now q) entries e
        (Has-recent_first (keep (matches c now q) entries) e (Has-take scan_limit _ e h))

module _ {F : Type 0} ⦃fl : Float F⦄ where
  open fl use {le, lt}

  -- The entry that a hit reports, for the vector of the query.
  abbrev pub Reports : Cache F → List F → Entry F → Hit F → Type 0
  Reports c vector e hit =
      (hit.entry_id ≡ e.id)
      × (hit.response ≡ e.response)
      × (hit.similarity_score ≡ cosine_similarity vector e.embedding)
      × (le c.threshold (cosine_similarity vector e.embedding) ≡ true)

  abbrev pub hit_of : List F → Entry F → Hit F
  hit_of vector e = record {
    response = e.response;
    similarity_score = cosine_similarity vector e.embedding;
    entry_id = e.id;
  }

  -- the best hit after one more candidate
  abbrev pub better_of : F → List F → Entry F → Option (Hit F) → Option (Hit F)
  better_of threshold vector e best =
      if le threshold (cosine_similarity vector e.embedding)
        && beats (cosine_similarity vector e.embedding) best
      then some (hit_of vector e)
      else best

  best_of-Reports :
      (c : Cache F) (vector : List F) (es : List (Entry F)) (best : Option (Hit F)) (hit : Hit F)
      → best_of c.threshold vector es best ≡ some hit
      → (best ≡ some hit) ⊎ ((e : Entry F) × Has e es × Reports c vector e hit)
  unfolding best_of
  best_of-Reports c vector [] best hit h = inl h
  best_of-Reports c vector (x ∷ es) best hit h =
      elim (best_of-Reports c vector es (better_of c.threshold vector x best) hit h) [
        | inl now ↦
            elim (Bool-cases (
              le c.threshold (cosine_similarity vector x.embedding)
              && beats (cosine_similarity vector x.embedding) best)) [
                | inl up ↦
                    let same : some (hit_of vector x) ≡ some hit = rw up at now in
                    inr (x, inl refl, (ground arith, ground arith, ground arith, ground arith))
                | inr no_it ↦ inl (rw no_it at now)
              ]
        | inr (e, m, r) ↦ inr (e, inr m, r)
      ]

  -- the hit is the best of the scan
  pub lookup-best :
      (c : Cache F) (entries : List (Entry F)) (now : ℕ) (q : Query)
      → best_of c.threshold (c.embed q.query_text) (find_candidates c entries now q) none
        ≡ (lookup c entries now q).0
  unfolding lookup with_hit
  lookup-best c entries now q = go _
    where
      go : (o : Option (Hit F)) → o ≡ (with_hit entries o).0
      go none = refl
      go (some hit) = refl

  matches_lem :
      (c : Cache F) (now : ℕ) (q : Query) (e : Entry F)
      → matches c now q e ≡ true
      → (e.application_id ≡ q.application_id)
        × (e.model ≡ q.model)
        × (e.context_key ≡ q.context_key)
        × ((c.ttl_seconds ≡ 0) ⊎ (now ≤ e.created_at + seconds c.ttl_seconds))
  unfolding matches
  matches_lem c now q e h = ground (
    arith,
    eq_iff e.application_id q.application_id,
    eq_iff e.model q.model,
    eq_iff e.context_key q.context_key,
  )

  -- A hit reports an entry of the table that is for the same application, model and context, is not
  -- expired, and is at least as similar to the question as the threshold.
  pub lookup-Reports :
      (c : Cache F) (entries : List (Entry F)) (now : ℕ) (q : Query) (hit : Hit F)
      → (lookup c entries now q).0 ≡ some hit
      → (e : Entry F) × Has e entries
        × (e.application_id ≡ q.application_id)
        × (e.model ≡ q.model)
        × (e.context_key ≡ q.context_key)
        × ((c.ttl_seconds ≡ 0) ⊎ (now ≤ e.created_at + seconds c.ttl_seconds))
        × Reports c (c.embed q.query_text) e hit
  lookup-Reports c entries now q hit h =
      elim (best_of-Reports c (c.embed q.query_text) (find_candidates c entries now q) none hit
        (lookup-best c entries now q ∙ h)) [
          | inl none_yet ↦ absurd (cc none_yet)
          | inr (e, m, r) ↦
              let (there, match_it) = find_candidates-matches c entries now q e m in
              let (app, model, key, fresh) = matches_lem c now q e match_it in
              (e, there, app, model, key, fresh, r)
        ]
