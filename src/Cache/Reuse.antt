-- ===== src/Cache/Reuse.antt =====
-- What is stored can be found again, what is pruned could not be found any more, and what a lookup
-- writes.
use sentinellm.Prelude.{
  ℕ, ◌+◌, ◌≤◌, ◌<◌, ◌≡◌, refl, ap, ◌⊎◌, inl, inr, Bool-cases, true, false, ◌==◌, eq_refl, String,
  Option, none, some, Option-cases, List, [], ◌∷◌, ◌++◌, map, All, All-at, Has, keep, take, arith,
  keep-append, keep-keep, All-keep, eqb,
}
use sentinellm.Float.{Float, IsOrdered}
use sentinellm.Cache.Similarity.{cosine_similarity}
use sentinellm.Cache.Entries.{
  Entry, Hit, Cache, Query, seconds, scan_limit, matches, insert_recent, recent_first,
  find_candidates, count_hit, with_hit, prune_expired_entries, store, lookup,
}
use sentinellm.Cache.Lookup.{lookup-best, lookup-Reports}
use sentinellm.Cache.Best.{lookup-none_iff, lookup-unbeaten}

module _ {F : Type 0} where
  recent_first-newest :
      (es : List (Entry F)) (e : Entry F)
      → All (λ x. x.created_at < e.created_at) es
      → recent_first (es ++ e ∷ []) ≡ e ∷ recent_first es
  unfolding recent_first insert_recent
  recent_first-newest [] e h = refl
  recent_first-newest (x ∷ es) e (k, ks) = rw (recent_first-newest es e ks) (ground arith)

  -- the row that `store` appends
  abbrev pub stored : Cache F → Query → String → String → ℕ → Entry F
  stored c q response id now = record {
    id = id;
    application_id = q.application_id;
    model = q.model;
    query_text = q.query_text;
    context_key = q.context_key;
    embedding = c.embed q.query_text;
    response = response;
    hit_count = 0;
    created_at = now;
  }

  stored-matches :
      (c : Cache F) (q : Query) (response id : String) (now later : ℕ)
      → (c.ttl_seconds ≡ 0) ⊎ (later ≤ now + seconds c.ttl_seconds)
      → matches c later q (stored c q response id now) ≡ true
  unfolding matches
  stored-matches c q response id now later h =
      ground (arith, eq_refl q.application_id, eq_refl q.model, eq_refl q.context_key)

  store-scanned :
      (c : Cache F) (entries : List (Entry F)) (q : Query) (response id : String) (now later : ℕ)
      → All (λ e. e.created_at < now) entries
      → (c.ttl_seconds ≡ 0) ⊎ (later ≤ now + seconds c.ttl_seconds)
      → Has
          (stored c q response id now)
          (find_candidates c (store c entries q response id now) later q)
  unfolding find_candidates store
  store-scanned c entries q response id now later older fresh =
      let e = stored c q response id now in
      rw
        (
          keep-append (matches c later q) entries (e ∷ []),
          stored-matches c q response id now later fresh,
          recent_first-newest (keep (matches c later q) entries) e
              (All-keep (λ x. x.created_at < now) (matches c later q) entries older),
        )
        (inl refl)

module _ {F : Type 0} ⦃fl : Float F⦄ where
  open fl use {le, lt}

  -- A response stored as the newest entry makes the same question a hit while it is not expired, if
  -- the vector of the question is similar enough to itself, and the hit is at least that similar.
  pub lookup-store :
      (laws : IsOrdered F) (c : Cache F) (entries : List (Entry F)) (q : Query)
      (response id : String) (now later : ℕ)
      → All (λ e. e.created_at < now) entries
      → (c.ttl_seconds ≡ 0) ⊎ (later ≤ now + seconds c.ttl_seconds)
      → le c.threshold (cosine_similarity (c.embed q.query_text) (c.embed q.query_text)) ≡ true
      → (hit : Hit F) × ((lookup c (store c entries q response id now) later q).0 ≡ some hit)
        × (lt hit.similarity_score (cosine_similarity (c.embed q.query_text) (c.embed q.query_text))
            ≡ false)
  lookup-store laws c entries q response id now later older fresh self =
      let table = store c entries q response id now in
      let e = stored c q response id now in
      let m = store-scanned c entries q response id now later older fresh in
      elim (Option-cases (lookup c table later q).0) [
        | inl miss ↦ absurd (
            ground (
              arith,
              All-at _ (find_candidates c table later q) e
                  ((lookup-none_iff c table later q).0 miss) m,
            ))
        | inr (hit, h) ↦ (hit, h, lookup-unbeaten laws c table later q hit e h m self)
      ]

  find_candidates-prune :
      (c : Cache F) (entries : List (Entry F)) (now later : ℕ) (q : Query)
      → now ≤ later
      → find_candidates c (prune_expired_entries entries now c.ttl_seconds).0 later q
        ≡ find_candidates c entries later q
  unfolding find_candidates prune_expired_entries matches
  find_candidates-prune c entries now later q h = elim (Bool-cases (eqb c.ttl_seconds 0)) [
    | inl off ↦ rw off
    | inr on ↦ rw on (
        ap (λ (es : List (Entry F)). take scan_limit (recent_first es))
          (keep-keep _ _ entries (λ e m. ground arith)))
  ]

  -- Pruning the expired entries changes the answer of no lookup at the same time or later.
  pub lookup-prune :
      (c : Cache F) (entries : List (Entry F)) (now later : ℕ) (q : Query)
      → now ≤ later
      → (lookup c (prune_expired_entries entries now c.ttl_seconds).0 later q).0
        ≡ (lookup c entries later q).0
  lookup-prune c entries now later q h =
      rw⁻¹ (lookup-best c (prune_expired_entries entries now c.ttl_seconds).0 later q)
        (rw⁻¹ (lookup-best c entries later q) (rw (find_candidates-prune c entries now later q h)))

module _ {F : Type 0} where
  -- an entry without its count
  abbrev pub uncounted : Entry F → Entry F
  uncounted e = record e { hit_count = 0 }

  unfoldable pub all_hits : List (Entry F) → ℕ
  all_hits [] = 0
  all_hits (e ∷ es) = e.hit_count + all_hits es

  count_hit-uncounted :
      (id : String) (es : List (Entry F)) → map uncounted (count_hit id es) ≡ map uncounted es
  unfolding count_hit
  count_hit-uncounted id [] = refl
  count_hit-uncounted id (e ∷ es) = elim (Bool-cases (e.id == id)) [
    | inl same ↦ rw same
    | inr other ↦ rw (other, count_hit-uncounted id es)
  ]

  count_hit-all_hits :
      (es : List (Entry F)) (e : Entry F)
      → Has e es
      → all_hits (count_hit e.id es) ≡ all_hits es + 1
  unfolding count_hit all_hits
  count_hit-all_hits [] e m = absurd m
  count_hit-all_hits (x ∷ es) e (inl same) =
      ground (arith, eq_refl e.id, ap (λ (y : Entry F). y.id) same)
  count_hit-all_hits (x ∷ es) e (inr m) = ground (arith, count_hit-all_hits es e m)

module _ {F : Type 0} ⦃fl : Float F⦄ where
  with_hit-some :
      (entries : List (Entry F)) (o : Option (Hit F)) (hit : Hit F)
      → (with_hit entries o).0 ≡ some hit
      → (with_hit entries o).1 ≡ count_hit hit.entry_id entries
  unfolding with_hit
  with_hit-some entries none hit h = absurd (cc h)
  with_hit-some entries (some x) hit h = ground arith

  lookup-some :
      (c : Cache F) (entries : List (Entry F)) (now : ℕ) (q : Query) (hit : Hit F)
      → (lookup c entries now q).0 ≡ some hit
      → (lookup c entries now q).1 ≡ count_hit hit.entry_id entries
  unfolding lookup
  lookup-some c entries now q hit h = with_hit-some entries _ hit h

  -- A hit adds one to the count of one entry, and changes nothing else of the table.
  pub lookup-counts :
      (c : Cache F) (entries : List (Entry F)) (now : ℕ) (q : Query) (hit : Hit F)
      → (lookup c entries now q).0 ≡ some hit
      → (map uncounted (lookup c entries now q).1 ≡ map uncounted entries)
        × (all_hits (lookup c entries now q).1 ≡ all_hits entries + 1)
  lookup-counts c entries now q hit h =
      let (e, m, app, model, key, fresh, (id, response, score, over)) =
        lookup-Reports c entries now q hit h in
      rw (lookup-some c entries now q hit h, id)
        (count_hit-uncounted e.id entries, count_hit-all_hits entries e m)
