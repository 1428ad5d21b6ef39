-- ===== src/Cache/Best.antt =====
-- A hit is unbeaten among the entries scanned, and a miss has none over the threshold.
use sentinellm.Prelude.{
  ℕ, ◌≡◌, ◌↔◌, refl, ◌∙◌, inl, inr, Bool-cases, true, false, ◌&&◌, Option, none, some, List, [],
  ◌∷◌, All, Has, arith,
}
use sentinellm.Float.{Float, IsOrdered, IsNumber, unbeaten_trans, unbeaten_refl}
use sentinellm.Cache.Similarity.{cosine_similarity}
use sentinellm.Cache.Entries.{Entry, Hit, Cache, Query, find_candidates, beats, best_of, lookup}
use sentinellm.Cache.Lookup.{better_of, hit_of, lookup-best}

module _ {F : Type 0} ⦃fl : Float F⦄ where
  open fl use {le, lt}

  best_of-some :
      (c : Cache F) (vector : List F) (es : List (Entry F)) (b : Hit F)
      → best_of c.threshold vector es (some b) ≡ none
      → ⊥
  unfolding best_of
  best_of-some c vector [] b h = cc
  best_of-some c vector (x ∷ es) b h =
      elim (Bool-cases (
        le c.threshold (cosine_similarity vector x.embedding)
        && beats (cosine_similarity vector x.embedding) (some b))) [
          | inl up ↦ best_of-some c vector es (hit_of vector x) (rw up at h)
          | inr no_it ↦ best_of-some c vector es b (rw no_it at h)
        ]

  best_of-none :
      (c : Cache F) (vector : List F) (es : List (Entry F))
      → (best_of c.threshold vector es none ≡ none)
        ↔ All (λ e. le c.threshold (cosine_similarity vector e.embedding) ≡ false) es
  unfolding best_of
  best_of-none c vector [] = (λ h. tt, λ h. refl)
  best_of-none c vector (x ∷ es) =
      let (there, back) = best_of-none c vector es in
      elim (Bool-cases (le c.threshold (cosine_similarity vector x.embedding))) [
        | inl up ↦ rw up (λ h. absurd (best_of-some c vector es (hit_of vector x) h), λ (k, ks). cc)
        | inr low ↦ rw low (λ h. (refl, there h), λ (k, ks). back ks)
      ]

  -- A lookup misses exactly when every entry scanned is less similar to the question than the
  -- threshold.
  pub lookup-none_iff :
      (c : Cache F) (entries : List (Entry F)) (now : ℕ) (q : Query)
      → ((lookup c entries now q).0 ≡ none)
        ↔ All
            (λ e. le c.threshold (cosine_similarity (c.embed q.query_text) e.embedding) ≡ false)
            (find_candidates c entries now q)
  lookup-none_iff c entries now q =
      rw⁻¹ (lookup-best c entries now q)
        (best_of-none c (c.embed q.query_text) (find_candidates c entries now q))

  module _ (laws : IsOrdered F) where
    open laws use {le_self, lt-eq-not-le, lt-le}

    -- what the fold knows of its best: its score is a number
    abbrev HasNumber : Option (Hit F) → Type 0
    HasNumber none = Unit
    HasNumber (some b) = IsNumber b.similarity_score

    -- nothing beats the best so far by more
    abbrev Under : F → Option (Hit F) → Type 0
    Under score none = Unit
    Under score (some b) = lt score b.similarity_score ≡ false

    better_of-HasNumber :
        (c : Cache F) (vector : List F) (x : Entry F) (best : Option (Hit F))
        → HasNumber best
        → HasNumber (better_of c.threshold vector x best)
    better_of-HasNumber c vector x best n =
        elim (Bool-cases (
          le c.threshold (cosine_similarity vector x.embedding)
          && beats (cosine_similarity vector x.embedding) best)) [
            | inl up ↦
                rw up
                  ((le_self c.threshold (cosine_similarity vector x.embedding) (ground arith)).1)
            | inr no_it ↦ rw no_it n
          ]

    better_of-Under :
        (c : Cache F) (vector : List F) (x : Entry F) (best : Option (Hit F)) (score : F)
        → IsNumber score
        → HasNumber best
        → Under score (better_of c.threshold vector x best)
        → Under score best
    better_of-Under c vector x none score ns n u = tt
    better_of-Under c vector x (some b) score ns n u =
        let y = cosine_similarity vector x.embedding in
        elim (Bool-cases (le c.threshold y && beats y (some b))) [
          | inl up ↦
              let ny : IsNumber y = (le_self c.threshold y (ground arith)).1 in
              let over : lt score y ≡ false = rw up at u in
              unbeaten_trans laws score y b.similarity_score ns ny n over (
                ground (
                  arith,
                  lt-eq-not-le y b.similarity_score ny n,
                  lt-eq-not-le b.similarity_score y n ny,
                  lt-le b.similarity_score y,
                ))
          | inr no_it ↦ rw no_it at u
        ]

    best_of-Under :
        (c : Cache F) (vector : List F) (es : List (Entry F)) (best : Option (Hit F)) (hit : Hit F)
        → HasNumber best
        → best_of c.threshold vector es best ≡ some hit
        → IsNumber hit.similarity_score × Under hit.similarity_score best
    unfolding best_of
    best_of-Under c vector [] none hit n h = absurd (cc h)
    best_of-Under c vector [] (some b) hit n h =
        ground (arith, unbeaten_refl laws b.similarity_score)
    best_of-Under c vector (x ∷ es) best hit n h =
        let (number, under) =
          best_of-Under c vector es (better_of c.threshold vector x best) hit
            (better_of-HasNumber c vector x best n) h in
        (number, better_of-Under c vector x best hit.similarity_score number n under)

    -- one candidate over the threshold is not over the best after it
    after_x :
        (c : Cache F) (vector : List F) (x : Entry F) (best : Option (Hit F)) (score : F)
        → IsNumber score
        → HasNumber best
        → le c.threshold (cosine_similarity vector x.embedding) ≡ true
        → Under score (better_of c.threshold vector x best)
        → lt score (cosine_similarity vector x.embedding) ≡ false
    after_x c vector x none score ns n up u = rw up at u
    after_x c vector x (some b) score ns n up u =
        let y = cosine_similarity vector x.embedding in
        let ny : IsNumber y = (le_self c.threshold y up).1 in
        elim (Bool-cases (beats y (some b))) [
          | inl over ↦ rw (up, over) at u
          | inr no_it ↦
              unbeaten_trans laws score b.similarity_score y ns n ny (rw (up, no_it) at u) no_it
        ]

    best_of-unbeaten :
        (c : Cache F) (vector : List F) (es : List (Entry F)) (best : Option (Hit F)) (hit : Hit F)
        (e : Entry F)
        → HasNumber best
        → best_of c.threshold vector es best ≡ some hit
        → Has e es
        → le c.threshold (cosine_similarity vector e.embedding) ≡ true
        → lt hit.similarity_score (cosine_similarity vector e.embedding) ≡ false
    unfolding best_of
    best_of-unbeaten c vector [] best hit e n h m up = absurd m
    best_of-unbeaten c vector (x ∷ es) best hit e n h (inl same) up =
        let n' = better_of-HasNumber c vector x best n in
        let (number, under) =
          best_of-Under c vector es (better_of c.threshold vector x best) hit n' h in
        rw (← same) (after_x c vector x best hit.similarity_score number n (rw same up) under)
    best_of-unbeaten c vector (x ∷ es) best hit e n h (inr m) up =
        best_of-unbeaten c vector es (better_of c.threshold vector x best) hit e
          (better_of-HasNumber c vector x best n) h m up

    -- No entry scanned that is over the threshold is more similar to the question than the hit.
    pub lookup-unbeaten :
        (c : Cache F) (entries : List (Entry F)) (now : ℕ) (q : Query) (hit : Hit F) (e : Entry F)
        → (lookup c entries now q).0 ≡ some hit
        → Has e (find_candidates c entries now q)
        → le c.threshold (cosine_similarity (c.embed q.query_text) e.embedding) ≡ true
        → lt hit.similarity_score (cosine_similarity (c.embed q.query_text) e.embedding) ≡ false
    lookup-unbeaten c entries now q hit e h m up =
        best_of-unbeaten c (c.embed q.query_text) (find_candidates c entries now q) none hit e tt
          (lookup-best c entries now q ∙ h) m up
