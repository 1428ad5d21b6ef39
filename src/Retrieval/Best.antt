-- ===== src/Retrieval/Best.antt =====
-- The documents that a question retrieves are the best ones.
use sentinellm.Prelude.{
  ℕ, ◌+◌, ◌≡◌, refl, ap, ◌⊎◌, inl, inr, false, String, List, [], ◌∷◌, take, All, All-at, Has,
  Has-take,
}
use sentinellm.Float.{Float, IsOrdered, IsNumber}
use sentinellm.Cache.Similarity.{is_empty}
use sentinellm.Retrieval.Corpus.{Document}
use sentinellm.Retrieval.Ranking.{
  RetrievedResult, Retriever, score_corpus, sorted_scores, results_from, retrieve,
}
use sentinellm.Retrieval.Sorting.{
  sorted_scores-Has, Has-sorted_scores, take-unbeaten, sorted_scores-IsFalling,
}
use sentinellm.Retrieval.Sources.{Shows, All-results_from, Has-score_corpus}

not-Has_empty : {A : Type 0} (xs : List A) (x : A) → Has x xs → is_empty xs ≡ false
not-Has_empty [] x m = absurd m
not-Has_empty (y ∷ xs) x m = refl

module _ {F : Type 0} ⦃fl : Float F⦄ where
  results_from-Has :
      (i : ℕ) (ps : List (Document × F)) (p : Document × F)
      → Has p ps
      → (x : RetrievedResult F) × Has x (results_from i ps) × Shows x p.0
  unfolding results_from
  results_from-Has i [] p m = absurd m
  results_from-Has i ((d, s) ∷ ps) p (inl same) = (
    record { doc_id = d.doc_id; content = d.content; score = fl.round s 4; rank = i },
    inl refl,
    (ap (λ (q : Document × F). q.0.doc_id) same, ap (λ (q : Document × F). q.0.content) same),
  )
  results_from-Has i ((d, s) ∷ ps) p (inr later) =
      let (x, at, shown) = results_from-Has (i + 1) ps p later in (x, inr at, shown)

  module _ (laws : IsOrdered F) (r : Retriever F) (query : String) (top_k : ℕ) where
    -- Where the scores are numbers, every document of the corpus is among the results, or all the results
    -- are documents of the corpus with scores that are not under its own.
    pub retrieve_best :
        (p : Document × F)
        → All (λ q. IsNumber q.1) (score_corpus r query)
        → Has p (score_corpus r query)
        → ((x : RetrievedResult F) × Has x (retrieve r query top_k) × Shows x p.0)
          ⊎ All
              (λ x.
                (q : Document × F) × Has q (score_corpus r query)
                × Shows x q.0
                × (fl.lt q.1 p.1 ≡ false))
              (retrieve r query top_k)
    unfolding retrieve
    retrieve_best p numbers m =
        let scored = score_corpus r query in
        let full = not-Has_empty r.corpus p.0 (Has-score_corpus r query p m) in
        let (falls, kept) = sorted_scores-IsFalling laws scored numbers in
        elim (take-unbeaten top_k (sorted_scores scored) p falls (sorted_scores-Has p scored m)) [
          | inl first ↦
              rw full (inl (results_from-Has 0 (take top_k (sorted_scores scored)) p first))
          | inr below ↦ rw full (
              inr (
                All-results_from _ 0 (take top_k (sorted_scores scored)) (λ q at x shown. (
                  q,
                  Has-sorted_scores q scored (Has-take top_k (sorted_scores scored) q at),
                  shown,
                  All-at (λ z. fl.lt z.1 p.1 ≡ false) (take top_k (sorted_scores scored)) q below
                      at,
                ))))
        ]
