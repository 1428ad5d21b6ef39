-- ===== src/Retrieval/Sources.antt =====
-- Where the documents of a request come from, and which ones they are.
use sentinellm.Prelude.{
  ℕ, suc, ◌+◌, ◌≤◌, ◌≡◌, refl, ap, sym, subst, ◌∙◌, inl, inr, Bool, Bool-cases, ◌==◌, String,
  Option, none, some, List, [], ◌∷◌, map, length, take, All, All-at, Has, Has-take, arith,
}
use sentinellm.Float.{Float}
use sentinellm.Cache.Similarity.{is_empty}
use sentinellm.Retrieval.Corpus.{Document, DatasetRecord, Embeddings, text_of_record, documents_of}
use sentinellm.Retrieval.Ranking.{
  RetrievedResult, Retriever, scored_by, score_corpus, sorted_scores, results_from, retrieve,
  rescore, reranked_from, rerank,
}
use sentinellm.Retrieval.Sorting.{length-take_le, Has-sorted_scores, length-sorted_scores}

module _ {F : Type 0} where
  -- a result shows a document
  abbrev pub Shows : RetrievedResult F → Document → Type 0
  Shows r d = (r.doc_id ≡ d.doc_id) × (r.content ≡ d.content)

  abbrev pub AreRanked : ℕ → List (RetrievedResult F) → Type 0
  AreRanked i [] = Unit
  AreRanked i (r ∷ rs) = (r.rank ≡ i) × AreRanked (i + 1) rs

  -- the document is the text of a record of the data set
  abbrev pub IsSource : List DatasetRecord → String → RetrievedResult F → Type 0
  IsSource records dataset_id r =
      (row : DatasetRecord) × Has row records
      × (row.dataset_id ≡ dataset_id)
      × (r.doc_id ≡ row.id)
      × (r.content ≡ text_of_record row)

pub Has-documents_of :
    (rows : List DatasetRecord) (d : Document)
    → Has d (documents_of rows)
    → (row : DatasetRecord) × Has row rows × (d.doc_id ≡ row.id) × (d.content ≡ text_of_record row)
unfolding documents_of
Has-documents_of [] d m = absurd m
Has-documents_of (r ∷ rows) d m = elim (Bool-cases (text_of_record r == "")) [
  | inl blank ↦
      let (row, at, named, text) = Has-documents_of rows d (rw blank at m) in
      (row, inr at, named, text)
  | inr full ↦ elim (rw full at m) [
    | inl same ↦ (
      r,
      inl refl,
      sym (ap (λ (x : Document). x.doc_id) same),
      sym (ap (λ (x : Document). x.content) same),
    )
    | inr later ↦
        let (row, at, named, text) = Has-documents_of rows d later in (row, inr at, named, text)
  ]
]

pub length-map : {A B : Type 0} (f : A → B) (xs : List A) → length (map f xs) ≡ length xs
length-map f [] = refl
length-map f (x ∷ xs) = ap suc (length-map f xs)

pub Has-map :
    {A B : Type 0} (f : A → B) (xs : List A) (y : B)
    → Has y (map f xs)
    → (x : A) × Has x xs × (f x ≡ y)
Has-map f [] y m = absurd m
Has-map f (x ∷ xs) y (inl same) = (x, inl refl, same)
Has-map f (x ∷ xs) y (inr later) = let (z, at, e) = Has-map f xs y later in (z, inr at, e)

module _ {F : Type 0} ⦃fl : Float F⦄ where
  results_from-AreRanked : (i : ℕ) (ps : List (Document × F)) → AreRanked i (results_from i ps)
  unfolding results_from
  results_from-AreRanked i [] = tt
  results_from-AreRanked i ((d, s) ∷ ps) = (refl, results_from-AreRanked (i + 1) ps)

  reranked_from-AreRanked :
      (i : ℕ) (ps : List (RetrievedResult F × F)) → AreRanked i (reranked_from i ps)
  unfolding reranked_from
  reranked_from-AreRanked i [] = tt
  reranked_from-AreRanked i ((r, s) ∷ ps) = (refl, reranked_from-AreRanked (i + 1) ps)

  pub length-results_from :
      (i : ℕ) (ps : List (Document × F)) → length (results_from i ps) ≡ length ps
  unfolding results_from
  length-results_from i [] = refl
  length-results_from i ((d, s) ∷ ps) = ap suc (length-results_from (i + 1) ps)

  length-reranked_from :
      (i : ℕ) (ps : List (RetrievedResult F × F)) → length (reranked_from i ps) ≡ length ps
  unfolding reranked_from
  length-reranked_from i [] = refl
  length-reranked_from i ((d, s) ∷ ps) = ap suc (length-reranked_from (i + 1) ps)

  -- what is true of every scored document is true of the results
  pub All-results_from :
      (P : RetrievedResult F → Type 0) (i : ℕ) (ps : List (Document × F))
      → ((p : Document × F) → Has p ps → (r : RetrievedResult F) → Shows r p.0 → P r)
      → All P (results_from i ps)
  unfolding results_from
  All-results_from P i [] h = tt
  All-results_from P i ((d, s) ∷ ps) h =
      (h (d, s) (inl refl) _ (refl, refl), All-results_from P (i + 1) ps (λ p m. h p (inr m)))

  All-reranked_from :
      (P : RetrievedResult F → Type 0) (i : ℕ) (ps : List (RetrievedResult F × F))
      → ((p : RetrievedResult F × F)
          → Has p ps
          → (r : RetrievedResult F) → (r.doc_id ≡ p.0.doc_id)
          → (r.content ≡ p.0.content)
          → P r)
      → All P (reranked_from i ps)
  unfolding reranked_from
  All-reranked_from P i [] h = tt
  All-reranked_from P i ((q, s) ∷ ps) h =
      (h (q, s) (inl refl) _ refl refl, All-reranked_from P (i + 1) ps (λ p m. h p (inr m)))

  Has-scored_by :
      (score : Document → List F → F) (ds : List Document) (vs : List (List F)) (p : Document × F)
      → Has p (scored_by score ds vs)
      → Has p.0 ds
  unfolding scored_by
  Has-scored_by score [] vs p m = absurd m
  Has-scored_by score (d ∷ ds) [] p m = absurd m
  Has-scored_by score (d ∷ ds) (v ∷ vs) p (inl same) = inl (ap (λ (q : Document × F). q.0) same)
  Has-scored_by score (d ∷ ds) (v ∷ vs) p (inr later) = inr (Has-scored_by score ds vs p later)

  Has-score_vectors :
      (embeddings : Embeddings F) (corpus : List Document) (vectors : Option (List (List F)))
      (unit : Bool) (query : String) (p : Document × F)
      → Has p (
          score_corpus
            (record { embeddings = embeddings; corpus = corpus; vectors = vectors; unit = unit })
            query)
      → Has p.0 corpus
  unfolding score_corpus
  Has-score_vectors embeddings corpus none unit query p m =
      let (d, at, e) = Has-map _ corpus p m in
      subst (λ x. Has x corpus) (ap (λ (q : Document × F). q.0) e) at
  Has-score_vectors embeddings corpus (some vs) unit query p m = Has-scored_by _ corpus vs p m

  pub Has-score_corpus :
      (r : Retriever F) (query : String) (p : Document × F)
      → Has p (score_corpus r query)
      → Has p.0 r.corpus
  Has-score_corpus r query p m = Has-score_vectors r.embeddings r.corpus r.vectors r.unit query p m

  module _ (r : Retriever F) (query : String) (top_k : ℕ) where
    pub retrieve-Shows :
        All (λ x. (d : Document) × Has d r.corpus × Shows x d) (retrieve r query top_k)
    unfolding retrieve
    retrieve-Shows = elim (Bool-cases (is_empty r.corpus)) [
      | inl none_there ↦ rw none_there tt
      | inr some_there ↦ rw some_there (
          All-results_from _ 0 (take top_k (sorted_scores (score_corpus r query))) (λ p m x shown. (
            p.0,
            Has-score_corpus r query p (
                Has-sorted_scores p (score_corpus r query)
                  (Has-take top_k (sorted_scores (score_corpus r query)) p m)),
            shown,
          )))
    ]

    pub length-retrieve : length (retrieve r query top_k) ≤ top_k
    unfolding retrieve
    length-retrieve = elim (Bool-cases (is_empty r.corpus)) [
      | inl none_there ↦ rw none_there (omega arith)
      | inr some_there ↦
          rw (some_there, length-results_from 0 (take top_k (sorted_scores (score_corpus r query))))
            (length-take_le top_k (sorted_scores (score_corpus r query)))
    ]

  pub rerank-All :
      (P : RetrievedResult F → Type 0) (query : String) (results : List (RetrievedResult F))
      → ((x y : RetrievedResult F) → P x → y.doc_id ≡ x.doc_id → y.content ≡ x.content → P y)
      → All P results
      → All P (rerank query results)
  unfolding rerank
  rerank-All P query results same all = All-reranked_from P 0 _ (λ p m y named text.
      let (x, at, e) =
        Has-map (λ x. (x, rescore query x)) results p
          (Has-sorted_scores p (map (λ x. (x, rescore query x)) results) m) in
      same p.0 y
        (subst (λ z. P z) (ap (λ (q : RetrievedResult F × F). q.0) e) (All-at P results x all at))
        named text)

  pub length-rerank :
      (query : String) (results : List (RetrievedResult F))
      → length (rerank query results) ≡ length results
  unfolding rerank
  length-rerank query results =
      length-reranked_from 0 _
      ∙ length-sorted_scores (map (λ x. (x, rescore query x)) results)
      ∙ length-map _ results

  pub rerank-AreRanked :
      (query : String) (results : List (RetrievedResult F)) → AreRanked 0 (rerank query results)
  unfolding rerank
  rerank-AreRanked query results = reranked_from-AreRanked 0 _
