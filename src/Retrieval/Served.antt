-- ===== src/Retrieval/Served.antt =====
-- The documents that a request is served with: those of its data set, and the best ones.
use sentinellm.Prelude.{
  ℕ, ◌≤◌, ◌≡◌, refl, ◌∙◌, ◌⊎◌, inl, inr, Bool-cases, true, false, String, none, some, List, [],
  keep, length, All, All-at, All-Has, Has, Has-keep, eqb, eq_iff, arith,
}
use sentinellm.Float.{Float}
use sentinellm.Cache.Similarity.{is_empty, normalized}
use sentinellm.Retrieval.Corpus.{
  Document, CorpusIndex, DatasetRecord, Embeddings, Indexes, in_dataset, documents_of,
  index_documents,
}
use sentinellm.Retrieval.Ranking.{
  RetrievedResult, Retriever, embedding_retriever, retrieve, rerank, retrieve_from,
  retrieve_and_rerank,
}
use sentinellm.Retrieval.Transparent.{IsSettled, IsSoundCache, corpus_index-direct}
use sentinellm.Retrieval.Sources.{
  Shows, AreRanked, IsSource, Has-documents_of, length-map, retrieve-Shows, length-retrieve,
  rerank-All, length-rerank, rerank-AreRanked,
}

eqb_self : (n : ℕ) → eqb n n ≡ true
eqb_self n = ground arith

retrieve_from-none :
    {F : Type 0} ⦃fl : Float F⦄ (embeddings : Embeddings F) (index : CorpusIndex F)
    (question : String) (top_k : ℕ)
    → is_empty index.documents ≡ true
    → retrieve_from embeddings index question top_k ≡ some []
unfolding retrieve_from
retrieve_from-none embeddings index question top_k blank = rw blank refl

retrieve_from-some :
    {F : Type 0} ⦃fl : Float F⦄ (embeddings : Embeddings F) (index : CorpusIndex F)
    (r : Retriever F) (question : String) (top_k : ℕ)
    → is_empty index.documents ≡ false
    → embedding_retriever embeddings index.documents (some index.vectors) true ≡ some r
    → retrieve_from embeddings index question top_k
      ≡ some (rerank question (retrieve r question top_k))
unfolding retrieve_from
retrieve_from-some embeddings index r question top_k full made =
    let branch : retrieve_from embeddings index question top_k
        ≡ elim (embedding_retriever embeddings index.documents (some index.vectors) true) [
          | none ↦ none
          | some r ↦ some (rerank question (retrieve r question top_k))
        ] =
      rw full refl in
    branch ∙ rw made refl

module _ {F : Type 0} ⦃fl : Float F⦄ (embeddings : Embeddings F) (records : List DatasetRecord)
    (dataset_id question : String) (top_k : ℕ) where
  abbrev direct_index : CorpusIndex F
  direct_index = index_documents embeddings (keep (in_dataset dataset_id) records)

  abbrev direct_retriever : Retriever F
  direct_retriever = record {
    embeddings = embeddings;
    corpus = direct_index.documents;
    vectors = some direct_index.vectors;
    unit = true;
  }

  direct_retriever_made :
      embedding_retriever embeddings direct_index.documents (some direct_index.vectors) true
      ≡ some direct_retriever
  unfolding embedding_retriever index_documents
  direct_retriever_made =
      let rows = documents_of (keep (in_dataset dataset_id) records) in
      rw (length-map (λ d. normalized (embeddings.embed d.content)) rows, eqb_self (length rows))
        refl

  document-IsSource :
      (r : RetrievedResult F) (d : Document)
      → Has d direct_index.documents
      → Shows r d
      → IsSource records dataset_id r
  unfolding index_documents
  document-IsSource r d at (named, text) =
      let (row, kept, id, content) = Has-documents_of (keep (in_dataset dataset_id) records) d at in
      let (there, own) = Has-keep (in_dataset dataset_id) records row kept in
      (row, there, (eq_iff row.dataset_id dataset_id).0 own, named ∙ id, text ∙ content)

  abbrev direct_results : List (RetrievedResult F)
  direct_results = rerank question (retrieve direct_retriever question top_k)

  direct_sourced : All (IsSource records dataset_id) direct_results
  direct_sourced =
      rerank-All (IsSource records dataset_id) question (retrieve direct_retriever question top_k)
        (λ x y (row, there, own, id, content) named text.
          (row, there, own, named ∙ id, text ∙ content))
        (All-Has _ (retrieve direct_retriever question top_k) (λ x m.
          let (d, at, shown) = All-at _ _ x (retrieve-Shows direct_retriever question top_k) m in
          document-IsSource x d at shown))

  direct_few : length direct_results ≤ top_k
  direct_few = omega (
    arith,
    length-rerank question (retrieve direct_retriever question top_k),
    length-retrieve direct_retriever question top_k,
  )

  retrieve_from_cases :
      (retrieve_from embeddings direct_index question top_k ≡ some [])
      ⊎ (retrieve_from embeddings direct_index question top_k ≡ some direct_results)
  retrieve_from_cases = elim (Bool-cases (is_empty direct_index.documents)) [
    | inl blank ↦ inl (retrieve_from-none embeddings direct_index question top_k blank)
    | inr full ↦ inr (
        retrieve_from-some embeddings direct_index direct_retriever question top_k full
          direct_retriever_made)
  ]

  -- What a request on a data set is served with: its documents, in the order of their ranks.
  pub record IsServed (results : List (RetrievedResult F)) : Type 0 where
    pub sourced : All (IsSource records dataset_id) results
    pub few : length results ≤ top_k
    pub ranks : AreRanked 0 results

  retrieve_from-IsServed :
      (results : List (RetrievedResult F)) × (retrieve_from embeddings direct_index question top_k
        ≡ some results)
      × IsServed results
  retrieve_from-IsServed = elim retrieve_from_cases [
    | inl blank ↦ ([], blank, record { sourced = tt; few = omega arith; ranks = tt })
    | inr full ↦ (
      direct_results,
      full,
      record {
        sourced = direct_sourced;
        few = direct_few;
        ranks = rerank-AreRanked question (retrieve direct_retriever question top_k);
      },
    )
  ]

  module _ (content : String → ℕ → List DatasetRecord) (entries : Indexes F) where
    -- Where the records of a data set do not change but by growing in number, and the cache of corpora
    -- has only seen such records: a retrieval succeeds, whether the cache has the index or not. It gives
    -- at most `top_k` results, ranked from 0 in their order, each with the id and the text of a record
    -- of the data set; and the cache stays as it was required.
    pub retrieve_and_rerank-IsServed :
        IsSettled embeddings content records
        → IsSoundCache embeddings content entries
        → ((results : List (RetrievedResult F)) × ((retrieve_and_rerank embeddings records
                dataset_id question top_k entries).0
              ≡ some results)
            × IsServed results)
          × IsSoundCache embeddings content
              (retrieve_and_rerank embeddings records dataset_id question top_k entries).1
    unfolding retrieve_and_rerank
    retrieve_and_rerank-IsServed settled sound =
        let (same, kept) =
          corpus_index-direct embeddings content records dataset_id entries settled sound in
        let (results, found, served) = retrieve_from-IsServed in
        ((results, rw same found, served), kept)
