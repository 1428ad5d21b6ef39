-- ===== src/Retrieval/Ranking.antt =====
-- src/sentinellm/retrieval/retriever.py and src/sentinellm/retrieval/reranker.py, and
-- `_retrieve_and_rerank` of src/sentinellm/services/generation.py.
use sentinellm.Prelude.{
  ℕ, ◌+◌, Bool, true, false, ◌&&◌, ◌||◌, String, Option, none, some, List, [], ◌∷◌, map, keep, any,
  length, take, leb, eqb, if◌then◌else◌,
}
use sentinellm.Float.{Float, fmin, fmax}
use sentinellm.Text.{codes, lower}
use sentinellm.Cache.Similarity.{is_empty, cosine_similarity, normalized, dot}
use sentinellm.Retrieval.Corpus.{
  Document, CorpusIndex, Indexes, DatasetRecord, Embeddings, corpus_index,
}

pub record RetrievedResult (F : Type 0) : Type 0 where
  pub doc_id : String
  pub content : String
  pub score : F
  pub rank : ℕ

-- `EmbeddingRetriever`, after its constructor
pub record Retriever (F : Type 0) : Type 0 where
  pub embeddings : Embeddings F
  pub corpus : List Document
  pub vectors : Option (List (List F))
  pub unit : Bool

module _ {F : Type 0} where
  abbrev pub has_vectors : Option (List (List F)) → Bool
  has_vectors none = false
  has_vectors (some vs) = true

  abbrev pub match_corpus : Option (List (List F)) → List Document → Bool
  match_corpus none corpus = true
  match_corpus (some vs) corpus = eqb (length vs) (length corpus)

  -- the constructor; none is the `ValueError`
  unfoldable pub embedding_retriever :
      Embeddings F → List Document → Option (List (List F)) → Bool → Option (Retriever F)
  embedding_retriever embeddings corpus vectors unit_vectors =
      if match_corpus vectors corpus
      then some (record {
        embeddings = embeddings;
        corpus = corpus;
        vectors = vectors;
        unit = unit_vectors && has_vectors vectors;
      })
      else none

  -- a stable sort by falling key, by insertion
  unfoldable pub insert_scored : {A : Type 0} → ⦃fl : Float F⦄ → A × F → List (A × F) → List (A × F)
  insert_scored p [] = p ∷ []
  insert_scored ⦃fl⦄ p (q ∷ qs) =
      let later = insert_scored p qs in if fl.lt p.1 q.1 then q ∷ later else p ∷ q ∷ qs

  unfoldable pub sorted_scores : {A : Type 0} → ⦃fl : Float F⦄ → List (A × F) → List (A × F)
  unfolding insert_scored
  sorted_scores [] = []
  sorted_scores (p ∷ ps) = insert_scored p (sorted_scores ps)

module _ {F : Type 0} ⦃fl : Float F⦄ where
  open fl use {decimal, of_nat, plus, times, over, round}

  -- a document with its score, kept from below 0
  unfoldable pub scored_by :
      (Document → List F → F) → List Document → List (List F) → List (Document × F)
  scored_by score [] vs = []
  scored_by score (d ∷ ds) [] = []
  scored_by score (d ∷ ds) (v ∷ vs) = (d, fmax (decimal 0 0) (score d v)) ∷ scored_by score ds vs

  -- the loop over the corpus, after the question was embedded
  unfoldable pub score_corpus : Retriever F → String → List (Document × F)
  unfolding scored_by
  score_corpus r query =
      let query_vec = r.embeddings.embed query in
      elim r.vectors [
        | none ↦
            map
              (λ d. (
                d,
                fmax (decimal 0 0) (cosine_similarity query_vec (r.embeddings.embed d.content)),
              ))
              r.corpus
        | some vs ↦
            scored_by
              (λ d v.
                if r.unit then dot (normalized query_vec) v else cosine_similarity query_vec v)
              r.corpus vs
      ]

  unfoldable pub results_from : ℕ → List (Document × F) → List (RetrievedResult F)
  results_from i [] = []
  results_from i ((d, score) ∷ rest) =
      record { doc_id = d.doc_id; content = d.content; score = round score 4; rank = i }
      ∷ results_from (i + 1) rest

  -- `retrieve`
  unfoldable pub retrieve : Retriever F → String → ℕ → List (RetrievedResult F)
  unfolding score_corpus sorted_scores results_from
  retrieve r query top_k =
      if is_empty r.corpus
      then []
      else results_from 0 (take top_k (sorted_scores (score_corpus r query)))

-- `[a-z0-9]`, of a text in lower case
abbrev pub is_token_char : ℕ → Bool
is_token_char c = leb b'a' c && leb c b'z' || leb b'0' c && leb c b'9'

-- `re.findall(r"[a-z0-9]+", text)`; `word` is the run before, the last character first
unfoldable pub tokens_from : List ℕ → List ℕ → List (List ℕ)
tokens_from word [] = if is_empty word then [] else word ∷ []
tokens_from word (c ∷ cs) =
    let longer = tokens_from (c ∷ word) cs in
    let fresh = tokens_from [] cs in
    if is_token_char c then longer else if is_empty word then fresh else word ∷ fresh

abbrev pub same_word : List ℕ → List ℕ → Bool
same_word [] [] = true
same_word [] (y ∷ ys) = false
same_word (x ∷ xs) [] = false
same_word (x ∷ xs) (y ∷ ys) = eqb x y && same_word xs ys

-- the elements of a set, each once
unfoldable pub distinct_words : List (List ℕ) → List (List ℕ)
distinct_words [] = []
distinct_words (w ∷ ws) =
    let rest = distinct_words ws in if any (same_word w) rest then rest else w ∷ rest

unfoldable pub tokens : String → List (List ℕ)
unfolding lower tokens_from distinct_words
tokens text = distinct_words (tokens_from [] (map lower (codes text)))

module _ {F : Type 0} ⦃fl : Float F⦄ where
  open fl use {decimal, of_nat, plus, times, over, round}

  -- `_lexical_overlap`
  unfoldable pub lexical_overlap : String → String → F
  unfolding tokens
  lexical_overlap query text =
      if is_empty (tokens query) || is_empty (tokens text)
      then decimal 0 0
      else over (of_nat (length (keep (λ w. any (same_word w) (tokens text)) (tokens query))))
          (of_nat (length (tokens query)))

  unfoldable pub rescore : String → RetrievedResult F → F
  unfolding lexical_overlap
  rescore query r =
      round
        (fmin (decimal 1 0) (
          plus (times (decimal 7 1) r.score)
            (times (decimal 3 1) (lexical_overlap query r.content))))
        4

  unfoldable pub reranked_from : ℕ → List (RetrievedResult F × F) → List (RetrievedResult F)
  reranked_from i [] = []
  reranked_from i ((r, score) ∷ rest) =
      record { doc_id = r.doc_id; content = r.content; score = score; rank = i }
      ∷ reranked_from (i + 1) rest

  -- `ScoreJitterReranker.rerank`
  unfoldable pub rerank : String → List (RetrievedResult F) → List (RetrievedResult F)
  unfolding rescore sorted_scores reranked_from
  rerank query results = reranked_from 0 (sorted_scores (map (λ r. (r, rescore query r)) results))

  -- the part of `_retrieve_and_rerank` after the index is there; none is the `ValueError` of the
  -- constructor
  unfoldable pub retrieve_from :
      Embeddings F → CorpusIndex F → String → ℕ → Option (List (RetrievedResult F))
  unfolding embedding_retriever retrieve rerank
  retrieve_from embeddings index question top_k =
      if is_empty index.documents
      then some []
      else elim (embedding_retriever embeddings index.documents (some index.vectors) true) [
        | none ↦ none
        | some r ↦ some (rerank question (retrieve r question top_k))
      ]

  -- `_retrieve_and_rerank`, and the cache of corpora after it
  unfoldable pub retrieve_and_rerank :
      Embeddings F
      → List DatasetRecord
      → String
      → String
      → ℕ
      → Indexes F
      → Option (List (RetrievedResult F)) × Indexes F
  unfolding corpus_index retrieve_from
  retrieve_and_rerank embeddings records dataset_id question top_k entries =
      let (index, entries') = corpus_index embeddings records dataset_id entries in
      (retrieve_from embeddings index question top_k, entries')
