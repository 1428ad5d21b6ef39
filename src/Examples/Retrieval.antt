-- ===== src/Examples/Retrieval.antt =====
-- Two records of a data set, which are retrieved from twice.
use sentinellm.Prelude.{
  ℕ, ◌≤◌, ◌≡◌, ◌⊎◌, refl, inl, ◌==◌, false, String, none, some, List, [], ◌∷◌, map, keep, length,
  All, Has, if◌then◌else◌, arith,
}
use sentinellm.Float.{fsum}
use sentinellm.Float.Fixed.{ℤ, pos, fixed_float, Fixed-IsOrdered}
use sentinellm.Cache.Similarity.{cosine_similarity}
use sentinellm.Retrieval.Corpus.{
  Document, CacheKey, CorpusIndex, DatasetRecord, Embeddings, capacity, in_dataset, index_documents,
}
use sentinellm.Retrieval.Ranking.{
  RetrievedResult, Retriever, score_corpus, retrieve, retrieve_and_rerank,
}
use sentinellm.Retrieval.Transparent.{IsSoundCache, indexes_through, indexes_refine}
use sentinellm.Retrieval.Retention.{Use, get_of, put_of}
use sentinellm.Retrieval.Sources.{Shows}
use sentinellm.Retrieval.Served.{IsServed, retrieve_and_rerank-IsServed}
use sentinellm.Retrieval.Best.{retrieve_best}

abbrev embeddings : Embeddings ℤ
embeddings = record {
  name = "mock";
  embed = λ text. if text == "cats" then pos 10_000 ∷ pos 0 ∷ [] else pos 6_000 ∷ pos 8_000 ∷ [];
}

abbrev records : List DatasetRecord
records =
    record { id = "r1"; dataset_id = "pets"; context = "dogs"; expected_answer = "" }
    ∷ record { id = "r2"; dataset_id = "pets"; context = ""; expected_answer = "cats" }
    ∷ record { id = "r3"; dataset_id = "cars"; context = "fast"; expected_answer = "" }
    ∷ []

-- the tables do not change
abbrev content : String → ℕ → List DatasetRecord
content d n = keep (in_dataset d) records

abbrev twice : List (List DatasetRecord × String)
twice = (records, "pets") ∷ (records, "pets") ∷ []

indexes_refine_example :
    ((indexes_through embeddings twice []).0
      ≡ map (λ q. index_documents embeddings (keep (in_dataset q.1) q.0)) twice)
    × (length (indexes_through embeddings twice []).1 ≤ capacity)
indexes_refine_example = indexes_refine embeddings content twice ((λ d. refl), ((λ d. refl), tt))

retrieve_and_rerank-IsServed_example :
    ((results : List (RetrievedResult ℤ)) × ((retrieve_and_rerank embeddings records "pets" "cats" 1
          []).0
        ≡ some results)
      × IsServed embeddings records "pets" "cats" 1 results)
    × IsSoundCache embeddings content (retrieve_and_rerank embeddings records "pets" "cats" 1 []).1
retrieve_and_rerank-IsServed_example =
    retrieve_and_rerank-IsServed embeddings records "pets" "cats" 1 content [] (λ d. refl)
      (record { current = tt; bounded = omega arith })

abbrev pets : CacheKey
pets = record { dataset_id = "pets"; provider = "mock"; count = 2 }

abbrev cars : CacheKey
cars = record { dataset_id = "cars"; provider = "mock"; count = 1 }

abbrev index : CorpusIndex ℤ
index = record { documents = []; vectors = [] }

abbrev uses : List (Use ℤ)
uses = put_of cars index ∷ get_of cars ∷ []

abbrev retriever : Retriever ℤ
retriever = record {
  embeddings = embeddings;
  corpus =
      record { doc_id = "r1"; content = "dogs" } ∷ record { doc_id = "r2"; content = "cats" } ∷ [];
  vectors = none;
  unit = false;
}

abbrev dogs : Document × ℤ
dogs = (record { doc_id = "r1"; content = "dogs" }, pos 6_000)

retrieve_best_example :
    ((x : RetrievedResult ℤ) × Has x (retrieve retriever "cats" 1) × Shows x dogs.0)
    ⊎ All
        (λ x.
          (q : Document × ℤ) × Has q (score_corpus retriever "cats")
          × Shows x q.0
          × (fixed_float.lt q.1 (pos 6_000) ≡ false))
        (retrieve retriever "cats" 1)
retrieve_best_example =
    retrieve_best Fixed-IsOrdered retriever "cats" 1 dogs
      (unfold score_corpus cosine_similarity fsum in (refl, (refl, tt)))
      (unfold score_corpus cosine_similarity fsum in inl refl)
