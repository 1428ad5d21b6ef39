-- ===== src/Retrieval/Corpus.antt =====
-- src/sentinellm/retrieval/corpus_cache.py, and `_corpus_index` of
-- src/sentinellm/services/generation.py. The dictionary in its order is a list with the key that was
-- used longest ago at the head.
use sentinellm.Prelude.{
  ℕ, Bool, ◌&&◌, ◌==◌, String, Option, none, some, List, [], ◌∷◌, ◌++◌, map, keep, length, ltb, eqb,
  if◌then◌else◌,
}
use sentinellm.Float.{Float}
use sentinellm.Cache.Similarity.{normalized}

pub record Document : Type 0 where
  pub doc_id : String
  pub content : String

-- `CAPACITY`
abbrev pub capacity : ℕ
capacity = 16

pub record CacheKey : Type 0 where
  pub dataset_id : String
  pub provider : String
  pub count : ℕ

pub record CorpusIndex (F : Type 0) : Type 0 where
  pub documents : List Document
  pub vectors : List (List F)

-- The columns of `DatasetRecord` that are read here.
pub record DatasetRecord : Type 0 where
  pub id : String
  pub dataset_id : String
  pub context : String
  pub expected_answer : String

-- An embedding provider, whose `embed_batch` embeds the texts one by one.
pub record Embeddings (F : Type 0) : Type 0 where
  pub name : String
  pub embed : String → List F

abbrev pub same_key : CacheKey → CacheKey → Bool
same_key a b = a.dataset_id == b.dataset_id && a.provider == b.provider && eqb a.count b.count

-- `_indexes`
abbrev pub Indexes : Type 0 → Type 0
Indexes F = List (CacheKey × CorpusIndex F)

module _ {F : Type 0} where
  unfoldable pub index_of : CacheKey → Indexes F → Option (CorpusIndex F)
  index_of key [] = none
  index_of key ((k, index) ∷ rest) =
      let later = index_of key rest in if same_key k key then some index else later

  -- the other entries
  unfoldable pub without : CacheKey → Indexes F → Indexes F
  without key [] = []
  without key ((k, index) ∷ rest) =
      let others = without key rest in if same_key k key then others else (k, index) ∷ others

  -- `move_to_end`
  unfoldable pub move_to_end : CacheKey → Indexes F → Indexes F
  unfolding index_of without
  move_to_end key entries = elim (index_of key entries) [
    | none ↦ entries
    | some index ↦ without key entries ++ (key, index) ∷ []
  ]

  -- `get`
  unfoldable pub get : CacheKey → Indexes F → Option (CorpusIndex F) × Indexes F
  unfolding index_of move_to_end
  get key entries = elim (index_of key entries) [
    | none ↦ (none, entries)
    | some index ↦ (some index, move_to_end key entries)
  ]

  -- `_indexes[key] = index`, which keeps the place of a key that is there
  unfoldable pub assign : CacheKey → CorpusIndex F → Indexes F → Indexes F
  assign key index [] = (key, index) ∷ []
  assign key index ((k, old) ∷ rest) =
      let later = assign key index rest in
      if same_key k key then (k, index) ∷ rest else (k, old) ∷ later

  -- the loop of `put`
  unfoldable pub evict : Indexes F → Indexes F
  evict [] = []
  evict (e ∷ entries) =
      let rest = evict entries in if ltb capacity (length (e ∷ entries)) then rest else e ∷ entries

  -- `put`
  unfoldable pub put : CacheKey → CorpusIndex F → Indexes F → Indexes F
  unfolding assign move_to_end evict
  put key index entries = evict (move_to_end key (assign key index entries))

-- `r.context or r.expected_answer`
abbrev pub text_of_record : DatasetRecord → String
text_of_record r = if r.context == "" then r.expected_answer else r.context

abbrev pub in_dataset : String → DatasetRecord → Bool
in_dataset dataset_id r = r.dataset_id == dataset_id

-- the documents of the records, without the empty ones
unfoldable pub documents_of : List DatasetRecord → List Document
documents_of [] = []
documents_of (r ∷ rs) =
    let rest = documents_of rs in
    if text_of_record r == ""
    then rest
    else record { doc_id = r.id; content = text_of_record r } ∷ rest

module _ {F : Type 0} ⦃fl : Float F⦄ (embeddings : Embeddings F) where
  -- the index that a miss builds
  unfoldable pub index_documents : List DatasetRecord → CorpusIndex F
  unfolding documents_of
  index_documents rows = record {
    documents = documents_of rows;
    vectors = map (λ d. normalized (embeddings.embed d.content)) (documents_of rows);
  }

  -- `_corpus_index`, over the table of records
  unfoldable pub corpus_index : List DatasetRecord → String → Indexes F → CorpusIndex F × Indexes F
  unfolding get put index_documents
  corpus_index records dataset_id entries =
      let rows = keep (in_dataset dataset_id) records in
      let key : CacheKey = record {
        dataset_id = dataset_id;
        provider = embeddings.name;
        count = length rows;
      } in
      let (found, entries') = get key entries in
      elim found [
        | some index ↦ (index, entries')
        | none ↦ (index_documents rows, put key (index_documents rows) entries')
      ]
