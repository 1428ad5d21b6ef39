-- ===== src/Retrieval/Transparent.antt =====
-- The cache of corpora changes no answer.
use sentinellm.Prelude.{
  ℕ, ◌+◌, ◌≤◌, ◌≡◌, refl, ap, sym, ◌∙◌, inl, inr, Bool-cases, true, eq_iff, String, none, some,
  Option-cases, List, [], ◌∷◌, ◌++◌, map, keep, length, length-append, All, All-append, ltb, arith,
}
use sentinellm.Float.{Float}
use sentinellm.Retrieval.Corpus.{
  capacity, CacheKey, CorpusIndex, DatasetRecord, Embeddings, same_key, Indexes, index_of, without,
  move_to_end, get, assign, evict, put, in_dataset, index_documents, corpus_index,
}

pub same_key-eq : (a b : CacheKey) → same_key a b ≡ true → a ≡ b
same_key-eq a b h = ground (arith, eq_iff a.dataset_id b.dataset_id, eq_iff a.provider b.provider)

module _ {F : Type 0} (key : CacheKey) (entries : Indexes F) where
  pub move_to_end-none : index_of key entries ≡ none → move_to_end key entries ≡ entries
  unfolding move_to_end
  move_to_end-none h = ground arith

  pub move_to_end-some :
      (index : CorpusIndex F)
      → index_of key entries ≡ some index
      → move_to_end key entries ≡ without key entries ++ (key, index) ∷ []
  unfolding move_to_end
  move_to_end-some index h = ground arith

module _ {F : Type 0} (P : CacheKey × CorpusIndex F → Type 0) where
  index_of-All :
      (key : CacheKey) (entries : Indexes F) (index : CorpusIndex F)
      → All P entries
      → index_of key entries ≡ some index
      → P (key, index)
  unfolding index_of
  index_of-All key [] index all h = absurd (cc h)
  index_of-All key ((k, old) ∷ rest) index (p, ps) h = elim (Bool-cases (same_key k key)) [
    | inl same ↦
        let e : k ≡ key = same_key-eq k key same in
        let v : old ≡ index = ground arith in rw (← e, ← v) p
    | inr other ↦ index_of-All key rest index ps (rw other at h)
  ]

  without-All : (key : CacheKey) (entries : Indexes F) → All P entries → All P (without key entries)
  unfolding without
  without-All key [] all = tt
  without-All key ((k, old) ∷ rest) (p, ps) = elim (Bool-cases (same_key k key)) [
    | inl same ↦ rw same (without-All key rest ps)
    | inr other ↦ rw other (p, without-All key rest ps)
  ]

  move_to_end-All :
      (key : CacheKey) (entries : Indexes F) → All P entries → All P (move_to_end key entries)
  move_to_end-All key entries all = elim (Option-cases (index_of key entries)) [
    | inl gone ↦ rw (move_to_end-none key entries gone) all
    | inr (index, found) ↦ rw (move_to_end-some key entries index found) (
        All-append P (without key entries) ((key, index) ∷ []) (without-All key entries all)
          (index_of-All key entries index all found, tt))
  ]

  assign-All :
      (key : CacheKey) (index : CorpusIndex F) (entries : Indexes F)
      → P (key, index)
      → All P entries
      → All P (assign key index entries)
  unfolding assign
  assign-All key index [] p all = (p, tt)
  assign-All key index ((k, old) ∷ rest) p (q, qs) = elim (Bool-cases (same_key k key)) [
    | inl same ↦ let e : k ≡ key = same_key-eq k key same in rw (same, e) (p, qs)
    | inr other ↦ rw other (q, assign-All key index rest p qs)
  ]

  evict-All : (entries : Indexes F) → All P entries → All P (evict entries)
  unfolding evict
  evict-All [] all = tt
  evict-All (e ∷ entries) (p, ps) = elim (Bool-cases (ltb capacity (length (e ∷ entries)))) [
    | inl full ↦ rw full (evict-All entries ps)
    | inr room ↦ rw room (p, ps)
  ]

  put-All :
      (key : CacheKey) (index : CorpusIndex F) (entries : Indexes F)
      → P (key, index)
      → All P entries
      → All P (put key index entries)
  unfolding put
  put-All key index entries p all =
      evict-All (move_to_end key (assign key index entries))
        (move_to_end-All key (assign key index entries) (assign-All key index entries p all))

module _ {F : Type 0} where
  length-without :
      (key : CacheKey) (entries : Indexes F) → length (without key entries) ≤ length entries
  unfolding without
  length-without key [] = omega arith
  length-without key ((k, old) ∷ rest) = ground (arith, length-without key rest)

  length-without_found :
      (key : CacheKey) (entries : Indexes F) (index : CorpusIndex F)
      → index_of key entries ≡ some index
      → length (without key entries) + 1 ≤ length entries
  unfolding without index_of
  length-without_found key [] index h = absurd (cc h)
  length-without_found key ((k, old) ∷ rest) index h =
      ground (arith, length-without key rest, length-without_found key rest index)

  length-move_to_end :
      (key : CacheKey) (entries : Indexes F) → length (move_to_end key entries) ≤ length entries
  length-move_to_end key entries = elim (Option-cases (index_of key entries)) [
    | inl gone ↦ rw (move_to_end-none key entries gone) (omega arith)
    | inr (index, found) ↦ omega (
      arith,
      ap length (move_to_end-some key entries index found),
      length-append (without key entries) ((key, index) ∷ []),
      length-without_found key entries index found,
    )
  ]

  pub length-evict : (entries : Indexes F) → length (evict entries) ≤ capacity
  unfolding evict
  length-evict [] = omega arith
  length-evict (e ∷ entries) = ground (arith, length-evict entries)

module _ {F : Type 0} ⦃fl : Float F⦄ (embeddings : Embeddings F) where
  -- What the requests of a process are answered from, each with the table of records at its time: with
  -- the cache, and the cache after them.
  pub indexes_through :
      List (List DatasetRecord × String) → Indexes F → List (CorpusIndex F) × Indexes F
  indexes_through [] entries = ([], entries)
  indexes_through ((records, dataset_id) ∷ requests) entries =
      let (index, entries') = corpus_index embeddings records dataset_id entries in
      let (later, last) = indexes_through requests entries' in (index ∷ later, last)

module _ {F : Type 0} ⦃fl : Float F⦄ (embeddings : Embeddings F)
    (content : String → ℕ → List DatasetRecord) where
  -- an entry of the cache holds what its key stands for
  abbrev IsCurrent : CacheKey × CorpusIndex F → Type 0
  IsCurrent e = e.1 ≡ index_documents embeddings (content e.0.dataset_id e.0.count)

  -- the records of a data set are those that its name and their number stand for
  abbrev pub IsSettled : List DatasetRecord → Type 0
  IsSettled records =
      (d : String) → keep (in_dataset d) records ≡ content d (length (keep (in_dataset d) records))

  -- a state of the cache in such a history
  pub record IsSoundCache (entries : Indexes F) : Type 0 where
    pub current : All IsCurrent entries
    pub bounded : length entries ≤ capacity

  module _ (records : List DatasetRecord) (dataset_id : String) (entries : Indexes F) where
    abbrev rows : List DatasetRecord
    rows = keep (in_dataset dataset_id) records

    abbrev key_now : CacheKey
    key_now = record { dataset_id = dataset_id; provider = embeddings.name; count = length rows }

    corpus_index-hit :
        (index : CorpusIndex F)
        → index_of key_now entries ≡ some index
        → corpus_index embeddings records dataset_id entries ≡ (index, move_to_end key_now entries)
    unfolding corpus_index get
    corpus_index-hit index h = ground arith

    corpus_index-miss :
        index_of key_now entries ≡ none
        → corpus_index embeddings records dataset_id entries
          ≡ (index_documents embeddings rows, put key_now (index_documents embeddings rows) entries)
    unfolding corpus_index get
    corpus_index-miss h = ground arith

    -- the answer is the index of the records as they are, and the cache stays sound
    pub corpus_index-direct :
        IsSettled records
        → IsSoundCache entries
        → ((corpus_index embeddings records dataset_id entries).0 ≡ index_documents embeddings rows)
          × IsSoundCache (corpus_index embeddings records dataset_id entries).1
    unfolding put
    corpus_index-direct settled sound =
        let fresh : index_documents embeddings rows
            ≡ index_documents embeddings (content dataset_id (length rows)) =
          ap (index_documents embeddings) (settled dataset_id) in
        elim (Option-cases (index_of key_now entries)) [
          | inl miss ↦ rw (corpus_index-miss miss) (
            refl,
            record {
              current =
                  put-All IsCurrent key_now (index_documents embeddings rows) entries fresh
                    sound.current;
              bounded =
                  length-evict (
                    move_to_end key_now (assign key_now (index_documents embeddings rows) entries));
            },
          )
          | inr (index, found) ↦ rw (corpus_index-hit index found) (
            index_of-All IsCurrent key_now entries index sound.current found ∙ sym fresh,
            record {
              current = move_to_end-All IsCurrent key_now entries sound.current;
              bounded = omega (arith, length-move_to_end key_now entries, sound.bounded);
            },
          )
        ]

  indexes_from :
      (requests : List (List DatasetRecord × String)) (entries : Indexes F)
      → All (λ q. IsSettled q.0) requests
      → IsSoundCache entries
      → ((indexes_through embeddings requests entries).0
          ≡ map (λ q. index_documents embeddings (keep (in_dataset q.1) q.0)) requests)
        × IsSoundCache (indexes_through embeddings requests entries).1
  unfolding indexes_through
  indexes_from [] entries settled sound = (refl, sound)
  indexes_from ((records, dataset_id) ∷ requests) entries (now, settled) sound =
      let (here, kept) = corpus_index-direct records dataset_id entries now sound in
      let (later, last) =
        indexes_from requests (corpus_index embeddings records dataset_id entries).1 settled kept in
      (rw (here, later) refl, last)

  -- Where the records of a data set do not change but by growing in number, the cache of corpora makes no
  -- difference to any history of requests: each is answered from the index of the records of its data
  -- set at that time; and after them the cache holds at most 16 entries.
  pub indexes_refine :
      (requests : List (List DatasetRecord × String))
      → All (λ q. IsSettled q.0) requests
      → ((indexes_through embeddings requests []).0
          ≡ map (λ q. index_documents embeddings (keep (in_dataset q.1) q.0)) requests)
        × (length (indexes_through embeddings requests []).1 ≤ capacity)
  indexes_refine requests settled =
      let (same, sound) =
        indexes_from requests [] settled (record { current = tt; bounded = omega arith }) in
      (same, sound.bounded)
