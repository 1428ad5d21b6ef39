-- ===== src/Retrieval/Retention.antt =====
-- How long the cache of corpora keeps an index.
use sentinellm.Prelude.{
  ℕ, ◌+◌, ◌≤◌, ◌<◌, ◌≡◌, refl, ap, ◌∙◌, inl, inr, true, false, eq_refl, none, some, Option-cases,
  List, [], ◌∷◌, ◌++◌, length, length-append, All, arith, if◌then◌else◌,
}
use sentinellm.Retrieval.Corpus.{
  capacity, CacheKey, CorpusIndex, same_key, Indexes, index_of, without, move_to_end, get, assign,
  evict, put,
}
use sentinellm.Retrieval.Transparent.{same_key-eq, move_to_end-none, move_to_end-some}

same_key_self : (key : CacheKey) → same_key key key ≡ true
same_key_self key = ground (arith, eq_refl key.dataset_id, eq_refl key.provider)

apart_of :
    (key other k : CacheKey)
    → same_key other key ≡ false
    → same_key k other ≡ true
    → same_key k key ≡ false
apart_of key other k apart same = rw (same_key-eq k other same) apart

-- A use of the cache.
pub data Use (F : Type 0) : Type 0 where
  get_of : CacheKey → Use F
  put_of : CacheKey → CorpusIndex F → Use F

module _ {F : Type 0} where
  abbrev pub key_of : Use F → CacheKey
  key_of (get_of key) = key
  key_of (put_of key index) = key

  abbrev pub after_use : Use F → Indexes F → Indexes F
  after_use (get_of key) entries = (get key entries).1
  after_use (put_of key index) entries = put key index entries

  pub after_uses : List (Use F) → Indexes F → Indexes F
  after_uses [] entries = entries
  after_uses (u ∷ uses) entries = after_uses uses (after_use u entries)

  -- how many entries were used since a key was
  newer : CacheKey → Indexes F → ℕ
  newer key [] = 0
  newer key ((k, index) ∷ rest) =
      let later = newer key rest in if same_key k key then length rest else later

  module _ (key : CacheKey) where
    index_of-without_self : (entries : Indexes F) → index_of key (without key entries) ≡ none
    unfolding index_of without
    index_of-without_self [] = refl
    index_of-without_self ((k, old) ∷ rest) = ground (arith, index_of-without_self rest)

    index_of-last :
        (entries : Indexes F) (index : CorpusIndex F)
        → index_of key entries ≡ none
        → (index_of key (entries ++ (key, index) ∷ []) ≡ some index)
          × (newer key (entries ++ (key, index) ∷ []) ≡ 0)
    unfolding index_of newer
    index_of-last [] index h = ground (arith, same_key_self key)
    index_of-last ((k, old) ∷ rest) index h = ground (arith, index_of-last rest index)

    index_of-assign :
        (entries : Indexes F) (index : CorpusIndex F)
        → (index_of key (assign key index entries) ≡ some index)
          × (without key (assign key index entries) ≡ without key entries)
    unfolding index_of assign without
    index_of-assign [] index = ground (arith, same_key_self key)
    index_of-assign ((k, old) ∷ rest) index = ground (arith, index_of-assign rest index)

    evict-found :
        (entries : Indexes F) (index : CorpusIndex F)
        → index_of key entries ≡ some index
        → newer key entries < capacity
        → (index_of key (evict entries) ≡ some index)
          × (newer key (evict entries) ≡ newer key entries)
    unfolding index_of newer evict
    evict-found [] index h room = absurd (cc h)
    evict-found ((k, old) ∷ rest) index h room = ground (arith, evict-found rest index)

  put-shape :
      (key : CacheKey) (entries : Indexes F) (index : CorpusIndex F)
      → put key index entries ≡ evict (without key entries ++ (key, index) ∷ [])
  unfolding put
  put-shape key entries index =
      let (found, others) = index_of-assign key entries index in
      ap evict (
        move_to_end-some key (assign key index entries) index found
        ∙ ap (λ (l : Indexes F). l ++ (key, index) ∷ []) others)

  get-shape : (key : CacheKey) (entries : Indexes F) → (get key entries).1 ≡ move_to_end key entries
  unfolding get move_to_end
  get-shape key entries = ground arith

  module _ (key : CacheKey) where
    put-found :
        (entries : Indexes F) (index : CorpusIndex F)
        → (index_of key (put key index entries) ≡ some index)
          × (newer key (put key index entries) ≡ 0)
    put-found entries index =
        let (found, last) =
          index_of-last key (without key entries) index (index_of-without_self key entries) in
        let (still, place) =
          evict-found key (without key entries ++ (key, index) ∷ []) index found
            (omega (arith, last)) in
        rw (put-shape key entries index) (still, place ∙ last)

    module _ (other : CacheKey) (apart : same_key other key ≡ false) where
      index_of-without :
          (entries : Indexes F) → index_of key (without other entries) ≡ index_of key entries
      unfolding index_of without
      index_of-without [] = refl
      index_of-without ((k, old) ∷ rest) =
          ground (arith, index_of-without rest, apart_of key other k)

      length-without_le : (entries : Indexes F) → length (without other entries) ≤ length entries
      unfolding without
      length-without_le [] = omega arith
      length-without_le ((k, old) ∷ rest) = ground (arith, length-without_le rest)

      newer-without : (entries : Indexes F) → newer key (without other entries) ≤ newer key entries
      unfolding newer without
      newer-without [] = omega arith
      newer-without ((k, old) ∷ rest) =
          ground (arith, newer-without rest, length-without_le rest, apart_of key other k)

      index_of-append :
          (entries : Indexes F) (index new : CorpusIndex F)
          → index_of key entries ≡ some index
          → (index_of key (entries ++ (other, new) ∷ []) ≡ some index)
            × (newer key (entries ++ (other, new) ∷ []) ≡ newer key entries + 1)
      unfolding index_of newer
      index_of-append [] index new h = absurd (cc h)
      index_of-append ((k, old) ∷ rest) index new h =
          ground (arith, index_of-append rest index new, length-append rest ((other, new) ∷ []))

      moved :
          (entries : Indexes F) (index new : CorpusIndex F)
          → index_of key entries ≡ some index
          → (index_of key (without other entries ++ (other, new) ∷ []) ≡ some index)
            × (newer key (without other entries ++ (other, new) ∷ []) ≤ newer key entries + 1)
      moved entries index new h =
          let (found, place) =
            index_of-append (without other entries) index new (index_of-without entries ∙ h) in
          (found, omega (arith, place, newer-without entries))

    use-found :
        (u : Use F) (entries : Indexes F) (index : CorpusIndex F)
        → same_key (key_of u) key ≡ false
        → index_of key entries ≡ some index
        → newer key entries + 1 < capacity
        → (index_of key (after_use u entries) ≡ some index)
          × (newer key (after_use u entries) ≤ newer key entries + 1)
    use-found (get_of other) entries index apart h room =
        elim (Option-cases (index_of other entries)) [
          | inl gone ↦
              rw (get-shape other entries, move_to_end-none other entries gone) (h, omega arith)
          | inr (own, found) ↦
              rw (get-shape other entries, move_to_end-some other entries own found)
                (moved other apart entries index own h)
        ]
    use-found (put_of other new) entries index apart h room =
        let (found, place) = moved other apart entries index new h in
        let (still, same) =
          evict-found key (without other entries ++ (other, new) ∷ []) index found
            (omega (arith, place)) in
        rw (put-shape other entries new) (still, omega (arith, place, same))

    uses-found :
        (uses : List (Use F)) (entries : Indexes F) (index : CorpusIndex F)
        → All (λ u. same_key (key_of u) key ≡ false) uses
        → index_of key entries ≡ some index
        → newer key entries + length uses < capacity
        → index_of key (after_uses uses entries) ≡ some index
    unfolding after_uses
    uses-found [] entries index apart h room = h
    uses-found (u ∷ uses) entries index (first, rest) h room =
        let (found, place) = use-found u entries index first h (omega arith) in
        uses-found uses (after_use u entries) index rest found (omega (arith, place))

  -- An index that was put into the cache is still found after up to 15 further uses of other keys, from
  -- whatever the cache was before.
  pub put-retained :
      (key : CacheKey) (index : CorpusIndex F) (entries : Indexes F) (uses : List (Use F))
      → All (λ u. same_key (key_of u) key ≡ false) uses
      → length uses < capacity
      → (get key (after_uses uses (put key index entries))).0 ≡ some index
  unfolding get
  put-retained key index entries uses apart few =
      let (found, place) = put-found key entries index in
      let still =
        uses-found key uses (put key index entries) index apart found (omega (arith, place)) in
      ground arith
