-- ===== src/Access/Retired.antt =====
-- A key that was revoked, or rotated out, stops authenticating.
use sentinellm.Prelude.{
  ℕ, ◌+◌, ◌*◌, ◌≤◌, ◌≡◌, refl, subst, sym, inl, inr, Bool-cases, true, false, ◌==◌, eq_iff, eq_refl,
  ◌⊎◌, String, Option, none, some, Option-cases, List, [], ◌∷◌, ◌++◌, find, arith, ltb,
}
use sentinellm.Access.Keys.{
  ApiKey, Denial, denied, invalid_key, expired_key, is_expired, has_hash, get_current_api_key,
  update_key,
}
use sentinellm.Access.Endpoints.{
  KeyRotate, NewKey, key_done, revoke_api_key, rotate_api_key, manageable_key, revoked_row,
  retired_row, replacement, sooner,
}
use sentinellm.Access.Guarded.{admit_key-revoked, admit_key-expired}

find-hash :
    (h : String) (keys : List ApiKey) (k : ApiKey)
    → find (has_hash h) keys ≡ some k
    → has_hash h k ≡ true
find-hash h [] k e = absurd (cc e)
find-hash h (x ∷ keys) k e = ground (arith, find-hash h keys k)

find-update_key :
    (h : String) (k k' : ApiKey) (keys : List ApiKey)
    → find (λ x. x.id == k.id) keys ≡ some k
    → find (has_hash h) keys ≡ some k
    → k'.id ≡ k.id
    → k'.key_hash ≡ k.key_hash
    → find (has_hash h) (update_key k' keys) ≡ some k'
unfolding update_key
find-update_key h k k' [] by_id by_hash i d = absurd (cc by_id)
find-update_key h k k' (x ∷ keys) by_id by_hash i d = elim (Bool-cases (x.id == k'.id)) [
  | inl same ↦
      let known : has_hash h k' ≡ true = rw d (find-hash h (x ∷ keys) k by_hash) in
      rw (same, known) refl
  | inr other ↦
      let apart : (x.id == k.id) ≡ false = rw i at other in
      rw other (ground (arith, find-update_key h k k' keys, eq_refl k.id))
]

find-append_key :
    (h : String) (keys more : List ApiKey) (k : ApiKey)
    → find (has_hash h) keys ≡ some k
    → find (has_hash h) (keys ++ more) ≡ some k
find-append_key h [] more k e = absurd (cc e)
find-append_key h (x ∷ keys) more k e = ground (arith, find-append_key h keys more k)

-- a row that is revoked or has expired does not authenticate
abbrev IsDead : ℕ → ApiKey → Type 0
IsDead now k = (k.revoked ≡ true) ⊎ ((k.revoked ≡ false) × (is_expired now k.expires_at ≡ true))

dead_denied :
    (hash : String → String) (now : ℕ) (keys : List ApiKey) (key : String) (k : ApiKey)
    → find (has_hash (hash key)) keys ≡ some k
    → IsDead now k
    → (d : Denial) × (get_current_api_key hash now keys (some key) ≡ denied d)
unfolding get_current_api_key
dead_denied hash now keys key k e dead = elim (Bool-cases (key == "")) [
  | inl empty ↦ (Denial.missing_header, ground arith)
  | inr full ↦ elim dead [
    | inl gone ↦ (invalid_key, rw (full, e) (admit_key-revoked now keys k gone))
    | inr (valid, late) ↦ (expired_key, rw (full, e) (admit_key-expired now keys k valid late))
  ]
]

manageable-find :
    (keys : List ApiKey) (actor : ApiKey) (key_id : String) (k : ApiKey)
    → manageable_key keys actor key_id ≡ some k
    → find (λ x. x.id == key_id) keys ≡ some k
unfolding manageable_key
manageable-find keys actor key_id k h = ground arith

find-id :
    (keys : List ApiKey) (i : String) (k : ApiKey) → find (λ x. x.id == i) keys ≡ some k → k.id ≡ i
find-id [] i k e = absurd (cc e)
find-id (x ∷ keys) i k e = ground (arith, eq_iff x.id i, find-id keys i k)

revoke-done :
    (actor : ApiKey) (key_id : String) (now : ℕ) (keys keys' : List ApiKey) (k' : ApiKey)
    → revoke_api_key actor key_id now keys ≡ key_done k' keys'
    → (k : ApiKey) × (manageable_key keys actor key_id ≡ some k)
      × (k' ≡ revoked_row now k)
      × (keys' ≡ update_key k' keys)
unfolding revoke_api_key
revoke-done actor key_id now keys keys' k' h =
    elim (Option-cases (manageable_key keys actor key_id)) [
      | inl gone ↦ absurd (ground arith)
      | inr (k, found) ↦ (k, found, ground arith, ground arith)
    ]

rotate-done :
    (actor : ApiKey) (key_id : String) (payload : KeyRotate) (fresh : NewKey)
    (keys keys' : List ApiKey) (k' : ApiKey)
    → rotate_api_key actor key_id payload fresh keys ≡ key_done k' keys'
    → (k : ApiKey) × (manageable_key keys actor key_id ≡ some k)
      × (k.revoked ≡ false)
      × (k' ≡ replacement payload fresh k)
      × (keys' ≡ update_key (retired_row payload fresh.now k) keys ++ k' ∷ [])
unfolding rotate_api_key
rotate-done actor key_id payload fresh keys keys' k' h =
    elim (Option-cases (manageable_key keys actor key_id)) [
      | inl gone ↦ absurd (ground arith)
      | inr (k, found) ↦ (k, found, ground arith, ground arith, ground arith)
    ]

revoked_row-IsDead :
    (now later : ℕ) (k : ApiKey)
    → IsDead later (revoked_row now k)
      × ((revoked_row now k).id ≡ k.id)
      × ((revoked_row now k).key_hash ≡ k.key_hash)
unfolding revoked_row
revoked_row-IsDead now later k = (inl (ground arith), ground arith, ground arith)

sooner-le : (current : Option ℕ) (lapse : ℕ) → sooner current lapse ≤ lapse
sooner-le none lapse = omega arith
sooner-le (some current) lapse = omega arith

retired_row-IsDead :
    (payload : KeyRotate) (now later : ℕ) (k : ApiKey)
    → k.revoked ≡ false
    → now + payload.grace_minutes * 60 * 1_000_000 ≤ later
    → IsDead later (retired_row payload now k)
      × ((retired_row payload now k).id ≡ k.id)
      × ((retired_row payload now k).key_hash ≡ k.key_hash)
unfolding retired_row
retired_row-IsDead payload now later k valid late =
    elim (Bool-cases (ltb 0 payload.grace_minutes)) [
      | inl grace ↦ (
        inr (
          ground arith,
          ground (arith, sooner-le k.expires_at (now + payload.grace_minutes * 60 * 1_000_000)),
        ),
        ground arith,
        ground arith,
      )
      | inr at_once ↦ (inl (ground arith), ground arith, ground arith)
    ]

find_own :
    (keys : List ApiKey) (i : String) (k : ApiKey)
    → find (λ x. x.id == i) keys ≡ some k
    → find (λ x. x.id == k.id) keys ≡ some k
find_own keys i k e =
    subst (λ (j : String). find (λ x. x.id == j) keys ≡ some k) (sym (find-id keys i k e)) e

-- A key that was revoked is refused at every time after: where its row is the one with the id that was
-- revoked and with the digest of the key.
pub revoked_refused :
    (hash : String → String) (actor : ApiKey) (key_id key : String) (now later : ℕ)
    (keys keys' : List ApiKey) (k k' : ApiKey)
    → find (λ x. x.id == key_id) keys ≡ some k
    → find (has_hash (hash key)) keys ≡ some k
    → revoke_api_key actor key_id now keys ≡ key_done k' keys'
    → (d : Denial) × (get_current_api_key hash later keys' (some key) ≡ denied d)
revoked_refused hash actor key_id key now later keys keys' k k' by_id by_hash h =
    let (k2, found, shape, table) = revoke-done actor key_id now keys keys' k' h in
    let same : k2 ≡ k = cc (manageable-find keys actor key_id k2 found, by_id) in
    let (dead, i, d) = revoked_row-IsDead now later k in
    let row : k' ≡ revoked_row now k = rw same at shape in
    let mine = find_own keys key_id k by_id in
    dead_denied hash later keys' key (revoked_row now k)
      (rw (table, row) (find-update_key (hash key) k (revoked_row now k) keys mine by_hash i d))
      dead

-- A key that was rotated is refused once the minutes of grace are over, at once where there are none:
-- where its row is the one with the id that was rotated and with the digest of the key.
pub rotated_refused :
    (hash : String → String) (actor : ApiKey) (key_id key : String) (payload : KeyRotate)
    (fresh : NewKey) (later : ℕ) (keys keys' : List ApiKey) (k k' : ApiKey)
    → find (λ x. x.id == key_id) keys ≡ some k
    → find (has_hash (hash key)) keys ≡ some k
    → rotate_api_key actor key_id payload fresh keys ≡ key_done k' keys'
    → fresh.now + payload.grace_minutes * 60 * 1_000_000 ≤ later
    → (d : Denial) × (get_current_api_key hash later keys' (some key) ≡ denied d)
rotated_refused hash actor key_id key payload fresh later keys keys' k k' by_id by_hash h late =
    let (k2, found, valid, shape, table) = rotate-done actor key_id payload fresh keys keys' k' h in
    let same : k2 ≡ k = cc (manageable-find keys actor key_id k2 found, by_id) in
    let old = retired_row payload fresh.now k in
    let (dead, i, d) = retired_row-IsDead payload fresh.now later k (rw same at valid) late in
    let mine = find_own keys key_id k by_id in
    let after : keys' ≡ update_key old keys ++ k' ∷ [] = rw same at table in
    dead_denied hash later keys' key old
      (rw after (
        find-append_key (hash key) (update_key old keys) (k' ∷ []) old
          (find-update_key (hash key) k old keys mine by_hash i d)))
      dead
