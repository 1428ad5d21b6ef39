-- ===== src/Access/Guarded.antt =====
-- Who gets past authentication, and what a rollout's operator may touch.
use sentinellm.Prelude.{
  ℕ, ◌≡◌, ◌↔◌, ◌⊎◌, refl, subst, inl, inr, Bool-cases, or-true, true, false, ◌==◌, eq_iff, String,
  Option, none, some, List, find, arith,
}
use sentinellm.Float.{Float}
use sentinellm.Rollout.Table.{Rollout}
use sentinellm.Rollout.Operator.{contains, Action, done, operate, get_scoped_rollout}
use sentinellm.Rollout.Stages.{act-⟶}
use sentinellm.Rollout.History.{operate-done}
use sentinellm.Access.Keys.{
  ApiKey, Denial, invalid_key, expired_key, signed_in, denied, Authenticated, is_expired, is_stale,
  has_hash, role_satisfies, record_use, admit_key, get_current_api_key, require_role, scope_of,
  update_key,
}

-- some key gets in
abbrev pub GetsIn : Authenticated → Type 0
GetsIn a = (k : ApiKey) × (keys : List ApiKey) × (a ≡ signed_in k keys)

-- the header is a key of the table that is not revoked, has not expired, and has a role that will do
pub record IsEntitled (hash : String → String) (now : ℕ) (keys : List ApiKey)
    (header : Option String) (required : String) : Type 0 where
  pub key : String
  pub row : ApiKey
  pub given : header ≡ some key
  pub nonempty : (key == "") ≡ false
  pub known : find (has_hash (hash key)) keys ≡ some row
  pub valid : row.revoked ≡ false
  pub alive : is_expired now row.expires_at ≡ false
  pub role_ok : role_satisfies row.role required ≡ true

role_gate :
    (required : String) (k : ApiKey) (keys : List ApiKey)
    → GetsIn (require_role required (signed_in k keys)) ↔ (role_satisfies k.role required ≡ true)
unfolding require_role
role_gate required k keys = (λ (k', keys', e). ground arith, λ h. (k, keys, ground arith))

record_use-GetsIn :
    (now : ℕ) (keys : List ApiKey) (required : String) (k : ApiKey)
    → GetsIn (require_role required (record_use now k keys))
      ↔ (role_satisfies k.role required ≡ true)
unfolding record_use
record_use-GetsIn now keys required k =
    let used = record k { last_used_at = some now } in
    elim (Bool-cases (is_stale now k.last_used_at)) [
      | inl stale ↦ rw stale (role_gate required used (update_key used keys))
      | inr recent ↦ rw recent (role_gate required k keys)
    ]

module _ (now : ℕ) (keys : List ApiKey) (k : ApiKey) where
  admit_key-valid :
      k.revoked ≡ false
      → is_expired now k.expires_at ≡ false
      → admit_key now keys (some k) ≡ record_use now k keys
  unfolding admit_key
  admit_key-valid valid alive = ground arith

  pub admit_key-revoked : k.revoked ≡ true → admit_key now keys (some k) ≡ denied invalid_key
  unfolding admit_key
  admit_key-revoked gone = ground arith

  pub admit_key-expired :
      k.revoked ≡ false
      → is_expired now k.expires_at ≡ true
      → admit_key now keys (some k) ≡ denied expired_key
  unfolding admit_key
  admit_key-expired valid late = ground arith

not-GetsIn_denied : (required : String) (d : Denial) → ¬ GetsIn (require_role required (denied d))
unfolding require_role
not-GetsIn_denied required d (k, keys, e) = cc e

GetsIn-eq :
    (required : String) (a b : Authenticated)
    → a ≡ b
    → GetsIn (require_role required a)
    → GetsIn (require_role required b)
GetsIn-eq required a b e g = subst (λ x. GetsIn (require_role required x)) e g

admit_key-GetsIn :
    (now : ℕ) (keys : List ApiKey) (required : String) (found : Option ApiKey)
    → GetsIn (require_role required (admit_key now keys found))
    → (k : ApiKey) × (found ≡ some k)
      × (k.revoked ≡ false)
      × (is_expired now k.expires_at ≡ false)
      × (role_satisfies k.role required ≡ true)
unfolding admit_key
admit_key-GetsIn now keys required none g = absurd (not-GetsIn_denied required invalid_key g)
admit_key-GetsIn now keys required (some k) g = elim (Bool-cases k.revoked) [
  | inl gone ↦ absurd (
      not-GetsIn_denied required invalid_key
        (GetsIn-eq required _ (denied invalid_key) (admit_key-revoked now keys k gone) g))
  | inr valid ↦ elim (Bool-cases (is_expired now k.expires_at)) [
    | inl late ↦ absurd (
        not-GetsIn_denied required expired_key
          (GetsIn-eq required _ (denied expired_key) (admit_key-expired now keys k valid late) g))
    | inr alive ↦
        let used =
          GetsIn-eq required _ (record_use now k keys) (admit_key-valid now keys k valid alive) g in
        (k, refl, valid, alive, (record_use-GetsIn now keys required k).0 used)
  ]
]

entitled-used :
    (hash : String → String) (now : ℕ) (keys : List ApiKey) (header : Option String)
    (required : String) (h : IsEntitled hash now keys header required)
    → get_current_api_key hash now keys header ≡ record_use now h.row keys
unfolding get_current_api_key admit_key
entitled-used hash now keys header required h =
    rw (h.given, h.nonempty, h.known) (admit_key-valid now keys h.row h.valid h.alive)

there :
    (hash : String → String) (now : ℕ) (keys : List ApiKey) (header : Option String)
    (required : String)
    → GetsIn (require_role required (get_current_api_key hash now keys header))
    → IsEntitled hash now keys header required
unfolding get_current_api_key require_role
there hash now keys none required (k, keys', e) = absurd (cc e)
there hash now keys (some key) required (k, keys', e) = elim (Bool-cases (key == "")) [
  | inl empty ↦ absurd (cc (rw empty at e))
  | inr full ↦
      let (row, known, valid, alive, role_ok) =
        admit_key-GetsIn now keys required (find (has_hash (hash key)) keys)
          (k, keys', rw full at e) in
      record {
        key = key;
        row = row;
        given = refl;
        nonempty = full;
        known = known;
        valid = valid;
        alive = alive;
        role_ok = role_ok;
      }
]

-- A request gets past the check of a role exactly when its header is a key of the table that is not
-- revoked, has not expired, and has that role or a higher one.
pub require_role_iff :
    (hash : String → String) (now : ℕ) (keys : List ApiKey) (header : Option String)
    (required : String)
    → GetsIn (require_role required (get_current_api_key hash now keys header))
      ↔ IsEntitled hash now keys header required
require_role_iff hash now keys header required = (
  there hash now keys header required,
  λ h.
      rw (entitled-used hash now keys header required h)
        ((record_use-GetsIn now keys required h.row).1 h.role_ok),
)

pub scoped_to :
    (k : ApiKey) (app : String)
    → contains (scope_of k) app ≡ true
    → k.scoped_to_application ≡ true
    → (app ≡ k.application_id) ⊎ (app ≡ k.application_name)
unfolding scope_of contains
scoped_to k app h on =
    elim (or-true (app == k.application_id) (app == k.application_name) (ground arith)) [
      | inl same ↦ inl ((eq_iff app k.application_id).0 same)
      | inr same ↦ inr ((eq_iff app k.application_name).0 same)
    ]

module _ {F : Type 0} ⦃fl : Float F⦄ where
  -- An operator's action that is done with a key confined to an application is on a rollout of that
  -- application, by its id or its name.
  pub operate_scoped :
      (a : Action) (k : ApiKey) (i : String) (now : ℕ) (rs rs' : List (Rollout F)) (r' : Rollout F)
      → k.scoped_to_application ≡ true
      → operate a (scope_of k) i now rs ≡ done r' rs'
      → (r'.application_id ≡ k.application_id) ⊎ (r'.application_id ≡ k.application_name)
  unfolding operate get_scoped_rollout
  operate_scoped a k i now rs rs' r' on h =
      let (r, e, f, g) = operate-done a (scope_of k) i now rs rs' r' h in
      let same = (act-⟶ a now r r' f).1.application_id in
      let inside : contains (scope_of k) r.application_id ≡ true = ground arith in
      rw same (scoped_to k r.application_id inside on)
