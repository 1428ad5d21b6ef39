-- ===== src/Access/Endpoints.antt =====
-- The endpoints of src/sentinellm/api/routers/applications.py that change API keys. `actor` is the key
-- that the request was authenticated by, as an administrator.
use Prim.Native.Nat.{min}
use sentinellm.Prelude.{
  ℕ, ◌+◌, ◌*◌, Bool, true, false, not, ◌&&◌, ◌==◌, String, Option, none, some, List, [], ◌∷◌, ◌++◌,
  find, eqb, ltb, if◌then◌else◌,
}
use sentinellm.Rollout.Operator.{contains}
use sentinellm.Access.Keys.{
  ApiKey, Denial, other_application, unscoped_child, no_application, no_key, own_key, revoked_key,
  scope_of, is_scoped, update_key,
}

-- The columns of `Application` that are read here.
pub record AppRow : Type 0 where
  pub id : String
  pub name : String

-- `APIKeyCreate` and `APIKeyRotate`; the display name of a key is left out
pub record KeyCreate : Type 0 where
  pub application_id : String
  pub role : String
  pub scoped_to_application : Bool
  pub expires_in_days : Option ℕ

pub record KeyRotate : Type 0 where
  pub grace_minutes : ℕ
  pub expires_in_days : Option ℕ

-- What the clock, the defaults of the columns and `generate_api_key` give: the digest of the new key.
pub record NewKey : Type 0 where
  pub id : String
  pub digest : String
  pub now : ℕ

-- The row that the response is about and the table after it, or an error.
pub data KeyReply : Type 0 where
  key_done : ApiKey → List ApiKey → KeyReply
  key_refused : Denial → KeyReply

-- `_expiry`: no days, and 0 days, are no expiry
abbrev pub expiry : ℕ → Option ℕ → Option ℕ
expiry now none = none
expiry now (some days) = if eqb days 0 then none else some (now + days * 86_400 * 1_000_000)

unfoldable pub new_key : NewKey → AppRow → String → Bool → Option ℕ → ApiKey
new_key fresh app role is_confined expires_in_days = record {
  id = fresh.id;
  application_id = app.id;
  application_name = app.name;
  key_hash = fresh.digest;
  role = role;
  last_used_at = none;
  revoked = false;
  revoked_at = none;
  expires_at = expiry fresh.now expires_in_days;
  scoped_to_application = is_confined;
}

-- `create_api_key`
unfoldable pub create_api_key : List AppRow → ApiKey → KeyCreate → NewKey → List ApiKey → KeyReply
unfolding scope_of contains new_key
create_api_key apps actor payload fresh keys =
    if not (contains (scope_of actor) payload.application_id)
    then key_refused other_application
    else if is_scoped (scope_of actor) && not payload.scoped_to_application
    then key_refused unscoped_child
    else elim (find (λ a. a.id == payload.application_id) apps) [
      | none ↦ key_refused no_application
      | some app ↦
          let row =
            new_key fresh app payload.role payload.scoped_to_application payload.expires_in_days in
          key_done row (keys ++ row ∷ [])
    ]

-- `_manageable_key`
unfoldable pub manageable_key : List ApiKey → ApiKey → String → Option ApiKey
unfolding scope_of contains
manageable_key keys actor key_id = elim (find (λ k. k.id == key_id) keys) [
  | none ↦ none
  | some k ↦ if contains (scope_of actor) k.application_id then some k else none
]

unfoldable pub revoked_row : ℕ → ApiKey → ApiKey
revoked_row now k = if k.revoked then k else record k { revoked = true; revoked_at = some now }

-- `revoke_api_key`
unfoldable pub revoke_api_key : ApiKey → String → ℕ → List ApiKey → KeyReply
unfolding manageable_key revoked_row
revoke_api_key actor key_id now keys = elim (manageable_key keys actor key_id) [
  | none ↦ key_refused no_key
  | some k ↦
      if k.id == actor.id
      then key_refused own_key
      else (let k' = revoked_row now k in key_done k' (update_key k' keys))
]

abbrev pub sooner : Option ℕ → ℕ → ℕ
sooner none lapse = lapse
sooner (some current) lapse = min current lapse

-- the old key after a rotation
unfoldable pub retired_row : KeyRotate → ℕ → ApiKey → ApiKey
retired_row payload now k =
    if ltb 0 payload.grace_minutes
    then record k {
      expires_at = some (sooner k.expires_at (now + payload.grace_minutes * 60 * 1_000_000));
    }
    else record k { revoked = true; revoked_at = some now }

-- the replacement: the same application, role and scope
unfoldable pub replacement : KeyRotate → NewKey → ApiKey → ApiKey
unfolding new_key
replacement payload fresh old =
    new_key fresh (record { id = old.application_id; name = old.application_name }) old.role
      old.scoped_to_application payload.expires_in_days

-- `rotate_api_key`
unfoldable pub rotate_api_key : ApiKey → String → KeyRotate → NewKey → List ApiKey → KeyReply
unfolding manageable_key retired_row replacement
rotate_api_key actor key_id payload fresh keys = elim (manageable_key keys actor key_id) [
  | none ↦ key_refused no_key
  | some old ↦
      if old.revoked
      then key_refused revoked_key
      else key_done (replacement payload fresh old) (
          update_key (retired_row payload fresh.now old) keys ++ replacement payload fresh old ∷ [])
]
