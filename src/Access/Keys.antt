-- ===== src/Access/Keys.antt =====
-- `get_current_api_key`, `require_role` and `scope_of` of src/sentinellm/api/deps.py, and `role_satisfies`
-- of src/sentinellm/api/security.py. The digest of a key is a parameter.
use sentinellm.Prelude.{
  ℕ, ◌-◌, ◌*◌, Bool, true, false, ◌==◌, String, Option, none, some, List, [], ◌∷◌, find, leb,
  if◌then◌else◌,
}
use sentinellm.Rollout.Operator.{ApplicationScope, unscoped, scoped}

-- `APIKey`, with the name of its application
pub record ApiKey : Type 0 where
  pub id : String
  pub application_id : String
  pub application_name : String
  pub key_hash : String
  pub role : String
  pub last_used_at : Option ℕ
  pub revoked : Bool
  pub revoked_at : Option ℕ
  pub expires_at : Option ℕ
  pub scoped_to_application : Bool

-- the `HTTPException`s of this part
pub data Denial : Type 0 where
  missing_header invalid_key expired_key wrong_role scoped_key other_application unscoped_child :
      Denial
  no_application no_key own_key revoked_key : Denial

-- A key with the table after the request was authenticated, or an error.
pub data Authenticated : Type 0 where
  signed_in : ApiKey → List ApiKey → Authenticated
  denied : Denial → Authenticated

-- `_LAST_USED_INTERVAL`, one minute
abbrev pub last_used_interval : ℕ
last_used_interval = 60 * 1_000_000

-- `ROLE_HIERARCHY.get(role, -1)` and `ROLE_HIERARCHY.get(required, 99)`, each one more
unfoldable pub rank_of : String → ℕ
rank_of role =
    if role == "read" then 1 else if role == "write" then 2 else if role == "admin" then 3 else 0

unfoldable pub required_rank : String → ℕ
required_rank required =
    if required == "read"
    then 1
    else if required == "write"
    then 2
    else if required == "admin"
    then 3
    else 100

unfoldable pub role_satisfies : String → String → Bool
unfolding rank_of required_rank
role_satisfies role required = leb (required_rank required) (rank_of role)

-- `expires_at is not None and expires_at <= now`
abbrev pub is_expired : ℕ → Option ℕ → Bool
is_expired now none = false
is_expired now (some t) = leb t now

abbrev pub is_stale : ℕ → Option ℕ → Bool
is_stale now none = true
is_stale now (some t) = leb last_used_interval (now - t)

-- the session writes a changed row back by its key
unfoldable pub update_key : ApiKey → List ApiKey → List ApiKey
update_key k' [] = []
update_key k' (k ∷ ks) = let rest = update_key k' ks in if k.id == k'.id then k' ∷ ks else k ∷ rest

-- a use is recorded at most once a minute
unfoldable pub record_use : ℕ → ApiKey → List ApiKey → Authenticated
unfolding update_key
record_use now k keys =
    if is_stale now k.last_used_at
    then (let k' = record k { last_used_at = some now } in signed_in k' (update_key k' keys))
    else signed_in k keys

abbrev pub has_hash : String → ApiKey → Bool
has_hash h k = k.key_hash == h

-- the key of the row found
unfoldable pub admit_key : ℕ → List ApiKey → Option ApiKey → Authenticated
unfolding record_use
admit_key now keys none = denied invalid_key
admit_key now keys (some k) =
    if k.revoked
    then denied invalid_key
    else if is_expired now k.expires_at
    then denied expired_key
    else record_use now k keys

unfoldable pub get_current_api_key :
    (String → String) → ℕ → List ApiKey → Option String → Authenticated
unfolding admit_key
get_current_api_key hash now keys none = denied missing_header
get_current_api_key hash now keys (some key) =
    if key == ""
    then denied missing_header
    else admit_key now keys (find (has_hash (hash key)) keys)

-- the checker of `require_role`
unfoldable pub require_role : String → Authenticated → Authenticated
unfolding role_satisfies
require_role required (denied d) = denied d
require_role required (signed_in k keys) =
    if role_satisfies k.role required then signed_in k keys else denied wrong_role

unfoldable pub scope_of : ApiKey → ApplicationScope
scope_of k =
    if k.scoped_to_application then scoped k.application_id k.application_name else unscoped

abbrev pub is_scoped : ApplicationScope → Bool
is_scoped unscoped = false
is_scoped (scoped id name) = true

-- `require_unscoped`
unfoldable pub require_unscoped : ApiKey → Option Denial
unfolding scope_of
require_unscoped k = if is_scoped (scope_of k) then some scoped_key else none
