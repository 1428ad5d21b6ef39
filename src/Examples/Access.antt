-- ===== src/Examples/Access.antt =====
-- Keys of two applications, and the theorems of access applied to them.
use sentinellm.Prelude.{
  ◌≡◌, ◌↔◌, refl, Bool, true, false, ◌++◌, String, none, some, List, [], ◌∷◌, arith,
}
use sentinellm.Float.Fixed.{ℤ, pos, fixed_float}
use sentinellm.Rollout.Table.{Rollout, running, paused}
use sentinellm.Rollout.Operator.{contains}
use sentinellm.Access.Keys.{
  ApiKey, Denial, denied, get_current_api_key, require_role, scope_of, is_scoped, update_key,
}
use sentinellm.Access.Endpoints.{
  AppRow, KeyCreate, KeyRotate, NewKey, key_done, rotate_api_key, manageable_key, retired_row,
  replacement, new_key,
}
use sentinellm.Access.Guarded.{GetsIn, IsEntitled, require_role_iff}
use sentinellm.Access.Retired.{rotated_refused}
use sentinellm.Access.Confined.{rotate_escapes}

abbrev key : String → String → Bool → ApiKey
key id role confined = record {
  id = id;
  application_id = "a1";
  application_name = "shop";
  key_hash = id;
  role = role;
  last_used_at = none;
  revoked = false;
  revoked_at = none;
  expires_at = some 1_000_000_000_000;
  scoped_to_application = confined;
}

abbrev keys : List ApiKey
keys = key "reader" "read" false ∷ key "boss" "admin" true ∷ []

-- keys stand for their own digests
abbrev plain : String → String
plain s = s

require_role_iff_example :
    GetsIn (require_role "write" (get_current_api_key plain 5 keys (some "reader")))
    ↔ IsEntitled plain 5 keys (some "reader") "write"
require_role_iff_example = require_role_iff plain 5 keys (some "reader") "write"

abbrev rollout : Rollout ℤ
rollout = record {
  id = "r1";
  application_id = "shop";
  incumbent_model = "old";
  challenger_model = "new";
  traffic_pct = pos 50_000;
  stage = running;
  quality_floor = pos 7_000;
  max_quality_regression = pos 1_000;
  max_error_rate = pos 1_000;
  min_sample_size = 2;
  step_pct = pos 100_000;
  max_pct = pos 1_000_000;
  last_evaluated_at = none;
  outcome_reason = none;
  created_at = 5;
}

abbrev paused_row : Rollout ℤ
paused_row = record rollout { stage = paused }

abbrev soon : KeyRotate
soon = record { grace_minutes = 1; expires_in_days = none }

abbrev fresh : NewKey
fresh = record { id = "k3"; digest = "k3"; now = 9 }

abbrev reader : ApiKey
reader = key "reader" "read" false

abbrev after_rotation : List ApiKey
after_rotation = update_key (retired_row soon 9 reader) keys ++ replacement soon fresh reader ∷ []

rotated_refused_example :
    (d : Denial) × (get_current_api_key plain 60_000_009 after_rotation (some "reader") ≡ denied d)
rotated_refused_example =
    rotated_refused plain (key "boss" "admin" true) "reader" "reader" soon fresh 60_000_009 keys
      after_rotation reader (replacement soon fresh reader) refl refl
      (unfold rotate_api_key manageable_key scope_of contains in refl) (omega arith)

abbrev apps : List AppRow
apps = record { id = "a1"; name = "shop" } ∷ []

abbrev child : KeyCreate
child = record {
  application_id = "a1";
  role = "write";
  scoped_to_application = true;
  expires_in_days = some 30;
}

abbrev child_row : ApiKey
child_row = new_key fresh (record { id = "a1"; name = "shop" }) "write" true (some 30)

rotate_escapes_example :
    (row : ApiKey) × (keys' : List ApiKey) × (rotate_api_key
        (key "boss" "admin" true)
        "reader"
        soon
        fresh
        keys
      ≡ key_done row keys')
    × (is_scoped (scope_of row) ≡ false)
    × (row.key_hash ≡ "k3")
    × (row.role ≡ "read")
rotate_escapes_example =
    rotate_escapes (key "boss" "admin" true) reader "reader" soon fresh keys refl refl refl refl
      refl
