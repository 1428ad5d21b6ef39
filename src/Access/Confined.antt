-- ===== src/Access/Confined.antt =====
-- What a key confined to one application can make of itself: creation keeps it confined, rotation does
-- not.
use sentinellm.Prelude.{
  ◌≡◌, inl, inr, ◌⊎◌, Bool-cases, true, false, ◌==◌, eq_iff, eq_refl, String, some, Option-cases,
  List, [], ◌∷◌, ◌++◌, find, arith,
}
use sentinellm.Rollout.Operator.{contains}
use sentinellm.Access.Keys.{ApiKey, scope_of, is_scoped, update_key}
use sentinellm.Access.Endpoints.{
  AppRow, KeyCreate, KeyRotate, NewKey, key_done, create_api_key, rotate_api_key, replacement,
  retired_row,
}
use sentinellm.Access.Guarded.{scoped_to}

find-app :
    (apps : List AppRow) (i : String) (a : AppRow) → find (λ x. x.id == i) apps ≡ some a → a.id ≡ i
find-app [] i a e = absurd (cc e)
find-app (x ∷ apps) i a e = ground (arith, eq_iff x.id i, find-app apps i a)

-- A key that is created with a key confined to an application is confined too, and to that application,
-- by its id or by an id that is its name.
pub create_confined :
    (apps : List AppRow) (actor row : ApiKey) (payload : KeyCreate) (fresh : NewKey)
    (keys keys' : List ApiKey)
    → actor.scoped_to_application ≡ true
    → create_api_key apps actor payload fresh keys ≡ key_done row keys'
    → (row.scoped_to_application ≡ true)
      × ((row.application_id ≡ actor.application_id)
          ⊎ (row.application_id ≡ actor.application_name))
unfolding create_api_key
create_confined apps actor row payload fresh keys keys' on h =
    elim (Bool-cases (contains (scope_of actor) payload.application_id)) [
      | inr outside ↦ absurd (ground arith)
      | inl inside ↦ elim (Option-cases (find (λ a. a.id == payload.application_id) apps)) [
        | inl gone ↦ absurd (ground arith)
        | inr (app, found) ↦
            let at : row.application_id ≡ payload.application_id =
              ground (arith, find-app apps payload.application_id app found) in
            (ground arith, rw at (scoped_to actor payload.application_id inside on))
      ]
    ]

-- A rotation hands an actor that is confined to an application a key without confinement, whenever the
-- key that it rotates is such a key of the application.
pub rotate_escapes :
    (actor old : ApiKey) (key_id : String) (payload : KeyRotate) (fresh : NewKey)
    (keys : List ApiKey)
    → actor.scoped_to_application ≡ true
    → find (λ k. k.id == key_id) keys ≡ some old
    → old.application_id ≡ actor.application_id
    → old.scoped_to_application ≡ false
    → old.revoked ≡ false
    → (row : ApiKey) × (keys' : List ApiKey) × (rotate_api_key actor key_id payload fresh keys
        ≡ key_done row keys')
      × (is_scoped (scope_of row) ≡ false)
      × (row.key_hash ≡ fresh.digest)
      × (row.role ≡ old.role)
unfolding rotate_api_key scope_of contains
rotate_escapes actor old key_id payload fresh keys on found same wide valid =
    let row = replacement payload fresh old in
    (
      row,
      update_key (retired_row payload fresh.now old) keys ++ row ∷ [],
      ground (arith, eq_refl actor.application_id),
      ground arith,
      ground arith,
      ground arith,
    )
