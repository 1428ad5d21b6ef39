-- ===== src/Health/Overrides.antt =====
-- An operator's change of a model by src/sentinellm/api/routers/models.py, against the health monitor.
use sentinellm.Prelude.{
  ℕ, zero, suc, ◌≡◌, refl, ap, ◌∙◌, inl, inr, Bool-cases, Option-cases, true, false, ◌==◌, String,
  some, List, [], ◌∷◌, map, any, get_elem?, if◌then◌else◌,
}
use mathlib.Core.Option
use sentinellm.Float.{Float}
use sentinellm.Tables.{Trace, Model, ModelStatus}
use sentinellm.Access.Keys.{ApiKey, require_unscoped}
use sentinellm.Access.Applications.{unset, set_to}
use sentinellm.Health.Monitor.{evaluate_model_health, update_model_status}
use sentinellm.Health.Statuses.{evaluate_model_health_pinned}
use sentinellm.Health.Models.{ModelUpdate, model_done, has_null, updated_model, update_model}

get_elem-map :
    {A B : Type 0} (f : A → B) (xs : List A) (k : ℕ) (x : A)
    → get_elem? xs k ≡ some x
    → get_elem? (map f xs) k ≡ some (f x)
get_elem-map f [] k x h = absurd (cc h)
get_elem-map f (y ∷ xs) zero x h = ap (Option.map f) h
get_elem-map f (y ∷ xs) (suc k) x h = get_elem-map f xs k x h

module _ {F : Type 0} ⦃fl : Float F⦄ where
  -- the table after passes of the monitor, each with the traces that it finds and the time
  unfoldable pub after_passes : List (List (Trace F) × ℕ) → List (Model F) → List (Model F)
  after_passes [] models = models
  after_passes ((traces, now) ∷ passes) models =
      after_passes passes (evaluate_model_health traces now models).models

  -- a row that is not managed automatically is the same after any number of passes
  after_passes_pinned :
      (passes : List (List (Trace F) × ℕ)) (models : List (Model F)) (k : ℕ) (row : Model F)
      → get_elem? models k ≡ some row
      → row.status_auto ≡ false
      → get_elem? (after_passes passes models) k ≡ some row
  unfolding after_passes
  after_passes_pinned [] models k row at pinned = at
  after_passes_pinned ((traces, now) ∷ passes) models k row at pinned =
      after_passes_pinned passes (evaluate_model_health traces now models).models k row
        (evaluate_model_health_pinned traces now models k row at pinned) pinned

  -- a status that comes without the automatic management pins the row to it
  updated_model_pinned :
      (u : ModelUpdate F) (row : Model F) (s : ModelStatus)
      → u.status ≡ set_to (some s)
      → u.status_auto ≡ unset
      → ((updated_model u row).status ≡ s) × ((updated_model u row).status_auto ≡ false)
  unfolding update_model_status
  updated_model_pinned u row s status auto = rw (status, auto, update_model_status) (refl, refl)

  -- A status that an operator sets on a model, and nothing on its automatic management, is the status of
  -- the model after any number of passes of the monitor, whatever traces each of them finds, while no
  -- operator updates it again.
  pub update_model-lasts :
      (actor : ApiKey) (id : String) (u : ModelUpdate F) (models models' : List (Model F))
      (passes : List (List (Trace F) × ℕ)) (k : ℕ) (row : Model F) (s : ModelStatus)
      → u.status ≡ set_to (some s)
      → u.status_auto ≡ unset
      → update_model actor id u models ≡ model_done models'
      → get_elem? models k ≡ some row
      → (row.id == id) ≡ true
      → Option.map (λ (x : Model F). x.status) (get_elem? (after_passes passes models') k) ≡ some s
  unfolding update_model
  update_model-lasts actor id u models models' passes k row s status auto done at mine =
      elim (Option-cases (require_unscoped actor)) [
        | inr (denial, e) ↦ absurd (cc (rw (e, update_model) at done))
        | inl free ↦ elim (Bool-cases (any (λ m. m.id == id) models)) [
          | inr gone ↦ absurd (cc (rw (free, gone, update_model) at done))
          | inl there ↦ elim (Bool-cases (has_null u)) [
            | inl null ↦ absurd (cc (rw (free, there, null, update_model) at done))
            | inr whole ↦
                let f : Model F → Model F = λ m. if m.id == id then updated_model u m else m in
                let same : models' ≡ map f models =
                  cc (rw (free, there, whole, update_model) at done) in
                let here : f row ≡ updated_model u row = rw mine in
                let (set, pinned) = updated_model_pinned u row s status auto in
                rw
                  (after_passes_pinned passes models' k (updated_model u row)
                    (rw same (get_elem-map f models k row at ∙ ap some here)) pinned)
                  (ap some set)
          ]
        ]
      ]
