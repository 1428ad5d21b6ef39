-- ===== src/Health/Models.antt =====
-- The endpoints of src/sentinellm/api/routers/models.py that change a model. The name and the provider of
-- a model are left out, but for a name of null, which the table refuses.
use sentinellm.Prelude.{
  ℕ, Bool, true, false, not, ◌||◌, ◌==◌, String, Option, none, some, List, [], ◌∷◌, ◌++◌, map, any,
  if◌then◌else◌,
}
use sentinellm.Tables.{Model, ModelStatus}
use sentinellm.Access.Keys.{ApiKey, Denial, require_unscoped}
use sentinellm.Access.Applications.{Patch, unset, set_to, patched_value}
use sentinellm.Health.Monitor.{StatusUpdate, update_model_status}

-- `ModelCreate`
pub record ModelCreate (F : Type 0) : Type 0 where
  pub id : String
  pub input_price_per_1k : F
  pub output_price_per_1k : F
  pub context_window : ℕ
  pub quality_tier : F
  pub avg_latency_ms_prior : F
  pub status : ModelStatus

-- `ModelUpdate`
pub record ModelUpdate (F : Type 0) : Type 0 where
  pub name : Patch String
  pub input_price_per_1k : Patch F
  pub output_price_per_1k : Patch F
  pub context_window : Patch ℕ
  pub quality_tier : Patch F
  pub avg_latency_ms_prior : Patch F
  pub status : Patch ModelStatus
  pub status_auto : Patch Bool

-- the answers 403, 404 and 409, and the table after the request
pub data ModelReply (F : Type 0) : Type 0 where
  model_denied : Denial → ModelReply F
  model_missing model_conflict : ModelReply F
  model_done : List (Model F) → ModelReply F

abbrev pub is_null : {A : Type 0} → Patch A → Bool
is_null (set_to none) = true
is_null _ = false

abbrev pub sent : {A : Type 0} → Patch A → Option A
sent unset = none
sent (set_to o) = o

module _ {F : Type 0} where
  abbrev pub new_model : ModelCreate F → Model F
  new_model payload = record {
    id = payload.id;
    input_price_per_1k = payload.input_price_per_1k;
    output_price_per_1k = payload.output_price_per_1k;
    context_window = payload.context_window;
    quality_tier = payload.quality_tier;
    avg_latency_ms_prior = payload.avg_latency_ms_prior;
    status = payload.status;
    status_auto = true;
    status_reason = none;
  }

  unfoldable pub create_model : ApiKey → ModelCreate F → List (Model F) → ModelReply F
  unfolding require_unscoped
  create_model actor payload models = elim (require_unscoped actor) [
    | some denial ↦ model_denied denial
    | none ↦
        if any (λ m. m.id == payload.id) models
        then model_conflict
        else model_done (models ++ new_model payload ∷ [])
  ]

  -- no column of a model may be null
  abbrev pub has_null : ModelUpdate F → Bool
  has_null u =
      is_null u.name
      || is_null u.input_price_per_1k
      || is_null u.output_price_per_1k
      || is_null u.context_window
      || is_null u.quality_tier
      || is_null u.avg_latency_ms_prior
      || is_null u.status
      || is_null u.status_auto

  abbrev pub with_fields : ModelUpdate F → Model F → Model F
  with_fields u row = record row {
    input_price_per_1k = patched_value u.input_price_per_1k row.input_price_per_1k;
    output_price_per_1k = patched_value u.output_price_per_1k row.output_price_per_1k;
    context_window = patched_value u.context_window row.context_window;
    quality_tier = patched_value u.quality_tier row.quality_tier;
    avg_latency_ms_prior = patched_value u.avg_latency_ms_prior row.avg_latency_ms_prior;
  }

  abbrev pub status_sent : ModelUpdate F → StatusUpdate
  status_sent u = record { status = sent u.status; status_auto = sent u.status_auto }

  abbrev pub updated_model : ModelUpdate F → Model F → Model F
  updated_model u row = update_model_status (status_sent u) (with_fields u row)

  unfoldable pub update_model : ApiKey → String → ModelUpdate F → List (Model F) → ModelReply F
  unfolding require_unscoped update_model_status
  update_model actor id payload models = elim (require_unscoped actor) [
    | some denial ↦ model_denied denial
    | none ↦
        if not (any (λ m. m.id == id) models)
        then model_missing
        else if has_null payload
        then model_conflict
        else model_done (map (λ m. if m.id == id then updated_model payload m else m) models)
  ]
