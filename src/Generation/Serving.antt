-- ===== src/Generation/Serving.antt =====
-- The second half of `_generate` of src/sentinellm/services/generation.py: from the chain of models to
-- the trace that is written, over the cache and the resilient client.
use Prim.Native.Char.{code}
use sentinellm.Prelude.{
  ℕ, Bool, true, false, not, ◌&&◌, ◌==◌, String, Option, none, some, List, [], ◌∷◌, map, keep, find,
  eqb, if◌then◌else◌,
}
use sentinellm.Float.{Float}
use sentinellm.Tables.{Trace, TraceStatus, ok, error, is_ok, pending, skipped, Model}
use sentinellm.Llm.Provider.{ErrorKind, is_overflow, Response, Services}
use sentinellm.Llm.Resilient.{
  FallbackAttempt, Completion, completed, all_failed, crashed, Client, complete_with_fallback,
}
use sentinellm.Cache.Entries.{Entry, Hit, Cache, Query, lookup, store}
use sentinellm.Pricing.{calculate_cost}

-- The fields of a request that this half reads. `metadata_failed` is what the metadata of the caller
-- has under `failed_attempts`.
pub record Call : Type 0 where
  pub application_id : String
  pub question : String
  pub use_cache : Bool
  pub evaluate : Bool
  pub prompt_id : Option String
  pub prompt_version : Option ℕ
  pub metadata_failed : List String
  -- `cache_context_key`, from the prompt and the documents
  pub context_key : String

-- What the process has: the client over its providers, the cache, the settings. `redact` is what the
-- setting for personal data makes of a text that is stored.
pub record Gateway (F W : Type 0) : Type 0 where
  pub services : Services F W
  pub client : Client F
  pub cache : Cache F
  pub cache_enabled : Bool
  pub redact : String → String

-- What the defaults of the columns and the clock give the trace.
pub record Stamp (F : Type 0) : Type 0 where
  pub id : String
  pub entry_id : String
  pub now : ℕ
  pub latency_ms : F

-- The trace, the response, the table of the cache, and the ids put on the evaluation queue.
pub record Served (F : Type 0) : Type 0 where
  pub trace : Trace F
  pub response : String
  pub entries : List (Entry F)
  pub queued : List String

-- `value.replace("\x00", "")`
unfoldable pub strip_nul : String → String
strip_nul String.[] = String.[]
strip_nul (String.◌∷◌ c s) =
    let rest = strip_nul s in if eqb (code c) 0 then rest else String.◌∷◌ c rest

abbrev overflowed : Option ErrorKind → Bool
overflowed none = false
overflowed (some kind) = is_overflow kind

-- an attempt that is evidence against its model
abbrev pub counts_against : String → FallbackAttempt → Bool
counts_against exclude a =
    not a.succeeded && not (a.model == exclude) && not (overflowed a.error_kind)

-- `_failed_attempts`, the models
unfoldable pub failed_models : List FallbackAttempt → String → List String
failed_models log exclude = map (λ a. a.model) (keep (counts_against exclude) log)

-- the entry of the trace's metadata: the caller's stays where there is none to write
unfoldable pub recorded_failures : List String → List String → List String
recorded_failures own [] = own
recorded_failures own (m ∷ ms) = m ∷ ms

abbrev pub query_of : Call → String → Query
query_of call model = record {
  application_id = call.application_id;
  model = model;
  query_text = call.question;
  context_key = call.context_key;
}

module _ {F : Type 0} ⦃fl : Float F⦄ where
  abbrev input_price : Option (Model F) → Option F
  input_price none = none
  input_price (some row) = some row.input_price_per_1k

  abbrev output_price : Option (Model F) → Option F
  output_price none = none
  output_price (some row) = some row.output_price_per_1k

  -- the price of an answer
  unfoldable pub cost_of : List (Model F) → String → Response → F
  cost_of models model r =
      let row = find (λ m. m.id == model) models in
      calculate_cost model r.input_tokens r.output_tokens (input_price row) (output_price row)

  unfoldable pub trace_of : Call → Stamp F → String → TraceStatus → F → Bool → List String → Trace F
  unfolding recorded_failures
  trace_of call stamp model status cost hit failed = record {
    id = stamp.id;
    application_id = call.application_id;
    model = model;
    status = status;
    latency_ms = stamp.latency_ms;
    estimated_cost = cost;
    cache_hit = hit;
    prompt_id = call.prompt_id;
    prompt_version = call.prompt_version;
    failed_attempts = recorded_failures call.metadata_failed failed;
    evaluation_status = if call.evaluate && is_ok status then pending else skipped;
    created_at = stamp.now;
  }

  -- the ids that the end of the request puts on the queue
  abbrev pub queue_of : Call → Stamp F → TraceStatus → List String
  queue_of call stamp status = if call.evaluate && is_ok status then stamp.id ∷ [] else []

  module _ {W : Type 0} (g : Gateway F W) (models : List (Model F)) (call : Call)
      (stamp : Stamp F) where
    abbrev pub caches : Bool
    caches = g.cache_enabled && call.use_cache

    -- the table after an answer of a model
    unfoldable pub remember : List (Entry F) → String → String → List (Entry F)
    remember entries model response =
        if caches
        then store g.cache entries
            (record (query_of call model) { query_text = g.redact call.question })
            (g.redact response) stamp.entry_id stamp.now
        else entries

    -- the end of a request that the client answered, or not; an assertion of the client ends it with
    -- no trace
    unfoldable pub conclude : String → List (Entry F) → Completion → Option (Served F)
    unfolding failed_models remember trace_of cost_of
    conclude selected entries (completed r model log) =
        let response = strip_nul r.content in
        some (record {
          trace =
              trace_of call stamp model ok (cost_of models model r) false (failed_models log model);
          response = response;
          entries = remember entries model response;
          queued = queue_of call stamp ok;
        })
    conclude selected entries (all_failed log) = some (record {
      trace =
          trace_of call stamp selected error (fl.decimal 0 0) false (failed_models log selected);
      response = "";
      entries = entries;
      queued = queue_of call stamp error;
    })
    conclude selected entries crashed = none

    abbrev pub from_cache : String → Hit F → List (Entry F) → Served F
    from_cache selected hit entries = record {
      trace = trace_of call stamp selected ok (fl.decimal 0 0) true [];
      response = hit.response;
      entries = entries;
      queued = queue_of call stamp ok;
    }

    -- after the cache was asked
    unfoldable pub answer :
        String → List String → Option (Hit F) → List (Entry F) → W → Option (Served F) × W
    unfolding conclude
    answer selected fallbacks (some hit) entries w = (some (from_cache selected hit entries), w)
    answer selected fallbacks none entries w =
        let (completion, w') = complete_with_fallback g.services g.client selected fallbacks w in
        (conclude selected entries completion, w')

    -- the whole half, for the chain `selected ∷ fallbacks`
    unfoldable pub serve : String → List String → List (Entry F) → W → Option (Served F) × W
    unfolding answer
    serve selected fallbacks entries w =
        if caches
        then (let (found, entries') = lookup g.cache entries stamp.now (query_of call selected) in
            answer selected fallbacks found entries' w)
        else answer selected fallbacks none entries w
