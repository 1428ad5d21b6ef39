-- ===== src/Experiments/Pipeline.antt =====
-- `_generate` of src/sentinellm/services/generation.py for a request of an experiment, which pins its model
-- and its version of a prompt and does without the cache: admission, rendering, the chain, the call.
use sentinellm.Prelude.{
  ℕ, ◌+◌, Bool, true, String, Option, none, some, List, [], ◌∷◌, ◌++◌, if◌then◌else◌,
}
use sentinellm.Float.{Float}
use sentinellm.Tables.{Trace, Model}
use sentinellm.Text.{codes}
use sentinellm.Cache.Entries.{Entry}
use sentinellm.Rollout.Table.{Rollout}
use sentinellm.Routing.Router.{Candidate, Routed}
use sentinellm.Prompts.Templates.{Values, same_text, Rendered, rendered, missing, render_template}
use sentinellm.Prompts.Versions.{PromptVersion, resolve_prompt_version}
use sentinellm.Generation.Plan.{Plan, planned, no_candidate, plan}
use sentinellm.Generation.Serving.{Call, Gateway, Stamp, Served, serve}
use sentinellm.Experiments.Run.{GenerateRequest, Generator}

-- Admission: none is `BudgetExceededError`, and else whether the request is downgraded.
pub record Site (F W : Type 0) : Type 0 where
  pub gateway : Gateway F W
  pub models : List (Model F)
  pub prompts : List PromptVersion
  pub rollouts : List (Rollout F)
  pub admits : String → W → Option Bool
  pub context_key : GenerateRequest → ℕ → String
  pub router : GenerateRequest → List (Candidate F) → Routed F
  pub draw : ℕ → F
  pub stamp : ℕ → Stamp F

-- The state of a process: the providers, the table of the cache, and the requests so far.
pub record Process (F W : Type 0) : Type 0 where
  pub world : W
  pub entries : List (Entry F)
  pub requests : ℕ

-- `"\n".join(d.content for d in retrieved)`
unfoldable pub docs_text : List (String × String) → List ℕ
docs_text [] = []
docs_text ((id, content) ∷ []) = codes content
docs_text ((id, content) ∷ d ∷ ds) = codes content ++ 10 ∷ docs_text (d ∷ ds)

abbrev pub prompt_values : GenerateRequest → Values
prompt_values r name =
    if same_text name (codes "question")
    then some (codes r.question)
    else if same_text name (codes "context")
    then some (docs_text r.documents)
    else none

abbrev pub call_of : {F W : Type 0} → Site F W → GenerateRequest → ℕ → Call
call_of site r version = record {
  application_id = r.application_id;
  question = r.question;
  use_cache = r.use_cache;
  evaluate = r.evaluate;
  prompt_id = some r.prompt_id;
  prompt_version = some version;
  metadata_failed = [];
  context_key = site.context_key r version;
}

module _ {F W : Type 0} where
  -- the trace, and the process after it
  abbrev pub served_by : Process F W → Option (Served F) × W → Option (Trace F) × Process F W
  served_by p (none, w) = (none, record p { world = w; requests = p.requests + 1 })
  served_by p (some s, w) =
      (some s.trace, record { world = w; entries = s.entries; requests = p.requests + 1 })

module _ {F W : Type 0} ⦃fl : Float F⦄ (site : Site F W) where
  unfoldable pub serve_plan : Call → Plan → Process F W → Option (Trace F) × Process F W
  unfolding serve
  serve_plan call no_candidate p = (none, p)
  serve_plan call (planned source []) p = (none, p)
  serve_plan call (planned source (m ∷ ms)) p =
      served_by p
        (serve site.gateway site.models call (site.stamp p.requests) m ms p.entries p.world)

  abbrev pub plan_of : GenerateRequest → Bool → ℕ → Plan
  plan_of r downgrade n =
      plan
        (record {
          application_id = r.application_id;
          preferred_model = some r.preferred_model;
          fallback_models = [];
        })
        downgrade site.models site.rollouts (site.draw n) (site.router r)

  -- a placeholder without a value raises
  unfoldable pub serve_rendered :
      GenerateRequest → Bool → ℕ → Rendered → Process F W → Option (Trace F) × Process F W
  unfolding serve_plan
  serve_rendered r downgrade version (missing names) p = (none, p)
  serve_rendered r downgrade version (rendered text) p =
      serve_plan (call_of site r version) (plan_of r downgrade p.requests) p

  -- after the version of the prompt was resolved
  unfoldable pub render_and_serve :
      GenerateRequest → Bool → Option PromptVersion → Process F W → Option (Trace F) × Process F W
  unfolding serve_rendered render_template
  render_and_serve r downgrade none p = (none, p)
  render_and_serve r downgrade (some row) p =
      serve_rendered r downgrade row.version
        (render_template (codes row.template) (prompt_values r) true) p

  unfoldable pub admit_and_serve :
      GenerateRequest → Option Bool → Process F W → Option (Trace F) × Process F W
  unfolding render_and_serve
  admit_and_serve r none p = (none, p)
  admit_and_serve r (some downgrade) p =
      render_and_serve r downgrade
        (resolve_prompt_version site.prompts r.prompt_id (some r.prompt_version)) p

  abbrev pub pipeline : Generator F (Process F W)
  pipeline = record { generate = λ r p. admit_and_serve r (site.admits r.application_id p.world) p }
