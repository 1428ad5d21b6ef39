-- ===== src/Experiments/Gated.antt =====
-- What the gate of src/sentinellm/services/prompts.py makes of an experiment.
use sentinellm.Prelude.{
  any-find, ℕ, ◌<◌, ◌≡◌, refl, ap, subst, ◌∙◌, inl, inr, Bool, Bool-cases, true, ◌&&◌, ◌==◌,
  eq_refl, String, Option, some, List, [], ◌∷◌, ◌++◌, map, keep, any, All, All-keep, keep-append,
  arith, eqb, ltb, if◌then◌else◌,
}
use mathlib.Core.List.{map-append}
use sentinellm.Float.{Float}
use sentinellm.Tables.{Trace}
use sentinellm.Prompts.Versions.{
  Experiment, is_version, promoted, under_threshold, restatus_all, latest_from, latest_of,
  latest_experiment, passes_gate, promote_prompt_version,
}
use sentinellm.Evaluations.Quality.{Metric}
use sentinellm.Experiments.Run.{
  RunRequest, RunDb, ExperimentRow, ran, Generator, aggregate, run_experiment,
}
use sentinellm.Experiments.Rated.{run_experiment-Stages}

module _ {F : Type 0} where
  -- the columns that the gate reads
  abbrev pub gate_row : ExperimentRow F → Experiment F
  gate_row r = record {
    prompt_id = r.prompt_id;
    prompt_version = r.prompt_version;
    pass_rate = r.pass_rate;
    created_at = r.created_at;
  }

  latest_from-last :
      (best e : Experiment F) (es : List (Experiment F))
      → best.created_at < e.created_at
      → All (λ x. x.created_at < e.created_at) es
      → latest_from best (es ++ e ∷ []) ≡ e
  unfolding latest_from
  latest_from-last best e [] h a = ground arith
  latest_from-last best e (x ∷ es) h (k, ks) =
      elim (Bool-cases (ltb best.created_at x.created_at)) [
        | inl later ↦ rw (later, latest_from) (latest_from-last x e es k ks)
        | inr sooner ↦ rw (sooner, latest_from) (latest_from-last best e es h ks)
      ]

  latest_of-last :
      (e : Experiment F) (es : List (Experiment F))
      → All (λ x. x.created_at < e.created_at) es
      → latest_of (es ++ e ∷ []) ≡ some e
  unfolding latest_of latest_from
  latest_of-last e [] a = refl
  latest_of-last e (x ∷ es) (k, ks) = ap some (latest_from-last x e es k ks)

  -- the new experiment is the one that the gate looks at
  abbrev is_run_of : String → ℕ → Experiment F → Bool
  is_run_of prompt_id version e = e.prompt_id == prompt_id && eqb e.prompt_version version

  is_run_of_itself : (e : Experiment F) → is_run_of e.prompt_id e.prompt_version e ≡ true
  is_run_of_itself e = ground (arith, eq_refl e.prompt_id)

  before_map :
      (now : ℕ) (es : List (ExperimentRow F))
      → All (λ (x : ExperimentRow F). x.created_at < now) es
      → All (λ (x : Experiment F). x.created_at < now) (map gate_row es)
  before_map now [] a = tt
  before_map now (e ∷ es) (k, ks) = (k, before_map now es ks)

  latest_experiment-last :
      (row : ExperimentRow F) (es : List (ExperimentRow F)) (now : ℕ)
      → row.created_at ≡ now
      → All (λ (x : ExperimentRow F). x.created_at < now) es
      → latest_experiment (map gate_row (es ++ row ∷ [])) row.prompt_id row.prompt_version
        ≡ some (gate_row row)
  unfolding latest_experiment
  latest_experiment-last row es now stamped before =
      let e : Experiment F = gate_row row in
      let mine = is_run_of e.prompt_id e.prompt_version in
      let tail : keep mine (map gate_row (es ++ row ∷ [])) ≡ keep mine (map gate_row es) ++ e ∷ [] =
        ap (keep mine) (map-append gate_row es (row ∷ []))
        ∙ keep-append mine (map gate_row es) (e ∷ [])
        ∙ ap (λ xs. keep mine (map gate_row es) ++ xs) (rw (is_run_of_itself e)) in
      ap latest_of tail
      ∙ latest_of-last e (keep mine (map gate_row es)) (
          All-keep (λ (x : Experiment F). x.created_at < e.created_at) mine (map gate_row es)
            (rw stamped (before_map now es before)))

module _ {F W : Type 0} ⦃fl : Float F⦄ (generator : Generator F W)
    (evaluators : Trace F → Option (List (Metric F) × F)) (request : RunRequest F) (now : ℕ)
    (db : RunDb F) where
  gate :
      (row : ExperimentRow F) (experiments : List (Experiment F)) (prompt_id : String) (version : ℕ)
      (threshold : F)
      → any (is_version prompt_id version) db.prompts ≡ true
      → latest_experiment experiments prompt_id version ≡ some (gate_row row)
      → promote_prompt_version db.prompts experiments prompt_id version threshold ≡ (
          if fl.lt row.pass_rate threshold
          then under_threshold
          else promoted (restatus_all prompt_id version db.prompts))
  unfolding promote_prompt_version passes_gate
  gate row experiments prompt_id version threshold known latest =
      let (target, found) = any-find (is_version prompt_id version) db.prompts known in
      rw (found, promote_prompt_version, latest, passes_gate)

  -- Where the other experiments are older, a promotion right after a run of a version of a prompt is
  -- decided by that run: it is refused where the pass rate of the run is under the threshold, and else
  -- the version goes to production.
  pub run_experiment-promote :
      (w w' : W) (row : ExperimentRow F) (db' : RunDb F) (threshold : F)
      → run_experiment generator evaluators request now db w ≡ ran row db' w'
      → All (λ e. e.created_at < now) db.experiments
      → promote_prompt_version db'.prompts
          (map gate_row db'.experiments)
          request.prompt_id
          request.prompt_version
          threshold
        ≡ (if fl.lt row.pass_rate threshold
            then under_threshold
            else promoted (restatus_all request.prompt_id request.prompt_version db.prompts))
  unfolding aggregate
  run_experiment-promote w w' row db' threshold h before =
      let s = run_experiment-Stages generator evaluators request now db w w' row db' h in
      let prompt : row.prompt_id ≡ request.prompt_id =
        ap (λ (r : ExperimentRow F). r.prompt_id) s.reported in
      let version : row.prompt_version ≡ request.prompt_version =
        ap (λ (r : ExperimentRow F). r.prompt_version) s.reported in
      let stamped : row.created_at ≡ now = ap (λ (r : ExperimentRow F). r.created_at) s.reported in
      let latest : latest_experiment (map gate_row (db.experiments ++ row ∷ [])) request.prompt_id
            request.prompt_version
          ≡ some (gate_row row) =
        subst
          (λ (p : String × ℕ).
            latest_experiment (map gate_row (db.experiments ++ row ∷ [])) p.0 p.1
            ≡ some (gate_row row))
          (λ i. (prompt i, version i))
          (latest_experiment-last row db.experiments now stamped before) in
      rw s.left (
        gate row (map gate_row (db.experiments ++ row ∷ [])) request.prompt_id
          request.prompt_version threshold s.known latest)
