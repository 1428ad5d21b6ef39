-- ===== src/Examples/Rollouts.antt =====
-- One rollout of an application, its traffic and its history.
use sentinellm.Prelude.{
  ℕ, ◌*◌, ◌-◌, ◌≤◌, ◌<◌, ◌≡◌, ◌↔◌, refl, Bool, false, String, none, some, List, [], ◌∷◌, All, arith,
}
use sentinellm.Float.{fsum}
use sentinellm.Float.Fixed.{ℤ, pos, fixed_float, Fixed-IsOrdered}
use sentinellm.Tables.{Trace, TraceStatus, Evaluation, EvaluationStatus, Model, ModelStatus}
use sentinellm.Rollout.Window.{ArmWindow, load_arm_window, error_rate, avg_quality}
use sentinellm.Rollout.Policy.{Guards, Violation, floor, judge_challenger, next_traffic}
use sentinellm.Rollout.Table.{
  Rollout, paused, rolled_back, IsValid, AllValid, advanced_after, violated, update_row,
}
use sentinellm.Rollout.Service.{
  RolloutCreate, is_acceptable, admit, insert_row, new_row, create_rollout, created,
}
use sentinellm.Rollout.Operator.{pause, unscoped, operate}
use sentinellm.Rollout.Worker.{
  Evidence, Decision, decided, evaluate_rollout, evaluate_rollouts, settle, rolled, unhealthy_model,
  cursor, challenger_window, evaluation_grace, decisions_of, rollback_alert,
}
use sentinellm.Rollout.History.{Step, creates, operates, passes, Reach, here, next}
use sentinellm.Rollout.Bounds.{Reach-AllValid}
use sentinellm.Rollout.Active.{active_count, OneActive, Reach-OneActive}
use sentinellm.Rollout.Windows.{evidence_once}
use sentinellm.Rollout.Decisions.{WithinGuards, HasEvidence, rollback_iff}

abbrev num : ℕ → ℤ
num n = pos (n * 10_000)

abbrev request : RolloutCreate ℤ
request = record {
  application_id = "app";
  incumbent_model = "old";
  challenger_model = "new";
  initial_pct = num 10;
  quality_floor = pos 7_000;
  max_quality_regression = pos 1_000;
  max_error_rate = pos 1_000;
  min_sample_size = 2;
  step_pct = num 10;
  max_pct = num 100;
}

abbrev row : Rollout ℤ
row = new_row request "r1" 5

abbrev model : String → ModelStatus → Model ℤ
model id status = record {
  id = id;
  input_price_per_1k = pos 100;
  output_price_per_1k = pos 300;
  context_window = 8_000;
  quality_tier = pos 8_000;
  avg_latency_ms_prior = num 200;
  status = status;
  status_auto = false;
  status_reason = none;
}

abbrev models : List (Model ℤ)
models = model "old" ModelStatus.healthy ∷ model "new" ModelStatus.healthy ∷ []

abbrev trace : String → String → ℕ → Trace ℤ
trace id name at = record {
  id = id;
  application_id = "app";
  model = name;
  status = TraceStatus.ok;
  latency_ms = num 100;
  estimated_cost = pos 10;
  cache_hit = false;
  prompt_id = none;
  prompt_version = none;
  failed_attempts = [];
  evaluation_status = EvaluationStatus.completed;
  created_at = at;
}

abbrev evaluation : String → ℤ → Evaluation ℤ
evaluation id q = record { trace_id = id; overall_quality = q; hallucination_score = pos 0 }

-- two requests to the challenger and one to the incumbent, the challenger's of quality `q`
abbrev evidence : ℤ → Evidence ℤ
evidence q = record {
  models = models;
  traces = trace "t1" "new" 10 ∷ trace "t2" "old" 20 ∷ trace "t3" "new" 30 ∷ [];
  evaluations = evaluation "t1" q ∷ evaluation "t2" (pos 9_000) ∷ evaluation "t3" q ∷ [];
}

abbrev good : Evidence ℤ
good = evidence (pos 9_000)

abbrev bad : Evidence ℤ
bad = evidence (pos 3_000)

abbrev outage : Evidence ℤ
outage = record { models = model "new" ModelStatus.down ∷ []; traces = []; evaluations = [] }

abbrev noon : ℕ
noon = 100_000_000

abbrev advanced : Rollout ℤ
advanced = record row {
  traffic_pct = num 20;
  last_evaluated_at = some (noon - evaluation_grace);
  outcome_reason = some (advanced_after 2);
}

abbrev fallen : Rollout ℤ
fallen = record row {
  traffic_pct = num 0;
  stage = rolled_back;
  last_evaluated_at = some (noon - evaluation_grace);
  outcome_reason = some (violated floor);
}

advances : evaluate_rollout good noon row ≡ decided Decision.advance advanced none
unfolding evaluate_rollout settle rolled load_arm_window judge_challenger error_rate avg_quality
    fsum next_traffic
advances = refl

falls :
    evaluate_rollout bad noon row
    ≡ decided Decision.rollback fallen (some (rollback_alert fallen (pos 3_000) (pos 7_000)))
unfolding evaluate_rollout settle rolled rollback_alert load_arm_window judge_challenger error_rate
    avg_quality fsum
falls = refl

first_row : create_rollout models [] request "r1" 5 ≡ created row (row ∷ [])
unfolding create_rollout insert_row admit
first_row = refl

abbrev at_noon : String → ℕ
at_noon id = noon

abbrev no_lock : String → Bool
no_lock id = false

abbrev passed : Evidence ℤ → List (Rollout ℤ)
passed db = (evaluate_rollouts db at_noon no_lock (row ∷ [])).rollouts

creation : Step [] (row ∷ [])
unfolding is_acceptable admit insert_row
creation = creates models [] request "r1" 5 row refl refl refl

history : (db : Evidence ℤ) → Reach [] (passed db)
history db = next (next here creation) (passes db at_noon no_lock refl)

Reach-AllValid_example : AllValid (passed good)
Reach-AllValid_example = Reach-AllValid Fixed-IsOrdered [] (passed good) tt (history good)

empty-OneActive : OneActive {F = ℤ} []
unfolding active_count
empty-OneActive app = omega arith

Reach-OneActive_example : OneActive (passed good)
Reach-OneActive_example = Reach-OneActive [] (passed good) empty-OneActive (history good)

-- a second rollout of the application, made after the first one fell
abbrev second : Rollout ℤ
second = new_row request "r2" 200

abbrev both : List (Rollout ℤ)
both = fallen ∷ second ∷ []

later : Reach both (fallen ∷ record second { stage = paused } ∷ [])
unfolding operate update_row
later = next here (operates pause unscoped "r2" 300 (record second { stage = paused }) refl)

evidence_once_example :
    (cursor row < cursor advanced)
    × All
        (λ t. (cursor row < t.created_at) × (t.created_at ≤ cursor advanced))
        (challenger_window good row (noon - evaluation_grace)).traces
    × All
        (λ t. (cursor advanced < t.created_at) × (t.created_at ≤ 2 * noon))
        (challenger_window good advanced (2 * noon)).traces
evidence_once_example =
    evidence_once good good noon (2 * noon) row advanced Decision.advance none (λ e. cc) advances

both_up : (q : ℤ) → unhealthy_model (evidence q).models row ≡ none
unfolding unhealthy_model
both_up q = refl

enough : (q : ℤ) → HasEvidence (evidence q) noon row
unfolding load_arm_window
enough q = (omega arith, omega arith)

rollback_iff_example :
    (decisions_of (evaluate_rollout bad noon row) ≡ Decision.rollback ∷ [])
    ↔ (¬ WithinGuards bad noon row)
rollback_iff_example = rollback_iff bad noon row (both_up (pos 3_000)) (enough (pos 3_000))

abbrev guards : Guards ℤ
guards = record {
  quality_floor = pos 7_000;
  max_quality_regression = pos 1_000;
  max_error_rate = pos 1_000;
  min_sample_size = 2;
}

abbrev weak : ArmWindow ℤ
weak = record {
  traces = trace "t1" "new" 10 ∷ trace "t3" "new" 30 ∷ [];
  quality_scores = pos 3_000 ∷ pos 4_000 ∷ [];
}

abbrev strong : ArmWindow ℤ
strong = record { traces = trace "t2" "old" 20 ∷ []; quality_scores = pos 9_000 ∷ [] }

abbrev under : Violation ℤ
under = record { reason = floor; current = pos 3_500; threshold = pos 7_000 }

fallen-IsValid : IsValid fallen
fallen-IsValid = record {
  traffic_nonneg = refl;
  traffic_capped = refl;
  ceiling_capped = refl;
  ceiling_nonneg = refl;
  step_nonneg = refl;
  rolled_back_zero = λ e. refl;
  promoted_full = λ e. absurd (cc e);
}
