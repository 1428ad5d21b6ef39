-- ===== src/Routing/Observed.antt =====
-- The router over the statistics of the database: a model that fails is not selected.
use sentinellm.Prelude.{
  ℕ, ◌≡◌, refl, Bool, false, ◌&&◌, String, List, [], ◌∷◌, Has, length, leb, arith,
}
use sentinellm.Float.{Float}
use sentinellm.Tables.{Trace, is_down}
use sentinellm.Routing.Router.{Candidate, Weights, Routing, routed, route}
use sentinellm.Routing.Statistics.{
  History, min_samples_for_trust, recent_traces, within_the_hour, registry_status, success_rate,
  observed_status, stats_of, get_stats,
}
use sentinellm.Routing.Gates.{route_sound}

module _ {F : Type 0} ⦃fl : Float F⦄ where
  -- at least five rows, of which less than half succeeded
  abbrev pub is_failing : List (Trace F) → Bool
  is_failing recent =
      leb min_samples_for_trust (length recent) && fl.lt (success_rate recent) (fl.decimal 5 1)

  stats_of-up :
      (db : History F) (now : ℕ) (model_id : String) (rows : List (Trace F))
      → is_down (stats_of db now model_id rows).status ≡ false
      → (is_down (registry_status db model_id) ≡ false)
        × (is_failing (within_the_hour now rows) ≡ false)
  unfolding stats_of observed_status
  stats_of-up db now model_id [] h = (h, refl)
  stats_of-up db now model_id (t ∷ ts) h = ground arith

  -- A model that the router selects over the statistics of the database is a candidate that is not
  -- down in the registry, and of its traces of the last hour, among the newest that the provider looks
  -- at, not fewer than half succeeded where there are five or more.
  pub route-get_stats :
      (db : History F) (now window : ℕ) (weights : Weights F) (prompt : List ℕ) (context_length : ℕ)
      (override : Bool) (cs : List (Candidate F)) (res : Routing F)
      → route cs (get_stats db now window) weights prompt context_length override ≡ routed res
      → (c : Candidate F) × Has c cs
        × (res.selected_model ≡ c.model_id)
        × (is_down (registry_status db c.model_id) ≡ false)
        × (is_failing (within_the_hour now (recent_traces db window c.model_id)) ≡ false)
  unfolding get_stats
  route-get_stats db now window weights prompt context_length override cs res h =
      let (c, member, named, up, fits, good) =
        route_sound (get_stats db now window) weights prompt context_length override cs res h in
      let (registered, working) =
        stats_of-up db now c.model_id (recent_traces db window c.model_id) up in
      (c, member, named, registered, working)
