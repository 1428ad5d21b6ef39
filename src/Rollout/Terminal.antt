-- ===== src/Rollout/Terminal.antt =====
-- A finished rollout is never changed again.
use sentinellm.Prelude.{
  ℕ, zero, suc, ◌≡◌, refl, inl, inr, false, true, some, List, [], ◌∷◌, ◌++◌, arith, get_elem?,
}
use sentinellm.Float.{Float}
use sentinellm.Rollout.Table.{Rollout, Stage, is_active}
use sentinellm.Rollout.Stages.{
  ◌⟶◌, stay, pause, resume, promote, promote_paused, roll_back, roll_back_paused,
}
use sentinellm.Rollout.History.{Moved, Evolves, Step-Evolves, Reach, here, next}

-- Only an active rollout moves.
pub active_of_move : {s s' : Stage} → s ⟶ s' → is_active s ≡ true
active_of_move stay = refl
active_of_move pause = refl
active_of_move resume = refl
active_of_move promote = refl
active_of_move promote_paused = refl
active_of_move roll_back = refl
active_of_move roll_back_paused = refl

module _ {F : Type 0} where
  Moved-terminal : (r r' : Rollout F) → Moved r r' → is_active r.stage ≡ false → r' ≡ r
  Moved-terminal r r' (inl e) h = e
  Moved-terminal r r' (inr (m, c)) h = absurd (cc (active_of_move m))

  Evolves-terminal :
      (rs rs' tail : List (Rollout F)) (k : ℕ) (r : Rollout F)
      → Evolves rs rs'
      → get_elem? rs k ≡ some r
      → is_active r.stage ≡ false
      → get_elem? (rs' ++ tail) k ≡ some r
  Evolves-terminal [] rs' tail k r e g h = absurd (cc g)
  Evolves-terminal (x ∷ rs) [] tail k r e g h = absurd e
  Evolves-terminal (x ∷ rs) (x' ∷ rs') tail zero r (m, e) g h =
      ground (arith, Moved-terminal x x' m)
  Evolves-terminal (x ∷ rs) (x' ∷ rs') tail (suc k) r (m, e) g h =
      Evolves-terminal rs rs' tail k r e g h

module _ {F : Type 0} ⦃fl : Float F⦄ where
  -- A promoted or rolled back row stays as it is, in its place, through every later history.
  pub terminal_forever :
      (rs rs' : List (Rollout F)) (k : ℕ) (r : Rollout F)
      → get_elem? rs k ≡ some r
      → is_active r.stage ≡ false
      → Reach rs rs'
      → get_elem? rs' k ≡ some r
  terminal_forever rs rs' k r g h here = g
  terminal_forever rs rs' k r g h (next {mid = mid} before step) =
      let (moved, tail, e, eq) = Step-Evolves mid rs' step in
      rw eq (Evolves-terminal mid moved tail k r e (terminal_forever rs mid k r g h before) h)
