-- ===== src/Workers/Steps.antt =====
-- What the steps of a pass change, and of whom.
use sentinellm.Prelude.{
  ℕ, ◌<◌, ◌≡◌, ◌≢◌, ◌⊎◌, refl, subst, ap, sym, ◌∙◌, inl, inr, Bool, Bool-cases, true, false, String,
  Option, none, some, List, keep, Has, Has-keep, keep-Has, eqb, arith,
}
use sentinellm.Workers.Passes.{
  LockServer, Frees, IsLockServer, Stage, locking, working, releasing, over, enter, leave,
  after_lock, outcome_of, advance,
}
use sentinellm.Workers.Turns.{
  Pass, elsewhere, change_at, at_stage, is_guarded, AreDistinct-keep, same_pass, elsewhere-ne,
  elsewhere-same, AreDistinct-change_at, Has-change_at, change_at-others, change_at-own,
}
use sentinellm.Workers.Held.{
  Owns, IsFine, IsHeld, Change, none_held, leave_none, leave-Frees, at_most_once,
}

module _ {W : Type 0} (server : LockServer W) where
  module _ (ps : List Pass) (w w' : W) (p : Pass) (h : IsHeld server ps w) (m : Has p ps)
      (kept : (k : ℕ) (d : String) → d ≢ p.conn → server.holds k d w' ≡ server.holds k d w) where
    -- a pass that is gone, and its locks with it
    pub removed :
        ((k : ℕ) → server.holds k p.conn w' ≡ 0)
        → Change server p.conn ps w (keep (elsewhere p.conn) ps) w'
    removed none_left = record {
      distinct = AreDistinct-keep (elsewhere p.conn) ps h.distinct;
      from = λ q n.
          let (there, apart) = Has-keep (elsewhere p.conn) ps q n in
          inl (there, elsewhere-ne p.conn q apart);
      to = λ q n apart. elim (Bool-cases (elsewhere p.conn q)) [
        | inl away ↦ keep-Has (elsewhere p.conn) ps q n away
        | inr here ↦ absurd (apart (elsewhere-same p.conn q here))
      ];
      kept = kept;
      mine = λ k held. absurd (omega (arith, held, none_left k));
    }

    module _ (f : Pass → Pass) (stays : (q : Pass) → (f q).conn ≡ q.conn) where
      -- a change to one pass, of which the lock is known
      changed :
          IsFine server w' (f p)
          → ((k : ℕ)
              → 0 < server.holds k p.conn w'
              → ((q : Pass) × Has q (change_at p.conn f ps) × Owns server q k p.conn)
                × ((d : String) → d ≢ p.conn → server.holds k d w ≡ 0))
          → Change server p.conn ps w (change_at p.conn f ps) w'
      changed fine mine = record {
        distinct = AreDistinct-change_at p.conn f stays ps h.distinct;
        from = λ q n. elim (Has-change_at p.conn f stays ps q n) [
          | inl apart ↦ inl apart
          | inr (r, there, same, e) ↦
              let own : f p ≡ q = ap f (sym (same_pass ps r p h.distinct there m same)) ∙ e in
              inr (sym (ap (λ (z : Pass). z.conn) own) ∙ stays p, subst (IsFine server w') own fine)
        ];
        to = λ q n apart. change_at-others p.conn f stays ps q n apart;
        kept = kept;
        mine = mine;
      }

      -- a change that leaves the connection of the pass without locks
      pub quiet :
          ((f p).connected ≡ false) ⊎ (is_guarded (f p).stage ≡ false)
          → ((f p).stage ≢ locking)
          → ((k : ℕ) → server.holds k p.conn w' ≡ 0)
          → Change server p.conn ps w (change_at p.conn f ps) w'
      quiet out tried none_left =
          changed
            (
              (λ up guarded. elim out [
                | inl down ↦ absurd (cc (up, down))
                | inr outside ↦ absurd (cc (guarded, outside))
              ]),
              λ e. absurd (tried e),
            )
            (λ k held. absurd (omega (arith, held, none_left k)))

  module _ (laws : IsLockServer server) (postgres : server.postgres ≡ true) where
    pub enter-try :
        (name conn : String) (w : W)
        → enter server name conn w ≡ server.try_lock (server.lock_key name) conn w
    unfolding enter
    enter-try name conn w = rw postgres refl

    module _ (ps : List Pass) (w : W) (p : Pass) (h : IsHeld server ps w) (m : Has p ps) where
      -- the lock is granted
      granted-Change :
          p.stage ≡ locking
          → (server.try_lock (server.lock_key p.loop) p.conn w).0 ≡ some true
          → Change server p.conn ps w
              (change_at p.conn (at_stage working) ps)
              (server.try_lock (server.lock_key p.loop) p.conn w).1
      granted-Change before granted =
          let key = server.lock_key p.loop in
          let none_yet =
            none_held server ps w p h m (inr (ap (λ (s : Stage). is_guarded s) before)) in
          changed ps w (server.try_lock key p.conn w).1 p h m
            (λ k d apart. laws.try_lock_others key p.conn w k d apart) (at_stage working)
            (λ q. refl)
            (
              (λ up guarded. omega (arith, laws.granted_more key p.conn w granted, none_yet key)),
              λ e. absurd (cc e),
            )
            (λ k held. elim (Bool-cases (eqb k key)) [
              | inl own ↦
                  let same : k ≡ key = ground arith in
                  (
                    (
                      at_stage working p,
                      change_at-own p.conn (at_stage working) (λ q. refl) ps p m refl,
                      record {
                        conn = refl;
                        key = sym same;
                        connected = (h.fine p m).1 before;
                        guarded = refl;
                      },
                    ),
                    λ d apart. rw same (laws.granted_alone key p.conn w granted d apart),
                  )
              | inr other ↦
                  let far : k ≢ key = λ e. ground arith in
                  absurd (omega (arith, held, laws.try_lock_keys key p.conn w k far, none_yet k))
            ])

      -- a step that gives up what the connection has
      given_up :
          (w' : W) (s : Stage)
          → Frees server p.conn w w'
          → ((k : ℕ) → server.holds k p.conn w' ≡ 0)
          → is_guarded s ≡ false
          → s ≢ locking
          → Change server p.conn ps w (change_at p.conn (at_stage s) ps) w'
      given_up w' s frees none_left outside tried =
          quiet ps w w' p h m (λ k d apart. frees.kept k d apart) (at_stage s) (λ q. refl)
            (inr outside) tried none_left

      refused-Change :
          (answer : Option Bool)
          → p.stage ≡ locking
          → (server.try_lock (server.lock_key p.loop) p.conn w).0 ≡ answer
          → answer ≢ some true
          → is_guarded (after_lock answer) ≡ false
          → after_lock answer ≢ locking
          → Change server p.conn ps w
              (change_at p.conn (at_stage (after_lock answer)) ps)
              (server.try_lock (server.lock_key p.loop) p.conn w).1
      refused-Change answer before e refused outside tried =
          let key = server.lock_key p.loop in
          let frees = laws.refused_frees key p.conn w (λ g. refused (sym e ∙ g)) in
          let none_yet =
            none_held server ps w p h m (inr (ap (λ (s : Stage). is_guarded s) before)) in
          given_up (server.try_lock key p.conn w).1 (after_lock answer) frees
            (λ k. omega (arith, frees.no_more k, none_yet k)) outside tried

      locked-Change :
          (answer : Option Bool)
          → p.stage ≡ locking
          → (server.try_lock (server.lock_key p.loop) p.conn w).0 ≡ answer
          → Change server p.conn ps w
              (change_at p.conn (at_stage (after_lock answer)) ps)
              (server.try_lock (server.lock_key p.loop) p.conn w).1
      unfolding after_lock
      locked-Change none before e = refused-Change none before e (λ x. cc x) refl (λ x. cc x)
      locked-Change (some false) before e =
          refused-Change (some false) before e (λ x. cc x) refl (λ x. cc x)
      locked-Change (some true) before e = granted-Change before e

      -- the task changes nothing of the locks
      worked-Change :
          (w' : W) (raised : Bool)
          → p.stage ≡ working
          → ((k : ℕ) (d : String) → server.holds k d w' ≡ server.holds k d w)
          → Change server p.conn ps w (change_at p.conn (at_stage (releasing raised)) ps) w'
      worked-Change w' raised before same =
          let inside : is_guarded p.stage ≡ true = ap (λ (s : Stage). is_guarded s) before in
          changed ps w w' p h m (λ k d apart. same k d) (at_stage (releasing raised)) (λ q. refl)
            (
              (λ up guarded. same (server.lock_key p.loop) p.conn ∙ (h.fine p m).0 up inside),
              λ e. absurd (cc e),
            )
            (λ k held.
              let had : 0 < server.holds k p.conn w = rw (same k p.conn) at held in
              let (q, there, owns) = h.owned k p.conn had in
              let own = same_pass ps q p h.distinct there m owns.conn in
              (
                (
                  at_stage (releasing raised) p,
                  change_at-own p.conn (at_stage (releasing raised)) (λ z. refl) ps p m refl,
                  record {
                    conn = refl;
                    key = ap (λ (z : Pass). server.lock_key z.loop) (sym own) ∙ owns.key;
                    connected = ap (λ (z : Pass). z.connected) (sym own) ∙ owns.connected;
                    guarded = refl;
                  },
                ),
                λ d apart. h.alone k p.conn d had apart,
              ))

      pub advance-Change :
          (task : W → Bool × W) (now s : Stage) (w' : W)
          → p.stage ≡ now
          → ((u : W) (k : ℕ) (d : String) → server.holds k d (task u).1 ≡ server.holds k d u)
          → advance server task true p.loop p.conn now w ≡ (s, w')
          → Change server p.conn ps w (change_at p.conn (at_stage s) ps) w'
      unfolding advance
      advance-Change task locking s w' before neutral e =
          subst
            (λ (t : Stage × W). Change server p.conn ps w (change_at p.conn (at_stage t.0) ps) t.1)
            (ap (λ (t : Option Bool × W). (after_lock t.0, t.1)) (sym (enter-try p.loop p.conn w))
              ∙ e)
            (locked-Change (server.try_lock (server.lock_key p.loop) p.conn w).0 before refl)
      advance-Change task working s w' before neutral e =
          subst
            (λ (t : Stage × W). Change server p.conn ps w (change_at p.conn (at_stage t.0) ps) t.1)
            e (worked-Change (task w).1 (task w).0 before (λ k d. neutral w k d))
      advance-Change task (releasing raised) s w' before neutral e =
          let (frees, done) =
            leave-Frees server laws postgres p.loop p.conn w (at_most_once server ps w p h m) in
          subst
            (λ (t : Stage × W). Change server p.conn ps w (change_at p.conn (at_stage t.0) ps) t.1)
            e
            (given_up (leave server p.loop p.conn w) (over (outcome_of raised)) frees
              (leave_none server laws postgres ps w p h m) refl (λ x. cc x))
      advance-Change task (over outcome) s w' before neutral e =
          subst
            (λ (t : Stage × W). Change server p.conn ps w (change_at p.conn (at_stage t.0) ps) t.1)
            e
            (given_up w (over outcome)
              (record { kept = λ k d apart. refl; no_more = λ k. omega arith })
              (none_held server ps w p h m (inr (ap (λ (x : Stage). is_guarded x) before))) refl
              (λ x. cc x))
