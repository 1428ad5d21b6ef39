-- ===== src/Workers/Exclusion.antt =====
-- At most one replica runs a loop at a time, and a loop that nobody runs is never skipped.
use sentinellm.Prelude.{
  ◌≤◌, ◌≡◌, ◌≢◌, refl, ap, sym, inl, inr, Bool, Bool-cases, true, false, ◌&&◌, ◌==◌, eq_iff, String,
  Option, none, some, List, [], ◌∷◌, keep, length, All, All-at, All-Has, Has, arith,
}
use sentinellm.Workers.Passes.{
  LockServer, IsLockServer, skipped, Stage, locking, working, over, enter, after_lock, advance,
}
use sentinellm.Workers.Turns.{
  Pass, cut_off, is_guarded, AreDistinct, Turn, starts, advances, loses, dies, returns, Run, idle,
  turn,
}
use sentinellm.Workers.Held.{IsHeld, Change-IsHeld, none_held}
use sentinellm.Workers.Steps.{removed, quiet, enter-try, advance-Change}

-- the task runs
abbrev pub is_working : Stage → Bool
is_working working = true
is_working _ = false

-- a pass that runs the task of a loop, with its connection up
abbrev pub runs : String → Pass → Bool
runs name p = p.loop == name && is_working p.stage && p.connected

working_guarded : (s : Stage) → is_working s ≡ true → is_guarded s ≡ true
working_guarded s h = ground arith

runs_lem :
    (name : String) (p : Pass)
    → runs name p ≡ true
    → (p.loop ≡ name) × (p.connected ≡ true) × (is_guarded p.stage ≡ true)
runs_lem name p h =
    (ground (arith, eq_iff p.loop name), ground arith, working_guarded p.stage (ground arith))

refused_lem : (answer : Option Bool) → after_lock answer ≡ over skipped → answer ≡ some false
unfolding after_lock
refused_lem none h = absurd (cc h)
refused_lem (some false) h = refl
refused_lem (some true) h = absurd (cc h)

count_zero : (p : Pass → Bool) (ps : List Pass) → All (λ q. p q ≡ false) ps → length (keep p ps) ≡ 0
count_zero p [] h = refl
count_zero p (q ∷ ps) (k, ks) = rw k (count_zero p ps ks)

-- a test that no two connections meet keeps one pass at most
at_most_one :
    (t : Pass → Bool) (ps : List Pass)
    → AreDistinct ps
    → ((p q : Pass) → Has p ps → Has q ps → t p ≡ true → t q ≡ true → p.conn ≡ q.conn)
    → length (keep t ps) ≤ 1
at_most_one t [] distinct same = omega arith
at_most_one t (p ∷ ps) (apart, distinct) same = elim (Bool-cases (t p)) [
  | inr out ↦ rw out (at_most_one t ps distinct (λ a b m n x y. same a b (inr m) (inr n) x y))
  | inl kept ↦
      let others = count_zero t ps (
        All-Has _ ps (λ q m. elim (Bool-cases (t q)) [
          | inr out ↦ out
          | inl both ↦ absurd (
              All-at (λ x. x.conn ≢ p.conn) ps q apart m
                (sym (same p q (inl refl) (inr m) kept both)))
        ])) in
      rw kept (omega (arith, others))
]

module _ {W : Type 0} (server : LockServer W) where
  -- a pass that starts: nothing of the locks is on its connection
  starts-IsHeld :
      (ps : List Pass) (w : W) (name conn : String)
      → IsHeld server ps w
      → All (λ p. p.conn ≢ conn) ps
      → IsHeld server
          (record { loop = name; conn = conn; stage = locking; connected = true } ∷ ps)
          w
  starts-IsHeld ps w name conn h fresh = record {
    fine = λ p m. elim m [
      | inl new ↦ (
        (λ up guarded. absurd (cc (guarded, ap (λ (z : Pass). is_guarded z.stage) new))),
        λ e. sym (ap (λ (z : Pass). z.connected) new),
      )
      | inr old ↦ h.fine p old
    ];
    distinct = (fresh, h.distinct);
    owned = λ k d held. let (p, there, owns) = h.owned k d held in (p, inr there, owns);
    alone = h.alone;
  }

  module _ (laws : IsLockServer server) (postgres : server.postgres ≡ true) where
    Turn-IsHeld :
        {ps ps' : List Pass} {w w' : W}
        → Turn server ps w ps' w'
        → IsHeld server ps w
        → IsHeld server ps' w'
    Turn-IsHeld (starts {ps = ps} {w = w} name conn fresh) h = starts-IsHeld ps w name conn h fresh
    Turn-IsHeld (advances {ps = ps} {w = w} {w' = w'} p task s m neutral e f) h = rw f (
        Change-IsHeld server p.conn ps w _ w'
          (advance-Change server laws postgres ps w p h m task p.stage s w' refl neutral e) h)
    Turn-IsHeld (loses {ps = ps} {w = w} p m guarded e f) h =
        rw (e, f)
          (Change-IsHeld server p.conn ps w _ (server.drop p.conn w)
            (quiet server ps w (server.drop p.conn w) p h m
              (λ k d apart. (laws.drop_frees p.conn w).kept k d apart) cut_off (λ q. refl)
              (inl refl) (λ x. cc (guarded, x)) (laws.drop_done p.conn w))
            h)
    Turn-IsHeld (dies {ps = ps} {w = w} p m e f) h =
        rw (e, f)
          (Change-IsHeld server p.conn ps w _ (server.drop p.conn w)
            (removed server ps w (server.drop p.conn w) p h m
              (λ k d apart. (laws.drop_frees p.conn w).kept k d apart) (laws.drop_done p.conn w))
            h)
    Turn-IsHeld (returns {ps = ps} {w = w} p outcome m done e) h = rw e (
        Change-IsHeld server p.conn ps w _ w
          (removed server ps w w p h m (λ k d apart. refl)
            (none_held server ps w p h m (inr (ap (λ (s : Stage). is_guarded s) done))))
          h)

    Run-IsHeld : {ps : List Pass} {w : W} → Run server ps w → IsHeld server ps w
    Run-IsHeld (idle {w = w} free) = record {
      fine = λ p m. absurd m;
      distinct = tt;
      owned = λ k d held. absurd (omega (arith, held, free k d));
      alone = λ k d e held apart. free k e;
    }
    Run-IsHeld (turn before step) = Turn-IsHeld step (Run-IsHeld before)

    -- two passes that run a loop have one connection
    same_holder :
        (ps : List Pass) (w : W) (name : String) (p q : Pass)
        → IsHeld server ps w
        → Has p ps
        → Has q ps
        → runs name p ≡ true
        → runs name q ≡ true
        → p.conn ≡ q.conn
    same_holder ps w name p q h m n a b = elim (Bool-cases (q.conn == p.conn)) [
      | inl same ↦ sym ((eq_iff q.conn p.conn).0 same)
      | inr other ↦
          let key = server.lock_key name in
          let (loop, up, guarded) = runs_lem name p a in
          let (loop', up', guarded') = runs_lem name q b in
          let one : server.holds key p.conn w ≡ 1 = rw loop at (h.fine p m).0 up guarded in
          let two : server.holds key q.conn w ≡ 1 = rw loop' at (h.fine q n).0 up' guarded' in
          let apart : q.conn ≢ p.conn = λ e. cc (other, (eq_iff q.conn p.conn).1 e) in
          let none_left = h.alone key p.conn q.conn (omega (arith, one)) apart in
          absurd (omega (arith, two, none_left))
    ]

    -- On PostgreSQL, in every run of the replicas, with passes that start, step through `run_once`, lose
    -- their connection or die at any time, whatever the tasks do but to the locks, each loop has at most one
    -- pass in its task whose connection is up.
    pub passes_excluded :
        {ps : List Pass} {w : W} (name : String)
        → Run server ps w
        → length (keep (runs name) ps) ≤ 1
    passes_excluded {ps = ps} {w = w} name run =
        let h = Run-IsHeld run in
        at_most_one (runs name) ps h.distinct (λ p q m n a b. same_holder ps w name p q h m n a b)

    -- In such a run no lock is stranded: the next step of a pass at the lock skips it only while another
    -- pass is between its lock and its release, with its connection up, whose loop has the same key.
    pub skipped_running :
        {ps : List Pass} {w : W} (p : Pass) (task : W → Bool × W)
        → Run server ps w
        → p.stage ≡ locking
        → (advance server task true p.loop p.conn p.stage w).0 ≡ over skipped
        → (q : Pass) × Has q ps
          × (q.connected ≡ true)
          × (is_guarded q.stage ≡ true)
          × (server.lock_key q.loop ≡ server.lock_key p.loop)
    unfolding advance
    skipped_running {w = w} p task run before e =
        let at : after_lock (enter server p.loop p.conn w).0 ≡ over skipped = rw before at e in
        let refused : (server.try_lock (server.lock_key p.loop) p.conn w).0 ≡ some false =
          refused_lem (server.try_lock (server.lock_key p.loop) p.conn w).0
            (rw (enter-try server laws postgres p.loop p.conn w) at at) in
        let (d, taken) = laws.refused_held (server.lock_key p.loop) p.conn w refused in
        let (q, there, owns) = (Run-IsHeld run).owned (server.lock_key p.loop) d taken in
        (q, there, owns.connected, owns.guarded, owns.key)
