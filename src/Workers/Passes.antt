-- ===== src/Workers/Passes.antt =====
-- src/sentinellm/core/locks.py and `run_once` of src/sentinellm/worker/periodic.py. The advisory locks of
-- the database and the digest of a name are parameters; the metrics are left out.
use sentinellm.Prelude.{
  ℕ, suc, ◌-◌, ◌≤◌, ◌<◌, ◌≡◌, ◌≢◌, Bool, true, false, String, Option, none, some, if◌then◌else◌,
}

-- The database over a state of the world: a call of a lock function on a connection may raise, which is
-- `none` of `try_lock` and false of `unlock`. `drop` closes a connection, as `invalidate` does, or a crash.
pub record LockServer (W : Type 0) : Type 0 where
  pub postgres : Bool
  pub lock_key : String → ℕ
  pub try_lock : ℕ → String → W → Option Bool × W
  pub unlock : ℕ → String → W → Bool × W
  pub drop : String → W → W
  -- how many times a connection has a lock
  pub holds : ℕ → String → W → ℕ

module _ {W : Type 0} (server : LockServer W) where
  -- between two states, only the connection `c` lost locks, and nobody got one
  pub record Frees (c : String) (w w' : W) : Type 0 where
    pub kept : (k : ℕ) (d : String) → d ≢ c → server.holds k d w' ≡ server.holds k d w
    pub no_more : (k : ℕ) → server.holds k c w' ≤ server.holds k c w

  -- Documented behaviour of session-level advisory locks, whose requests stack: a connection that was
  -- granted a lock twice has it until it gives it up twice.
  pub record IsLockServer : Type 0 where
    -- a lock is granted where no other connection has it
    pub granted_alone :
        (k : ℕ) (c : String) (w : W)
        → (server.try_lock k c w).0 ≡ some true
        → (d : String) → d ≢ c
        → server.holds k d w ≡ 0
    pub granted_more :
        (k : ℕ) (c : String) (w : W)
        → (server.try_lock k c w).0 ≡ some true
        → server.holds k c (server.try_lock k c w).1 ≡ suc (server.holds k c w)
    pub try_lock_keys :
        (k : ℕ) (c : String) (w : W)
        → (j : ℕ) → j ≢ k
        → server.holds j c (server.try_lock k c w).1 ≤ server.holds j c w
    pub try_lock_others :
        (k : ℕ) (c : String) (w : W) (j : ℕ) (d : String)
        → d ≢ c
        → server.holds j d (server.try_lock k c w).1 ≡ server.holds j d w
    -- a refusal and an error grant nothing, and a lock is refused only where some connection has it
    pub refused_frees :
        (k : ℕ) (c : String) (w : W)
        → (server.try_lock k c w).0 ≢ some true
        → Frees c w (server.try_lock k c w).1
    pub refused_held :
        (k : ℕ) (c : String) (w : W)
        → (server.try_lock k c w).0 ≡ some false
        → (d : String) × (0 < server.holds k d w)
    pub unlock_frees : (k : ℕ) (c : String) (w : W) → Frees c w (server.unlock k c w).1
    pub unlock_once :
        (k : ℕ) (c : String) (w : W)
        → (server.unlock k c w).0 ≡ true
        → server.holds k c (server.unlock k c w).1 ≡ server.holds k c w - 1
    pub drop_frees : (c : String) (w : W) → Frees c w (server.drop c w)
    pub drop_done : (c : String) (w : W) (k : ℕ) → server.holds k c (server.drop c w) ≡ 0

-- What `run_once` returns.
pub data Outcome : Type 0 where
  ok error skipped : Outcome

-- Where `run_once` stands: at the lock, in the task, at the `finally` (with whether the task raised), or
-- with its outcome.
pub data Stage : Type 0 where
  locking working : Stage
  releasing : Bool → Stage
  over : Outcome → Stage

-- the task, and whether it raised
abbrev pub outcome_of : Bool → Outcome
outcome_of raised = if raised then error else ok

-- after the attempt at the lock
unfoldable pub after_lock : Option Bool → Stage
after_lock none = over error
after_lock (some false) = over skipped
after_lock (some true) = working

module _ {W : Type 0} (server : LockServer W) where
  -- the lock at the start of a pass: whether it was acquired; none if the database raised
  unfoldable pub enter : String → String → W → Option Bool × W
  enter name conn w =
      if server.postgres then server.try_lock (server.lock_key name) conn w else (some true, w)

  -- the `finally`: a lock that cannot be released goes with its connection
  unfoldable pub leave : String → String → W → W
  leave name conn w =
      if server.postgres
      then (let (released, w') = server.unlock (server.lock_key name) conn w in
          if released then w' else server.drop conn w')
      else w

  -- the next step of `run_once`; a loop that is no singleton takes no lock
  unfoldable pub advance : (W → Bool × W) → Bool → String → String → Stage → W → Stage × W
  unfolding enter leave after_lock
  advance task singleton name conn locking w =
      if singleton
      then (let (answer, w') = enter name conn w in (after_lock answer, w'))
      else (working, w)
  advance task singleton name conn working w = let (raised, w') = task w in (releasing raised, w')
  advance task singleton name conn (releasing raised) w =
      (over (outcome_of raised), if singleton then leave name conn w else w)
  advance task singleton name conn (over outcome) w = (over outcome, w)

  -- `run_once`, with nothing between its steps
  unfoldable pub run_once : (W → Bool × W) → Bool → String → String → W → Stage × W
  unfolding advance
  run_once task singleton name conn w =
      let (s, w') = advance task singleton name conn locking w in
      let (s', w'') = advance task singleton name conn s w' in
      advance task singleton name conn s' w''
