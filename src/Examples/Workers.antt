-- ===== src/Examples/Workers.antt =====
-- Two replicas and one loop, over a table of locks.
use sentinellm.Prelude.{
  ℕ, zero, suc, ◌-◌, ◌≤◌, ◌<◌, ◌≡◌, ◌≢◌, refl, inl, inr, Bool, Bool-cases, true, false, ◌==◌,
  eq_iff, eq_refl, String, Option, none, some, List, [], ◌∷◌, keep, length, Has, eqb, if◌then◌else◌,
  arith,
}
use sentinellm.Workers.Passes.{
  LockServer, IsLockServer, locking, working, over, ok, skipped, enter, after_lock, advance,
  run_once,
}
use sentinellm.Workers.Turns.{Pass, is_guarded, starts, advances, Run, idle, turn}
use sentinellm.Workers.Exclusion.{runs, passes_excluded, skipped_running}

-- a lock that a connection has `n + 1` times
abbrev Slot : Type 0
Slot = Option (String × ℕ)

abbrev Locks : Type 0
Locks = ℕ → Slot

abbrev slot_holds : Slot → String → ℕ
slot_holds none c = 0
slot_holds (some (d, n)) c = if d == c then suc n else 0

abbrev slot_lock : String → Slot → Bool × Slot
slot_lock c none = (true, some (c, 0))
slot_lock c (some (d, n)) = if d == c then (true, some (d, suc n)) else (false, some (d, n))

abbrev slot_unlock : String → Slot → Slot
slot_unlock c none = none
slot_unlock c (some (d, zero)) = if d == c then none else some (d, zero)
slot_unlock c (some (d, suc n)) = if d == c then some (d, n) else some (d, suc n)

abbrev slot_drop : String → Slot → Slot
slot_drop c none = none
slot_drop c (some (d, n)) = if d == c then none else some (d, n)

abbrev write : ℕ → Slot → Locks → Locks
write k o w = λ j. if eqb j k then o else w j

abbrev locks : LockServer Locks
locks = record {
  postgres = true;
  lock_key = λ name. if name == "rollout" then 1 else 2;
  try_lock = λ k c w. (some (slot_lock c (w k)).0, write k (slot_lock c (w k)).1 w);
  unlock = λ k c w. (true, write k (slot_unlock c (w k)) w);
  drop = λ c w. (λ k. slot_drop c (w k));
  holds = λ k c w. slot_holds (w k) c;
}

lock_alone : (o : Slot) (c d : String) → (slot_lock c o).0 ≡ true → d ≢ c → slot_holds o d ≡ 0
lock_alone none c d h apart = refl
lock_alone (some (x, n)) c d h apart = ground (arith, eq_iff x c, eq_iff x d)

lock_more :
    (o : Slot) (c : String)
    → (slot_lock c o).0 ≡ true
    → slot_holds (slot_lock c o).1 c ≡ suc (slot_holds o c)
lock_more none c h = ground (arith, eq_refl c)
lock_more (some (x, n)) c h = ground arith

lock_others : (o : Slot) (c d : String) → d ≢ c → slot_holds (slot_lock c o).1 d ≡ slot_holds o d
lock_others none c d apart = ground (arith, eq_iff c d)
lock_others (some (x, n)) c d apart = ground (arith, eq_iff x c, eq_iff x d)

lock_refused_same : (o : Slot) (c : String) → (slot_lock c o).0 ≡ false → (slot_lock c o).1 ≡ o
lock_refused_same none c h = absurd (cc h)
lock_refused_same (some (x, n)) c h = ground arith

lock_refused :
    (o : Slot) (c : String) → (slot_lock c o).0 ≡ false → (d : String) × (0 < slot_holds o d)
lock_refused none c h = absurd (cc h)
lock_refused (some (x, n)) c h = (x, ground (arith, eq_refl x))

unlock_others : (o : Slot) (c d : String) → d ≢ c → slot_holds (slot_unlock c o) d ≡ slot_holds o d
unlock_others none c d apart = refl
unlock_others (some (x, zero)) c d apart = ground (arith, eq_iff x c, eq_iff x d)
unlock_others (some (x, suc n)) c d apart = ground (arith, eq_iff x c, eq_iff x d)

unlock_less : (o : Slot) (c : String) → slot_holds (slot_unlock c o) c ≡ slot_holds o c - 1
unlock_less none c = refl
unlock_less (some (x, zero)) c = ground arith
unlock_less (some (x, suc n)) c = ground arith

drop_others : (o : Slot) (c d : String) → d ≢ c → slot_holds (slot_drop c o) d ≡ slot_holds o d
drop_others none c d apart = refl
drop_others (some (x, n)) c d apart = ground (arith, eq_iff x c, eq_iff x d)

drop_none : (o : Slot) (c : String) → slot_holds (slot_drop c o) c ≡ 0
drop_none none c = refl
drop_none (some (x, n)) c = ground arith

write_others :
    (k : ℕ) (o : Slot) (w : Locks) (j : ℕ) (d : String)
    → slot_holds o d ≡ slot_holds (w k) d
    → slot_holds (write k o w j) d ≡ slot_holds (w j) d
write_others k o w j d h = elim (Bool-cases (eqb j k)) [
  | inl own ↦ let same : j ≡ k = ground arith in rw (own, same) h
  | inr other ↦ rw other (refl)
]

write_less :
    (k : ℕ) (o : Slot) (w : Locks) (j : ℕ) (d : String)
    → slot_holds o d ≤ slot_holds (w k) d
    → slot_holds (write k o w j) d ≤ slot_holds (w j) d
write_less k o w j d h = elim (Bool-cases (eqb j k)) [
  | inl own ↦ let same : j ≡ k = ground arith in rw (own, same) h
  | inr other ↦ rw other (omega arith)
]

write_own : (k : ℕ) (o : Slot) (w : Locks) → write k o w k ≡ o
write_own k o w = ground arith

locks-IsLockServer : IsLockServer locks
locks-IsLockServer = record {
  granted_alone = λ k c w granted d apart. lock_alone (w k) c d (cc granted) apart;
  granted_more =
      λ k c w granted. rw (write_own k (slot_lock c (w k)).1 w) (lock_more (w k) c (cc granted));
  try_lock_keys = λ k c w j apart. ground arith;
  try_lock_others =
      λ k c w j d apart. write_others k (slot_lock c (w k)).1 w j d (lock_others (w k) c d apart);
  refused_frees = λ k c w refused. record {
    kept = λ j d apart. write_others k (slot_lock c (w k)).1 w j d (lock_others (w k) c d apart);
    no_more = λ j.
        write_less k (slot_lock c (w k)).1 w j c
          (let same = lock_refused_same (w k) c (ground arith) in rw same (omega arith));
  };
  refused_held = λ k c w refused. lock_refused (w k) c (cc refused);
  unlock_frees = λ k c w. record {
    kept = λ j d apart. write_others k (slot_unlock c (w k)) w j d (unlock_others (w k) c d apart);
    no_more = λ j. write_less k (slot_unlock c (w k)) w j c (omega (arith, unlock_less (w k) c));
  };
  unlock_once = λ k c w done. rw (write_own k (slot_unlock c (w k)) w) (unlock_less (w k) c);
  drop_frees = λ c w. record {
    kept = λ j d apart. drop_others (w j) c d apart;
    no_more = λ j. omega (arith, drop_none (w j) c);
  };
  drop_done = λ c w k. drop_none (w k) c;
}

-- one replica at the lock and one in the task
abbrev first : Pass
first = record { loop = "rollout"; conn = "c1"; stage = working; connected = true }

abbrev second : Pass
second = record { loop = "rollout"; conn = "c2"; stage = locking; connected = true }

abbrev both : List Pass
both = second ∷ first ∷ []

abbrev free : Locks
free k = none

abbrev taken : Locks
taken = write 1 (some ("c1", 0)) free

abbrev task : Locks → Bool × Locks
task w = (false, w)

abbrev starting : Pass
starting = record { loop = "rollout"; conn = "c1"; stage = locking; connected = true }

running : Run locks both taken
running =
    turn
      (turn (turn (idle {w = free} (λ k d. refl)) (starts {w = free} "rollout" "c1" tt)) (
        advances {ps = starting ∷ []} {w = free} {w' = taken} starting task working (inl refl)
          (λ u k d. refl) (unfold advance enter after_lock in refl) refl))
      (starts "rollout" "c2" ((λ e. cc ((eq_iff "c1" "c2").1 e)), tt))

passes_excluded_example : length (keep (runs "rollout") both) ≤ 1
passes_excluded_example = passes_excluded locks locks-IsLockServer refl "rollout" running

skipped_running_example :
    (q : Pass) × Has q both
    × (q.connected ≡ true)
    × (is_guarded q.stage ≡ true)
    × (locks.lock_key q.loop ≡ locks.lock_key second.loop)
skipped_running_example =
    skipped_running locks locks-IsLockServer refl second task running refl
      (unfold advance enter after_lock in refl)

-- a pass with nothing between its steps gives back the lock
run_alone : (run_once locks task true "rollout" "c1" free).0 ≡ over ok
unfolding run_once advance enter after_lock
run_alone = refl

run_skipped : (run_once locks task true "rollout" "c2" taken).0 ≡ over skipped
unfolding run_once advance enter after_lock
run_skipped = refl
