-- ===== src/Evaluations/Requeued.antt =====
-- What a recovery does for the traces that wait and that no job will ever take.
use sentinellm.Prelude.{
  ℕ, suc, ◌≤◌, ◌≡◌, ◌⊎◌, ◌-◌, refl, ap, sym, subst, ◌∙◌, inl, inr, Bool, Bool-cases, true, false,
  not, ◌&&◌, ◌||◌, ◌==◌, eq_refl, String, Option, none, some, List, [], ◌∷◌, ◌++◌, length, keep,
  keep-Has, any, any-append, take_all, Has, ltb, arith,
}
use sentinellm.Tables.{Trace, Evaluation, EvaluationStatus, pending, completed}
use sentinellm.Evaluations.Jobs.{Records, set_status, has_evaluation, is_pending, is_evaluating}
use sentinellm.Evaluations.Lifecycle.{recover-records}
use sentinellm.Evaluations.Recovery.{
  requeue_batch, orphaned_pending_after, QueueState, Counts, counted, enqueue_all, is_finished,
  is_orphaned, ids_of, insert_oldest, oldest_first, stuck_ids_of, orphan_ids, repaired,
  recover_orphans, requeue_stuck, recover_evaluations,
}

any-append_right :
    (p : String → Bool) (xs ys : List String) → any p ys ≡ true → any p (xs ++ ys) ≡ true
any-append_right p [] ys h = h
any-append_right p (x ∷ xs) ys h = ground (arith, any-append_right p xs ys h)

any-append_rest :
    (p : String → Bool) (xs ys : List String)
    → any p xs ≡ false
    → any p (xs ++ ys) ≡ true
    → any p ys ≡ true
any-append_rest p [] ys h k = k
any-append_rest p (x ∷ xs) ys h k = ground (arith, any-append_rest p xs ys)

-- whether a recovery returns its counts
abbrev pub returned : Option Counts → Bool
returned none = false
returned (some counts) = true

-- a loop over the queue that does not end early pushes every id
enqueue_all-all :
    (accepts : String → Bool) (is : List String)
    → (enqueue_all accepts is).1 ≡ true
    → (enqueue_all accepts is).0 ≡ is
unfolding enqueue_all
enqueue_all-all accepts [] h = refl
enqueue_all-all accepts (i ∷ is) h = elim (Bool-cases (accepts i)) [
  | inl taken ↦ rw taken (ap (λ js. i ∷ js) (enqueue_all-all accepts is (rw taken at h)))
  | inr refused ↦ absurd (cc (rw refused at h))
]

-- one that does is ended by a push that raises
enqueue_all_raised :
    (accepts : String → Bool) (is : List String)
    → (enqueue_all accepts is).1 ≡ false
    → (i : String) × (accepts i ≡ false)
unfolding enqueue_all
enqueue_all_raised accepts [] h = absurd (cc h)
enqueue_all_raised accepts (i ∷ is) h = elim (Bool-cases (accepts i)) [
  | inl taken ↦ enqueue_all_raised accepts is (rw taken at h)
  | inr refused ↦ (i, refused)
]

module _ {F : Type 0} where
  any_id : (ts : List (Trace F)) (t : Trace F) → Has t ts → any (λ i. i == t.id) (ids_of ts) ≡ true
  any_id [] t m = absurd m
  any_id (x ∷ ts) t (inl same) =
      ground (arith, eq_refl t.id, ap (λ (y : Trace F). y.id == t.id) same)
  any_id (x ∷ ts) t (inr m) = ground (arith, any_id ts t m)

  insert_oldest-Has :
      (t : Trace F) (xs : List (Trace F)) (u : Trace F)
      → Has u (t ∷ xs)
      → Has u (insert_oldest t xs)
  unfolding insert_oldest
  insert_oldest-Has t [] u m = m
  insert_oldest-Has t (x ∷ xs) u m = elim (Bool-cases (ltb x.created_at t.created_at)) [
    | inr first ↦ rw first m
    | inl later ↦ rw later (elim m [
      | inl own ↦ inr (insert_oldest-Has t xs u (inl own))
      | inr (inl head) ↦ inl head
      | inr (inr tail) ↦ inr (insert_oldest-Has t xs u (inr tail))
    ])
  ]

  length-insert_oldest :
      (t : Trace F) (xs : List (Trace F)) → length (insert_oldest t xs) ≡ suc (length xs)
  unfolding insert_oldest
  length-insert_oldest t [] = refl
  length-insert_oldest t (x ∷ xs) = ground (arith, length-insert_oldest t xs)

  oldest_first-Has : (ts : List (Trace F)) (t : Trace F) → Has t ts → Has t (oldest_first ts)
  unfolding oldest_first
  oldest_first-Has [] t m = m
  oldest_first-Has (x ∷ ts) t (inl same) = insert_oldest-Has x (oldest_first ts) t (inl same)
  oldest_first-Has (x ∷ ts) t (inr m) =
      insert_oldest-Has x (oldest_first ts) t (inr (oldest_first-Has ts t m))

  length-oldest_first : (ts : List (Trace F)) → length (oldest_first ts) ≡ length ts
  unfolding oldest_first
  length-oldest_first [] = refl
  length-oldest_first (x ∷ ts) =
      length-insert_oldest x (oldest_first ts) ∙ ap suc (length-oldest_first ts)

  set_status-Has_other :
      (p : Trace F → Bool) (s : EvaluationStatus) (ts : List (Trace F)) (t : Trace F)
      → Has t ts
      → p t ≡ false
      → Has t (set_status p s ts)
  unfolding set_status
  set_status-Has_other p s [] t m h = absurd m
  set_status-Has_other p s (x ∷ ts) t (inl same) h =
      inl ((let miss : p x ≡ false = rw same h in rw miss refl) ∙ same)
  set_status-Has_other p s (x ∷ ts) t (inr m) h = inr (set_status-Has_other p s ts t m h)

  -- A trace that waits for an evaluation for more than 15 minutes, at whatever stage.
  abbrev pub is_waiting : List (Evaluation F) → ℕ → Trace F → Bool
  is_waiting evaluations now t =
      (is_pending t.evaluation_status || is_evaluating t.evaluation_status)
      && ltb t.created_at (now - orphaned_pending_after)
      && not (has_evaluation evaluations t.id)

  module _ (evaluations : List (Evaluation F)) (stuck_ids : List String) (now : ℕ) where
    -- the orphans that the third step finds were waiting before the first
    orphans_waited :
        (ts : List (Trace F))
        → length
            (keep (is_orphaned evaluations stuck_ids now) (repaired evaluations stuck_ids now ts))
          ≤ length (keep (is_waiting evaluations now) ts)
    unfolding repaired set_status
    orphans_waited [] = omega arith
    orphans_waited (t ∷ ts) = ground (arith, orphans_waited ts)

    -- a pending trace without an evaluation is not touched by the first two steps
    repaired-Has :
        (ts : List (Trace F)) (t : Trace F)
        → Has t ts
        → t.evaluation_status ≡ pending
        → has_evaluation evaluations t.id ≡ false
        → Has t (repaired evaluations stuck_ids now ts)
    unfolding repaired
    repaired-Has ts t m open_status new =
        set_status-Has_other _ pending _ t
          (set_status-Has_other (is_finished evaluations now) completed ts t m (ground arith))
          (ground arith)

    orphan_ids-all :
        (ts : List (Trace F)) (t : Trace F)
        → Has t ts
        → is_orphaned evaluations stuck_ids now t ≡ true
        → length (keep (is_orphaned evaluations stuck_ids now) ts) ≤ requeue_batch
        → any (λ i. i == t.id) (orphan_ids evaluations stuck_ids now 0 ts) ≡ true
    unfolding orphan_ids
    orphan_ids-all ts t m orphaned few =
        let orphans = keep (is_orphaned evaluations stuck_ids now) ts in
        rw
          (take_all requeue_batch (oldest_first orphans)
            (omega (arith, few, length-oldest_first orphans)))
          (any_id (oldest_first orphans) t (
            oldest_first-Has orphans t
              (keep-Has (is_orphaned evaluations stuck_ids now) ts t m orphaned)))

  module _ (queue : QueueState) (t : Trace F) where
    -- the id is pushed, or a push raises and ends the recovery
    abbrev pub IsPushed : List String → Bool → Type 0
    IsPushed pushed returns =
        (any (λ i. i == t.id) pushed ≡ true)
        ⊎ ((returns ≡ false) × ((i : String) × (queue.accepts i ≡ false)))

    loop-IsPushed :
        (is : List String)
        → any (λ i. i == t.id) is ≡ true
        → IsPushed (enqueue_all queue.accepts is).0 (enqueue_all queue.accepts is).1
    loop-IsPushed is m = elim (Bool-cases (enqueue_all queue.accepts is).1) [
      | inl all ↦ inl (rw (enqueue_all-all queue.accepts is all) m)
      | inr raised ↦ inr (raised, enqueue_all_raised queue.accepts is raised)
    ]

    returned_lem :
        (finished requeued : ℕ) (loop : List String × Bool)
        → returned (counted finished requeued loop) ≡ loop.1
    returned_lem finished requeued (pushed, true) = refl
    returned_lem finished requeued (pushed, false) = refl

    -- the third step, with an empty queue
    orphans-IsPushed :
        (db : Records F) (stuck_ids : List String) (now finished : ℕ)
        → any (λ i. i == t.id) (stuck_ids ++ orphan_ids db.evaluations stuck_ids now 0 db.traces)
          ≡ true
        → let after = recover_orphans queue db stuck_ids now finished (some 0) in
          IsPushed after.pushed (returned after.counts)
    unfolding recover_orphans
    orphans-IsPushed db stuck_ids now finished m =
        let orphans = orphan_ids db.evaluations stuck_ids now 0 db.traces in
        rw (returned_lem finished (length stuck_ids) (enqueue_all queue.accepts orphans))
          (elim (Bool-cases (any (λ i. i == t.id) stuck_ids)) [
            | inl stuck ↦ inl (any-append (λ i. i == t.id) stuck_ids _ stuck)
            | inr other ↦
                elim (loop-IsPushed orphans (any-append_rest _ stuck_ids orphans other m)) [
                  | inl pushed ↦ inl (any-append_right (λ i. i == t.id) stuck_ids _ pushed)
                  | inr raised ↦ inr raised
                ]
          ])

    requeue-IsPushed :
        (db : Records F) (stuck_ids : List String) (now finished : ℕ)
        → queue.depth ≡ some 0
        → any (λ i. i == t.id) (stuck_ids ++ orphan_ids db.evaluations stuck_ids now 0 db.traces)
          ≡ true
        → let after = requeue_stuck queue db stuck_ids now finished in
          IsPushed after.pushed (returned after.counts)
    unfolding requeue_stuck
    requeue-IsPushed db stuck_ids now finished empty m =
        elim (Bool-cases (enqueue_all queue.accepts stuck_ids).1) [
          | inl all ↦ rw (all, empty) (orphans-IsPushed db stuck_ids now finished m)
          | inr raised ↦ rw raised (inr (refl, enqueue_all_raised queue.accepts stuck_ids raised))
        ]

  -- A trace that is pending for more than 15 minutes without an evaluation stays pending in a recovery
  -- that finds the queue empty, while at most a batch of traces waits so long; and either its id is pushed
  -- to the queue, or a push raises and the recovery with it.
  pub recover_evaluations_orphans :
      (db : Records F) (now : ℕ) (queue : QueueState) (t : Trace F)
      → Has t db.traces
      → t.evaluation_status ≡ pending
      → ltb t.created_at (now - orphaned_pending_after) ≡ true
      → has_evaluation db.evaluations t.id ≡ false
      → length (keep (is_waiting db.evaluations now) db.traces) ≤ requeue_batch
      → queue.depth ≡ some 0
      → Has t (recover_evaluations db now queue).records.traces
        × IsPushed queue t
            (recover_evaluations db now queue).pushed
            (returned (recover_evaluations db now queue).counts)
  unfolding recover_evaluations
  recover_evaluations_orphans db now queue t m open_status old new few empty =
      let stuck_ids =
        stuck_ids_of db.evaluations now
          (set_status (is_finished db.evaluations now) completed db.traces) in
      let after : Records F = record db {
        traces = repaired db.evaluations stuck_ids now db.traces;
      } in
      let there = repaired-Has db.evaluations stuck_ids now db.traces t m open_status new in
      (
        subst (λ (r : Records F). Has t r.traces) (sym (recover-records db now queue)) there,
        requeue-IsPushed queue t after stuck_ids now _ empty
            (elim (Bool-cases (any (λ i. i == t.id) stuck_ids)) [
              | inl stuck ↦ any-append (λ i. i == t.id) stuck_ids _ stuck
              | inr other ↦
                  any-append_right (λ i. i == t.id) stuck_ids _
                    (orphan_ids-all db.evaluations stuck_ids now after.traces t there (ground arith)
                      (omega (arith, few, orphans_waited db.evaluations stuck_ids now db.traces)))
            ]),
      )
