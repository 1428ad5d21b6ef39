-- ===== src/Workers/Held.antt =====
-- Which connections have the locks while the replicas run, and what one connection's change leaves of it.
use sentinellm.Prelude.{
  ℕ, ◌≤◌, ◌<◌, ◌≡◌, ◌≢◌, ◌⊎◌, ap, sym, ◌∙◌, inl, inr, Bool-cases, true, false, ◌==◌, eq_iff, String,
  List, Has, eqb, arith,
}
use sentinellm.Workers.Passes.{LockServer, Frees, IsLockServer, locking, leave}
use sentinellm.Workers.Turns.{Pass, is_guarded, AreDistinct, same_pass}

pub zero_or_more : (n : ℕ) → (n ≡ 0) ⊎ (0 < n)
zero_or_more n = elim (Bool-cases (eqb n 0)) [
  | inl none_held ↦ inl (ground arith)
  | inr held ↦ inr (ground arith)
]

module _ {W : Type 0} (server : LockServer W) where
  -- a pass that its lock guards still
  pub record Owns (p : Pass) (k : ℕ) (d : String) : Type 0 where
    pub conn : p.conn ≡ d
    pub key : server.lock_key p.loop ≡ k
    pub connected : p.connected ≡ true
    pub guarded : is_guarded p.stage ≡ true

  -- a pass between the lock and its release has the lock once, unless its connection is lost, and before
  -- the lock it is not
  abbrev pub IsFine : W → Pass → Type 0
  IsFine w p =
      (p.connected ≡ true
        → is_guarded p.stage ≡ true
        → server.holds (server.lock_key p.loop) p.conn w ≡ 1)
      × (p.stage ≡ locking → p.connected ≡ true)

  pub record IsHeld (ps : List Pass) (w : W) : Type 0 where
    pub fine : (p : Pass) → Has p ps → IsFine w p
    pub distinct : AreDistinct ps
    pub owned : (k : ℕ) (d : String) → 0 < server.holds k d w → (p : Pass) × Has p ps × Owns p k d
    pub alone : (k : ℕ) (d e : String) → 0 < server.holds k d w → e ≢ d → server.holds k e w ≡ 0

  -- What one connection does to the passes and the locks.
  pub record Change (c : String) (ps : List Pass) (w : W) (ps' : List Pass) (w' : W) : Type 0 where
    pub distinct : AreDistinct ps'
    pub from : (q : Pass) → Has q ps' → (Has q ps × (q.conn ≢ c)) ⊎ ((q.conn ≡ c) × IsFine w' q)
    pub to : (q : Pass) → Has q ps → q.conn ≢ c → Has q ps'
    pub kept : (k : ℕ) (d : String) → d ≢ c → server.holds k d w' ≡ server.holds k d w
    pub mine :
        (k : ℕ)
        → 0 < server.holds k c w'
        → ((p : Pass) × Has p ps' × Owns p k c) × ((d : String) → d ≢ c → server.holds k d w ≡ 0)

  pub Change-IsHeld :
      (c : String) (ps : List Pass) (w : W) (ps' : List Pass) (w' : W)
      → Change c ps w ps' w'
      → IsHeld ps w
      → IsHeld ps' w'
  Change-IsHeld c ps w ps' w' ch h = record {
    fine = λ p m. elim (ch.from p m) [
      | inr (own, ok) ↦ ok
      | inl (there, apart) ↦
          let (once, joined) = h.fine p there in
          ((λ up guarded. ch.kept (server.lock_key p.loop) p.conn apart ∙ once up guarded), joined)
    ];
    distinct = ch.distinct;
    owned = λ k d held. elim (Bool-cases (d == c)) [
      | inl own ↦
          let same : d ≡ c = (eq_iff d c).0 own in
          let (found, others) = ch.mine k (rw same at held) in rw same found
      | inr other ↦
          let apart : d ≢ c = λ e. cc (other, (eq_iff d c).1 e) in
          let (p, there, owns) = h.owned k d (rw (ch.kept k d apart) at held) in
          (p, ch.to p there (λ e. apart (sym owns.conn ∙ e)), owns)
    ];
    alone = λ k d e held apart. elim (Bool-cases (d == c)) [
      | inl own ↦
          let same : d ≡ c = (eq_iff d c).0 own in
          let (found, others) = ch.mine k (rw same at held) in
          let far : e ≢ c = λ x. apart (x ∙ sym same) in ch.kept k e far ∙ others e far
      | inr other ↦
          let near : d ≢ c = λ x. cc (other, (eq_iff d c).1 x) in
          let before : 0 < server.holds k d w = rw (ch.kept k d near) at held in
          elim (Bool-cases (e == c)) [
            | inr far ↦ ch.kept k e (λ x. cc (far, (eq_iff e c).1 x)) ∙ h.alone k d e before apart
            | inl here ↦
                let at : e ≡ c = (eq_iff e c).0 here in
                elim (zero_or_more (server.holds k c w')) [
                  | inl none_held ↦ rw at none_held
                  | inr more ↦
                      let (found, others) = ch.mine k more in
                      absurd (omega (arith, before, others d near))
                ]
          ]
    ];
  }

  module _ (ps : List Pass) (w : W) (p : Pass) (h : IsHeld ps w) (m : Has p ps) where
    -- what the connection of a pass has is the lock of its loop
    pub other_keys : (k : ℕ) → k ≢ server.lock_key p.loop → server.holds k p.conn w ≡ 0
    other_keys k apart = elim (zero_or_more (server.holds k p.conn w)) [
      | inl none_held ↦ none_held
      | inr held ↦
          let (q, there, owns) = h.owned k p.conn held in
          let same = same_pass ps q p h.distinct there m owns.conn in
          absurd (apart (sym owns.key ∙ ap (λ (z : Pass). server.lock_key z.loop) same))
    ]

    -- nothing, where the pass is outside the lock or has lost the connection
    pub none_held :
        (p.connected ≡ false) ⊎ (is_guarded p.stage ≡ false) → (k : ℕ) → server.holds k p.conn w ≡ 0
    none_held out k = elim (zero_or_more (server.holds k p.conn w)) [
      | inl none ↦ none
      | inr held ↦
          let (q, there, owns) = h.owned k p.conn held in
          let same = same_pass ps q p h.distinct there m owns.conn in
          elim out [
            | inl down ↦ absurd (cc (down, owns.connected, ap (λ (z : Pass). z.connected) same))
            | inr outside ↦
                absurd (cc (outside, owns.guarded, ap (λ (z : Pass). is_guarded z.stage) same))
          ]
    ]

    pub at_most_once : server.holds (server.lock_key p.loop) p.conn w ≤ 1
    at_most_once = elim (Bool-cases p.connected) [
      | inr down ↦ omega (arith, none_held (inl down) (server.lock_key p.loop))
      | inl up ↦ elim (Bool-cases (is_guarded p.stage)) [
        | inr outside ↦ omega (arith, none_held (inr outside) (server.lock_key p.loop))
        | inl inside ↦ omega (arith, (h.fine p m).0 up inside)
      ]
    ]

  module _ (laws : IsLockServer server) (postgres : server.postgres ≡ true) where
    Frees-trans :
        (c : String) (a b d : W) → Frees server c a b → Frees server c b d → Frees server c a d
    Frees-trans c a b d f g = record {
      kept = λ k e apart. g.kept k e apart ∙ f.kept k e apart;
      no_more = λ k. omega (arith, g.no_more k, f.no_more k);
    }

    leave-released :
        (name conn : String) (w : W)
        → (server.unlock (server.lock_key name) conn w).0 ≡ true
        → leave server name conn w ≡ (server.unlock (server.lock_key name) conn w).1
    unfolding leave
    leave-released name conn w h = ground arith

    leave-raised :
        (name conn : String) (w : W)
        → (server.unlock (server.lock_key name) conn w).0 ≡ false
        → leave server name conn w
          ≡ server.drop conn (server.unlock (server.lock_key name) conn w).1
    unfolding leave
    leave-raised name conn w h = ground arith

    -- the `finally` gives up the lock, by the unlock or with the connection
    pub leave-Frees :
        (name conn : String) (w : W)
        → server.holds (server.lock_key name) conn w ≤ 1
        → Frees server conn w (leave server name conn w)
          × (server.holds (server.lock_key name) conn (leave server name conn w) ≡ 0)
    leave-Frees name conn w once =
        let k = server.lock_key name in
        let w' = (server.unlock k conn w).1 in
        elim (Bool-cases (server.unlock k conn w).0) [
          | inl released ↦
              rw (leave-released name conn w released) (
                laws.unlock_frees k conn w,
                omega (arith, once, laws.unlock_once k conn w released),
              )
          | inr raised ↦ rw (leave-raised name conn w raised) (
            Frees-trans conn w w' (server.drop conn w') (laws.unlock_frees k conn w)
                (laws.drop_frees conn w'),
            laws.drop_done conn w' k,
          )
        ]

    -- after it the connection of a pass has no lock
    pub leave_none :
        (ps : List Pass) (w : W) (p : Pass)
        → IsHeld ps w
        → Has p ps
        → (k : ℕ) → server.holds k p.conn (leave server p.loop p.conn w) ≡ 0
    leave_none ps w p h m k =
        let (frees, done) = leave-Frees p.loop p.conn w (at_most_once ps w p h m) in
        elim (Bool-cases (eqb k (server.lock_key p.loop))) [
          | inl own ↦ let same : k ≡ server.lock_key p.loop = ground arith in rw same done
          | inr other ↦
              let apart : k ≢ server.lock_key p.loop = λ e. ground arith in
              omega (arith, frees.no_more k, other_keys ps w p h m k apart)
        ]
