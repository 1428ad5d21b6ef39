-- ===== src/Workers/Turns.antt =====
-- What the replicas do to the passes that go on, and to the locks.
use sentinellm.Prelude.{
  ℕ, ◌≡◌, ◌≢◌, ◌⊎◌, refl, ap, sym, ◌∙◌, inl, inr, Bool, Bool-cases, true, false, not, ◌==◌, eq_iff,
  String, List, [], ◌∷◌, map, keep, All, All-at, All-keep, Has, arith, if◌then◌else◌,
}
use sentinellm.Workers.Passes.{
  LockServer, Stage, locking, working, releasing, over, Outcome, advance,
}

-- A pass that goes on: its loop, the connection of its lock, where it stands, and whether the connection
-- is still up.
pub record Pass : Type 0 where
  pub loop : String
  pub conn : String
  pub stage : Stage
  pub connected : Bool

-- between the lock and its release
abbrev pub is_guarded : Stage → Bool
is_guarded working = true
is_guarded (releasing raised) = true
is_guarded _ = false

abbrev pub elsewhere : String → Pass → Bool
elsewhere conn p = not (p.conn == conn)

-- the passes, with a change to the one of a connection
abbrev pub change_at : String → (Pass → Pass) → List Pass → List Pass
change_at conn f ps = map (λ q. if q.conn == conn then f q else q) ps

abbrev pub at_stage : Stage → Pass → Pass
at_stage s p = record p { stage = s }

abbrev pub cut_off : Pass → Pass
cut_off p = record p { connected = false }

abbrev pub AreDistinct : List Pass → Type 0
AreDistinct [] = Unit
AreDistinct (p ∷ ps) = All (λ q. q.conn ≢ p.conn) ps × AreDistinct ps

module _ {W : Type 0} (server : LockServer W) where
  -- What the replicas do to the passes and to the database: a pass starts on a connection of its own; it
  -- makes the next step of `run_once`, whatever the answer of the lock, with any task that changes nothing
  -- of the locks; its connection is lost while it goes on, after the attempt at the lock; its worker dies,
  -- and the connection with it; it returns.
  pub data Turn : List Pass → W → List Pass → W → Type 0 where
    starts :
        {ps : List Pass} {w : W} (name conn : String)
        → All (λ p. p.conn ≢ conn) ps
        → Turn ps w (record { loop = name; conn = conn; stage = locking; connected = true } ∷ ps) w
    advances :
        {ps ps' : List Pass} {w w' : W} (p : Pass) (task : W → Bool × W) (s : Stage)
        → Has p ps
        → ((u : W) (k : ℕ) (d : String) → server.holds k d (task u).1 ≡ server.holds k d u)
        → advance server task true p.loop p.conn p.stage w ≡ (s, w')
        → ps' ≡ change_at p.conn (at_stage s) ps
        → Turn ps w ps' w'
    loses :
        {ps ps' : List Pass} {w w' : W} (p : Pass)
        → Has p ps
        → is_guarded p.stage ≡ true
        → ps' ≡ change_at p.conn cut_off ps
        → w' ≡ server.drop p.conn w
        → Turn ps w ps' w'
    dies :
        {ps ps' : List Pass} {w w' : W} (p : Pass)
        → Has p ps
        → ps' ≡ keep (elsewhere p.conn) ps
        → w' ≡ server.drop p.conn w
        → Turn ps w ps' w'
    returns :
        {ps ps' : List Pass} {w : W} (p : Pass) (outcome : Outcome)
        → Has p ps
        → p.stage ≡ over outcome
        → ps' ≡ keep (elsewhere p.conn) ps
        → Turn ps w ps' w

  -- From a database on which nobody has a lock.
  pub data Run : List Pass → W → Type 0 where
    idle : {w : W} → ((k : ℕ) (d : String) → server.holds k d w ≡ 0) → Run [] w
    turn : {ps ps' : List Pass} {w w' : W} → Run ps w → Turn ps w ps' w' → Run ps' w'

pub AreDistinct-keep : (q : Pass → Bool) (ps : List Pass) → AreDistinct ps → AreDistinct (keep q ps)
AreDistinct-keep q [] d = tt
AreDistinct-keep q (p ∷ ps) (apart, d) = elim (Bool-cases (q p)) [
  | inl pass ↦ rw pass (All-keep (λ x. x.conn ≢ p.conn) q ps apart, AreDistinct-keep q ps d)
  | inr stop ↦ rw stop (AreDistinct-keep q ps d)
]

-- the passes of distinct connections are known by them
pub same_pass :
    (ps : List Pass) (p q : Pass) → AreDistinct ps → Has p ps → Has q ps → p.conn ≡ q.conn → p ≡ q
same_pass [] p q d m n e = absurd m
same_pass (x ∷ ps) p q (apart, d) (inl a) (inl b) e = sym a ∙ b
same_pass (x ∷ ps) p q (apart, d) (inl a) (inr n) e =
    absurd (All-at (λ z. z.conn ≢ x.conn) ps q apart n (sym e ∙ sym (ap (λ (z : Pass). z.conn) a)))
same_pass (x ∷ ps) p q (apart, d) (inr m) (inl b) e =
    absurd (All-at (λ z. z.conn ≢ x.conn) ps p apart m (e ∙ sym (ap (λ (z : Pass). z.conn) b)))
same_pass (x ∷ ps) p q (apart, d) (inr m) (inr n) e = same_pass ps p q d m n e

pub elsewhere-ne : (conn : String) (p : Pass) → elsewhere conn p ≡ true → p.conn ≢ conn
elsewhere-ne conn p h same = ground (arith, eq_iff p.conn conn)

pub elsewhere-same : (conn : String) (p : Pass) → elsewhere conn p ≡ false → p.conn ≡ conn
elsewhere-same conn p h = ground (arith, eq_iff p.conn conn)

module _ (conn : String) (f : Pass → Pass) (stays : (p : Pass) → (f p).conn ≡ p.conn) where
  change-conn : (q : Pass) → (if q.conn == conn then f q else q).conn ≡ q.conn
  change-conn q = elim (Bool-cases (q.conn == conn)) [
    | inl here ↦ rw here (stays q)
    | inr there ↦ rw there refl
  ]

  change_at-apart :
      (c : String) (ps : List Pass)
      → All (λ q. q.conn ≢ c) ps
      → All (λ q. q.conn ≢ c) (change_at conn f ps)
  change_at-apart c [] h = tt
  change_at-apart c (p ∷ ps) (k, ks) = ((λ e. k (sym (change-conn p) ∙ e)), change_at-apart c ps ks)

  pub AreDistinct-change_at : (ps : List Pass) → AreDistinct ps → AreDistinct (change_at conn f ps)
  AreDistinct-change_at [] d = tt
  AreDistinct-change_at (p ∷ ps) (apart, d) =
      (rw (change-conn p) (change_at-apart p.conn ps apart), AreDistinct-change_at ps d)

  -- a pass after the change is another's, or the changed one
  pub Has-change_at :
      (ps : List Pass) (q : Pass)
      → Has q (change_at conn f ps)
      → (Has q ps × (q.conn ≢ conn)) ⊎ ((r : Pass) × Has r ps × (r.conn ≡ conn) × (f r ≡ q))
  Has-change_at [] q m = absurd m
  Has-change_at (p ∷ ps) q (inl e) = elim (Bool-cases (p.conn == conn)) [
    | inl here ↦ inr (p, inl refl, (eq_iff p.conn conn).0 here, rw here at e)
    | inr there ↦
        let same : p ≡ q = rw there at e in
        inl (inl same, λ c. cc (there, (eq_iff p.conn conn).1 (ap (λ z. z.conn) same ∙ c)))
  ]
  Has-change_at (p ∷ ps) q (inr m) = elim (Has-change_at ps q m) [
    | inl (n, apart) ↦ inl (inr n, apart)
    | inr (r, n, e, c) ↦ inr (r, inr n, e, c)
  ]

  pub change_at-others :
      (ps : List Pass) (q : Pass) → Has q ps → q.conn ≢ conn → Has q (change_at conn f ps)
  change_at-others [] q m apart = absurd m
  change_at-others (p ∷ ps) q (inl e) apart = elim (Bool-cases (p.conn == conn)) [
    | inl here ↦ absurd (apart (sym (ap (λ (z : Pass). z.conn) e) ∙ (eq_iff p.conn conn).0 here))
    | inr there ↦ rw there (inl e)
  ]
  change_at-others (p ∷ ps) q (inr m) apart = inr (change_at-others ps q m apart)

  pub change_at-own :
      (ps : List Pass) (q : Pass) → Has q ps → q.conn ≡ conn → Has (f q) (change_at conn f ps)
  change_at-own [] q m e = absurd m
  change_at-own (p ∷ ps) q (inl same) e =
      let here : (p.conn == conn) ≡ true =
        (eq_iff p.conn conn).1 (ap (λ (z : Pass). z.conn) same ∙ e) in
      inl (rw here (ap f same))
  change_at-own (p ∷ ps) q (inr m) e = inr (change_at-own ps q m e)
