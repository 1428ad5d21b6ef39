-- ===== src/Routing/Choice.antt =====
-- The winner of the router is eligible and unbeaten, and heads the chain that is then called.
use sentinellm.Prelude.{
  ◌≡◌, refl, sym, ◌∙◌, inl, inr, Bool-cases, true, false, List, [], ◌∷◌, keep, All, arith,
  if◌then◌else◌,
}
use sentinellm.Float.{Float, IsOrdered, IsNumber, unbeaten_trans}
use sentinellm.Routing.Router.{Rated, best_from}

module _ {F : Type 0} where
  -- `sorted(rows, key=lambda c: -c.routing_score)`, a stable sort, by insertion
  unfoldable pub insert_ranked : ⦃fl : Float F⦄ → Rated F → List (Rated F) → List (Rated F)
  insert_ranked r [] = r ∷ []
  insert_ranked ⦃fl⦄ r (x ∷ xs) =
      let later = insert_ranked r xs in
      if fl.lt (fl.neg x.routing_score) (fl.neg r.routing_score) then x ∷ later else r ∷ x ∷ xs

  unfoldable pub ranked : ⦃fl : Float F⦄ → List (Rated F) → List (Rated F)
  unfolding insert_ranked
  ranked [] = []
  ranked (r ∷ rs) = insert_ranked r (ranked rs)

module _ {F : Type 0} ⦃fl : Float F⦄ where
  open fl use {lt, le}

  abbrev pub IsScored : Rated F → Type 0
  IsScored r = IsNumber r.routing_score

  abbrev pub HeadIs : Rated F → List (Rated F) → Type 0
  HeadIs r [] = ⊥
  HeadIs r (x ∷ xs) = x ≡ r

  abbrev better : Rated F → Rated F → Rated F
  better b r = if lt b.routing_score r.routing_score then r else b

  better-IsScored : (b r : Rated F) → IsScored b → IsScored r → IsScored (better b r)
  better-IsScored b r hb hr = ground arith

  pub best_from-either :
      (P : Rated F → Type 0) (b : Rated F) (rs : List (Rated F))
      → P b
      → All P rs
      → P (best_from b rs)
  unfolding best_from
  best_from-either P b [] h hs = h
  best_from-either P b (r ∷ rs) h (k, ks) = elim (Bool-cases (lt b.routing_score r.routing_score)) [
    | inl up ↦ rw up (best_from-either P r rs k ks)
    | inr keep ↦ rw keep (best_from-either P b rs h ks)
  ]

  module _ (laws : IsOrdered F) where
    open laws use {le_trans, le_self, lt-le, lt-eq-not-le, neg-lt}

    lt_trans :
        (x y z : F)
        → IsNumber x
        → IsNumber y
        → IsNumber z
        → lt x y ≡ true
        → lt y z ≡ true
        → lt x z ≡ true
    lt_trans x y z hx hy hz p q = ground (
      arith,
      lt-eq-not-le x y hx hy,
      lt-eq-not-le y z hy hz,
      lt-eq-not-le x z hx hz,
      le_trans z x y,
      lt-le y z,
      lt-le x y,
      le_trans z x y,
    )

    better-unbeaten :
        (b r : Rated F)
        → IsScored b
        → IsScored r
        → (lt (better b r).routing_score b.routing_score ≡ false)
          × (lt (better b r).routing_score r.routing_score ≡ false)
    better-unbeaten b r hb hr = ground (
      arith,
      lt-eq-not-le b.routing_score r.routing_score hb hr,
      lt-eq-not-le r.routing_score b.routing_score hr hb,
      lt-eq-not-le b.routing_score b.routing_score hb hb,
      lt-eq-not-le r.routing_score r.routing_score hr hr,
      lt-le b.routing_score r.routing_score,
    )

    -- no row beats the best, the first one included
    pub best_from-unbeaten :
        (b : Rated F) (rs : List (Rated F))
        → IsScored b
        → All IsScored rs
        → (lt (best_from b rs).routing_score b.routing_score ≡ false)
          × All (λ r. lt (best_from b rs).routing_score r.routing_score ≡ false) rs
    unfolding best_from
    best_from-unbeaten b [] hb h =
        (ground (arith, lt-eq-not-le b.routing_score b.routing_score hb hb), tt)
    best_from-unbeaten b (r ∷ rs) hb (hr, h) =
        let m = better b r in
        let hm = better-IsScored b r hb hr in
        let (x, y) = best_from-unbeaten m rs hm h in
        let w = best_from m rs in
        let hw = best_from-either IsScored m rs hm h in
        let (p, q) = better-unbeaten b r hb hr in
        (
          unbeaten_trans laws w.routing_score m.routing_score b.routing_score hw hm hb x p,
          (unbeaten_trans laws w.routing_score m.routing_score r.routing_score hw hm hr x q, y),
        )

    insert_ranked-IsScored :
        (r : Rated F) (rs : List (Rated F))
        → IsScored r
        → All IsScored rs
        → All IsScored (insert_ranked r rs)
    unfolding insert_ranked
    insert_ranked-IsScored r [] h hs = (h, tt)
    insert_ranked-IsScored r (x ∷ rs) h (k, ks) = ground (arith, insert_ranked-IsScored r rs h ks)

    ranked-IsScored : (rs : List (Rated F)) → All IsScored rs → All IsScored (ranked rs)
    unfolding ranked
    ranked-IsScored [] h = tt
    ranked-IsScored (r ∷ rs) (h, hs) =
        insert_ranked-IsScored r (ranked rs) h (ranked-IsScored rs hs)

    abbrev head_or : Rated F → List (Rated F) → Rated F
    head_or b [] = b
    head_or b (h ∷ t) = better b h

    head_or-insert :
        (b r : Rated F) (rs : List (Rated F))
        → IsScored b
        → IsScored r
        → All IsScored rs
        → head_or b (insert_ranked r rs) ≡ head_or (better b r) rs
    unfolding insert_ranked
    head_or-insert b r [] hb hr h = refl
    head_or-insert b r (x ∷ rs) hb hr (hx, h) = ground (
      arith,
      neg-lt x.routing_score r.routing_score,
      lt_trans b.routing_score r.routing_score x.routing_score hb hr hx,
      unbeaten_trans laws b.routing_score r.routing_score x.routing_score hb hr hx,
    )

    best_from-head_or :
        (b : Rated F) (rs : List (Rated F))
        → IsScored b
        → All IsScored rs
        → best_from b rs ≡ head_or b (ranked rs)
    unfolding best_from ranked
    best_from-head_or b [] hb h = refl
    best_from-head_or b (r ∷ rs) hb (hr, h) =
        best_from-head_or (better b r) rs (better-IsScored b r hb hr) h
        ∙ sym (head_or-insert b r (ranked rs) hb hr (ranked-IsScored rs h))

    head-insert : (r : Rated F) (rs : List (Rated F)) → HeadIs (head_or r rs) (insert_ranked r rs)
    unfolding insert_ranked
    head-insert r [] = refl
    head-insert r (x ∷ rs) = ground (arith, neg-lt x.routing_score r.routing_score)

    -- The chain that `_generate` builds, the eligible rows by falling score, begins with the row that
    -- the router picked.
    pub ranked-head :
        (r : Rated F) (rs : List (Rated F))
        → IsScored r
        → All IsScored rs
        → HeadIs (best_from r rs) (ranked (r ∷ rs))
    unfolding ranked
    ranked-head r rs hr h = rw (best_from-head_or r rs hr h) (head-insert r (ranked rs))
