-- ===== src/Retrieval/Sorting.antt =====
-- The stable sort by falling score, and its first places.
use sentinellm.Prelude.{
  ℕ, zero, suc, ◌≤◌, ◌≡◌, refl, ap, ◌∙◌, ◌⊎◌, inl, inr, Bool-cases, true, false, List, [], ◌∷◌,
  length, take, All, All-at, Has, arith,
}
use sentinellm.Float.{Float, IsOrdered, IsNumber, unbeaten_trans}
use sentinellm.Retrieval.Ranking.{insert_scored, sorted_scores}

pub length-take_le : {A : Type 0} (n : ℕ) (xs : List A) → length (take n xs) ≤ n
length-take_le zero xs = omega arith
length-take_le (suc n) [] = omega arith
length-take_le (suc n) (x ∷ xs) = omega (arith, length-take_le n xs)

asym :
    {F : Type 0} ⦃fl : Float F⦄ (laws : IsOrdered F) (x y : F)
    → IsNumber x
    → IsNumber y
    → fl.lt x y ≡ true
    → fl.lt y x ≡ false
asym laws x y hx hy h = ground (arith, laws.lt-eq-not-le y x hy hx, laws.lt-le x y)

module _ {F A : Type 0} ⦃fl : Float F⦄ where
  Has-insert_scored :
      (p x : A × F) (qs : List (A × F)) → Has x (insert_scored p qs) → (p ≡ x) ⊎ Has x qs
  unfolding insert_scored
  Has-insert_scored p x [] (inl same) = inl same
  Has-insert_scored p x [] (inr later) = absurd later
  Has-insert_scored p x (q ∷ qs) m = elim (Bool-cases (fl.lt p.1 q.1)) [
    | inl higher ↦ elim (rw higher at m) [
      | inl same ↦ inr (inl same)
      | inr later ↦ elim (Has-insert_scored p x qs later) [
        | inl own ↦ inl own
        | inr old ↦ inr (inr old)
      ]
    ]
    | inr here ↦ elim (rw here at m) [ inl same ↦ inl same | inr later ↦ inr later ]
  ]

  insert_scored-Has :
      (p x : A × F) (qs : List (A × F)) → (p ≡ x) ⊎ Has x qs → Has x (insert_scored p qs)
  unfolding insert_scored
  insert_scored-Has p x [] m = m
  insert_scored-Has p x (q ∷ qs) m = elim (Bool-cases (fl.lt p.1 q.1)) [
    | inl higher ↦ rw higher (elim m [
      | inl own ↦ inr (insert_scored-Has p x qs (inl own))
      | inr (inl same) ↦ inl same
      | inr (inr old) ↦ inr (insert_scored-Has p x qs (inr old))
    ])
    | inr here ↦ rw here m
  ]

  pub Has-sorted_scores : (x : A × F) (ps : List (A × F)) → Has x (sorted_scores ps) → Has x ps
  unfolding sorted_scores
  Has-sorted_scores x [] m = absurd m
  Has-sorted_scores x (p ∷ ps) m = elim (Has-insert_scored p x (sorted_scores ps) m) [
    | inl own ↦ inl own
    | inr old ↦ inr (Has-sorted_scores x ps old)
  ]

  pub sorted_scores-Has : (x : A × F) (ps : List (A × F)) → Has x ps → Has x (sorted_scores ps)
  unfolding sorted_scores
  sorted_scores-Has x [] m = absurd m
  sorted_scores-Has x (p ∷ ps) (inl own) = insert_scored-Has p x (sorted_scores ps) (inl own)
  sorted_scores-Has x (p ∷ ps) (inr old) =
      insert_scored-Has p x (sorted_scores ps) (inr (sorted_scores-Has x ps old))

  length-insert_scored :
      (p : A × F) (qs : List (A × F)) → length (insert_scored p qs) ≡ suc (length qs)
  unfolding insert_scored
  length-insert_scored p [] = refl
  length-insert_scored p (q ∷ qs) = ground (arith, length-insert_scored p qs)

  pub length-sorted_scores : (ps : List (A × F)) → length (sorted_scores ps) ≡ length ps
  unfolding sorted_scores
  length-sorted_scores [] = refl
  length-sorted_scores (p ∷ ps) =
      length-insert_scored p (sorted_scores ps) ∙ ap suc (length-sorted_scores ps)

  -- no element is below a later one
  abbrev pub IsFalling : List (A × F) → Type 0
  IsFalling [] = Unit
  IsFalling (p ∷ ps) = All (λ q. fl.lt p.1 q.1 ≡ false) ps × IsFalling ps

  -- an element of a falling list is among the first places, or below none of them
  pub take-unbeaten :
      (n : ℕ) (ps : List (A × F)) (x : A × F)
      → IsFalling ps
      → Has x ps
      → Has x (take n ps) ⊎ All (λ p. fl.lt p.1 x.1 ≡ false) (take n ps)
  take-unbeaten zero ps x falls m = inr tt
  take-unbeaten (suc n) [] x falls m = absurd m
  take-unbeaten (suc n) (p ∷ ps) x falls (inl same) = inl (inl same)
  take-unbeaten (suc n) (p ∷ ps) x (above, falls) (inr later) =
      elim (take-unbeaten n ps x falls later) [
        | inl first ↦ inl (inr first)
        | inr below ↦ inr (All-at (λ q. fl.lt p.1 q.1 ≡ false) ps x above later, below)
      ]

  insert_scored-All :
      (P : A × F → Type 0) (p : A × F) (qs : List (A × F))
      → P p
      → All P qs
      → All P (insert_scored p qs)
  unfolding insert_scored
  insert_scored-All P p [] h hs = (h, tt)
  insert_scored-All P p (q ∷ qs) h (k, ks) = elim (Bool-cases (fl.lt p.1 q.1)) [
    | inl higher ↦ rw higher (k, insert_scored-All P p qs h ks)
    | inr here ↦ rw here (h, (k, ks))
  ]

  module _ (laws : IsOrdered F) where
    All-above :
        (p q : A × F) (qs : List (A × F))
        → IsNumber p.1
        → IsNumber q.1
        → All (λ x. IsNumber x.1) qs
        → fl.lt p.1 q.1 ≡ false
        → All (λ z. fl.lt q.1 z.1 ≡ false) qs
        → All (λ z. fl.lt p.1 z.1 ≡ false) qs
    All-above p q [] hp hq hs h above = tt
    All-above p q (z ∷ qs) hp hq (hz, hs) h (a, above) =
        (unbeaten_trans laws p.1 q.1 z.1 hp hq hz h a, All-above p q qs hp hq hs h above)

    insert_scored-IsFalling :
        (p : A × F) (qs : List (A × F))
        → IsNumber p.1
        → All (λ x. IsNumber x.1) qs
        → IsFalling qs
        → IsFalling (insert_scored p qs)
    unfolding insert_scored
    insert_scored-IsFalling p [] hp hs falls = (tt, tt)
    insert_scored-IsFalling p (q ∷ qs) hp (hq, hs) (above, falls) =
        elim (Bool-cases (fl.lt p.1 q.1)) [
          | inl higher ↦ rw higher (
            insert_scored-All (λ z. fl.lt q.1 z.1 ≡ false) p qs (asym laws p.1 q.1 hp hq higher)
                above,
            insert_scored-IsFalling p qs hp hs falls,
          )
          | inr here ↦ rw here ((here, All-above p q qs hp hq hs here above), (above, falls))
        ]

    pub sorted_scores-IsFalling :
        (ps : List (A × F))
        → All (λ x. IsNumber x.1) ps
        → IsFalling (sorted_scores ps) × All (λ x. IsNumber x.1) (sorted_scores ps)
    unfolding sorted_scores
    sorted_scores-IsFalling [] hs = (tt, tt)
    sorted_scores-IsFalling (p ∷ ps) (h, hs) =
        let (falls, numbers) = sorted_scores-IsFalling ps hs in
        (
          insert_scored-IsFalling p (sorted_scores ps) h numbers falls,
          insert_scored-All (λ x. IsNumber x.1) p (sorted_scores ps) h numbers,
        )
