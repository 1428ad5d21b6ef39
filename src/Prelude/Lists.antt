-- ===== src/Prelude/Lists.antt =====
-- Lists measured by native numbers, Boolean filters (the `WHERE` of a query) and predicates.
use Prim.Native.Nat.{ℕ, suc, zero, ◌+◌, ◌≤◌}
use mathlib.Core.Path.{◌≡◌, refl, subst, ap}
use mathlib.Core.Logic.{◌⊎◌, inl, inr}
use mathlib.Core.Bool.{Bool, true, false, ◌||◌}
use mathlib.Core.List.{List, [], ◌∷◌, ◌++◌, map}
use mathlib.Core.Option.{Option, none, some}
use native.Mathlib.Omega.{arith}
use sentinellm.Prelude.Tests.{if◌then◌else◌, Bool-cases}

module _ {ℓ} {A : Type ℓ} where
  abbrev pub length : List A → ℕ
  length [] = 0
  length (x ∷ xs) = suc (length xs)

  abbrev pub take : ℕ → List A → List A
  take zero xs = []
  take (suc n) [] = []
  take (suc n) (x ∷ xs) = x ∷ take n xs

  abbrev pub get_elem? : List A → ℕ → Option A
  get_elem? [] i = none
  get_elem? (x ∷ xs) zero = some x
  get_elem? (x ∷ xs) (suc i) = get_elem? xs i

  -- The elements that pass a test, in order.
  abbrev pub keep : (A → Bool) → List A → List A
  keep p [] = []
  keep p (x ∷ xs) = let rest = keep p xs in if p x then x ∷ rest else rest

  abbrev pub any : (A → Bool) → List A → Bool
  any p [] = false
  any p (x ∷ xs) = p x || any p xs

  -- The first element that passes a test.
  abbrev pub find : (A → Bool) → List A → Option A
  find p [] = none
  find p (x ∷ xs) = let rest = find p xs in if p x then some x else rest

  abbrev pub All {κ} : (A → Type κ) → List A → Type κ
  All P [] = Unit
  All P (x ∷ xs) = P x × All P xs

  pub length-append : (xs ys : List A) → length (xs ++ ys) ≡ length xs + length ys
  length-append [] ys = omega arith
  length-append (x ∷ xs) ys = omega (arith, length-append xs ys)

  pub length-keep-le : (p : A → Bool) (xs : List A) → length (keep p xs) ≤ length xs
  length-keep-le p [] = omega arith
  length-keep-le p (x ∷ xs) = ground (arith, length-keep-le p xs)

  pub All-append {κ} : (P : A → Type κ) (xs ys : List A) → All P xs → All P ys → All P (xs ++ ys)
  All-append P [] ys hx hy = hy
  All-append P (x ∷ xs) ys hx hy = (hx.0, All-append P xs ys hx.1 hy)

  pub All-map_of {κ} :
      (P : A → Type κ) (f : A → A) (xs : List A)
      → ((x : A) → P x → P (f x))
      → All P xs
      → All P (map f xs)
  All-map_of P f [] keeps h = tt
  All-map_of P f (x ∷ xs) keeps h = (keeps x h.0, All-map_of P f xs keeps h.1)

  pub find-All {κ} :
      (P : A → Type κ) (p : A → Bool) (xs : List A) (a : A) → All P xs → find p xs ≡ some a → P a
  find-All P p [] a h e = absurd (cc e)
  find-All P p (x ∷ xs) a h e = ground (arith, find-All P p xs a h.1)

module _ {ℓ} {A : Type ℓ} where
  pub keep-append : (p : A → Bool) (xs ys : List A) → keep p (xs ++ ys) ≡ keep p xs ++ keep p ys
  keep-append p [] ys = refl
  keep-append p (x ∷ xs) ys = elim (Bool-cases (p x)) [
    | inl pass ↦ rw (pass, keep-append p xs ys)
    | inr stop ↦ rw (stop, keep-append p xs ys)
  ]

  -- a weaker filter before a stronger one makes no difference
  pub keep-keep :
      (p q : A → Bool) (xs : List A)
      → ((x : A) → p x ≡ true → q x ≡ true)
      → keep p (keep q xs) ≡ keep p xs
  keep-keep p q [] weaker = refl
  keep-keep p q (x ∷ xs) weaker = ground (arith, weaker x, keep-keep p q xs weaker)

  pub All-keep {κ} : (P : A → Type κ) (p : A → Bool) (xs : List A) → All P xs → All P (keep p xs)
  All-keep P p [] h = tt
  All-keep P p (x ∷ xs) (k, ks) = elim (Bool-cases (p x)) [
    | inl pass ↦ rw pass (k, All-keep P p xs ks)
    | inr stop ↦ rw stop (All-keep P p xs ks)
  ]

module _ {ℓ} {A : Type ℓ} where
  pub take_all : (n : ℕ) (xs : List A) → length xs ≤ n → take n xs ≡ xs
  take_all zero [] h = refl
  take_all zero (x ∷ xs) h = absurd (omega arith)
  take_all (suc n) [] h = refl
  take_all (suc n) (x ∷ xs) h = ap (λ ys. x ∷ ys) (take_all n xs (omega arith))

  pub any-append : (p : A → Bool) (xs ys : List A) → any p xs ≡ true → any p (xs ++ ys) ≡ true
  any-append p [] ys h = absurd (cc h)
  any-append p (x ∷ xs) ys h = ground (arith, any-append p xs ys)

-- Membership, with the position kept.
abbrev pub Has : {A : Type 0} → A → List A → Type 0
Has a [] = ⊥
Has a (x ∷ xs) = (x ≡ a) ⊎ Has a xs

pub All-at : {A : Type 0} (P : A → Type 0) (xs : List A) (a : A) → All P xs → Has a xs → P a
All-at P [] a h m = absurd m
All-at P (x ∷ xs) a (k, ks) (inl same) = subst P same k
All-at P (x ∷ xs) a (k, ks) (inr m) = All-at P xs a ks m

pub All-Has : {A : Type 0} (P : A → Type 0) (xs : List A) → ((x : A) → Has x xs → P x) → All P xs
All-Has P [] h = tt
All-Has P (x ∷ xs) h = (h x (inl refl), All-Has P xs (λ y m. h y (inr m)))

module _ {A : Type 0} where
  pub Has-keep : (p : A → Bool) (xs : List A) (a : A) → Has a (keep p xs) → Has a xs × (p a ≡ true)
  Has-keep p [] a h = absurd h
  Has-keep p (x ∷ xs) a h = elim (Bool-cases (p x)) [
    | inl pass ↦ elim (rw pass at h) [
      | inl same ↦ (inl same, rw (← same) pass)
      | inr later ↦ let (m, e) = Has-keep p xs a later in (inr m, e)
    ]
    | inr stop ↦ let (m, e) = Has-keep p xs a (rw stop at h) in (inr m, e)
  ]

  pub keep-Has : (p : A → Bool) (xs : List A) (a : A) → Has a xs → p a ≡ true → Has a (keep p xs)
  keep-Has p [] a h e = absurd h
  keep-Has p (x ∷ xs) a (inl same) e = let pass : p x ≡ true = rw same e in rw pass (inl same)
  keep-Has p (x ∷ xs) a (inr later) e = elim (Bool-cases (p x)) [
    | inl pass ↦ rw pass (inr (keep-Has p xs a later e))
    | inr stop ↦ rw stop (keep-Has p xs a later e)
  ]

  pub Has-take : (n : ℕ) (xs : List A) (a : A) → Has a (take n xs) → Has a xs
  Has-take zero xs a h = absurd h
  Has-take (suc n) [] a h = absurd h
  Has-take (suc n) (x ∷ xs) a (inl same) = inl same
  Has-take (suc n) (x ∷ xs) a (inr later) = inr (Has-take n xs a later)

pub any-find :
    {A : Type 0} (p : A → Bool) (xs : List A) → any p xs ≡ true → (x : A) × (find p xs ≡ some x)
any-find p [] h = absurd (cc h)
any-find p (x ∷ xs) h = elim (Bool-cases (p x)) [
  | inl hit ↦ (x, rw hit)
  | inr miss ↦ rw miss (any-find p xs (rw miss at h))
]
