-- ===== src/Float.antt =====
-- What the program does with a Python `float`: comparisons, arithmetic, decimal literals and
-- `round`. Floating point is no part of the repository, so it is an interface: the models take an
-- instance, and a theorem that needs more than the tests takes the laws `IsOrdered`.
pub mod Fixed
use sentinellm.Prelude.{
  ℕ, String, suc, Bool, true, false, arith, not, ◌&&◌, ◌≡◌, ◌≤◌, if◌then◌else◌, List, [], ◌∷◌,
}

pub record Float (F : Type 0) : Type 0 where
  -- `decimal m k` is the literal m / 10 ^ k: `0.85` is `decimal 85 2`
  pub decimal : ℕ → ℕ → F
  pub of_nat : ℕ → F
  pub lt : F → F → Bool
  pub le : F → F → Bool
  pub eq : F → F → Bool
  pub neg : F → F
  pub plus : F → F → F
  pub minus : F → F → F
  pub times : F → F → F
  pub over : F → F → F
  -- `round(x, digits)`
  pub round : F → ℕ → F
  -- `int(x)`, of a value that is not negative
  pub truncate : F → ℕ
  -- `math.sqrt(x)`
  pub sqrt : F → F
  -- `f"{x:.0%}"`
  pub percent : F → String

module _ {F : Type 0} ⦃fl : Float F⦄ where
  open fl use {lt, le, plus, of_nat}

  -- `min(a, b)` and `max(a, b)` keep the first argument on a tie.
  abbrev pub fmin : F → F → F
  fmin a b = if lt b a then b else a

  abbrev pub fmax : F → F → F
  fmax a b = if lt a b then b else a

  pub sum_from : F → List F → F
  sum_from acc [] = acc
  sum_from acc (x ∷ xs) = sum_from (plus acc x) xs

  -- `sum(xs)`, which starts from the integer 0
  unfoldable pub fsum : List F → F
  unfolding sum_from
  fsum xs = sum_from (of_nat 0) xs

  -- A value that is not NaN.
  abbrev pub IsNumber : F → Type 0
  IsNumber x = le x x ≡ true

-- Documented facts of IEEE 754 comparison and rounding. The order is total only away from NaN.
pub record IsOrdered (F : Type 0) ⦃fl : Float F⦄ : Type 0 where
  pub le_self : (x y : F) → fl.le x y ≡ true → IsNumber x × IsNumber y
  pub le_trans : (x y z : F) → fl.le x y ≡ true → fl.le y z ≡ true → fl.le x z ≡ true
  pub lt-le : (x y : F) → fl.lt x y ≡ true → fl.le x y ≡ true
  pub lt-eq-not-le : (x y : F) → IsNumber x → IsNumber y → fl.lt x y ≡ not (fl.le y x)
  pub eq-le : (x y : F) → fl.eq x y ≡ (fl.le x y && fl.le y x)
  pub decimal_mono : (m n k : ℕ) → m ≤ n → fl.le (fl.decimal m k) (fl.decimal n k) ≡ true
  pub decimal_zero : (k : ℕ) → fl.decimal 0 k ≡ fl.decimal 0 0
  pub plus_nonneg :
      (x y : F)
      → fl.le (fl.decimal 0 0) x ≡ true
      → fl.le (fl.decimal 0 0) y ≡ true
      → fl.le (fl.decimal 0 0) (fl.plus x y) ≡ true
  pub neg-lt : (x y : F) → fl.lt (fl.neg x) (fl.neg y) ≡ fl.lt y x
  pub over_mono :
      (x y : F) (k : ℕ)
      → fl.le x y ≡ true
      → fl.le (fl.over x (fl.decimal (suc k) 0)) (fl.over y (fl.decimal (suc k) 0)) ≡ true
  pub zero-over : (k : ℕ) → fl.over (fl.decimal 0 0) (fl.decimal (suc k) 0) ≡ fl.decimal 0 0
  pub round_mono : (x y : F) (k : ℕ) → fl.le x y ≡ true → fl.le (fl.round x k) (fl.round y k) ≡ true
  pub round_whole : (n k : ℕ) → fl.round (fl.decimal n 0) k ≡ fl.decimal n 0
  pub over_self : (k : ℕ) → fl.over (fl.decimal (suc k) 0) (fl.decimal (suc k) 0) ≡ fl.decimal 1 0

module _ {F : Type 0} ⦃fl : Float F⦄ (laws : IsOrdered F) where
  open laws use {le_trans, lt-eq-not-le}

  -- not less is transitive
  pub unbeaten_trans :
      (x y z : F)
      → IsNumber x
      → IsNumber y
      → IsNumber z
      → fl.lt x y ≡ false
      → fl.lt y z ≡ false
      → fl.lt x z ≡ false
  unbeaten_trans x y z hx hy hz p q = ground (
    arith,
    lt-eq-not-le x y hx hy,
    lt-eq-not-le y z hy hz,
    lt-eq-not-le x z hx hz,
    le_trans z y x,
  )

  -- a number is not less than itself
  pub unbeaten_refl : (x : F) → IsNumber x → fl.lt x x ≡ false
  unbeaten_refl x h = ground (arith, lt-eq-not-le x x h h)
