-- ===== src/Float/Fixed.antt =====
-- A `Float` to run the models on: integers in ten-thousandths, which meet the laws.
use Prim.Native.String
use sentinellm.Prelude.{
  zero, ◌%◌, String, none, some, [], ◌∷◌, get_elem?, ℕ, suc, ◌+◌, ◌-◌, ◌*◌, ◌/◌, ◌^◌, ◌≤◌, ◌<◌, ◌≡◌,
  ap, Bool, true, arith, ltb, leb, eqb, if◌then◌else◌,
}
use native.Mathlib.Nat.{zero-div, mul_comm, mul-div_left}
use sentinellm.Float.{Float, IsOrdered}

-- `negsuc n` is -(n + 1).
pub data ℤ : Type 0 where
  pos : ℕ → ℤ
  negsuc : ℕ → ℤ

abbrev pub pos_part : ℤ → ℕ
pos_part (pos n) = n
pos_part (negsuc n) = 0

abbrev pub neg_part : ℤ → ℕ
neg_part (pos n) = 0
neg_part (negsuc n) = suc n

-- a - b, as an integer.
abbrev pub sub_ℕ : ℕ → ℕ → ℤ
sub_ℕ a b = if leb b a then pos (a - b) else negsuc (b - a - 1)

abbrev pub le_ℤ : ℤ → ℤ → Bool
le_ℤ a b = leb (pos_part a + neg_part b) (pos_part b + neg_part a)

abbrev pub lt_ℤ : ℤ → ℤ → Bool
lt_ℤ a b = ltb (pos_part a + neg_part b) (pos_part b + neg_part a)

abbrev pub eq_ℤ : ℤ → ℤ → Bool
eq_ℤ a b = eqb (pos_part a + neg_part b) (pos_part b + neg_part a)

abbrev pub neg_ℤ : ℤ → ℤ
neg_ℤ a = sub_ℕ (neg_part a) (pos_part a)

-- The product of the magnitudes by `f`, with the sign of the product.
abbrev pub signed : (ℕ → ℕ → ℕ) → ℤ → ℤ → ℤ
signed f (pos a) (pos b) = pos (f a b)
signed f (pos a) (negsuc b) = sub_ℕ 0 (f a (suc b))
signed f (negsuc a) (pos b) = sub_ℕ 0 (f (suc a) b)
signed f (negsuc a) (negsuc b) = pos (f (suc a) (suc b))

-- Newton's steps down to the integer square root of `n`.
abbrev pub root_from : ℕ → ℕ → ℕ → ℕ
root_from zero n x = x
root_from (suc fuel) n x =
    let y = (x + n / x) / 2 in let rest = root_from fuel n y in if ltb y x then rest else x

abbrev pub root : ℕ → ℕ
root n = if eqb n 0 then 0 else root_from 40 n n

abbrev pub digit : ℕ → String
digit n =
    elim (get_elem? {A = String} ("0" ∷ "1" ∷ "2" ∷ "3" ∷ "4" ∷ "5" ∷ "6" ∷ "7" ∷ "8" ∷ "9" ∷ [])
      n) [ none ↦ "?" | some d ↦ d ]

-- up to 999 percent, the part after the point cut off
abbrev pub percent_text : ℕ → String
percent_text n =
    String.◌++◌ (digit (n / 100 % 10)) (String.◌++◌ (digit (n / 10 % 10)) (digit (n % 10)))

-- Rounding keeps all four digits, so `round` is the identity.
instance abbrev pub fixed_float : Float ℤ
fixed_float = record {
  decimal = λ m k. pos (m * 10_000 / 10 ^ k);
  of_nat = λ n. pos (n * 10_000);
  lt = lt_ℤ;
  le = le_ℤ;
  eq = eq_ℤ;
  neg = neg_ℤ;
  plus = λ a b. sub_ℕ (pos_part a + pos_part b) (neg_part a + neg_part b);
  minus = λ a b. sub_ℕ (pos_part a + neg_part b) (neg_part a + pos_part b);
  times = signed (λ a b. a * b / 10_000);
  over = signed (λ a b. a * 10_000 / b);
  round = λ a digits. a;
  truncate = λ a. pos_part a / 10_000;
  sqrt = λ a. pos (root (pos_part a * 10_000));
  percent = λ a. percent_text (pos_part a / 100);
}

div_mono : (a b d : ℕ) → a ≤ b → a / d ≤ b / d
div_mono a b d h = grind arith

decimal_zero_lem : (k : ℕ) → 0 * 10_000 / 10 ^ k ≡ 0
decimal_zero_lem k = zero-div (10 ^ k)

neg_lt_lem : (x y : ℤ) → lt_ℤ (neg_ℤ x) (neg_ℤ y) ≡ lt_ℤ y x
neg_lt_lem x y = ground arith

over_mono_lem :
    (x y : ℤ) (d : ℕ)
    → le_ℤ x y ≡ true
    → le_ℤ (signed (λ a b. a * 10_000 / b) x (pos d)) (signed (λ a b. a * 10_000 / b) y (pos d))
      ≡ true
over_mono_lem (pos x) (pos y) d h = ground (arith, div_mono (x * 10_000) (y * 10_000) d)
over_mono_lem (pos x) (negsuc y) d h = ground arith
over_mono_lem (negsuc x) (pos y) d h = ground arith
over_mono_lem (negsuc x) (negsuc y) d h =
    ground (arith, div_mono (suc y * 10_000) (suc x * 10_000) d)

over_self_lem : (d : ℕ) → 0 < d → d * 10_000 / d ≡ 10_000
over_self_lem d h = rw mul_comm (mul-div_left 10_000 h)

pub Fixed-IsOrdered : IsOrdered ℤ
Fixed-IsOrdered = record {
  le_self = λ x y h. ground arith;
  le_trans = λ x y z h g. ground arith;
  lt-le = λ x y h. ground arith;
  lt-eq-not-le = λ x y h g. ground arith;
  eq-le = λ x y. ground arith;
  decimal_mono = λ m n k h. ground (arith, div_mono (m * 10_000) (n * 10_000) (10 ^ k));
  decimal_zero = λ k. ap pos (decimal_zero_lem k);
  plus_nonneg = λ x y h g. ground arith;
  neg-lt = neg_lt_lem;
  over_mono = λ x y k h. over_mono_lem x y (suc k * 10_000 / 10 ^ 0) h;
  zero-over = λ k. ap pos (zero-div (suc k * 10_000 / 10 ^ 0));
  round_mono = λ x y k h. h;
  round_whole = λ n k. λ i. pos (n * 10_000 / 10 ^ 0);
  over_self = λ k. ap pos (over_self_lem (suc k * 10_000 / 10 ^ 0) (omega arith));
}
