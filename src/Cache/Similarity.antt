-- ===== src/Cache/Similarity.antt =====
-- src/sentinellm/embeddings/similarity.py
use sentinellm.Prelude.{
  Bool, true, false, not, ◌||◌, List, [], ◌∷◌, map, length, eqb, if◌then◌else◌,
}
use sentinellm.Float.{Float, fsum, fmin, fmax}

abbrev pub is_empty : {A : Type 0} → List A → Bool
is_empty [] = true
is_empty (x ∷ xs) = false

module _ {F : Type 0} ⦃fl : Float F⦄ where
  open fl use {decimal, eq, neg, times, over, sqrt}

  -- the products of two vectors, place by place; the callers pass vectors of one length
  unfoldable pub products : List F → List F → List F
  products [] ys = []
  products (x ∷ xs) [] = []
  products (x ∷ xs) (y ∷ ys) = times x y ∷ products xs ys

  unfoldable pub norm : List F → F
  unfolding products fsum
  norm a = sqrt (fsum (products a a))

  -- kept between -1 and 1
  unfoldable pub clamp : F → F
  clamp x = fmax (neg (decimal 1 0)) (fmin (decimal 1 0) x)

  unfoldable pub cosine_similarity : List F → List F → F
  unfolding norm clamp
  cosine_similarity a b =
      if is_empty a || is_empty b || not (eqb (length a) (length b))
      then decimal 0 0
      else if eq (norm a) (decimal 0 0) || eq (norm b) (decimal 0 0)
      then decimal 0 0
      else clamp (over (fsum (products a b)) (times (norm a) (norm b)))

  -- `normalized`: the unit vector, or a vector without length as it is
  unfoldable pub normalized : List F → List F
  unfolding norm
  normalized a = if eq (norm a) (decimal 0 0) then a else map (λ x. over x (norm a)) a

  -- `dot`
  unfoldable pub dot : List F → List F → F
  unfolding products
  dot a b = if eqb (length a) (length b) then fsum (products a b) else decimal 0 0
