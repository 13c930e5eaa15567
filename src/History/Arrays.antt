-- ===== src/History/Arrays.antt =====
-- What `Array.pop` leaves and returns.
use testmerge.Base.{◌≡◌, refl, ap, List, [], ◌∷◌, ◌++◌, length, arith}
use testmerge.History.{pop, last_of}

module _ {ℓ} {A : Type ℓ} where
  pub pop-snoc : (xs : List A) (x : A) → pop (xs ++ x ∷ []) ≡ xs
  unfolding pop
  pop-snoc [] x = refl
  pop-snoc (y ∷ []) x = refl
  pop-snoc (y ∷ z ∷ zs) x = ap (λ ws. y ∷ ws) (pop-snoc (z ∷ zs) x)

  pub last_of-snoc : (x : A) (xs : List A) (y : A) → last_of x (xs ++ y ∷ []) ≡ y
  unfolding last_of
  last_of-snoc x [] y = refl
  last_of-snoc x (z ∷ zs) y = last_of-snoc z zs y

  pub pop-last_of : (x : A) (xs : List A) → pop (x ∷ xs) ++ last_of x xs ∷ [] ≡ x ∷ xs
  unfolding pop last_of
  pop-last_of x [] = refl
  pop-last_of x (y ∷ ys) = ap (λ ws. x ∷ ws) (pop-last_of y ys)

  pub length-pop : (x : A) (xs : List A) → length (pop (x ∷ xs)) ≡ length xs
  unfolding pop
  length-pop x [] = refl
  length-pop x (y ∷ ys) = omega (arith, length-pop y ys)
