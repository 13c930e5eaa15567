-- ===== src/Base/Sort.antt =====
-- A stable sort by a strict order, as `Array.prototype.sort` gives it for a comparator.
use mathlib.Core.List.{Permᴰ}
use mathlib.Core.List.Permᴰ
use mathlib.Core.Bool.{Bool, true, false}
use mathlib.Core.List.{List, [], ◌∷◌}
use mathlib.Core.Path.{refl}
use testmerge.Base.Tests.{if◌then◌else◌}

module _ {ℓ} {A : Type ℓ} (lt : A → A → Bool) where
  -- Before the first item that is not less.
  unfoldable pub insert_by : A → List A → List A
  insert_by x [] = x ∷ []
  insert_by x (y ∷ ys) = let rest = insert_by x ys in if lt y x then y ∷ rest else x ∷ y ∷ ys

  unfoldable pub sort_by : List A → List A
  unfolding insert_by
  sort_by [] = []
  sort_by (x ∷ xs) = insert_by x (sort_by xs)

  if-Perm :
      (b : Bool) {xs ys zs : List A} → Permᴰ xs zs → Permᴰ ys zs → Permᴰ (if b then xs else ys) zs
  if-Perm true p q = p
  if-Perm false p q = q

  insert_by-Perm : (x : A) (ys : List A) → Permᴰ (insert_by x ys) (x ∷ ys)
  unfolding insert_by
  insert_by-Perm x [] = Permᴰ.refl (x ∷ [])
  insert_by-Perm x (y ∷ ys) =
      if-Perm (lt y x) (Permᴰ.trans (Permᴰ.cons refl (insert_by-Perm x ys)) (Permᴰ.swap refl refl))
        (Permᴰ.refl (x ∷ y ∷ ys))

  pub sort_by-Perm : (xs : List A) → Permᴰ (sort_by xs) xs
  unfolding sort_by
  sort_by-Perm [] = Permᴰ.nil
  sort_by-Perm (x ∷ xs) =
      Permᴰ.trans (insert_by-Perm x (sort_by xs)) (Permᴰ.cons refl (sort_by-Perm xs))
