-- ===== src/Layout/Model/Binds.antt =====
-- Results of `Option` in the proofs on the layout model.
use mathlib.Core.Path.{subst}
use testmerge.Base.{◌≡◌, refl, ap, Option, none, some}
use testmerge.Layout.Node.{◌>>=◌}

-- What a bind that returns has done.
pub >>=-some {ℓ κ} :
    {A : Type ℓ} {B : Type κ} (o : Option A) (f : A → Option B) {b : B}
    → (o >>= f) ≡ some b
    → (a : A) × (o ≡ some a) × (f a ≡ some b)
>>=-some none f h = cc
>>=-some (some a) f h = (a, refl, h)

-- A result has what the value in it has.
pub some-subst {ℓ κ} : {A : Type ℓ} (P : A → Type κ) (x y : A) → some x ≡ some y → P x → P y
some-subst P x y h p = subst P (cc h) p

pub >>=-none {ℓ κ} :
    {A : Type ℓ} {B : Type κ} {o : Option A} (f : A → Option B) → o ≡ none → (o >>= f) ≡ none
>>=-none f h = ap (λ o. o >>= f) h
