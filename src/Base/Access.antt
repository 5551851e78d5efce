-- ===== src/Base/Access.antt =====
-- How a C function ends: with 0 and what goes through its pointers, with -1, or with an access outside
-- an array, through NULL or through a pointer that was never set.
use mathlib.Core.Path.{◌≡◌, refl}

pub data Access {ℓ} (A : Type ℓ) : Type ℓ where
  ok : A → Access A
  err : Access A
  fault : Access A

infixl 5 ◌>>=◌
abbrev pub ◌>>=◌ {ℓ κ} : {A : Type ℓ} {B : Type κ} → Access A → (A → Access B) → Access B
ok a >>= f = f a
err >>= f = err
fault >>= f = fault

-- A result that, if there is one, has the property.
abbrev pub Holds {ℓ κ} : {A : Type ℓ} → (A → Type κ) → Access A → Type κ
Holds P (ok a) = P a
Holds P err = Unit
Holds P fault = Unit

pub Holds-bind :
    {A B : Type 0} (P : A → Type 0) (Q : B → Type 0) (r : Access A) (f : A → Access B)
    → Holds P r
    → ((a : A) → P a → Holds Q (f a))
    → Holds Q (r >>= f)
Holds-bind P Q (ok a) f h k = k a h
Holds-bind P Q err f h k = tt
Holds-bind P Q fault f h k = tt

pub Holds-map :
    {A : Type 0} (P Q : A → Type 0) (r : Access A) → Holds P r → ((a : A) → P a → Q a) → Holds Q r
Holds-map P Q (ok a) h k = k a h
Holds-map P Q err h k = tt
Holds-map P Q fault h k = tt

pub Holds-self : {A : Type 0} (r : Access A) → Holds (λ a. r ≡ ok a) r
Holds-self (ok a) = refl
Holds-self err = tt
Holds-self fault = tt
