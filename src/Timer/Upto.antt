-- ===== src/Timer/Upto.antt =====
-- A property of the devices before an index, and another of those from it on.
use os_to_read.Base.{
  ℕ, zero, suc, ◌≡◌, Option, none, some, List, [], ◌∷◌, get_elem?, set, subst, sym, ◌⊎◌, inl, inr,
}
use os_to_read.Timer.{Device}

abbrev pub Upto : (Device → Type 0) → (Device → Type 0) → List Device → ℕ → Type 0
Upto P Q [] i = Unit {0}
Upto P Q (d ∷ l) zero = Q d × Upto P Q l zero
Upto P Q (d ∷ l) (suc i) = P d × Upto P Q l i

same_device : {x d : Device} → ◌≡◌ {A = Option Device} (some x) (some d) → x ≡ d
same_device e = cc

-- The two properties may change together, at another device's step or at a pass of the timer.
module _ (P Q : Device → Type 0) where
  -- What one device does keeps both properties.
  pub Upto-set :
      (l : List Device) (i j : ℕ) (d d' : Device)
      → get_elem? l j ≡ some d
      → (P d → P d')
      → (Q d → Q d')
      → Upto P Q l i
      → Upto P Q (set l j d') i
  Upto-set [] i j d d' e p q u = tt
  Upto-set (x ∷ l) zero zero d d' e p q u = (q (subst Q (same_device e) u.0), u.1)
  Upto-set (x ∷ l) (suc i) zero d d' e p q u = (p (subst P (same_device e) u.0), u.1)
  Upto-set (x ∷ l) zero (suc j) d d' e p q u = (u.0, Upto-set l zero j d d' e p q u.1)
  Upto-set (x ∷ l) (suc i) (suc j) d d' e p q u = (u.0, Upto-set l i j d d' e p q u.1)

  -- The device at the index takes on the first property.
  pub Upto-suc :
      (l : List Device) (i : ℕ) (d d' : Device)
      → get_elem? l i ≡ some d
      → (Q d → P d')
      → Upto P Q l i
      → Upto P Q (set l i d') (suc i)
  Upto-suc [] i d d' e p u = tt
  Upto-suc (x ∷ l) zero d d' e p u = (p (subst Q (same_device e) u.0), u.1)
  Upto-suc (x ∷ l) (suc i) d d' e p u = (u.0, Upto-suc l i d d' e p u.1)

  pub Upto-suc_same :
      (l : List Device) (i : ℕ) (d : Device)
      → get_elem? l i ≡ some d
      → (Q d → P d)
      → Upto P Q l i
      → Upto P Q l (suc i)
  Upto-suc_same [] i d e p u = tt
  Upto-suc_same (x ∷ l) zero d e p u =
      (subst P (sym (same_device e)) (p (subst Q (same_device e) u.0)), u.1)
  Upto-suc_same (x ∷ l) (suc i) d e p u = (u.0, Upto-suc_same l i d e p u.1)

  -- Behind the last device all have the first property, which is then the second one of the next pass.
  pub Upto-end :
      (P' : Device → Type 0) (l : List Device) (i : ℕ)
      → get_elem? l i ≡ none
      → Upto P Q l i
      → Upto P' P l 0
  Upto-end P' [] i e u = tt
  Upto-end P' (x ∷ l) zero e u = absurd (cc e)
  Upto-end P' (x ∷ l) (suc i) e u = (u.0, Upto-end P' l i e u.1)

  pub Upto-get_elem? :
      (l : List Device) (i j : ℕ) (d : Device) → get_elem? l j ≡ some d → Upto P Q l i → P d ⊎ Q d
  Upto-get_elem? [] i j d e u = absurd (cc e)
  Upto-get_elem? (x ∷ l) zero zero d e u = inr (subst Q (same_device e) u.0)
  Upto-get_elem? (x ∷ l) (suc i) zero d e u = inl (subst P (same_device e) u.0)
  Upto-get_elem? (x ∷ l) zero (suc j) d e u = Upto-get_elem? l zero j d e u.1
  Upto-get_elem? (x ∷ l) (suc i) (suc j) d e u = Upto-get_elem? l i j d e u.1

  pub Upto-get_elem?_at :
      (l : List Device) (i : ℕ) (d : Device) → get_elem? l i ≡ some d → Upto P Q l i → Q d
  Upto-get_elem?_at [] i d e u = absurd (cc e)
  Upto-get_elem?_at (x ∷ l) zero d e u = subst Q (same_device e) u.0
  Upto-get_elem?_at (x ∷ l) (suc i) d e u = Upto-get_elem?_at l i d e u.1

-- With nothing before the index the first property is free.
pub Upto-zero : (P P' Q : Device → Type 0) (l : List Device) → Upto P Q l 0 → Upto P' Q l 0
Upto-zero P P' Q [] u = tt
Upto-zero P P' Q (x ∷ l) u = (u.0, Upto-zero P P' Q l u.1)
