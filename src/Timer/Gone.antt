-- ===== src/Timer/Gone.antt =====
-- How many devices have finished.
use os_to_read.Base.{
  ℕ, zero, suc, ◌+◌, ◌≤◌, ◌≡◌, refl, Bool, true, false, none, some, List, [], ◌∷◌, get_elem?, set,
  length, arith, ap,
}
use os_to_read.Timer.{Device}

abbrev pub fsh_of : Bool → ℕ
fsh_of true = 1
fsh_of false = 0

-- How many of the first `i` devices have finished.
unfoldable pub gone : List Device → ℕ → ℕ
gone [] i = 0
gone (d ∷ l) zero = 0
gone (d ∷ l) (suc i) = fsh_of d.fsh + gone l i

pub gone-set :
    (l : List Device) (i j : ℕ) (d d' : Device)
    → get_elem? l j ≡ some d
    → fsh_of d.fsh ≤ fsh_of d'.fsh
    → gone l i ≤ gone (set l j d') i
unfolding gone
gone-set [] i j d d' e h = omega arith
gone-set (x ∷ l) zero zero d d' e h = omega arith
gone-set (x ∷ l) zero (suc j) d d' e h = omega arith
gone-set (x ∷ l) (suc i) zero d d' e h =
    let same : x ≡ d = cc in omega (arith, ap (λ (y : Device). fsh_of y.fsh) same, h)
gone-set (x ∷ l) (suc i) (suc j) d d' e h = omega (arith, gone-set l i j d d' e h)

pub gone-suc :
    (l : List Device) (i : ℕ) (d : Device)
    → get_elem? l i ≡ some d
    → gone l (suc i) ≡ gone l i + fsh_of d.fsh
unfolding gone
gone-suc [] i d e = absurd (cc e)
gone-suc (x ∷ l) zero d e =
    let same : x ≡ d = cc in omega (arith, gone-zero l, ap (λ (y : Device). fsh_of y.fsh) same)
  where
    gone-zero : (l : List Device) → gone l 0 ≡ 0
    gone-zero [] = refl
    gone-zero (y ∷ l) = refl
gone-suc (x ∷ l) (suc i) d e = omega (arith, gone-suc l i d e)

pub out_of_range : (l : List Device) (i : ℕ) → get_elem? l i ≡ none → length l ≤ i
out_of_range [] i e = omega arith
out_of_range (x ∷ l) zero e = absurd (cc e)
out_of_range (x ∷ l) (suc i) e = omega (arith, out_of_range l i e)

pub gone_le : (l : List Device) (i : ℕ) → gone l i ≤ length l
unfolding gone
gone_le [] i = omega arith
gone_le (d ∷ l) zero = omega arith
gone_le (d ∷ l) (suc i) = omega (arith, gone_le l i, one d.fsh)
  where
    one : (b : Bool) → fsh_of b ≤ 1
    one true = omega arith
    one false = omega arith
