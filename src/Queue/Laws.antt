-- ===== src/Queue/Laws.antt =====
-- The shifting and searching loops of src/queue.c on arrays that are given by their parts.
use mathlib.Core.Option
use os_to_read.Base.{
  Bool-cases, inl, inr, ℕ, zero, suc, ◌≡◌, refl, ap, ◌∙◌, Option, none, some, List, [], ◌∷◌, ◌++◌,
  length, get_or, set, if◌then◌else◌, ◌==◌, map,
}
use os_to_read.Queue.{shift_up, shift_down, points_to, find_from}

-- One round of the upward shift on a longer array is a round on its tail.
shift_up-cons :
    (n : ℕ) (y : Option ℕ) (a : List (Option ℕ))
    → shift_up (suc n) (y ∷ a) ≡ y ∷ set (shift_up n a) 0 y
unfolding shift_up
shift_up-cons zero y a = refl
shift_up-cons (suc n) y a = shift_up-cons n y (set a (suc n) (get_or a n none))

set-set_zero : (a : List (Option ℕ)) (x y : Option ℕ) → set (set a 0 x) 0 y ≡ set a 0 y
set-set_zero [] x y = refl
set-set_zero (z ∷ a) x y = refl

-- Cells `0 … n - 1` move up by one into the free cell `n`, and cell 0 takes the new pointer.
pub shift_up-append :
    (xs rest : List (Option ℕ)) (z v : Option ℕ)
    → set (shift_up (length xs) (xs ++ (z ∷ rest))) 0 v ≡ v ∷ (xs ++ rest)
unfolding shift_up
shift_up-append [] rest z v = refl
shift_up-append (x ∷ xs) rest z v =
    ap (λ t. set t 0 v) (shift_up-cons (length xs) x (xs ++ (z ∷ rest)))
    ∙ ap (λ t. v ∷ t) (shift_up-append xs rest z x)

-- The downward shift leaves the cells below its start alone.
pub shift_down-cons :
    (n i : ℕ) (y : Option ℕ) (a : List (Option ℕ))
    → shift_down n (suc i) (y ∷ a) ≡ y ∷ shift_down n i a
unfolding shift_down
shift_down-cons zero i y a = refl
shift_down-cons (suc n) i y a = shift_down-cons n (suc i) y (set a i (get_or a (suc i) none))

-- What the cell behind the shifted ones keeps.
pub last : Option ℕ → List (Option ℕ) → Option ℕ
last x [] = x
last x (y ∷ ys) = last y ys

shift_down-zero :
    (ys rest : List (Option ℕ)) (x : Option ℕ)
    → shift_down (length ys) 0 (x ∷ (ys ++ rest)) ≡ ys ++ (last x ys ∷ rest)
unfolding shift_down last
shift_down-zero [] rest x = refl
shift_down-zero (y ∷ ys) rest x =
    shift_down-cons (length ys) 0 y (y ∷ (ys ++ rest)) ∙ ap (λ t. y ∷ t) (shift_down-zero ys rest y)

-- The pointer `x` behind `pre` is overwritten by those that follow it.
pub shift_down-append :
    (pre ys rest : List (Option ℕ)) (x : Option ℕ)
    → shift_down (length ys) (length pre) (pre ++ (x ∷ (ys ++ rest)))
      ≡ pre ++ (ys ++ (last x ys ∷ rest))
shift_down-append [] ys rest x = shift_down-zero ys rest x
shift_down-append (y ∷ pre) ys rest x =
    shift_down-cons (length ys) (length pre) y (pre ++ (x ∷ (ys ++ rest)))
    ∙ ap (λ t. y ∷ t) (shift_down-append pre ys rest x)

-- The search on a longer array.
find_from-cons :
    (n i p : ℕ) (y : Option ℕ) (a : List (Option ℕ))
    → find_from n (suc i) p (y ∷ a) ≡ Option.map suc (find_from n i p a)
unfolding find_from
find_from-cons zero i p y a = refl
find_from-cons (suc n) i p y a = elim (Bool-cases (points_to p (get_or a i none))) [
  | inl e ↦ rw e refl
  | inr e ↦ rw e (find_from-cons n (suc i) p y a)
]

-- The first index at which a list holds `p`.
unfoldable pub index_of : ℕ → List ℕ → Option ℕ
index_of p [] = none
index_of p (x ∷ l) = if x == p then some 0 else Option.map suc (index_of p l)

-- The search loop over the first cells finds the first index of the list that they hold.
pub find_from-index_of :
    (p : ℕ) (l : List ℕ) (rest : List (Option ℕ))
    → find_from (length l) 0 p (map some l ++ rest) ≡ index_of p l
unfolding find_from index_of points_to
find_from-index_of p [] rest = refl
find_from-index_of p (x ∷ l) rest = elim (Bool-cases (x == p)) [
  | inl e ↦ rw e refl
  | inr e ↦ rw e (
      find_from-cons (length l) 0 p (some x) (map some l ++ rest)
      ∙ ap (Option.map suc) (find_from-index_of p l rest))
]
