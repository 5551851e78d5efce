-- ===== src/Queue/Refine.antt =====
-- src/queue.c against a bounded list of processes: the invariant of the array, and each operation as
-- an operation on the list that it holds.
use os_to_read.Base.{
  ℕ, ◌+◌, ◌-◌, ◌≡◌, refl, ap, sym, ◌∙◌, Option, none, some, List, [], ◌∷◌, ◌++◌, arith, length,
  get_or, set, if◌then◌else◌, ◌==◌, leb, true, false, map, Bool-cases, inl, inr, length-append,
  length-map, replicate,
}
use os_to_read.Queue.{
  Queue, max_queue_size, empty, enqueue, enqueue_front, dequeue, remove_at, shift_up, shift_down,
}
use os_to_read.Queue.Laws.{shift_up-append, shift_down-append, last}

-- The queue's first cells hold the processes of the list `l`, in order, and none of them is NULL.
-- `rest` is the unused part of the array.
pub record Holds (q : Queue) (l : List ℕ) : Type 0 where
  pub rest : List (Option ℕ)
  pub split : q.proc ≡ map some l ++ rest
  pub count : q.size ≡ length l
  pub room : length l + length rest ≡ max_queue_size

abbrev pub unused : Queue
unused = record { proc = replicate max_queue_size none; size = 0 }

-- A fresh queue holds nothing.
pub Holds-unused : Holds unused []
Holds-unused = record {
  rest = replicate max_queue_size none;
  split = refl;
  count = refl;
  room = refl;
}

-- `empty` is the test that the list is empty.
pub empty_iff : {q : Queue} {l : List ℕ} → Holds q l → empty q ≡ (length l == 0)
unfolding empty
empty_iff h = rw h.count refl

-- What the bounded list does.
unfoldable pub push_back : List ℕ → ℕ → List ℕ
push_back l p = if leb max_queue_size (length l) then l else l ++ (p ∷ [])

unfoldable pub push_front : List ℕ → ℕ → List ℕ
push_front l p = if leb max_queue_size (length l) then l else p ∷ l

unfoldable pub head_of : List ℕ → Option ℕ
head_of [] = none
head_of (x ∷ l) = some x

unfoldable pub tail_of : List ℕ → List ℕ
tail_of [] = []
tail_of (x ∷ l) = l

free_cell :
    (l : List ℕ) (rest : List (Option ℕ))
    → length l + length rest ≡ max_queue_size
    → leb max_queue_size (length l) ≡ false
    → (z : Option ℕ) × (rest' : List (Option ℕ)) × (rest ≡ z ∷ rest')
free_cell l [] e full = absurd (ground arith)
free_cell l (z ∷ rest') e full = (z, rest', refl)

-- The cell just behind the processes, and a list that grows into it.
set-end :
    (l : List ℕ) (r : List (Option ℕ)) (z v : Option ℕ)
    → set (map some l ++ (z ∷ r)) (length l) v ≡ map some l ++ (v ∷ r)
set-end [] r z v = refl
set-end (x ∷ l) r z v = ap (λ t. some x ∷ t) (set-end l r z v)

map-some-snoc :
    (l : List ℕ) (p : ℕ) (r : List (Option ℕ))
    → map some (l ++ (p ∷ [])) ++ r ≡ map some l ++ (some p ∷ r)
map-some-snoc [] p r = refl
map-some-snoc (x ∷ l) p r = ap (λ t. some x ∷ t) (map-some-snoc l p r)

enqueue-room :
    {q : Queue} {l : List ℕ} (p : ℕ)
    → Holds q l
    → leb max_queue_size (length l) ≡ false
    → Holds (enqueue q (some p)) (l ++ (p ∷ []))
unfolding enqueue
enqueue-room {q} {l} p h open_ =
    let (z, r, e) = free_cell l h.rest h.room open_ in
    rw (h.count, open_)
      record {
        rest = r;
        split = rw (h.split, e, map-some-snoc l p r) (set-end l r z (some p));
        count = omega (arith, length-append l (p ∷ []), h.count);
        room = omega (arith, length-append l (p ∷ []), h.room, ap length e);
      }

enqueue_full : (q : Queue) (p : ℕ) → leb max_queue_size q.size ≡ true → enqueue q (some p) ≡ q
unfolding enqueue
enqueue_full q p e = rw e refl

-- `enqueue` is `push_back`: at the end below the capacity, and nothing at it.
pub enqueue_refines :
    {q : Queue} {l : List ℕ} (p : ℕ) → Holds q l → Holds (enqueue q (some p)) (push_back l p)
unfolding push_back
enqueue_refines {q} {l} p h = elim (Bool-cases (leb max_queue_size (length l))) [
  | inl full ↦ rw (full, enqueue_full q p (rw h.count full)) h
  | inr open_ ↦ rw open_ (enqueue-room p h open_)
]

shift_up-end :
    (l : List ℕ) (r : List (Option ℕ)) (z v : Option ℕ)
    → set (shift_up (length l) (map some l ++ (z ∷ r))) 0 v ≡ v ∷ (map some l ++ r)
shift_up-end l r z v = rw (← length-map l (λ (x : ℕ). some x)) (shift_up-append (map some l) r z v)

enqueue_front-room :
    {q : Queue} {l : List ℕ} (p : ℕ)
    → Holds q l
    → leb max_queue_size (length l) ≡ false
    → Holds (enqueue_front q (some p)) (p ∷ l)
unfolding enqueue_front
enqueue_front-room {q} {l} p h open_ =
    let (z, r, e) = free_cell l h.rest h.room open_ in
    rw (h.count, open_)
      record {
        rest = r;
        split = rw (h.split, e) (shift_up-end l r z (some p));
        count = omega (arith, h.count);
        room = omega (arith, h.room, ap length e);
      }

enqueue_front_full :
    (q : Queue) (p : ℕ) → leb max_queue_size q.size ≡ true → enqueue_front q (some p) ≡ q
unfolding enqueue_front
enqueue_front_full q p e = rw e refl

-- `enqueue_front` is `push_front`.
pub enqueue_front_refines :
    {q : Queue} {l : List ℕ} (p : ℕ) → Holds q l → Holds (enqueue_front q (some p)) (push_front l p)
unfolding push_front
enqueue_front_refines {q} {l} p h = elim (Bool-cases (leb max_queue_size (length l))) [
  | inl full ↦ rw (full, enqueue_front_full q p (rw h.count full)) h
  | inr open_ ↦ rw open_ (enqueue_front-room p h open_)
]

map-some-split :
    (xs ys : List ℕ) (r : List (Option ℕ))
    → map some (xs ++ ys) ++ r ≡ map some xs ++ (map some ys ++ r)
map-some-split [] ys r = refl
map-some-split (x ∷ xs) ys r = ap (λ t. some x ∷ t) (map-some-split xs ys r)

shift_down-cells :
    (xs ys : List ℕ) (x : ℕ) (r : List (Option ℕ))
    → shift_down (length ys) (length xs) (map some (xs ++ (x ∷ ys)) ++ r)
      ≡ map some (xs ++ ys) ++ (last (some x) (map some ys) ∷ r)
shift_down-cells xs ys x r =
    ap (shift_down (length ys) (length xs)) (map-some-split xs (x ∷ ys) r)
    ∙ rw (← length-map xs (λ (a : ℕ). some a), ← length-map ys (λ (a : ℕ). some a))
        (shift_down-append (map some xs) (map some ys) r (some x))
    ∙ sym (map-some-split xs ys (last (some x) (map some ys) ∷ r))

remove_cells :
    (xs ys : List ℕ) (x : ℕ) (r : List (Option ℕ))
    → set
        (shift_down (length ys) (length xs) (map some (xs ++ (x ∷ ys)) ++ r))
        (length (xs ++ ys))
        none
      ≡ map some (xs ++ ys) ++ (none ∷ r)
remove_cells xs ys x r =
    ap (λ t. set t (length (xs ++ ys)) none) (shift_down-cells xs ys x r)
    ∙ set-end (xs ++ ys) r (last (some x) (map some ys)) none

-- Removing the process behind `xs` keeps the order of the others.
pub remove_at_refines :
    {q : Queue} (xs ys : List ℕ) (x : ℕ)
    → Holds q (xs ++ (x ∷ ys))
    → Holds (remove_at (length xs) q) (xs ++ ys)
unfolding remove_at
remove_at_refines {q} xs ys x h =
    let rounds : q.size - 1 - length xs ≡ length ys =
      omega (arith, h.count, length-append xs (x ∷ ys)) in
    let cells : q.size - 1 ≡ length (xs ++ ys) =
      omega (arith, h.count, length-append xs (x ∷ ys), length-append xs ys) in
    record {
      rest = none ∷ h.rest;
      split = rw (h.split, rounds, cells) (remove_cells xs ys x h.rest);
      count = omega (arith, h.count, length-append xs (x ∷ ys), length-append xs ys);
      room = omega (arith, h.room, length-append xs (x ∷ ys), length-append xs ys);
    }

dequeue-none : (q : Queue) → (q.size == 0) ≡ true → dequeue q ≡ (none, q)
unfolding dequeue
dequeue-none q e = rw e refl

dequeue-some :
    (q : Queue) → (q.size == 0) ≡ false → dequeue q ≡ (get_or q.proc 0 none, remove_at 0 q)
unfolding dequeue
dequeue-some q e = rw e refl

-- `dequeue` returns the process at the front, or NULL for an empty queue, and leaves the others.
pub dequeue_refines :
    {q : Queue} (l : List ℕ)
    → Holds q l
    → ((dequeue q).0 ≡ head_of l) × Holds (dequeue q).1 (tail_of l)
unfolding head_of tail_of
dequeue_refines {q} [] h = rw (dequeue-none q (ground (arith, h.count))) (refl, h)
dequeue_refines {q} (x ∷ l) h =
    rw (dequeue-some q (ground (arith, h.count)))
      (ap (λ t. get_or t 0 none) h.split, remove_at_refines [] l x h)
