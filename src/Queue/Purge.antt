-- ===== src/Queue/Purge.antt =====
-- `purgequeue` of src/queue.c: the search stops at the first occurrence, which is taken out.
use os_to_read.Queue.Refine.{Holds, remove_at_refines}
use os_to_read.Base.{
  subst, ℕ, ◌≡◌, refl, ap, sym, ◌∙◌, Option, none, some, List, [], ◌∷◌, ◌++◌, arith, length, get_or,
  if◌then◌else◌, ◌==◌, true, false, map, Bool-cases, inl, inr, Option-cases,
}
use os_to_read.Queue.{Queue, purgequeue, remove_at, find_from, purge_found}
use os_to_read.Queue.Laws.{index_of, find_from-index_of}

-- The first process that is `p`, taken out of a list.
unfoldable pub erase : ℕ → List ℕ → List ℕ
erase p [] = []
erase p (x ∷ l) = if x == p then l else x ∷ erase p l

unfoldable pub found : ℕ → List ℕ → Option ℕ
found p [] = none
found p (x ∷ l) = if x == p then some x else found p l

-- Where the search stops, the list falls into the part before, the process and the part behind.
record Split (p : ℕ) (l : List ℕ) (i : ℕ) : Type 0 where
  before : List ℕ
  behind : List ℕ
  whole : l ≡ before ++ (p ∷ behind)
  position : length before ≡ i
  erased : erase p l ≡ before ++ behind
  hit : found p l ≡ some p

index_of-Split : (p : ℕ) (l : List ℕ) {i : ℕ} → index_of p l ≡ some i → Split p l i
unfolding index_of erase found
index_of-Split p [] e = absurd (cc)
index_of-Split p (x ∷ l) {i} e = elim (Bool-cases (x == p)) [
  | inl here ↦
      let same : x ≡ p = ground arith in
      record {
        before = [];
        behind = l;
        whole = rw same refl;
        position = ground arith;
        erased = rw here refl;
        hit = rw (here, same) refl;
      }
  | inr away ↦ elim (Option-cases (index_of p l)) [
    | inl missing ↦ absurd (ground arith)
    | inr (j, later) ↦
        let s : Split p l j = index_of-Split p l later in
        record {
          before = x ∷ s.before;
          behind = s.behind;
          whole = ap (λ t. x ∷ t) s.whole;
          position = ground (arith, s.position);
          erased = rw away (ap (λ t. x ∷ t) s.erased);
          hit = rw away s.hit;
        }
  ]
]

found-none : (p : ℕ) (l : List ℕ) → index_of p l ≡ none → (erase p l ≡ l) × (found p l ≡ none)
unfolding index_of erase found
found-none p [] e = (refl, refl)
found-none p (x ∷ l) e = ground (arith, found-none p l)

purge_lem :
    (q : Queue) (p : ℕ)
    → purgequeue q (some p)
      ≡ (if q.size == 0 then (none, q) else purge_found q (find_from q.size 0 p q.proc))
unfolding purgequeue
purge_lem q p = refl

purge_index :
    {q : Queue} (p : ℕ) (l : List ℕ) → Holds q l → find_from q.size 0 p q.proc ≡ index_of p l
purge_index {q} p l h = rw (h.count, h.split) (find_from-index_of p l h.rest)

get_or-cells :
    (xs ys : List ℕ) (x : ℕ) (r : List (Option ℕ))
    → get_or (map some (xs ++ (x ∷ ys)) ++ r) (length xs) none ≡ some x
get_or-cells [] ys x r = refl
get_or-cells (y ∷ xs) ys x r = get_or-cells xs ys x r

hit_refines :
    {q : Queue} (p : ℕ) (l : List ℕ) {i : ℕ}
    → Split p l i
    → Holds q l
    → (get_or q.proc i none ≡ found p l) × Holds (remove_at i q) (erase p l)
hit_refines {q} p l s h =
    let h' : Holds q (s.before ++ (p ∷ s.behind)) = subst (Holds q) s.whole h in
    rw (← s.position, s.erased, s.hit)
      (
        ap (λ t. get_or t (length s.before) none) h'.split
            ∙ get_or-cells s.before s.behind p h'.rest,
        remove_at_refines s.before s.behind p h',
      )

-- `purgequeue` returns `p` and takes its first occurrence out, or returns NULL and changes nothing.
pub purgequeue_refines :
    {q : Queue} (p : ℕ) (l : List ℕ)
    → Holds q l
    → ((purgequeue q (some p)).0 ≡ found p l) × Holds (purgequeue q (some p)).1 (erase p l)
unfolding purge_found
purgequeue_refines {q} p [] h =
    let none_left : (q.size == 0) ≡ true = ground (arith, h.count) in
    rw (purge_lem q p, none_left) (unfold found erase in (refl, h))
purgequeue_refines {q} p (x ∷ l) h =
    let nonempty : (q.size == 0) ≡ false = ground (arith, h.count) in
    rw (purge_lem q p, nonempty, purge_index p (x ∷ l) h)
      (elim (Option-cases (index_of p (x ∷ l))) [
        | inl missing ↦
            let (same, nothing) = found-none p (x ∷ l) missing in
            rw missing (sym nothing, subst (Holds q) (sym same) h)
        | inr (i, here) ↦ rw here (hit_refines p (x ∷ l) (index_of-Split p (x ∷ l) here) h)
      ])
