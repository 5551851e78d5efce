-- ===== src/Queue.antt =====
-- src/queue.c: the bounded array queue of process pointers.
mod Laws
pub mod Refine
pub mod Purge
pub mod Runs
mod Tests
use os_to_read.Base.{
  ℕ, zero, suc, ◌+◌, ◌-◌, Bool, Option, none, some, List, [], ◌∷◌, if◌then◌else◌, leb, ◌==◌, get_or,
  set, replicate,
}

abbrev pub max_queue_size : ℕ
max_queue_size = 50

-- `struct queue_t`. A `struct pcb_t *` is an optional address, NULL being `none`. A `struct queue_t *`
-- argument is the queue itself, since every call in the repository passes the address of one.
pub record Queue : Type 0 where
  pub proc : List (Option ℕ)
  pub size : ℕ

unfoldable pub empty : Queue → Bool
empty q = q.size == 0

unfoldable pub enqueue : Queue → Option ℕ → Queue
enqueue q none = q
enqueue q (some p) =
    if leb max_queue_size q.size
    then q
    else record { proc = set q.proc q.size (some p); size = q.size + 1 }

-- `for (i = n; i > 0; i--) proc[i] = proc[i - 1];`
pub shift_up : ℕ → List (Option ℕ) → List (Option ℕ)
shift_up zero a = a
shift_up (suc i) a = shift_up i (set a (suc i) (get_or a i none))

pub enqueue_front : Queue → Option ℕ → Queue
enqueue_front q none = q
enqueue_front q (some p) =
    if leb max_queue_size q.size
    then q
    else record { proc = set (shift_up q.size q.proc) 0 (some p); size = q.size + 1 }

-- `for (j = i + 1; j < i + 1 + n; j++) proc[j - 1] = proc[j];`
unfoldable pub shift_down : ℕ → ℕ → List (Option ℕ) → List (Option ℕ)
shift_down zero i a = a
shift_down (suc n) i a = shift_down n (suc i) (set a i (get_or a (suc i) none))

-- The cell `i` leaves: the cells behind it move down, and the last one becomes NULL.
unfoldable pub remove_at : ℕ → Queue → Queue
remove_at i q = record {
  proc = set (shift_down (q.size - 1 - i) i q.proc) (q.size - 1) none;
  size = q.size - 1;
}

unfoldable pub dequeue : Queue → Option ℕ × Queue
dequeue q = if q.size == 0 then (none, q) else (get_or q.proc 0 none, remove_at 0 q)

-- Two pointers are the same; a NULL cell is not `p`.
pub points_to : ℕ → Option ℕ → Bool
points_to p none = Bool.false
points_to p (some x) = x == p

-- The search loop, with `n` cells left to look at from cell `i` on.
pub find_from : ℕ → ℕ → ℕ → List (Option ℕ) → Option ℕ
find_from zero i p a = none
find_from (suc n) i p a =
    let rest = find_from n (suc i) p a in if points_to p (get_or a i none) then some i else rest

pub purge_found : Queue → Option ℕ → Option ℕ × Queue
purge_found q none = (none, q)
purge_found q (some i) = (get_or q.proc i none, remove_at i q)

pub purgequeue : Queue → Option ℕ → Option ℕ × Queue
purgequeue q none = (none, q)
purgequeue q (some p) =
    if q.size == 0 then (none, q) else purge_found q (find_from q.size 0 p q.proc)
