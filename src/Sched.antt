-- ===== src/Sched.antt =====
-- src/sched.c, as it is built with MLQ_SCHED: 140 ready queues, one to a priority, each with a number
-- of slots, and a static cursor that goes round them. The lock `queue_lock` makes each operation one
-- step, so an operation is a function on the state.
pub mod Slots
pub mod Scan
pub mod Inv
pub mod Get
pub mod Policy
pub mod Put
pub mod Waiting
pub mod Single
mod Tests
use os_to_read.Base.{
  ℕ, zero, suc, ◌+◌, ◌-◌, ◌%◌, Bool, true, false, not, ◌&&◌, Option, none, some, if◌then◌else◌, ltb,
  leb, update,
}
use os_to_read.Base.Int.{ℤ, pos, minus_one}
use os_to_read.Queue.{Queue, empty, enqueue, dequeue}

abbrev pub max_prio : ℕ
max_prio = 140

-- The static queues that a `struct krnl_t` can point to.
pub data QueueRef : Type 0 where
  ready mlq running : QueueRef

-- The three queue pointers of `struct krnl_t`.
pub record Links : Type 0 where
  pub ready_queue : Option QueueRef
  pub mlq_ready_queue : Option QueueRef
  pub running_list : Option QueueRef

abbrev pub linked : Links
linked = record {
  ready_queue = some ready;
  mlq_ready_queue = some mlq;
  running_list = some running;
}

-- The static variables of the file, and the kernel structure that every process points to (`os`).
-- An index of `mlq_ready_queue` and `slot` is a priority, below `max_prio`.
pub record Sched : Type 0 where
  pub ready_queue : Queue
  pub run_queue : Queue
  pub running_list : Queue
  pub mlq_ready_queue : ℕ → Queue
  pub slot : ℕ → ℕ
  pub curr_prio : ℕ
  pub krnl : Links

-- `for (prio = i; prio < i + n; prio++) if (!empty(&mlq_ready_queue[prio])) return -1;`
pub any_ready : ℕ → ℕ → Sched → Bool
any_ready zero i s = false
any_ready (suc n) i s =
    let rest = any_ready n (suc i) s in if not (empty (s.mlq_ready_queue i)) then true else rest

pub queue_empty : Sched → ℤ
queue_empty s =
    if any_ready max_prio 0 s
    then minus_one
    else (if empty s.ready_queue && empty s.run_queue then pos 1 else pos 0)

-- `for (j = i; j < i + n; j++) slot[j] = MAX_PRIO - j;`
pub reset_slots : ℕ → ℕ → (ℕ → ℕ) → ℕ → ℕ
reset_slots zero i f = f
reset_slots (suc n) i f = reset_slots n (suc i) (update f i (max_prio - i))

abbrev clear_size : Queue → Queue
clear_size q = record q { size = 0 }

-- `for (j = i; j < i + n; j++) mlq_ready_queue[j].size = 0;`
pub clear_queues : ℕ → ℕ → (ℕ → Queue) → ℕ → Queue
clear_queues zero i f = f
clear_queues (suc n) i f = clear_queues n (suc i) (update f i (clear_size (f i)))

pub init_scheduler : Sched → Sched
init_scheduler s = record s {
  ready_queue = clear_size s.ready_queue;
  run_queue = clear_size s.run_queue;
  running_list = clear_size s.running_list;
  mlq_ready_queue = clear_queues max_prio 0 s.mlq_ready_queue;
  slot = reset_slots max_prio 0 s.slot;
}

pub current : Sched → Queue
current s = s.mlq_ready_queue s.curr_prio

-- The tests of the two loops of `get_mlq_proc`.
pub has_slot : Sched → Bool
unfolding current
has_slot s = not (empty (current s)) && ltb 0 (s.slot s.curr_prio)

pub has_proc : Sched → Bool
unfolding current
has_proc s = not (empty (current s))

pub advance : Sched → Sched
advance s = record s { curr_prio = (s.curr_prio + 1) % max_prio }

-- The body of both loops at a hit. A slot is positive where it is taken, so `- 1` does not stop at 0.
pub take : Sched → Option ℕ × Sched
unfolding current
take s =
    let (p, q) = dequeue (current s) in
    (
      p,
      record s {
        mlq_ready_queue = update s.mlq_ready_queue s.curr_prio q;
        slot = update s.slot s.curr_prio (s.slot s.curr_prio - 1);
      },
    )

-- `while (checked < MAX_PRIO)`, with `n` rounds left.
pub scan : (Sched → Bool) → ℕ → Sched → Option ℕ × Sched
scan test zero s = (none, s)
scan test (suc n) s = let rest = scan test n (advance s) in if test s then take s else rest

-- All slots are given out anew, and the second loop takes any process.
pub second_try : Sched → Option ℕ × Sched
second_try s = scan has_proc max_prio (record s { slot = reset_slots max_prio 0 s.slot })

pub retry : Option ℕ × Sched → Option ℕ × Sched
retry (some p, s) = (some p, s)
retry (none, s) = second_try s

pub step_cursor : Option ℕ × Sched → Option ℕ × Sched
step_cursor (some p, s) = (some p, advance s)
step_cursor (none, s) = (none, s)

pub get_mlq_proc : Sched → Option ℕ × Sched
get_mlq_proc s = step_cursor (retry (scan has_slot max_prio s))

-- `prio` reads the field `prio` of the process at an address. It is unsigned, so only the upper
-- bound can fail.
module _ (prio : ℕ → ℕ) where
  pub put_mlq_proc : Option ℕ → Sched → Sched
  put_mlq_proc none s = s
  put_mlq_proc (some p) s = if leb max_prio (prio p) then s else record s {
    krnl = linked;
    mlq_ready_queue =
        update s.mlq_ready_queue (prio p) (enqueue (s.mlq_ready_queue (prio p)) (some p));
  }

  pub add_mlq_proc : Option ℕ → Sched → Sched
  add_mlq_proc none s = s
  add_mlq_proc (some p) s = if leb max_prio (prio p) then s else record s {
    krnl = linked;
    mlq_ready_queue =
        update s.mlq_ready_queue (prio p) (enqueue (s.mlq_ready_queue (prio p)) (some p));
  }

  unfoldable pub put_proc : Option ℕ → Sched → Sched
  put_proc p s = put_mlq_proc p s

  unfoldable pub add_proc : Option ℕ → Sched → Sched
  add_proc p s = add_mlq_proc p s

unfoldable pub get_proc : Sched → Option ℕ × Sched
get_proc s = get_mlq_proc s
