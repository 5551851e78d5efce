-- ===== src/Sched/Single.antt =====
-- The other branch of src/sched.c, without MLQ_SCHED: one ready queue, a queue that processes are put
-- back into, and a `get_proc` that takes from neither.
use os_to_read.Base.{ℕ, Option, none, some}
use os_to_read.Queue.{enqueue}
use os_to_read.Sched.{Sched, ready, running}

pub get_proc : Sched → Option ℕ × Sched
get_proc s = (none, s)

-- The pointers that every process shares are set, and the process goes to `run_queue`.
pub put_proc : ℕ → Sched → Sched
put_proc p s = record s {
  krnl = record (s.krnl) { ready_queue = some ready; running_list = some running };
  run_queue = enqueue s.run_queue (some p);
}

pub add_proc : ℕ → Sched → Sched
add_proc p s = record s {
  krnl = record (s.krnl) { ready_queue = some ready; running_list = some running };
  ready_queue = enqueue s.ready_queue (some p);
}
