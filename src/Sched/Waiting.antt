-- ===== src/Sched/Waiting.antt =====
-- How long a priority waits.
use os_to_read.Base.{ℕ, suc, ◌<◌, ◌≡◌, ◌≢◌, some, List, []}
use os_to_read.Queue.{Queue}
use os_to_read.Sched.{Sched, get_mlq_proc, put_mlq_proc}

-- A run of calls from a state of the scheduler, `n` of them of `get_mlq_proc`, which leave the queue of
-- priority `i` as it is; the others put processes back.
module _ (prio : ℕ → ℕ) (i : ℕ) where
  pub data Waits : ℕ → Sched → Type 0 where
    stop : {s : Sched} → Waits 0 s
    put : {n : ℕ} {s : Sched} (p : ℕ) → Waits n (put_mlq_proc prio (some p) s) → Waits n s
    get :
        {n : ℕ} {s : Sched}
        → (get_mlq_proc s).1.mlq_ready_queue i ≡ s.mlq_ready_queue i
        → Waits n (get_mlq_proc s).1
        → Waits (suc n) s

-- Something is queued at priority `i`, and it has a slot left.
pub record IsEligible (i : ℕ) (s : Sched) (ls : ℕ → List ℕ) : Type 0 where
  pub queue : ls i ≢ []
  pub left : 0 < s.slot i
