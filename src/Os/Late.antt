-- ===== src/Os/Late.antt =====
-- A CPU that finds nothing queued, on its way to stop, and a process that is added behind its back.
use os_to_read.Base.{
  ℕ, ◌<◌, ◌≡◌, refl, ◌∙◌, true, none, some, List, [], ◌∷◌, update_self, leb-false,
}
use os_to_read.Base.Int.{ℤ, pos}
use os_to_read.Base.Access.{ok}
use os_to_read.Queue.Refine.{push_back}
use os_to_read.Sched.{max_prio, Sched, get_proc, add_proc}
use os_to_read.Sched.Inv.{IsReady}
use os_to_read.Sched.Put.{queued, put_mlq_proc_refines, add_mlq_proc-put}
use os_to_read.Os.{
  finished, loaded, stopped, Cpu, Shared, cpu_step, at_point, at_loaded, fetch_proc,
}
use os_to_read.Os.Idling.{AreEmpty}

push_back-alone : (l : List ℕ) (p : ℕ) → l ≡ [] → push_back l p ≡ p ∷ []
unfolding push_back
push_back-alone l p e = rw e refl

pub queued-alone :
    (ls : ℕ → List ℕ) (p prio : ℕ) → AreEmpty ls → prio < max_prio → queued ls prio p prio ≡ p ∷ []
unfolding queued
queued-alone ls p prio nothing h =
    rw (leb-false max_prio prio h)
      (update_self ls prio (push_back (ls prio) p) ∙ push_back-alone (ls prio) p (nothing prio h))

-- `add_proc` in ready queues that hold nothing.
pub add_proc-alone :
    {s : Sched} {ls : ℕ → List ℕ} (p prio : ℕ)
    → IsReady s ls
    → IsReady (add_proc (λ q. prio) (some p) s) (queued ls prio p)
unfolding add_proc
add_proc-alone {s} p prio ready =
    rw (add_mlq_proc-put (λ q. prio) (some p) s) (put_mlq_proc_refines (λ q. prio) p ready)

-- The CPU has no process, and has not looked at `done` yet.
abbrev pub asked : Cpu → Cpu
asked c = record c { point = loaded; proc = none; time_left = pos 0 }

pub asks :
    (time_slot : ℤ) (sh : Shared) (c : Cpu)
    → c.point ≡ finished
    → (get_proc sh.sched).0 ≡ none
    → cpu_step time_slot sh c ≡ ok (record sh { sched = (get_proc sh.sched).1 }, asked c)
unfolding cpu_step at_point fetch_proc
asks time_slot sh c e nothing = rw (e, nothing) refl

pub stops_now :
    (time_slot : ℤ) (sh : Shared) (c : Cpu)
    → sh.done ≡ true
    → cpu_step time_slot sh (asked c) ≡ ok (sh, record (asked c) { point = stopped })
unfolding cpu_step at_point at_loaded
stops_now time_slot sh c e = rw e refl
