-- ===== src/Os/Tests.antt =====
-- Runs of the threads, and the theorems at concrete states.
use os_to_read.Base.{
  ℕ, ◌*◌, ◌≡◌, ◌≢◌, refl, true, arith, some, List, [], ◌∷◌, set, update, ap, ◌∙◌, Bool-cases, inl,
  inr, ◌==◌, get_elem?,
}
use os_to_read.Base.Int.{pos}
use os_to_read.Base.Access.{ok}
use os_to_read.Memphy.{null}
use os_to_read.Libmem.{Caller}
use os_to_read.Cpu.{Pcb}
use os_to_read.Sched.{max_prio, get_proc, add_proc}
use os_to_read.Sched.Inv.{IsReady, init_scheduler-IsReady}
use os_to_read.Queue.Refine.{push_back}
use os_to_read.Sched.Put.{queued, add_mlq_proc-put, put_mlq_proc_refines}
use os_to_read.Sched.Policy.{get_mlq_proc_lem}
use os_to_read.Os.{
  Shared, Cpu, Os, Reachable, here, next, load, start_cpu, cpu, loaded, cpu_step, at_point, at_top,
  first_load, first_check,
}
use os_to_read.Os.Places.{total}
use os_to_read.Os.Exclusion.{boot, exclusive}
use os_to_read.Os.Slice.{IsTimed, time_left_bounded}
use os_to_read.Os.Idling.{cpu_steps, waiting, idles}

abbrev kernel : Caller
kernel = record {
  mm = record { mmap = []; symrgtbl = []; fifo_pgn = [] };
  active_mswp = record {
    storage = [];
    maxsz = pos 0;
    rdmflg = true;
    cursor = 0;
    free_fp_list = null;
  };
}

-- A process of two instructions.
abbrev two_long : Pcb
two_long = record { pid = 1; priority = 0; prio = 5; code = record { text = []; size = 2 }; pc = 0 }

-- After the start with two CPUs the loader adds that process, at address 8.
abbrev after_load : Os
after_load = record (boot 2 kernel) {
  shared = record (boot 2 kernel).shared {
    sched = add_proc (λ q. 5) (some 8) (boot 2 kernel).shared.sched;
    procs = update (boot 2 kernel).shared.procs 8 (some two_long);
  };
}

abbrev queues : ℕ → List ℕ
queues = queued (λ i. []) 5 8

after_load-IsReady : IsReady after_load.shared.sched queues
unfolding add_proc
after_load-IsReady =
    rw (add_mlq_proc-put (λ q. 5) (some 8) (boot 2 kernel).shared.sched)
      (put_mlq_proc_refines (λ q. 5) 8 init_scheduler-IsReady.0)

alone : (i p : ℕ) (rest : List ℕ) → queues i ≡ p ∷ rest → p ≡ 8
unfolding queued push_back
alone i p rest e = elim (Bool-cases (5 == i)) [
  | inl here_ ↦ ground (arith, e)
  | inr there ↦ ground (arith, e)
]

five_queued : queues 5 ≡ 8 ∷ []
unfolding queued push_back
five_queued = refl

-- The first CPU gets the process.
gets_it : (get_proc after_load.shared.sched).0 ≡ some 8
unfolding get_proc
gets_it = elim (get_mlq_proc_lem after_load-IsReady) [
  | inl v ↦ v.taken.result ∙ ap some (alone v.prio v.proc v.taken.rest v.taken.front)
  | inr i ↦ absurd (cc (i.nothing 5 (omega arith), five_queued))
]

abbrev busy : Cpu
busy = record { point = loaded; proc = some 8; time_left = pos 0 }

abbrev after_step : Os
after_step = record {
  shared = record after_load.shared { sched = (get_proc after_load.shared.sched).1 };
  cpus = set after_load.cpus 0 busy;
}

first_step : cpu_step (pos 3) after_load.shared start_cpu ≡ ok (after_step.shared, busy)
unfolding cpu_step at_point at_top first_load first_check
first_step = rw gets_it refl

reached : Reachable (pos 3) (boot 2 kernel) after_step
reached =
    next (next here (load (boot 2 kernel) 8 two_long refl))
      (cpu after_load 0 start_cpu busy after_step.shared refl first_step)

exclusive_example :
    ((pcb : Pcb) × (after_step.shared.procs 8 ≡ some pcb))
    × ((ls : ℕ → List ℕ) × IsReady after_step.shared.sched ls × (total max_prio ls 8 ≡ 0))
    × ((j : ℕ) (d : Cpu) → 0 ≢ j → get_elem? after_step.cpus j ≡ some d → d.proc ≢ some 8)
exclusive_example = exclusive 2 kernel {c = busy} 0 8 reached refl refl

time_left_bounded_example : IsTimed 3 loaded (pos 0)
time_left_bounded_example = time_left_bounded 2 3 kernel {c = busy} 0 (omega arith) reached refl

idles_example :
    (sh' : Shared) × (cpu_steps
        (2 * 7)
        (pos 3)
        (record (boot 1 kernel).shared { done = true })
        (waiting (pos 0))
      ≡ ok (sh', waiting (pos 0)))
    × (sh'.done ≡ true)
idles_example =
    idles 7 (pos 3) (pos 0) (record (boot 1 kernel).shared { done = true }) init_scheduler-IsReady.0
      (λ i h. refl)
