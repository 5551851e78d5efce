-- ===== src/Sched/Tests.antt =====
-- Runs of src/sched.c, and its theorems at concrete schedulers.
use os_to_read.Base.{ℕ, some, List, [], if◌then◌else◌, ◌==◌}
use os_to_read.Sched.{Sched, init_scheduler, put_mlq_proc}
use os_to_read.Sched.Inv.{IsReady, init_scheduler-IsReady, zeroed}
use os_to_read.Sched.Put.{queued, put_mlq_proc_refines}

-- Every process has priority 3.
abbrev three : ℕ → ℕ
three p = 3

abbrev fresh : Sched
fresh = init_scheduler zeroed

abbrev no_procs : ℕ → List ℕ
no_procs i = []

fresh-IsReady : IsReady fresh no_procs
fresh-IsReady = init_scheduler-IsReady.0

-- One process, at address 8, is ready.
abbrev one_ready : Sched
one_ready = put_mlq_proc three (some 8) fresh

abbrev one_proc : ℕ → List ℕ
one_proc = queued no_procs 3 8

put_mlq_proc_refines_example : IsReady one_ready one_proc
put_mlq_proc_refines_example = put_mlq_proc_refines three 8 fresh-IsReady

-- Process 8 has priority 3, any other priority 0.
abbrev mixed : ℕ → ℕ
mixed p = if p == 8 then 3 else 0

abbrev two_ready : Sched
two_ready = put_mlq_proc mixed (some 1) (put_mlq_proc mixed (some 8) fresh)

abbrev two_procs : ℕ → List ℕ
two_procs = queued (queued no_procs 3 8) 0 1
