-- ===== src/Boot/Clocked/Tests.antt =====
-- The theorems on the program on the timer at the states of a run.
mod Turns
mod Run
mod Left
use os_to_read.Base.{
  arith, update, ℕ, ◌+◌, ◌≤◌, ◌≡◌, refl, ap, subst, ◌∙◌, Bool-cases, true, false, none, some, List,
  [], ◌∷◌, ◌==◌, inl, inr, ◌⊎◌, get_elem?,
}
use os_to_read.Base.Int.{pos}
use os_to_read.Base.Access.{ok}
use os_to_read.Cpu.{Pcb, run}
use os_to_read.Sched.{Sched, add_proc, get_proc}
use os_to_read.Sched.Inv.{IsReady, init_scheduler-IsReady}
use os_to_read.Queue.Refine.{push_back}
use os_to_read.Sched.Put.{queued, add_mlq_proc-put, put_mlq_proc_refines}
use os_to_read.Sched.Policy.{get_mlq_proc_lem}
use os_to_read.Os.{
  Cpu, Shared, stopped, top, loaded, slot, running, finished, start_cpu, cpu_step, at_point, at_top,
  first_load, first_check, at_loaded, is_zero, decrement, at_running, deref, run_proc, check_status,
  fetch_proc,
}
use os_to_read.Os.Exclusion.{boot}
use os_to_read.Os.Idling.{AreEmpty, get_proc-empty}
use os_to_read.Timer
use os_to_read.Timer.{
  Device, Timer, working, signalled, detached, loop_head, collect, timer_step, timer_at, collect_at,
  release_at, start, attach_events, attach_event, start_timer,
}
use os_to_read.Loader.{codes, load, load_from, read_header, read_insts}
use os_to_read.Boot.{Runs, LdArgs, ended, ld_step, ld_at, ld_load, ld_wait, ld_add, entry}
use os_to_read.Boot.Clocked.{
  Clocked, ClockedStep, ClockedRuns, at_start, one_more, cpu_moves, cpu_waits, cpu_wakes,
  cpu_detaches, loader_moves, loader_detaches, timer_moves, start_clocked, cpu_event, calls_timer,
  in_next_slot, is_early, set_device, executed,
}
use os_to_read.Boot.Loads.{start_machine}
use os_to_read.Boot.Ends.{stopped_after_all}
use os_to_read.Boot.Clocked.Refines.{machine, clocked_refines}
use os_to_read.Boot.Clocked.Paced.{paced}
use os_to_read.Boot.Clocked.Over.{all_over}
use os_to_read.Boot.Clocked.Moving.{Breaks, moving}
use os_to_read.Boot.Tests.{empty_files, no_code, mm, kernel}
use os_to_read.Boot.Clocked.Tests.Run.{
  args, waiting, has_run, over, at_work, cpu_takes, cpu_runs, timer_ends,
}

paced_example : executed empty_files args 1 (pos 2) 0 cpu_runs ≤ 1 + 1
paced_example =
    paced empty_files args 1 (pos 2) kernel 0 1 {d = record at_work { slots = 1 }} cpu_runs refl
      refl (λ e. cc e)

all_over_example :
    ((j : ℕ) (c : Cpu) → get_elem? over.os.cpus j ≡ some c → c.point ≡ stopped)
    × (over.ld.point ≡ ended)
    × (over.ld.i ≡ 1)
    × (over.os.shared.done ≡ true)
all_over_example = all_over empty_files args 1 (pos 2) kernel timer_ends refl

moving_example :
    ((m' : Clocked) × ClockedStep empty_files args 1 (pos 2) waiting m')
    ⊎ Breaks empty_files args 1 (pos 2) 9 no_code mm waiting
moving_example =
    moving empty_files args 1 (pos 2) kernel 9 no_code mm cpu_takes (λ e. cc e) (omega arith) refl

stopped_after_all_example : (over.ld.point ≡ ended) × (over.ld.i ≡ 1)
stopped_after_all_example =
    stopped_after_all empty_files args (pos 2) 1 0 kernel
      (clocked_refines empty_files args (pos 2) 1 kernel timer_ends).0 refl refl
