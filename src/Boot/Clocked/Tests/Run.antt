-- ===== src/Boot/Clocked/Tests/Run.antt =====
-- A run of the program with one CPU and one process, whose code is empty, from the start to the end of
-- the timer.
use os_to_read.Base.{
  arith, update, ℕ, ◌≡◌, refl, ap, subst, ◌∙◌, Bool-cases, true, false, none, some, List, [], ◌∷◌,
  ◌==◌, inl, inr,
}
use os_to_read.Base.Int.{pos}
use os_to_read.Base.Access.{ok}
use os_to_read.Cpu.{Pcb, run}
use os_to_read.Sched.{Sched, add_proc, get_proc}
use os_to_read.Sched.Inv.{IsReady, init_scheduler-IsReady}
use os_to_read.Queue.Refine.{push_back}
use os_to_read.Sched.Put.{queued, add_mlq_proc-put, put_mlq_proc_refines}
use os_to_read.Sched.Policy.{get_mlq_proc_lem}
use os_to_read.Os.{
  Cpu, Shared, stopped, top, loaded, slot, running, finished, start_cpu, cpu_step, at_point, at_top,
  first_load, first_check, at_loaded, is_zero, decrement, at_running, deref, run_proc, check_status,
  fetch_proc,
}
use os_to_read.Os.Exclusion.{boot}
use os_to_read.Os.Idling.{AreEmpty, get_proc-empty}
use os_to_read.Timer
use os_to_read.Timer.{
  Device, Timer, working, signalled, detached, loop_head, collect, timer_step, timer_at, collect_at,
  release_at, start, attach_events, attach_event, start_timer,
}
use os_to_read.Loader.{codes, load, load_from, read_header, read_insts}
use os_to_read.Boot.{LdArgs, ended, ld_step, ld_at, ld_load, ld_wait, ld_add, entry}
use os_to_read.Boot.Clocked.{
  Clocked, ClockedRuns, at_start, one_more, cpu_moves, cpu_waits, cpu_wakes, cpu_detaches,
  loader_moves, loader_detaches, start_clocked, cpu_event, calls_timer, in_next_slot, is_early,
  set_device,
}
use os_to_read.Boot.Clocked.Tests.Turns.{turns, turns_from, timer_turn}
use os_to_read.Boot.Tests.{empty_files, no_code, mm, kernel}

abbrev pub proc : Pcb
proc = record { pid = 1; priority = 0; prio = 5; code = record { text = []; size = 0 }; pc = 0 }

abbrev first_sched : Sched
first_sched = (boot 1 kernel).shared.sched

-- The process is at the address 8.
abbrev pub with_proc : Sched
with_proc = add_proc (λ q. 5) (some 8) first_sched

abbrev queues : ℕ → List ℕ
queues = queued (λ i. []) 5 8

with_proc-IsReady : IsReady with_proc queues
unfolding add_proc
with_proc-IsReady =
    rw (add_mlq_proc-put (λ q. 5) (some 8) first_sched)
      (put_mlq_proc_refines (λ q. 5) 8 init_scheduler-IsReady.0)

alone : (i p : ℕ) (rest : List ℕ) → queues i ≡ p ∷ rest → (p ≡ 8) × (rest ≡ []) × (i ≡ 5)
unfolding queued push_back
alone i p rest e = elim (Bool-cases (5 == i)) [
  | inl same ↦
      let five : i ≡ 5 = ground (arith, same) in
      let front : 8 ∷ [] ≡ p ∷ rest = subst (λ k. queues k ≡ p ∷ rest) five e in
      (cc front, cc front, five)
  | inr other ↦ let nothing : queues i ≡ [] = ground (arith, other) in absurd (cc (nothing, e))
]

left_empty : (i : ℕ) (rest : List ℕ) → i ≡ 5 → rest ≡ [] → AreEmpty (update queues i rest)
unfolding queued push_back
left_empty i rest e e' j h = elim (Bool-cases (i == j)) [
  | inl same ↦ ground (arith, same, e')
  | inr other ↦ ground (arith, other, e)
]

five_queued : queues 5 ≡ 8 ∷ []
unfolding queued push_back
five_queued = refl

-- The first process is the one that was added, and nothing is left behind it.
pub takes_first :
    ((get_proc with_proc).0 ≡ some 8)
    × ((ls : ℕ → List ℕ) × IsReady ((get_proc with_proc).1) ls × AreEmpty ls)
unfolding get_proc
takes_first = elim (get_mlq_proc_lem with_proc-IsReady) [
  | inr i ↦ absurd (cc (i.nothing 5 (omega arith), five_queued))
  | inl v ↦
      let it = alone v.prio v.proc v.taken.rest v.taken.front in
      (
        v.taken.result ∙ ap some (it.0),
        (
          update queues v.prio v.taken.rest,
          v.taken.ready,
          left_empty v.prio v.taken.rest it.2 it.1,
        ),
      )
]

pub takes_it : ((get_proc with_proc).0 ≡ some 8) × ((get_proc (get_proc with_proc).1).0 ≡ none)
takes_it = let left = takes_first.1 in (takes_first.0, (get_proc-empty left.1 left.2).0)

abbrev pub args : LdArgs
args = record {
  path = codes "input/proc/p0" ∷ [];
  start_time = 0 ∷ [];
  prio = 5 ∷ [];
  num_processes = 1;
}

abbrev begin : Clocked
begin = start_clocked 1 kernel

abbrev Goes : Clocked → Type 0
Goes m = ClockedRuns empty_files args 1 (pos 2) begin m

-- The loader adds its process and ends, in the slot 0.
abbrev sh0 : Shared
sh0 = record {
  sched = with_proc;
  procs = update (λ p. none) 8 (some proc);
  krnl = kernel;
  done = true;
}

abbrev pub at_work : Device
at_work = record { done = false; fsh = false; phase = working; slots = 0 }

abbrev pub gone : Device
gone = record { done = false; fsh = true; phase = detached; slots = 0 }

abbrev after_loader : Clocked
after_loader = record {
  os = record { shared = sh0; cpus = start_cpu ∷ [] };
  ld = record { point = ended; i = 1; avail_pid = 2 };
  timer = record {
    dev_list = gone ∷ at_work ∷ [];
    time = 0;
    timer_started = true;
    timer_stop = false;
    point = loop_head;
  };
}

loader_runs : Goes after_loader
unfolding start_clocked start attach_events attach_event start_timer is_early ld_step ld_at ld_load
    ld_wait ld_add entry load load_from read_header read_insts set_device
loader_runs =
    let first =
      one_more at_start (loader_moves begin 8 no_code mm _ _ at_work refl refl refl refl refl) in
    let due = one_more first (loader_moves _ 9 no_code mm _ _ at_work refl refl refl refl refl) in
    let added = one_more due (loader_moves _ 9 no_code mm _ _ at_work refl refl refl refl refl) in
    let done_ = one_more added (loader_moves _ 9 no_code mm _ _ at_work refl refl refl refl refl) in
    one_more done_ (loader_detaches _ at_work refl refl refl)

abbrev pub busy : Cpu
busy = record { point = loaded; proc = some 8; time_left = pos 0 }

abbrev sh1 : Shared
sh1 = record sh0 { sched = (get_proc with_proc).1 }

gets : cpu_step (pos 2) sh0 start_cpu ≡ ok (sh1, busy)
unfolding cpu_step at_point at_top first_load first_check
gets = rw (takes_it.0) refl

-- The CPU is in the `next_slot` before `run`.
abbrev pub waiting : Clocked
waiting = record after_loader {
  os = record { shared = sh1; cpus = record busy { point = slot; time_left = pos 2 } ∷ [] };
  timer = record (after_loader.timer) {
    dev_list = gone ∷ record at_work { done = true; phase = signalled } ∷ [];
  };
}

pub cpu_takes : Goes waiting
unfolding cpu_step at_point at_loaded is_zero set_device cpu_event calls_timer in_next_slot
cpu_takes =
    let got =
      one_more loader_runs
        (cpu_moves after_loader 0 start_cpu busy at_work sh1 refl refl refl refl gets) in
    let slotted = one_more got (cpu_moves _ 0 busy _ at_work sh1 refl refl refl refl refl) in
    one_more slotted (cpu_waits _ 0 _ at_work refl refl refl refl)

-- The timer makes its round, the loader is counted as gone.
abbrev next_slot : Timer
next_slot = record waiting.timer {
  dev_list = gone ∷ record at_work { phase = signalled } ∷ [];
  time = 1;
}

timer_turns : Goes (record waiting { timer = next_slot })
unfolding turns turns_from timer_step timer_at collect_at release_at
timer_turns = timer_turn 8 waiting next_slot cpu_takes (omega arith) refl

-- The CPU has called `run` and is at the head of its loop.
abbrev sh2 : Shared
sh2 = record sh1 { procs = update sh1.procs 8 (some proc) }

abbrev pub has_run : Clocked
has_run = record waiting {
  os = record {
    shared = sh2;
    cpus = record { point = top; proc = some 8; time_left = pos 1 } ∷ [];
  };
  timer = record next_slot { dev_list = gone ∷ record at_work { slots = 1 } ∷ [] };
}

pub cpu_runs : Goes has_run
unfolding cpu_step at_point at_running deref run_proc run decrement set_device cpu_event calls_timer
cpu_runs =
    let woken = one_more timer_turns (
      cpu_wakes _ 0 _ (record busy { point = running; time_left = pos 2 })
        (record at_work { phase = signalled }) sh1 refl refl refl refl refl) in
    one_more woken (
      cpu_moves _ 0 _ (record busy { point = top; time_left = pos 1 })
        (record at_work { slots = 1 }) sh2 refl refl refl refl refl)

-- The process is freed and the CPU stops.
abbrev sh3 : Shared
sh3 = record sh2 { sched = (get_proc (get_proc with_proc).1).1; procs = update sh2.procs 8 none }

abbrev pub stays : Cpu
stays = record { point = loaded; proc = none; time_left = pos 0 }

gets_none :
    cpu_step
      (pos 2)
      (record sh2 { procs = update sh2.procs 8 none })
      (record { point = finished; proc = none; time_left = pos 1 })
    ≡ ok (sh3, stays)
unfolding cpu_step at_point fetch_proc
gets_none = rw (takes_it.1) refl

abbrev all_stopped : Clocked
all_stopped = record has_run {
  os = record { shared = sh3; cpus = record stays { point = stopped } ∷ [] };
  timer = record next_slot { dev_list = gone ∷ record gone { slots = 1 } ∷ [] };
}

cpu_stops : Goes all_stopped
unfolding cpu_step at_point at_top deref check_status at_loaded set_device cpu_event calls_timer
cpu_stops =
    let over = one_more cpu_runs (
      cpu_moves has_run 0 _ (record { point = finished; proc = none; time_left = pos 1 })
        (record at_work { slots = 1 }) _ refl refl refl refl refl) in
    let none_left =
      one_more over
        (cpu_moves _ 0 _ stays (record at_work { slots = 1 }) sh3 refl refl refl refl gets_none) in
    let end =
      one_more none_left
        (cpu_moves _ 0 stays _ (record at_work { slots = 1 }) sh3 refl refl refl refl refl) in
    one_more end (cpu_detaches _ 0 _ (record at_work { slots = 1 }) refl refl refl refl)

abbrev pub over : Clocked
over = record all_stopped { timer = record (all_stopped.timer) { time = 2; point = Timer.ended } }

pub timer_ends : Goes over
unfolding turns turns_from timer_step timer_at collect_at release_at
timer_ends = timer_turn 8 all_stopped (over.timer) cpu_stops (omega arith) refl
