-- ===== src/Boot/Clocked/Tests/Left.antt =====
-- A run of the program with one CPU and two processes, in which the second one is added between the
-- last `get_proc` of the CPU and its test of `done`: the timer ends, and the process has not run.
use os_to_read.Base.{
  ℕ, zero, suc, ap, sym, arith, update, ◌≡◌, ◌≢◌, refl, true, false, none, some, List, [], ◌∷◌,
  get_elem?,
}
use os_to_read.Base.Int.{pos}
use os_to_read.Base.Access.{ok}
use os_to_read.Cpu.{Pcb, run}
use os_to_read.Sched.{add_proc, get_proc}
use os_to_read.Os.{
  Cpu, Shared, stopped, top, slot, running, finished, start_cpu, cpu_step, at_point, at_top,
  first_load, first_check, at_loaded, is_zero, decrement, at_running, deref, run_proc, check_status,
  fetch_proc,
}
use os_to_read.Boot.Clocked.Late.{late_process}
use os_to_read.Boot.Clocked.Rest.{AreStopped, left_for_good}
use os_to_read.Sched.Inv.{IsReady}
use os_to_read.Timer
use os_to_read.Timer.{
  Device, Timer, working, signalled, detached, loop_head, timer_step, timer_at, collect_at,
  release_at, attach_events, attach_event, start_timer,
}
use os_to_read.Loader.{codes, load, load_from, read_header, read_insts}
use os_to_read.Boot.{LdArgs, waits, adds, ended, ld_step, ld_at, ld_load, ld_wait, ld_add, entry}
use os_to_read.Boot.Clocked.{
  Clocked, ClockedRuns, at_start, one_more, cpu_moves, cpu_waits, cpu_wakes, cpu_detaches,
  loader_moves, loader_waits, loader_wakes, loader_detaches, start_clocked, cpu_event, calls_timer,
  in_next_slot, is_early, set_device,
}
use os_to_read.Boot.Clocked.Tests.Turns.{turns, turns_from, timer_turn}
use os_to_read.Boot.Tests.{empty_files, no_code, mm, kernel}
use os_to_read.Boot.Clocked.Tests.Run.{
  proc, with_proc, takes_first, takes_it, at_work, gone, busy, stays,
}

abbrev two : LdArgs
two = record {
  path = codes "input/proc/p0" ∷ codes "input/proc/p1" ∷ [];
  start_time = 0 ∷ 1 ∷ [];
  prio = 5 ∷ 5 ∷ [];
  num_processes = 2;
}

abbrev begin : Clocked
begin = start_clocked 1 kernel

abbrev Goes : Clocked → Type 0
Goes m = ClockedRuns empty_files two 1 (pos 2) begin m

abbrev second : Pcb
second = record proc { pid = 2 }

abbrev sh0 : Shared
sh0 = record {
  sched = with_proc;
  procs = update (λ p. none) 8 (some proc);
  krnl = kernel;
  done = false;
}

abbrev asleep : Device
asleep = record { done = true; fsh = false; phase = signalled; slots = 0 }

-- The loader has added the first process and waits with the second.
abbrev after_loader : Clocked
after_loader = record {
  os = record { shared = sh0; cpus = start_cpu ∷ [] };
  ld = record { point = waits 9 second; i = 1; avail_pid = 3 };
  timer = record {
    dev_list = asleep ∷ at_work ∷ [];
    time = 0;
    timer_started = true;
    timer_stop = false;
    point = loop_head;
  };
}

loader_runs : Goes after_loader
unfolding start_clocked Timer.start attach_events attach_event start_timer is_early ld_step ld_at
    ld_load ld_wait ld_add entry load load_from read_header read_insts set_device
loader_runs =
    let first =
      one_more at_start (loader_moves begin 8 no_code mm _ _ at_work refl refl refl refl refl) in
    let due = one_more first (loader_moves _ 9 no_code mm _ _ at_work refl refl refl refl refl) in
    let added = one_more due (loader_moves _ 9 no_code mm _ _ at_work refl refl refl refl refl) in
    let loaded_two =
      one_more added (loader_moves _ 9 no_code mm _ _ at_work refl refl refl refl refl) in
    one_more loaded_two (loader_waits _ at_work refl refl refl)

abbrev sh1 : Shared
sh1 = record sh0 { sched = (get_proc with_proc).1 }

gets : cpu_step (pos 2) sh0 start_cpu ≡ ok (sh1, busy)
unfolding cpu_step at_point at_top first_load first_check
gets = rw (takes_it.0) refl

abbrev waiting : Clocked
waiting = record after_loader {
  os = record { shared = sh1; cpus = record busy { point = slot; time_left = pos 2 } ∷ [] };
  timer = record (after_loader.timer) { dev_list = asleep ∷ asleep ∷ [] };
}

cpu_takes : Goes waiting
unfolding cpu_step at_point at_loaded is_zero set_device cpu_event calls_timer in_next_slot
cpu_takes =
    let got =
      one_more loader_runs
        (cpu_moves after_loader 0 start_cpu busy at_work sh1 refl refl refl refl gets) in
    let slotted = one_more got (cpu_moves _ 0 busy _ at_work sh1 refl refl refl refl refl) in
    one_more slotted (cpu_waits _ 0 _ at_work refl refl refl refl)

abbrev free : Device
free = record asleep { done = false }

abbrev next_slot : Timer
next_slot = record waiting.timer { dev_list = free ∷ free ∷ []; time = 1 }

timer_turns : Goes (record waiting { timer = next_slot })
unfolding turns turns_from timer_step timer_at collect_at release_at
timer_turns = timer_turn 8 waiting next_slot cpu_takes (omega arith) refl

-- The CPU has run and freed the first process, and has asked for the next.
abbrev sh2 : Shared
sh2 = record sh1 { procs = update sh1.procs 8 (some proc) }

abbrev sh3 : Shared
sh3 = record sh2 { procs = update sh2.procs 8 none }

abbrev sh4 : Shared
sh4 = record sh3 { sched = (get_proc (get_proc with_proc).1).1 }

gets_none :
    cpu_step (pos 2) sh3 (record { point = finished; proc = none; time_left = pos 1 })
    ≡ ok (sh4, stays)
unfolding cpu_step at_point fetch_proc
gets_none = rw (takes_it.1) refl

abbrev woken : Device
woken = record at_work { slots = 1 }

-- The CPU has freed the first process, and the loader, which was awake before, adds the second.
abbrev freed : Cpu
freed = record { point = finished; proc = none; time_left = pos 1 }

abbrev adding : Clocked
adding = record waiting {
  os = record { shared = sh3; cpus = freed ∷ [] };
  ld = record { point = adds 9 second; i = 1; avail_pid = 3 };
  timer = record next_slot { dev_list = woken ∷ woken ∷ [] };
}

cpu_frees : Goes adding
unfolding cpu_step at_point at_top at_running deref run_proc run decrement check_status set_device
    cpu_event calls_timer is_early ld_step ld_at ld_wait entry
cpu_frees =
    let back = one_more timer_turns (
      cpu_wakes _ 0 _ (record busy { point = running; time_left = pos 2 }) free sh1 refl refl refl
        refl refl) in
    let ran = one_more back (
      cpu_moves _ 0 _ (record busy { point = top; time_left = pos 1 }) woken sh2 refl refl refl refl
        refl) in
    let over = one_more ran (cpu_moves _ 0 _ freed woken sh3 refl refl refl refl refl) in
    let awake = one_more over (loader_wakes _ free refl refl refl) in
    one_more awake (loader_moves _ 10 no_code mm _ _ woken refl refl refl refl refl)

late_process_example :
    (m' : Clocked) × Goes m'
    × (m'.ld.point ≡ ended)
    × (m'.os.shared.done ≡ true)
    × (get_elem? m'.os.cpus 0 ≡ some (record stays { point = stopped }))
    × ((j : ℕ) → 0 ≢ j → get_elem? m'.os.cpus j ≡ get_elem? adding.os.cpus j)
    × (m'.os.shared.procs 9 ≡ some second)
    × ((ls' : ℕ → List ℕ) × IsReady m'.os.shared.sched ls' × (ls' 5 ≡ 9 ∷ []))
unfolding cpu_event
late_process_example =
    late_process empty_files two 1 (pos 2) kernel 0 9 10 second no_code mm {m = adding} {c = freed}
      {d = woken} {e = woken} cpu_frees refl refl refl refl refl refl refl refl refl
      (λ e. omega (arith, e)) (takes_first.1.1) (takes_first.1.2) (omega arith)

-- The CPU asks, and gets none.
abbrev has_asked : Clocked
has_asked = record adding { os = record { shared = sh4; cpus = stays ∷ [] } }

cpu_asks : Goes has_asked
unfolding cpu_event calls_timer
cpu_asks = one_more cpu_frees (cpu_moves _ 0 freed stays woken sh4 refl refl refl refl gets_none)

-- The loader adds the second process and sets `done`; the CPU stops.
abbrev sh5 : Shared
sh5 = record sh4 {
  sched = add_proc (λ q. 5) (some 9) sh4.sched;
  procs = update sh4.procs 9 (some second);
  done = true;
}

abbrev late : Clocked
late = record {
  os = record { shared = sh5; cpus = record stays { point = stopped } ∷ [] };
  ld = record { point = ended; i = 2; avail_pid = 3 };
  timer = record next_slot {
    dev_list = record gone { slots = 1 } ∷ record gone { slots = 1 } ∷ [];
  };
}

loader_ends : Goes late
unfolding cpu_step at_point at_loaded is_early ld_step ld_at ld_wait ld_add entry set_device
    cpu_event calls_timer
loader_ends =
    let added =
      one_more cpu_asks (loader_moves _ 10 no_code mm _ _ woken refl refl refl refl refl) in
    let done_ = one_more added (loader_moves _ 10 no_code mm _ _ woken refl refl refl refl refl) in
    let left = one_more done_ (loader_detaches _ woken refl refl refl) in
    let end = one_more left (cpu_moves _ 0 stays _ woken sh5 refl refl refl refl refl) in
    one_more end (cpu_detaches _ 0 _ woken refl refl refl refl)

abbrev over : Clocked
over = record late { timer = record (late.timer) { time = 2; point = Timer.ended } }

timer_ends : Goes over
unfolding turns turns_from timer_step timer_at collect_at release_at
timer_ends = timer_turn 8 late (over.timer) loader_ends (omega arith) refl

-- The second process is still at its first instruction.
not_run : over.os.shared.procs 9 ≡ some second
not_run = refl

late-AreStopped : AreStopped late.os
late-AreStopped zero c e =
    let same : record stays { point = stopped } ≡ c = cc e in ap (λ (x : Cpu). x.point) (sym same)
late-AreStopped (suc j) c e = absurd (cc e)

to_over : ClockedRuns empty_files two 1 (pos 2) late over
unfolding turns turns_from timer_step timer_at collect_at release_at
to_over = timer_turn 8 late (over.timer) at_start (omega arith) refl

left_for_good_example : over.os.shared ≡ late.os.shared
left_for_good_example =
    left_for_good empty_files two 1 (pos 2) kernel 0 {c = record stays { point = stopped }}
      loader_ends refl late-AreStopped to_over
