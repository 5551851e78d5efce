-- ===== src/Boot/Clocked.antt =====
-- The threads of src/os.c on the timer of src/timer.c: a thread at a call of `next_slot` gives its slot up,
-- and goes on when the timer has released its device; a thread that has left its loop detaches its
-- device. `main` attaches the devices of the CPUs, then that of the loader, each in front of the list.
pub mod Refines
pub mod Linked
pub mod Kept
pub mod Paced
pub mod Over
pub mod Moving
pub mod Late
pub mod Rest
mod Tests
use os_to_read.Base.{
  ◌<◌, ℕ, zero, suc, ◌+◌, ◌-◌, ◌^◌, Bool, true, false, ◌&&◌, none, some, if◌then◌else◌, ◌==◌, ltb,
  ◌≡◌, get_elem?, set,
}
use os_to_read.Base.Int.{ℤ}
use os_to_read.Base.Access.{ok}
use os_to_read.Mm.{Mm}
use os_to_read.Libmem.{Caller}
use os_to_read.Os.{
  Point, top, finished, put_back, loaded, idle, slot, running, stopped, Cpu, Shared, Os, cpu_step,
}
use os_to_read.Timer
use os_to_read.Timer.{Device, working, signalled, detached, Timer, timer_step, AreDetached}
use os_to_read.Loader.{Stdio, Garbage}
use os_to_read.Boot.{LdArgs, LdPoint, loop_test, waits, adds, ended, Ld, ld_step}
use os_to_read.Os.Exclusion.{boot}
use os_to_read.Os.Entering.{is_running}

-- The CPUs with what they share, the loader, and the timer with a device for each of them.
pub record Clocked : Type 0 where
  pub os : Os
  pub ld : Ld
  pub timer : Timer

-- Whether the CPU stands at a call of `next_slot`.
pub in_next_slot : Point → Bool
in_next_slot top = false
in_next_slot finished = false
in_next_slot put_back = false
in_next_slot loaded = false
in_next_slot idle = true
in_next_slot slot = true
in_next_slot running = false
in_next_slot stopped = false

-- Whether it stands at a call of the timer, `detach_event` included.
pub calls_timer : Point → Bool
calls_timer top = false
calls_timer finished = false
calls_timer put_back = false
calls_timer loaded = false
calls_timer idle = true
calls_timer slot = true
calls_timer running = false
calls_timer stopped = true

-- The test of the loop of `ld_routine` that calls `next_slot`.
pub is_early : LdArgs → ℕ → LdPoint → ℕ → Bool
is_early args i loop_test now = false
is_early args i (waits p pcb) now = elim (get_elem? args.start_time i) [
  | none ↦ false
  | some start ↦ ltb now start
]
is_early args i (adds p pcb) now = false
is_early args i ended now = false

-- The device of the CPU `i` of `n`, behind those that were attached after it.
pub cpu_event : ℕ → ℕ → ℕ
cpu_event n i = n - i

abbrev pub ld_event : ℕ
ld_event = 0

-- A device in place of another.
pub set_device : Timer → ℕ → Device → Timer
set_device t i d = record t { dev_list = set t.dev_list i d }

-- `main` starts the threads and, behind the joins, stops the timer. The test of the loader and the call
-- of `next_slot` are one step: the time does not change before the device of the loader is done.
module _ {F : Type 0} (io : Stdio F) (args : LdArgs) (n : ℕ) (time_slot : ℤ) where
  pub data ClockedStep : Clocked → Clocked → Type 0 where
    cpu_moves :
        (m : Clocked) (i : ℕ) (c c' : Cpu) (d : Device) (shared' : Shared)
        → get_elem? m.os.cpus i ≡ some c
        → get_elem? m.timer.dev_list (cpu_event n i) ≡ some d
        → d.phase ≡ working
        → calls_timer c.point ≡ false
        → cpu_step time_slot m.os.shared c ≡ ok (shared', c')
        → ClockedStep m (record m { os = record { shared = shared'; cpus = set m.os.cpus i c' } })
    cpu_waits :
        (m : Clocked) (i : ℕ) (c : Cpu) (d : Device)
        → get_elem? m.os.cpus i ≡ some c
        → get_elem? m.timer.dev_list (cpu_event n i) ≡ some d
        → d.phase ≡ working
        → in_next_slot c.point ≡ true
        → ClockedStep m (record m {
          timer = set_device m.timer (cpu_event n i) (record d { done = true; phase = signalled });
        })
    cpu_wakes :
        (m : Clocked) (i : ℕ) (c c' : Cpu) (d : Device) (shared' : Shared)
        → get_elem? m.os.cpus i ≡ some c
        → get_elem? m.timer.dev_list (cpu_event n i) ≡ some d
        → d.phase ≡ signalled
        → d.done ≡ false
        → cpu_step time_slot m.os.shared c ≡ ok (shared', c')
        → ClockedStep m (record m {
          os = record { shared = shared'; cpus = set m.os.cpus i c' };
          timer =
              set_device m.timer
                (cpu_event n i)
                (record d { phase = working; slots = d.slots + 1 });
        })
    cpu_detaches :
        (m : Clocked) (i : ℕ) (c : Cpu) (d : Device)
        → get_elem? m.os.cpus i ≡ some c
        → get_elem? m.timer.dev_list (cpu_event n i) ≡ some d
        → d.phase ≡ working
        → c.point ≡ stopped
        → ClockedStep m (record m {
          timer = set_device m.timer (cpu_event n i) (record d { fsh = true; phase = detached });
        })
    loader_moves :
        (m : Clocked) (p : ℕ) (g : Garbage) (mm : Mm) (shared' : Shared) (ld' : Ld) (d : Device)
        → get_elem? m.timer.dev_list ld_event ≡ some d
        → d.phase ≡ working
        → m.os.shared.procs p ≡ none
        → is_early args m.ld.i m.ld.point m.timer.time ≡ false
        → ld_step io args m.os.shared m.ld m.timer.time p g mm ≡ ok (shared', ld')
        → ClockedStep m (record m { os = record (m.os) { shared = shared' }; ld = ld' })
    loader_waits :
        (m : Clocked) (d : Device)
        → get_elem? m.timer.dev_list ld_event ≡ some d
        → d.phase ≡ working
        → is_early args m.ld.i m.ld.point m.timer.time ≡ true
        → ClockedStep m (record m {
          timer = set_device m.timer ld_event (record d { done = true; phase = signalled });
        })
    loader_wakes :
        (m : Clocked) (d : Device)
        → get_elem? m.timer.dev_list ld_event ≡ some d
        → d.phase ≡ signalled
        → d.done ≡ false
        → ClockedStep m (record m {
          timer = set_device m.timer ld_event (record d { phase = working; slots = d.slots + 1 });
        })
    loader_detaches :
        (m : Clocked) (d : Device)
        → get_elem? m.timer.dev_list ld_event ≡ some d
        → d.phase ≡ working
        → m.ld.point ≡ ended
        → ClockedStep m (record m {
          timer = set_device m.timer ld_event (record d { fsh = true; phase = detached });
        })
    timer_moves :
        (m : Clocked) (t' : Timer)
        → timer_step m.timer ≡ some t'
        → m.timer.time + 1 < 2 ^ 64
        → ClockedStep m (record m { timer = t' })
    stops :
        (m : Clocked)
        → AreDetached m.timer.dev_list
        → ClockedStep m (record m { timer = record (m.timer) { timer_stop = true } })

  pub data ClockedRuns (m : Clocked) : Clocked → Type 0 where
    at_start : ClockedRuns m m
    one_more : {m' m'' : Clocked} → ClockedRuns m m' → ClockedStep m' m'' → ClockedRuns m m''

  -- The instructions that the CPU `j` runs in a step, and in a run.
  pub executes : ℕ → {m m' : Clocked} → ClockedStep m m' → ℕ
  executes j (cpu_moves m i c c' d shared' at at' w e s) =
      if is_running c.point && (i == j) then 1 else 0
  executes j (cpu_waits m i c d at at' w e) = 0
  executes j (cpu_wakes m i c c' d shared' at at' w e s) = 0
  executes j (cpu_detaches m i c d at at' w e) = 0
  executes j (loader_moves m p g mm shared' ld' d at w fresh e s) = 0
  executes j (loader_waits m d at w e) = 0
  executes j (loader_wakes m d at w e) = 0
  executes j (loader_detaches m d at w e) = 0
  executes j (timer_moves m t' s h) = 0
  executes j (stops m all) = 0

  pub executed : ℕ → {m m' : Clocked} → ClockedRuns m m' → ℕ
  unfolding executes
  executed j at_start = 0
  executed j (one_more r s) = executed j r + executes j s

-- The program as `main` starts its threads, with `n` CPUs.
unfoldable pub start_clocked : ℕ → Caller → Clocked
start_clocked n krnl = record {
  os = boot n krnl;
  ld = record { point = loop_test; i = 0; avail_pid = 1 };
  timer = Timer.start (n + 1);
}
