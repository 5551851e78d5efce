-- ===== src/Os.antt =====
-- The CPU threads of src/os.c and the shared state they work on, as a step relation. A step makes at
-- most one access to the scheduler, which its lock makes atomic, or runs one instruction. The timer
-- only orders the steps, so that every order is allowed here.
pub mod Places
pub mod Keeps
pub mod Alone
pub mod Exclusion
pub mod Slice
pub mod Idling
pub mod Stopping
pub mod Entering
pub mod Late
mod Tests
use os_to_read.Base.{
  ℕ, zero, suc, Bool, true, false, ◌&&◌, Option, none, some, List, if◌then◌else◌, ◌==◌, ◌≡◌,
  get_elem?, set, update,
}
use os_to_read.Base.Int.{ℤ, pos, negsuc}
use os_to_read.Base.Access.{Access, ok, err, fault, ◌>>=◌}
use os_to_read.Mm.{Mm}
use os_to_read.Libmem.{Caller}
use os_to_read.Cpu.{Pcb, run}
use os_to_read.Sched.{Sched, get_proc, put_proc, add_proc}

-- Where a CPU stands in the loop of `cpu_routine`.
pub data Point : Type 0 where
  -- the head of the loop
  top : Point
  -- after `free(proc)`, before `get_proc`
  finished : Point
  -- after `put_proc(proc)`, before `get_proc`
  put_back : Point
  -- before the status is checked again
  loaded : Point
  -- in the `next_slot` of a CPU without a process
  idle : Point
  -- in the `next_slot` before `run`
  slot : Point
  -- before `run`
  running : Point
  stopped : Point

-- The variables of `cpu_routine`. Between `free` or `put_proc` and the next `get_proc` the code does
-- not read `proc`, which is `none` there.
pub record Cpu : Type 0 where
  pub point : Point
  pub proc : Option ℕ
  pub time_left : ℤ

-- What the threads share: the scheduler, the processes by address, the memory of the kernel structure
-- `os`, which all processes point to, and `done`.
pub record Shared : Type 0 where
  pub sched : Sched
  pub procs : ℕ → Option Pcb
  pub krnl : Caller
  pub done : Bool

unfoldable pub is_zero : ℤ → Bool
is_zero (pos n) = n == 0
is_zero (negsuc n) = false

-- `time_left--`
unfoldable pub decrement : ℤ → ℤ
decrement (pos zero) = negsuc 0
decrement (pos (suc n)) = pos n
decrement (negsuc n) = negsuc (suc n)

-- `proc = get_proc()` on the way to the second check.
unfoldable pub fetch_proc : Shared → Cpu → Shared × Cpu
fetch_proc sh c = (
  record sh { sched = (get_proc sh.sched).1 },
  record c { point = loaded; proc = (get_proc sh.sched).0 },
)

-- The first load: a CPU that gets no process goes on to the next slot, and does not look at `done`.
unfoldable pub first_check : Cpu → Option ℕ → Cpu
first_check c none = record c { point = idle; proc = none }
first_check c (some p) = record c { point = loaded; proc = some p }

unfoldable pub first_load : Shared → Cpu → Shared × Cpu
unfolding first_check
first_load sh c =
    (record sh { sched = (get_proc sh.sched).1 }, first_check c ((get_proc sh.sched).0))

-- The status of the process that the CPU has.
unfoldable pub check_status : Shared → Cpu → ℕ → Pcb → Shared × Cpu
unfolding is_zero
check_status sh c p pcb =
    if pcb.pc == pcb.code.size
    then (record sh { procs = update sh.procs p none }, record c { point = finished; proc = none })
    else (if is_zero c.time_left
        then (
          record sh { sched = put_proc (λ q. pcb.prio) (some p) sh.sched },
          record c { point = put_back; proc = none },
        )
        else (sh, record c { point = loaded }))

-- The process is read through the pointer.
unfoldable pub deref : Option Pcb → Access Pcb
deref none = fault
deref (some pcb) = ok pcb

unfoldable pub at_top : Shared → Cpu → Option ℕ → Access (Shared × Cpu)
unfolding first_load check_status deref
at_top sh c none = ok (first_load sh c)
at_top sh c (some p) = do pcb ← deref (sh.procs p); ok (check_status sh c p pcb)

unfoldable pub at_loaded : ℤ → Bool → Cpu → Option ℕ → Cpu
unfolding is_zero
at_loaded time_slot done c none =
    if done then record c { point = stopped } else record c { point = idle }
at_loaded time_slot done c (some p) =
    if is_zero c.time_left
    then record c { point = slot; time_left = time_slot }
    else record c { point = slot }

-- `run(proc)`; the status is dropped.
unfoldable pub run_proc : Shared → Cpu → ℕ → Pcb → Access (Shared × Cpu)
unfolding decrement
run_proc sh c p pcb = do
  ran ← run pcb sh.krnl
  ok (
    record sh { procs = update sh.procs p (some (ran.1)); krnl = ran.2 },
    record c { point = top; time_left = decrement c.time_left },
  )

unfoldable pub at_running : Shared → Cpu → Option ℕ → Access (Shared × Cpu)
unfolding run_proc deref
at_running sh c none = fault
at_running sh c (some p) = do pcb ← deref (sh.procs p); run_proc sh c p pcb

unfoldable pub at_point : ℤ → Shared → Cpu → Point → Access (Shared × Cpu)
unfolding at_top fetch_proc at_loaded at_running
at_point time_slot sh c top = at_top sh c c.proc
at_point time_slot sh c finished = ok (fetch_proc sh (record c { time_left = pos 0 }))
at_point time_slot sh c put_back = ok (fetch_proc sh c)
at_point time_slot sh c loaded = ok (sh, at_loaded time_slot sh.done c c.proc)
at_point time_slot sh c idle = ok (sh, record c { point = top })
at_point time_slot sh c slot = ok (sh, record c { point = running })
at_point time_slot sh c running = at_running sh c c.proc
at_point time_slot sh c stopped = ok (sh, c)

-- One step of a CPU.
unfoldable pub cpu_step : ℤ → Shared → Cpu → Access (Shared × Cpu)
unfolding at_point
cpu_step time_slot sh c = at_point time_slot sh c c.point

-- A CPU at the start of `cpu_routine`.
abbrev pub start_cpu : Cpu
start_cpu = record { point = top; proc = none; time_left = pos 0 }

pub record Os : Type 0 where
  pub shared : Shared
  pub cpus : List Cpu

-- The steps of a CPU, and those of the loader: `mm` is a fresh structure, in which `init_mm` sets
-- nothing that the rest of the program reads; the process that is added is at an address that `malloc`
-- gave it, so none of the others has it; `done` is set at the end. The steps of the loader are possible
-- in every state here, more often than `ld_routine` takes them: that is for what holds in every state
-- that is reached. `Boot` has the loader with its own order.
pub data Step (time_slot : ℤ) : Os → Os → Type 0 where
  cpu :
      (os : Os) (i : ℕ) (c c' : Cpu) (shared' : Shared)
      → get_elem? os.cpus i ≡ some c
      → cpu_step time_slot os.shared c ≡ ok (shared', c')
      → Step time_slot os (record { shared = shared'; cpus = set os.cpus i c' })
  init_mm :
      (os : Os) (mm : Mm)
      → Step time_slot os
          (record os { shared = record (os.shared) { krnl = record (os.shared.krnl) { mm = mm } } })
  load :
      (os : Os) (p : ℕ) (pcb : Pcb)
      → os.shared.procs p ≡ none
      → Step time_slot os (record os {
        shared = record (os.shared) {
          sched = add_proc (λ q. pcb.prio) (some p) os.shared.sched;
          procs = update os.shared.procs p (some pcb);
        };
      })
  finish : (os : Os) → Step time_slot os (record os { shared = record (os.shared) { done = true } })

pub data Reachable (time_slot : ℤ) (os : Os) : Os → Type 0 where
  here : Reachable time_slot os os
  next :
      {os' os'' : Os}
      → Reachable time_slot os os'
      → Step time_slot os' os''
      → Reachable time_slot os os''
