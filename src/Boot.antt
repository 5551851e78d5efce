-- ===== src/Boot.antt =====
-- The loader thread and the start of the threads in src/os.c: `ld_routine` as a thread of its own, beside
-- the CPUs of `Os`. The functions of stdio, the addresses that `malloc` gives and the current time are
-- parameters of its steps.
pub mod Loads
pub mod Ends
pub mod Due
pub mod Config
pub mod Clocked
pub mod Dirs
mod Tests
use os_to_read.Base.{
  ◌<◌, ℕ, zero, suc, ◌+◌, ◌%◌, ◌^◌, Bool, true, false, Option, none, some, List, if◌then◌else◌, ltb,
  ◌≡◌, get_elem?, set, update,
}
use os_to_read.Base.Int.{ℤ}
use os_to_read.Base.Access.{Access, ok, err, fault, ◌>>=◌}
use os_to_read.Mm.{Mm}
use os_to_read.Cpu.{Pcb}
use os_to_read.Sched.{add_proc}
use os_to_read.Os.{Cpu, Shared, Os, cpu_step}
use os_to_read.Loader.{Stdio, Garbage, load}

-- `ld_processes` and `num_processes`.
pub record LdArgs : Type 0 where
  pub path : List (List ℕ)
  pub start_time : List ℕ
  pub prio : List ℕ
  pub num_processes : ℕ

-- Where `ld_routine` stands: before the test of its loop; with a process that it has loaded, in the loop
-- that waits for its time; before `add_proc`; after `done = 1`.
pub data LdPoint : Type 0 where
  loop_test : LdPoint
  waits : (p : ℕ) (pcb : Pcb) → LdPoint
  adds : (p : ℕ) (pcb : Pcb) → LdPoint
  ended : LdPoint

pub record Ld : Type 0 where
  pub point : LdPoint
  pub i : ℕ
  pub avail_pid : ℕ

-- `ld_processes.x[i]`
pub entry {ℓ} : {A : Type ℓ} → List A → ℕ → Access A
entry l i = elim (get_elem? l i) [ none ↦ fault | some a ↦ ok a ]

-- The loop with `next_slot`, and `init_mm` behind it.
pub ld_wait : LdArgs → Shared → Ld → ℕ → Pcb → ℕ → Mm → Access (Shared × Ld)
unfolding entry
ld_wait args sh ld p pcb now mm = do
  start ← entry args.start_time ld.i
  ok (
      if ltb now start
      then (sh, ld)
      else (record sh { krnl = record (sh.krnl) { mm = mm } }, record ld { point = adds p pcb }))

pub ld_add : Shared → Ld → ℕ → Pcb → Shared × Ld
ld_add sh ld p pcb = (
  record sh {
    sched = add_proc (λ q. pcb.prio) (some p) sh.sched;
    procs = update sh.procs p (some pcb);
  },
  record ld { point = loop_test; i = ld.i + 1 },
)

-- The CPUs with what they share, the loader, and the time that `current_time` returns.
pub record Machine : Type 0 where
  pub os : Os
  pub ld : Ld
  pub time : ℕ

module _ {F : Type 0} (io : Stdio F) (args : LdArgs) where
  -- `load(ld_processes.path[i])`, into memory at `p`, and its priority.
  pub ld_load : Ld → ℕ → Garbage → Access Ld
  unfolding entry
  ld_load ld p g = do
    path ← entry args.path ld.i
    loaded ← load io path g ld.avail_pid
    prio ← entry args.prio ld.i
    ok (record ld {
      point = waits p (record (loaded.0) { prio = prio % 2 ^ 32 });
      avail_pid = loaded.1;
    })

  pub ld_at : Shared → Ld → LdPoint → ℕ → ℕ → Garbage → Mm → Access (Shared × Ld)
  unfolding ld_load ld_wait ld_add
  ld_at sh ld loop_test now p g mm =
      if ltb ld.i args.num_processes
      then (do ld' ← ld_load ld p g; ok (sh, ld'))
      else ok (record sh { done = true }, record ld { point = ended })
  ld_at sh ld (waits q pcb) now p g mm = ld_wait args sh ld q pcb now mm
  ld_at sh ld (adds q pcb) now p g mm = ok (ld_add sh ld q pcb)
  ld_at sh ld ended now p g mm = err

  -- A step of `ld_routine` at the time `now`: `p` is the address of a new process and `g` what its
  -- memory holds, `mm` is the fresh structure for `init_mm`.
  pub ld_step : Shared → Ld → ℕ → ℕ → Garbage → Mm → Access (Shared × Ld)
  unfolding ld_at
  ld_step sh ld now p g mm = ld_at sh ld ld.point now p g mm

  -- The CPUs, the loader and the clock in any order, up to the slot 2 ^ 64 - 1. `malloc` gives an address
  -- that no process has.
  pub data MachineStep (time_slot : ℤ) : Machine → Machine → Type 0 where
    cpu_moves :
        (m : Machine) (i : ℕ) (c c' : Cpu) (shared' : Shared)
        → get_elem? m.os.cpus i ≡ some c
        → cpu_step time_slot m.os.shared c ≡ ok (shared', c')
        → MachineStep time_slot m
            (record m { os = record { shared = shared'; cpus = set m.os.cpus i c' } })
    loader_moves :
        (m : Machine) (p : ℕ) (g : Garbage) (mm : Mm) (shared' : Shared) (ld' : Ld)
        → m.os.shared.procs p ≡ none
        → ld_step m.os.shared m.ld m.time p g mm ≡ ok (shared', ld')
        → MachineStep time_slot m (record m { os = record (m.os) { shared = shared' }; ld = ld' })
    ticks :
        (m : Machine)
        → m.time + 1 < 2 ^ 64
        → MachineStep time_slot m (record m { time = m.time + 1 })

  pub data Runs (time_slot : ℤ) (m : Machine) : Machine → Type 0 where
    no_step : Runs time_slot m m
    then_step :
        {m' m'' : Machine}
        → Runs time_slot m m'
        → MachineStep time_slot m' m''
        → Runs time_slot m m''
