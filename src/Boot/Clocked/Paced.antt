-- ===== src/Boot/Clocked/Paced.antt =====
-- How many instructions the CPUs run.
use os_to_read.Base.{ℕ, ◌+◌, ◌≤◌, ◌≡◌, ◌≢◌, some, get_elem?, arith}
use os_to_read.Base.Int.{ℤ}
use os_to_read.Libmem.{Caller}
use os_to_read.Os.{Cpu}
use os_to_read.Timer.{detached, Device}
use os_to_read.Timer.Barrier.{barrier}
use os_to_read.Loader.{Stdio}
use os_to_read.Boot.{LdArgs}
use os_to_read.Boot.Clocked.{Clocked, cpu_event, ClockedRuns, executed, start_clocked}
use os_to_read.Boot.Clocked.Refines.{clocked_refines}
use os_to_read.Boot.Clocked.Kept.{has_device, ClockedRuns-IsLinked}

pub cpu_event_le : (n j : ℕ) → cpu_event n j ≤ n
unfolding cpu_event
cpu_event_le n j = omega arith

-- In every run of the program, in whatever order the threads take their steps, the instructions that
-- the CPU `j` has run are at most the slots that any thread that has not ended has taken, and one more:
-- a CPU runs at most one instruction in a slot, and none ahead of the other threads.
pub paced :
    {F : Type 0} (io : Stdio F) (args : LdArgs) (n : ℕ) (time_slot : ℤ) (krnl : Caller) (j i : ℕ)
    {m : Clocked} {c : Cpu} {d : Device}
    (r : ClockedRuns io args n time_slot (start_clocked n krnl) m)
    → get_elem? m.os.cpus j ≡ some c
    → get_elem? m.timer.dev_list i ≡ some d
    → d.phase ≢ detached
    → executed io args n time_slot j r ≤ d.slots + 1
paced io args n time_slot krnl j i {m} {c} {d} r at at' attached =
    let linked = ClockedRuns-IsLinked io args n time_slot krnl r in
    let own = has_device io args n time_slot krnl r (cpu_event n j) (cpu_event_le n j) in
    let link = linked.cpus j c own.0 at own.1 in
    let reached = (clocked_refines io args time_slot n krnl r).1 in
    omega (arith, link.paced, barrier (n + 1) (cpu_event n j) i reached own.1 at' attached)
