-- ===== src/Boot/Clocked/Over.antt =====
-- What the end of the timer says of the threads.
use os_to_read.Base.{ℕ, ◌+◌, ◌≡◌, subst, true, some, get_elem?, arith}
use os_to_read.Base.Int.{ℤ}
use os_to_read.Libmem.{Caller}
use os_to_read.Os.{Cpu, stopped}
use os_to_read.Timer
use os_to_read.Timer.{detached, Phase}
use os_to_read.Timer.Ending.{ended_only}
use os_to_read.Timer.Steps.{AreDetached-get_elem?}
use os_to_read.Loader.{Stdio}
use os_to_read.Boot.{LdArgs, ended}
use os_to_read.Boot.Loads.{CountsTo, Runs-Follows}
use os_to_read.Boot.Clocked.{Clocked, cpu_event, ld_event, ClockedRuns, start_clocked}
use os_to_read.Boot.Clocked.Refines.{clocked_refines}
use os_to_read.Boot.Clocked.Linked.{Agrees}
use os_to_read.Boot.Clocked.Kept.{has_device, ClockedRuns-IsLinked}
use os_to_read.Boot.Clocked.Paced.{cpu_event_le}

-- When the timer has ended, every CPU has stopped, and the loader has added all processes of the
-- configuration and has set `done`: no thread is left to wait for a slot.
pub all_over :
    {F : Type 0} (io : Stdio F) (args : LdArgs) (n : ℕ) (time_slot : ℤ) (krnl : Caller)
    {m : Clocked}
    → ClockedRuns io args n time_slot (start_clocked n krnl) m
    → m.timer.point ≡ Timer.ended
    → ((j : ℕ) (c : Cpu) → get_elem? m.os.cpus j ≡ some c → c.point ≡ stopped)
      × (m.ld.point ≡ ended)
      × (m.ld.i ≡ args.num_processes)
      × (m.os.shared.done ≡ true)
all_over io args n time_slot krnl {m} r over =
    let linked = ClockedRuns-IsLinked io args n time_slot krnl r in
    let both = clocked_refines io args time_slot n krnl r in
    let gone = ended_only (n + 1) both.1 over in
    let own = has_device io args n time_slot krnl r ld_event (omega arith) in
    let at_end = linked.loader own.0 own.1 (AreDetached-get_elem? _ ld_event own.0 own.1 gone) in
    let count =
      subst (CountsTo args.num_processes m.os.shared.done m.ld.i) at_end
        (Runs-Follows io args time_slot n krnl both.0).1.count in
    (
      (λ j c at.
          let mine = has_device io args n time_slot krnl r (cpu_event n j) (cpu_event_le n j) in
          let left = AreDetached-get_elem? _ (cpu_event n j) mine.0 mine.1 gone in
          subst (λ p. Agrees p c.point) left (linked.cpus j c mine.0 at mine.1).agrees),
      at_end,
      count.1,
      count.0,
    )
