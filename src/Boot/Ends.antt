-- ===== src/Boot/Ends.antt =====
-- When the CPUs stop: only after the loader has added all processes.
use os_to_read.Base.{
  ℕ, zero, suc, Bool, true, some, ◌≡◌, ◌≢◌, refl, sym, ap, ◌∙◌, inl, inr, ◌⊎◌, get_elem?,
  get_elem?-set_cases,
}
use os_to_read.Base.Int.{ℤ}
use os_to_read.Libmem.{Caller}
use os_to_read.Os.{
  Point, top, finished, put_back, loaded, idle, slot, running, stopped, Cpu, Os, Step, Reachable,
  here, next, cpu, init_mm, load, finish, start_cpu,
}
use os_to_read.Os.Alone.{cpu_step-LeavesAlone}
use os_to_read.Os.Exclusion.{start_cpus}
use os_to_read.Os.Stopping.{stops_only}
use os_to_read.Loader.{Stdio}
use os_to_read.Boot.{LdArgs, LdPoint, loop_test, waits, adds, ended, Machine, Runs}
use os_to_read.Boot.Loads.{CountsTo, start_machine, Runs-Follows}

stopped_cases : (p : Point) → (p ≡ stopped) ⊎ (p ≢ stopped)
stopped_cases stopped = inl refl
stopped_cases top = inr (λ e. cc e)
stopped_cases finished = inr (λ e. cc e)
stopped_cases put_back = inr (λ e. cc e)
stopped_cases loaded = inr (λ e. cc e)
stopped_cases idle = inr (λ e. cc e)
stopped_cases slot = inr (λ e. cc e)
stopped_cases running = inr (λ e. cc e)

-- A CPU has stopped only if `done` is set.
abbrev StoppedDone : Os → Type 0
StoppedDone os =
    (j : ℕ) (c : Cpu) → get_elem? os.cpus j ≡ some c → c.point ≡ stopped → os.shared.done ≡ true

pub start_cpus-top : (n j : ℕ) (c : Cpu) → get_elem? (start_cpus n) j ≡ some c → c.point ≡ top
start_cpus-top zero j c e = absurd (cc e)
start_cpus-top (suc n) zero c e =
    let same : start_cpu ≡ c = cc e in ap (λ (x : Cpu). x.point) (sym same)
start_cpus-top (suc n) (suc j) c e = start_cpus-top n j c e

Step-StoppedDone :
    {time_slot : ℤ} {os os' : Os} → Step time_slot os os' → StoppedDone os → StoppedDone os'
Step-StoppedDone {time_slot} (cpu os i c c' sh' at e) k j x at' end =
    let same = (cpu_step-LeavesAlone time_slot os.shared c e).1 in
    elim (get_elem?-set_cases os.cpus i j at at') [
      | inr other ↦ same ∙ k j x other.1 end
      | inl mine ↦ elim (stopped_cases c.point) [
        | inl before ↦ same ∙ k i c at before
        | inr going ↦
            let why =
              stops_only time_slot os.shared c going e (ap (λ (y : Cpu). y.point) mine.1 ∙ end) in
            same ∙ why.0
      ]
    ]
Step-StoppedDone (init_mm os mm) k j x at end = k j x at end
Step-StoppedDone (load os p pcb free) k j x at end = k j x at end
Step-StoppedDone (finish os) k j x at end = refl

Reachable-StoppedDone :
    {time_slot : ℤ} {os os' : Os} → Reachable time_slot os os' → StoppedDone os → StoppedDone os'
Reachable-StoppedDone here k = k
Reachable-StoppedDone (next r s) k = Step-StoppedDone s (Reachable-StoppedDone r k)

all_added :
    (n : ℕ) (done : Bool) (i : ℕ) (point : LdPoint)
    → done ≡ true
    → CountsTo n done i point
    → (point ≡ ended) × (i ≡ n)
all_added n done i loop_test e k = absurd (cc (e, k.0))
all_added n done i (waits p pcb) e k = absurd (cc (e, k.0))
all_added n done i (adds p pcb) e k = absurd (cc (e, k.0))
all_added n done i ended e k = (refl, k.1)

-- When `done` is set, the loader has added every process of the configuration and has ended.
pub done_after_all :
    {F : Type 0} (io : Stdio F) (args : LdArgs) (time_slot : ℤ) (n : ℕ) (krnl : Caller)
    {m : Machine}
    → Runs io args time_slot (start_machine n krnl) m
    → m.os.shared.done ≡ true
    → (m.ld.point ≡ ended) × (m.ld.i ≡ args.num_processes)
done_after_all io args time_slot n krnl {m} r done =
    let orderly = (Runs-Follows io args time_slot n krnl r).1 in
    all_added args.num_processes m.os.shared.done m.ld.i m.ld.point done orderly.count

-- When a CPU has stopped, the loader has added every process of the configuration and has ended.
pub stopped_after_all :
    {F : Type 0} (io : Stdio F) (args : LdArgs) (time_slot : ℤ) (n j : ℕ) (krnl : Caller)
    {m : Machine} {c : Cpu}
    → Runs io args time_slot (start_machine n krnl) m
    → get_elem? m.os.cpus j ≡ some c
    → c.point ≡ stopped
    → (m.ld.point ≡ ended) × (m.ld.i ≡ args.num_processes)
stopped_after_all io args time_slot n j krnl {m} {c} r at end =
    let reached = (Runs-Follows io args time_slot n krnl r).0 in
    done_after_all io args time_slot n krnl r (
      Reachable-StoppedDone reached (λ i x at' end'. absurd (cc (start_cpus-top n i x at', end'))) j
        c at end)
