-- ===== src/Os/Exclusion.antt =====
-- No process is with two CPUs, or with a CPU and in a ready queue, and a CPU never has a process that
-- was freed.
use os_to_read.Base.{
  ℕ, zero, suc, ◌+◌, ◌-◌, ◌≤◌, ◌≡◌, ◌≢◌, refl, false, Option, none, some, List, [], ◌∷◌, arith,
  get_elem?, set,
}
use os_to_read.Base.Int.{ℤ}
use os_to_read.Base.Access.{ok}
use os_to_read.Libmem.{Caller}
use os_to_read.Cpu.{Pcb}
use os_to_read.Sched.{max_prio, init_scheduler}
use os_to_read.Sched.Inv.{IsReady, zeroed, init_scheduler-IsReady}
use os_to_read.Os.{
  Cpu, Shared, cpu_step, start_cpu, Os, Step, cpu, init_mm, load, finish, Reachable, here, next,
}
use os_to_read.Os.Places.{total, count, has, held, held-set, held-one, held-two, add_proc-Put}
use os_to_read.Os.Keeps.{alive, alive_le, cpu_step-Keeps, loaded_places}

-- The ready queues hold the lists `ls`, and the places of a process, queues and CPUs together, are at
-- most one, and none once it is freed.
pub record IsConsistent (os : Os) : Type 0 where
  pub ls : ℕ → List ℕ
  pub ready : IsReady os.shared.sched ls
  pub once : (q : ℕ) → total max_prio ls q + held os.cpus q ≤ alive (os.shared.procs q)

cpu-IsConsistent :
    (time_slot : ℤ) (os : Os) (i : ℕ) (c c' : Cpu) (shared' : Shared)
    → get_elem? os.cpus i ≡ some c
    → cpu_step time_slot os.shared c ≡ ok (shared', c')
    → IsConsistent os
    → IsConsistent (record { shared = shared'; cpus = set os.cpus i c' })
cpu-IsConsistent time_slot os i c c' shared' at e k =
    let kept = cpu_step-Keeps time_slot os.shared c k.ready e in
    record {
      ls = kept.ls';
      ready = kept.ready;
      once = λ q.
          let moved = held-set os.cpus i c' q at in
          let mine : has c.proc q ≤ held os.cpus q = held-one os.cpus i q at in
          let others : total max_prio k.ls q + has c.proc q + (held os.cpus q - has c.proc q)
              ≤ alive (os.shared.procs q) =
            omega (arith, k.once q, mine) in
          omega (arith, kept.frame q (held os.cpus q - has c.proc q) others, moved, mine);
    }

Step-IsConsistent :
    {time_slot : ℤ} {os os' : Os} → Step time_slot os os' → IsConsistent os → IsConsistent os'
Step-IsConsistent (cpu os i c c' shared' at e) k = cpu-IsConsistent _ os i c c' shared' at e k
Step-IsConsistent (init_mm os mm) k = record { ls = k.ls; ready = k.ready; once = k.once }
Step-IsConsistent (load os p pcb fresh) k =
    let put = add_proc-Put (λ q. pcb.prio) p k.ready in
    record {
      ls = put.ls';
      ready = put.ready;
      once = λ q. loaded_places os.shared.procs p q _ _ _ pcb fresh (put.bound q) (k.once q);
    }
Step-IsConsistent (finish os) k = record { ls = k.ls; ready = k.ready; once = k.once }

-- What is so in the beginning and after every step.
pub Reachable-IsConsistent :
    {time_slot : ℤ} {os os' : Os} → Reachable time_slot os os' → IsConsistent os → IsConsistent os'
Reachable-IsConsistent here k = k
Reachable-IsConsistent (next r s) k = Step-IsConsistent s (Reachable-IsConsistent r k)

-- `n` CPUs at the start.
abbrev pub start_cpus : ℕ → List Cpu
start_cpus zero = []
start_cpus (suc n) = start_cpu ∷ start_cpus n

-- The start of the threads: the scheduler is initialised, and no process is loaded.
abbrev pub boot : ℕ → Caller → Os
boot n krnl = record {
  shared = record { sched = init_scheduler zeroed; procs = λ p. none; krnl = krnl; done = false };
  cpus = start_cpus n;
}

held-start : (n q : ℕ) → held (start_cpus n) q ≡ 0
unfolding held has
held-start zero q = refl
held-start (suc n) q = omega (arith, held-start n q)

total-empty : (n q : ℕ) → total n (λ i. []) q ≡ 0
unfolding total count
total-empty zero q = refl
total-empty (suc n) q = omega (arith, total-empty n q)

boot-IsConsistent : (n : ℕ) (krnl : Caller) → IsConsistent (boot n krnl)
boot-IsConsistent n krnl = record {
  ls = λ i. [];
  ready = init_scheduler-IsReady.0;
  once = λ q. omega (arith, held-start n q, total-empty max_prio q);
}

has_self : (c : Cpu) (p : ℕ) → c.proc ≡ some p → has c.proc p ≡ 1
unfolding has
has_self c p e = rw e (ground arith)

alive-some : (o : Option Pcb) → 1 ≤ alive o → (pcb : Pcb) × (o ≡ some pcb)
unfolding alive
alive-some none h = absurd (omega arith)
alive-some (some pcb) h = (pcb, refl)

-- In every state that the CPUs and the loader can reach, in whatever order they take their steps: a
-- process that a CPU has is a loaded process that was not freed, it is in no ready queue, and no other
-- CPU has it.
pub exclusive :
    (n : ℕ) (krnl : Caller) {time_slot : ℤ} {os : Os} {c : Cpu} (i p : ℕ)
    → Reachable time_slot (boot n krnl) os
    → get_elem? os.cpus i ≡ some c
    → c.proc ≡ some p
    → ((pcb : Pcb) × (os.shared.procs p ≡ some pcb))
      × ((ls : ℕ → List ℕ) × IsReady os.shared.sched ls × (total max_prio ls p ≡ 0))
      × ((j : ℕ) (d : Cpu) → i ≢ j → get_elem? os.cpus j ≡ some d → d.proc ≢ some p)
exclusive n krnl {os = os} {c = c} i p r at e =
    let k = Reachable-IsConsistent r (boot-IsConsistent n krnl) in
    let mine = has_self c p e in
    let one = held-one os.cpus i p at in
    let bound = alive_le (os.shared.procs p) in
    (
      alive-some (os.shared.procs p) (omega (arith, k.once p, one, mine)),
      (k.ls, k.ready, omega (arith, k.once p, one, mine, bound)),
      (λ j d ne at' e'.
          omega (arith, held-two os.cpus i j p ne at at', has_self d p e', mine, k.once p, bound)),
    )
