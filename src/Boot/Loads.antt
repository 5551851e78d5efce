-- ===== src/Boot/Loads.antt =====
-- The loader thread only takes the steps that `Os.Step` allows it, and what its order gives.
use os_to_read.Base.{
  ℕ, ◌≤◌, ◌<◌, Bool, true, false, Option, none, ltb, ◌≡◌, refl, sym, subst, inl, inr, arith,
  Bool-cases,
}
use os_to_read.Base.Int.{ℤ}
use os_to_read.Base.Access.{ok, Holds, Holds-bind, Holds-self}
use os_to_read.Mm.{Mm}
use os_to_read.Libmem.{Caller}
use os_to_read.Cpu.{Pcb}
use os_to_read.Os.{Shared, Os, Reachable, here, next, cpu, init_mm, load, finish}
use os_to_read.Os.Alone.{cpu_step-LeavesAlone}
use os_to_read.Os.Exclusion.{boot}
use os_to_read.Loader
use os_to_read.Loader.{Stdio, Garbage}
use os_to_read.Boot.{
  LdArgs, LdPoint, loop_test, waits, adds, ended, Ld, entry, ld_load, ld_wait, ld_add, ld_at,
  ld_step, Machine, MachineStep, cpu_moves, loader_moves, ticks, Runs, no_step, then_step,
}

-- The address that the loader has for its next process is still no process of the machine.
abbrev pub FreshAt : (ℕ → Option Pcb) → LdPoint → Type 0
FreshAt procs loop_test = Unit {0}
FreshAt procs (waits p pcb) = procs p ≡ none
FreshAt procs (adds p pcb) = procs p ≡ none
FreshAt procs ended = Unit

-- `done` is set when the processes have all been added.
abbrev pub CountsTo : ℕ → Bool → ℕ → LdPoint → Type 0
CountsTo n done i loop_test = (done ≡ false) × (i ≤ n)
CountsTo n done i (waits p pcb) = (done ≡ false) × (i < n)
CountsTo n done i (adds p pcb) = (done ≡ false) × (i < n)
CountsTo n done i ended = (done ≡ true) × (i ≡ n)

pub record IsOrderly (n : ℕ) (sh : Shared) (ld : Ld) : Type 0 where
  pub fresh : FreshAt sh.procs ld.point
  pub count : CountsTo n sh.done ld.i ld.point

FreshAt-kept :
    {procs procs' : ℕ → Option Pcb} (point : LdPoint)
    → ((q : ℕ) → procs q ≡ none → procs' q ≡ none)
    → FreshAt procs point
    → FreshAt procs' point
FreshAt-kept loop_test k h = tt
FreshAt-kept (waits p pcb) k h = k p h
FreshAt-kept (adds p pcb) k h = k p h
FreshAt-kept ended k h = tt

-- A loaded process waits at the address that it was given.
module _ {F : Type 0} (io : Stdio F) (args : LdArgs) where
  pub ld_load-keeps :
      (ld : Ld) (p : ℕ) (g : Garbage)
      → Holds
          (λ ld'. (pcb : Pcb) × (ld'.point ≡ waits p pcb) × (ld'.i ≡ ld.i))
          (ld_load io args ld p g)
  unfolding ld_load
  ld_load-keeps ld p g =
      let Loaded : Ld → Type 0 = λ ld'. (pcb : Pcb) × (ld'.point ≡ waits p pcb) × (ld'.i ≡ ld.i) in
      Holds-bind (λ path. entry args.path ld.i ≡ ok path) Loaded _ _
        (Holds-self (entry args.path ld.i))
        (λ path e.
          Holds-bind (λ r. Loader.load io path g ld.avail_pid ≡ ok r) Loaded _ _
            (Holds-self (Loader.load io path g ld.avail_pid))
            (λ r e'.
              Holds-bind (λ prio. entry args.prio ld.i ≡ ok prio) Loaded _ _
                (Holds-self (entry args.prio ld.i)) (λ prio e''. (_, refl, refl))))

module _ {F : Type 0} (io : Stdio F) (args : LdArgs) (time_slot : ℤ) where
  -- What a step of the loader comes to for the CPUs, and that it keeps the invariant.
  abbrev Follows : Os → Shared × Ld → Type 0
  Follows os r =
      Reachable time_slot os (record os { shared = r.0 }) × IsOrderly args.num_processes r.0 r.1

  loop_test-Follows :
      (os : Os) (ld : Ld) (p : ℕ) (g : Garbage) (now : ℕ) (mm : Mm)
      → os.shared.procs p ≡ none
      → os.shared.done ≡ false
      → ld.i ≤ args.num_processes
      → Holds (Follows os) (ld_at io args os.shared ld loop_test now p g mm)
  unfolding ld_at
  loop_test-Follows os ld p g now mm fresh undone le =
      elim (Bool-cases (ltb ld.i args.num_processes)) [
        | inl more ↦ rw more (
            Holds-bind (λ ld'. (pcb : Pcb) × (ld'.point ≡ waits p pcb) × (ld'.i ≡ ld.i))
              (Follows os) (ld_load io args ld p g) _ (ld_load-keeps io args ld p g)
              (λ ld' k. (
                here,
                record {
                  fresh = rw (k.1) fresh;
                  count = rw (k.1, k.2) (undone, ground (arith, more));
                },
              )))
        | inr last ↦
            rw last (
              next here (finish os),
              record { fresh = tt; count = (refl, ground (arith, le, last)) },
            )
      ]

  waits-Follows :
      (os : Os) (ld : Ld) (p : ℕ) (pcb : Pcb) (now : ℕ) (mm : Mm)
      → ld.point ≡ waits p pcb
      → IsOrderly args.num_processes os.shared ld
      → Holds (Follows os) (ld_wait args os.shared ld p pcb now mm)
  unfolding ld_wait
  waits-Follows os ld p pcb now mm at k =
      Holds-bind (λ start. entry args.start_time ld.i ≡ ok start) (Follows os) _ _
        (Holds-self (entry args.start_time ld.i))
        (λ start e. elim (Bool-cases (ltb now start)) [
          | inl early ↦ rw early (here, k)
          | inr due ↦ rw due (
            next here (init_mm os mm),
            record {
              fresh = subst (FreshAt os.shared.procs) at k.fresh;
              count = subst (CountsTo args.num_processes os.shared.done ld.i) at k.count;
            },
          )
        ])

  adds-Follows :
      (os : Os) (ld : Ld) (p : ℕ) (pcb : Pcb)
      → ld.point ≡ adds p pcb
      → IsOrderly args.num_processes os.shared ld
      → Follows os (ld_add os.shared ld p pcb)
  unfolding ld_add
  adds-Follows os ld p pcb at k =
      let count = subst (CountsTo args.num_processes os.shared.done ld.i) at k.count in
      (
        next here (load os p pcb (subst (FreshAt os.shared.procs) at k.fresh)),
        record { fresh = tt; count = (count.0, omega (arith, count.1)) },
      )

  ld_at-Follows :
      (os : Os) (ld : Ld) (point : LdPoint) (now p : ℕ) (g : Garbage) (mm : Mm)
      → os.shared.procs p ≡ none
      → ld.point ≡ point
      → IsOrderly args.num_processes os.shared ld
      → Holds (Follows os) (ld_at io args os.shared ld point now p g mm)
  unfolding ld_at
  ld_at-Follows os ld loop_test now p g mm fresh at k =
      let count = subst (CountsTo args.num_processes os.shared.done ld.i) at k.count in
      loop_test-Follows os ld p g now mm fresh count.0 count.1
  ld_at-Follows os ld (waits q pcb) now p g mm fresh at k = waits-Follows os ld q pcb now mm at k
  ld_at-Follows os ld (adds q pcb) now p g mm fresh at k = adds-Follows os ld q pcb at k
  ld_at-Follows os ld ended now p g mm fresh at k = tt

  -- One step of the machine comes to none or one of the steps of `Os`.
  step-Follows :
      {m m' : Machine}
      → MachineStep io args time_slot m m'
      → IsOrderly args.num_processes m.os.shared m.ld
      → Reachable time_slot m.os m'.os × IsOrderly args.num_processes m'.os.shared m'.ld
  unfolding ld_step
  step-Follows (cpu_moves m i c c' shared' at e) k =
      let alone = cpu_step-LeavesAlone time_slot m.os.shared c e in
      (
        next here (cpu m.os i c c' shared' at e),
        record {
          fresh = FreshAt-kept m.ld.point alone.0 k.fresh;
          count =
              subst (λ b. CountsTo args.num_processes b m.ld.i m.ld.point) (sym (alone.1)) k.count;
        },
      )
  step-Follows (ticks m h) k = (here, k)
  step-Follows (loader_moves m p g mm shared' ld' fresh e) k =
      subst (Holds (Follows m.os)) e (ld_at-Follows m.os m.ld m.ld.point m.time p g mm fresh refl k)

Reachable-trans :
    {time_slot : ℤ} {os os' os'' : Os}
    → Reachable time_slot os os'
    → Reachable time_slot os' os''
    → Reachable time_slot os os''
Reachable-trans r here = r
Reachable-trans r (next r' s) = next (Reachable-trans r r') s

-- The machine as `main` starts it, with `n` CPUs.
abbrev pub start_machine : ℕ → Caller → Machine
start_machine n krnl = record {
  os = boot n krnl;
  ld = record { point = loop_test; i = 0; avail_pid = 1 };
  time = 0;
}

pub Runs-Follows :
    {F : Type 0} (io : Stdio F) (args : LdArgs) (time_slot : ℤ) (n : ℕ) (krnl : Caller)
    {m : Machine}
    → Runs io args time_slot (start_machine n krnl) m
    → Reachable time_slot (boot n krnl) m.os × IsOrderly args.num_processes m.os.shared m.ld
Runs-Follows io args time_slot n krnl no_step =
    (here, record { fresh = tt; count = (refl, omega arith) })
Runs-Follows io args time_slot n krnl (then_step r s) =
    let before = Runs-Follows io args time_slot n krnl r in
    let after = step-Follows io args time_slot s before.1 in
    (Reachable-trans before.0 after.0, after.1)

-- `ld_routine` with the files it reads, the times it waits for and the addresses `malloc` gives it only
-- does what `Os.Step` allows its loader: every state of the machine is a reachable state of the threads,
-- so that what holds of all of those holds of the machine.
pub machine_refines :
    {F : Type 0} (io : Stdio F) (args : LdArgs) (time_slot : ℤ) (n : ℕ) (krnl : Caller)
    {m : Machine}
    → Runs io args time_slot (start_machine n krnl) m
    → Reachable time_slot (boot n krnl) m.os
machine_refines io args time_slot n krnl r = (Runs-Follows io args time_slot n krnl r).0
