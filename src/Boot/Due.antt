-- ===== src/Boot/Due.antt =====
-- The loader keeps to the start times.
use os_to_read.Base.{
  ℕ, suc, ◌+◌, ◌≤◌, ◌<◌, ltb, ◌≡◌, refl, ap, ◌∙◌, subst, inl, inr, arith, Bool-cases, ℕ_discrete,
}
use os_to_read.Base.Int.{ℤ}
use os_to_read.Base.Access.{ok, Holds, Holds-bind, Holds-self}
use os_to_read.Mm.{Mm}
use os_to_read.Libmem.{Caller}
use os_to_read.Cpu.{Pcb}
use os_to_read.Os.{Shared}
use os_to_read.Loader.{Stdio, Garbage}
use os_to_read.Boot.{
  LdArgs, LdPoint, loop_test, waits, adds, ended, Ld, entry, ld_load, ld_wait, ld_add, ld_at,
  ld_step, Machine, MachineStep, cpu_moves, loader_moves, ticks, Runs, no_step, then_step,
}
use os_to_read.Boot.Loads.{start_machine, ld_load-keeps}

-- The start time of the process with the number `j` has come.
abbrev pub IsDue : LdArgs → ℕ → ℕ → Type 0
IsDue args time j = (start : ℕ) × (entry args.start_time j ≡ ok start) × (start ≤ time)

-- How many processes the loader has waited for.
abbrev waited : ℕ → LdPoint → ℕ
waited i loop_test = i
waited i (waits p pcb) = i
waited i (adds p pcb) = suc i
waited i ended = i

abbrev AreDue : LdArgs → ℕ → Ld → Type 0
AreDue args time ld = (j : ℕ) → j < waited ld.i ld.point → IsDue args time j

IsDue-later :
    (args : LdArgs) (time time' j : ℕ) → time ≤ time' → IsDue args time j → IsDue args time' j
IsDue-later args time time' j h d = (d.0, d.1, omega (arith, h, d.2))

module _ {F : Type 0} (io : Stdio F) (args : LdArgs) (now : ℕ) where
  abbrev LeavesDue : Shared × Ld → Type 0
  LeavesDue r = AreDue args now r.1

  loop_test-LeavesDue :
      (sh : Shared) (ld : Ld) (p : ℕ) (g : Garbage) (mm : Mm)
      → ((j : ℕ) → j < ld.i → IsDue args now j)
      → Holds LeavesDue (ld_at io args sh ld loop_test now p g mm)
  unfolding ld_at
  loop_test-LeavesDue sh ld p g mm k = elim (Bool-cases (ltb ld.i args.num_processes)) [
    | inl more ↦ rw more (
        Holds-bind (λ ld'. (pcb : Pcb) × (ld'.point ≡ waits p pcb) × (ld'.i ≡ ld.i)) LeavesDue
          (ld_load io args ld p g) _ (ld_load-keeps io args ld p g) (λ ld' e. rw (e.1, e.2) k))
    | inr last ↦ rw last k
  ]

  waits-LeavesDue :
      (sh : Shared) (ld : Ld) (p : ℕ) (pcb : Pcb) (mm : Mm)
      → ld.point ≡ waits p pcb
      → ((j : ℕ) → j < ld.i → IsDue args now j)
      → Holds LeavesDue (ld_wait args sh ld p pcb now mm)
  unfolding ld_wait
  waits-LeavesDue sh ld p pcb mm at k =
      Holds-bind (λ start. entry args.start_time ld.i ≡ ok start) LeavesDue _ _
        (Holds-self (entry args.start_time ld.i))
        (λ start e. elim (Bool-cases (ltb now start)) [
          | inl early ↦ rw (early, at) k
          | inr due ↦ rw due (λ j h. elim (ℕ_discrete j ld.i) [
            | yes this ↦ (start, ap (entry args.start_time) this ∙ e, ground (arith, due))
            | no other ↦ k j (omega (arith, h, other))
          ])
        ])

  ld_at-LeavesDue :
      (sh : Shared) (ld : Ld) (point : LdPoint) (p : ℕ) (g : Garbage) (mm : Mm)
      → ld.point ≡ point
      → ((j : ℕ) → j < waited ld.i point → IsDue args now j)
      → Holds LeavesDue (ld_at io args sh ld point now p g mm)
  unfolding ld_at ld_add
  ld_at-LeavesDue sh ld loop_test p g mm at k = loop_test-LeavesDue sh ld p g mm k
  ld_at-LeavesDue sh ld (waits q pcb) p g mm at k = waits-LeavesDue sh ld q pcb mm at k
  ld_at-LeavesDue sh ld (adds q pcb) p g mm at k = λ j h. k j (omega (arith, h))
  ld_at-LeavesDue sh ld ended p g mm at k = tt

step-AreDue :
    {F : Type 0} (io : Stdio F) (args : LdArgs) (time_slot : ℤ) {m m' : Machine}
    → MachineStep io args time_slot m m'
    → AreDue args m.time m.ld
    → AreDue args m'.time m'.ld
unfolding ld_step
step-AreDue io args time_slot (cpu_moves m i c c' shared' at e) k = k
step-AreDue io args time_slot (loader_moves m p g mm shared' ld' fresh e) k =
    subst (Holds (λ (r : Shared × Ld). AreDue args m.time r.1)) e
      (ld_at-LeavesDue io args m.time m.os.shared m.ld m.ld.point p g mm refl k)
step-AreDue io args time_slot (ticks m h) k =
    λ j lt. IsDue-later args m.time (m.time + 1) j (omega arith) (k j lt)

pub Runs-AreDue :
    {F : Type 0} (io : Stdio F) (args : LdArgs) (time_slot : ℤ) (n : ℕ) (krnl : Caller)
    {m : Machine}
    → Runs io args time_slot (start_machine n krnl) m
    → AreDue args m.time m.ld
Runs-AreDue io args time_slot n krnl no_step = λ j h. absurd (omega (arith, h))
Runs-AreDue io args time_slot n krnl (then_step r s) =
    step-AreDue io args time_slot s (Runs-AreDue io args time_slot n krnl r)

due_waited : (i j : ℕ) (point : LdPoint) → j < i → j < waited i point
due_waited i j loop_test h = h
due_waited i j (waits p pcb) h = h
due_waited i j (adds p pcb) h = omega (arith, h)
due_waited i j ended h = h

-- No process is added before its start time: in every state of the machine, the start time of each of
-- the processes that the loader has added has come.
pub added-IsDue :
    {F : Type 0} (io : Stdio F) (args : LdArgs) (time_slot : ℤ) (n j : ℕ) (krnl : Caller)
    {m : Machine}
    → Runs io args time_slot (start_machine n krnl) m
    → j < m.ld.i
    → IsDue args m.time j
added-IsDue io args time_slot n j krnl {m} r h =
    Runs-AreDue io args time_slot n krnl r j (due_waited m.ld.i j m.ld.point h)
