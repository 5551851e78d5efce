-- ===== src/Os/Alone.antt =====
-- What a CPU leaves alone: it makes no process, and does not touch `done`.
use os_to_read.Base.{
  ℕ, Option, none, some, ◌≡◌, refl, subst, inl, inr, arith, update, Bool-cases, ◌==◌,
}
use os_to_read.Base.Int.{ℤ}
use os_to_read.Base.Access.{ok, Holds, Holds-bind, Holds-self}
use os_to_read.Cpu.{Pcb, run}
use os_to_read.Os.{
  Point, top, finished, put_back, loaded, idle, slot, running, stopped, Cpu, Shared, cpu_step,
  at_point, at_top, first_load, check_status, fetch_proc, at_running, run_proc, deref, is_zero,
}

abbrev pub LeavesAlone : Shared → Shared × Cpu → Type 0
LeavesAlone sh r = ((q : ℕ) → sh.procs q ≡ none → r.0.procs q ≡ none) × (r.0.done ≡ sh.done)

pub update-none :
    {A : Type 0} (f : ℕ → Option A) (p q : ℕ) (o : Option A)
    → f q ≡ none
    → (p ≡ q → o ≡ none)
    → update f p o q ≡ none
update-none f p q o e h = elim (Bool-cases (p == q)) [
  | inl hit ↦ rw (hit, update) (h (ground (arith, hit)))
  | inr miss ↦ rw (miss, update) e
]

check_status-LeavesAlone :
    (sh : Shared) (c : Cpu) (p : ℕ) (pcb : Pcb) → LeavesAlone sh (check_status sh c p pcb)
unfolding check_status
check_status-LeavesAlone sh c p pcb = elim (Bool-cases (pcb.pc == pcb.code.size)) [
  | inl over ↦ rw over (λ q e. update-none sh.procs p q none e (λ h. refl), refl)
  | inr more ↦ elim (Bool-cases (is_zero c.time_left)) [
    | inl used ↦ rw (more, used) (λ q e. e, refl)
    | inr left ↦ rw (more, left) (λ q e. e, refl)
  ]
]

deref-some : (o : Option Pcb) → Holds (λ pcb. o ≡ some pcb) (deref o)
unfolding deref
deref-some none = tt
deref-some (some pcb) = refl

at_top-LeavesAlone : (sh : Shared) (c : Cpu) (o : Option ℕ) → Holds (LeavesAlone sh) (at_top sh c o)
unfolding at_top first_load
at_top-LeavesAlone sh c none = (λ q e. e, refl)
at_top-LeavesAlone sh c (some p) =
    Holds-bind (λ pcb. sh.procs p ≡ some pcb) (LeavesAlone sh) (deref (sh.procs p)) _
      (deref-some (sh.procs p)) (λ pcb e. check_status-LeavesAlone sh c p pcb)

at_running-LeavesAlone :
    (sh : Shared) (c : Cpu) (o : Option ℕ) → Holds (LeavesAlone sh) (at_running sh c o)
unfolding at_running run_proc
at_running-LeavesAlone sh c none = tt
at_running-LeavesAlone sh c (some p) =
    Holds-bind (λ pcb. sh.procs p ≡ some pcb) (LeavesAlone sh) (deref (sh.procs p)) _
      (deref-some (sh.procs p))
      (λ pcb e.
        Holds-bind (λ ran. run pcb sh.krnl ≡ ok ran) (LeavesAlone sh) (run pcb sh.krnl) _
          (Holds-self (run pcb sh.krnl))
          (λ ran ran_ok. (
            λ q nothing.
                update-none sh.procs p q (some (ran.1)) nothing (λ h. absurd (cc (e, nothing, h))),
            refl,
          )))

at_point-LeavesAlone :
    (time_slot : ℤ) (sh : Shared) (c : Cpu) (p : Point)
    → Holds (LeavesAlone sh) (at_point time_slot sh c p)
unfolding at_point fetch_proc
at_point-LeavesAlone time_slot sh c top = at_top-LeavesAlone sh c c.proc
at_point-LeavesAlone time_slot sh c finished = (λ q e. e, refl)
at_point-LeavesAlone time_slot sh c put_back = (λ q e. e, refl)
at_point-LeavesAlone time_slot sh c loaded = (λ q e. e, refl)
at_point-LeavesAlone time_slot sh c idle = (λ q e. e, refl)
at_point-LeavesAlone time_slot sh c slot = (λ q e. e, refl)
at_point-LeavesAlone time_slot sh c running = at_running-LeavesAlone sh c c.proc
at_point-LeavesAlone time_slot sh c stopped = (λ q e. e, refl)

pub cpu_step-LeavesAlone :
    (time_slot : ℤ) (sh : Shared) (c : Cpu) {r : Shared × Cpu}
    → cpu_step time_slot sh c ≡ ok r
    → LeavesAlone sh r
unfolding cpu_step
cpu_step-LeavesAlone time_slot sh c e =
    subst (Holds (LeavesAlone sh)) e (at_point-LeavesAlone time_slot sh c c.point)
