-- ===== src/Os/Entering.antt =====
-- Only the end of `next_slot` leads a CPU to `run`.
use os_to_read.Base.{
  ℕ, ◌≡◌, ◌≢◌, refl, subst, Bool, true, false, Option, none, some, inl, inr, Bool-cases, ◌==◌,
}
use os_to_read.Base.Int.{ℤ}
use os_to_read.Base.Access.{ok, Holds, Holds-bind, Holds-self}
use os_to_read.Cpu.{Pcb, run}
use os_to_read.Os.{
  Point, top, finished, put_back, loaded, idle, slot, running, stopped, Cpu, Shared, fetch_proc,
  first_check, first_load, deref, check_status, at_top, at_loaded, run_proc, at_running, at_point,
  cpu_step, is_zero,
}

-- Whether a CPU is before `run`.
unfoldable pub is_running : Point → Bool
is_running top = false
is_running finished = false
is_running put_back = false
is_running loaded = false
is_running idle = false
is_running slot = false
is_running running = true
is_running stopped = false

-- Whether it stands at the call of `next_slot` before `run`.
abbrev is_slot : Point → Bool
is_slot top = false
is_slot finished = false
is_slot put_back = false
is_slot loaded = false
is_slot idle = false
is_slot slot = true
is_slot running = false
is_slot stopped = false

abbrev IsOutside : Shared × Cpu → Type 0
IsOutside r = is_running (r.1.point) ≡ false

first_check-outside : (c : Cpu) (o : Option ℕ) → is_running ((first_check c o).point) ≡ false
unfolding first_check is_running
first_check-outside c none = refl
first_check-outside c (some p) = refl

check_status-IsOutside :
    (sh : Shared) (c : Cpu) (p : ℕ) (pcb : Pcb) → IsOutside (check_status sh c p pcb)
unfolding check_status is_running
check_status-IsOutside sh c p pcb = elim (Bool-cases (pcb.pc == pcb.code.size)) [
  | inl ended ↦ rw ended refl
  | inr more ↦ rw more (elim (Bool-cases (is_zero c.time_left)) [
    | inl over ↦ rw over refl
    | inr left ↦ rw left refl
  ])
]

at_loaded-outside :
    (time_slot : ℤ) (done : Bool) (c : Cpu) (o : Option ℕ)
    → is_running ((at_loaded time_slot done c o).point) ≡ false
unfolding at_loaded is_running
at_loaded-outside time_slot true c none = refl
at_loaded-outside time_slot false c none = refl
at_loaded-outside time_slot done c (some p) = elim (Bool-cases (is_zero c.time_left)) [
  | inl over ↦ rw over refl
  | inr left ↦ rw left refl
]

at_top-IsOutside : (sh : Shared) (c : Cpu) (o : Option ℕ) → Holds IsOutside (at_top sh c o)
unfolding at_top first_load
at_top-IsOutside sh c none = first_check-outside c _
at_top-IsOutside sh c (some p) =
    Holds-bind (λ pcb. deref (sh.procs p) ≡ ok pcb) IsOutside (deref (sh.procs p)) _
      (Holds-self (deref (sh.procs p))) (λ pcb e. check_status-IsOutside sh c p pcb)

at_running-IsOutside : (sh : Shared) (c : Cpu) (o : Option ℕ) → Holds IsOutside (at_running sh c o)
unfolding at_running run_proc is_running
at_running-IsOutside sh c none = tt
at_running-IsOutside sh c (some p) =
    Holds-bind (λ pcb. deref (sh.procs p) ≡ ok pcb) IsOutside (deref (sh.procs p)) _
      (Holds-self (deref (sh.procs p)))
      (λ pcb e.
        Holds-bind (λ ran. run pcb sh.krnl ≡ ok ran) IsOutside (run pcb sh.krnl) _
          (Holds-self (run pcb sh.krnl)) (λ ran e'. refl))

at_point-IsOutside :
    (time_slot : ℤ) (sh : Shared) (c : Cpu) (point : Point)
    → is_slot point ≡ false
    → c.point ≡ point
    → Holds IsOutside (at_point time_slot sh c point)
unfolding at_point fetch_proc is_running
at_point-IsOutside time_slot sh c top e at = at_top-IsOutside sh c c.proc
at_point-IsOutside time_slot sh c finished e at = refl
at_point-IsOutside time_slot sh c put_back e at = refl
at_point-IsOutside time_slot sh c loaded e at = at_loaded-outside time_slot sh.done c c.proc
at_point-IsOutside time_slot sh c idle e at = refl
at_point-IsOutside time_slot sh c slot e at = absurd (cc e)
at_point-IsOutside time_slot sh c running e at = at_running-IsOutside sh c c.proc
at_point-IsOutside time_slot sh c stopped e at = rw at refl

going : (point : Point) → point ≢ slot → is_slot point ≡ false
going slot ne = absurd (ne refl)
going stopped ne = refl
going top ne = refl
going finished ne = refl
going put_back ne = refl
going loaded ne = refl
going idle ne = refl
going running ne = refl

-- A step that is not the end of the `next_slot` before `run` does not lead to `run`.
pub cpu_step-outside :
    (time_slot : ℤ) (sh : Shared) (c : Cpu) {sh' : Shared} {c' : Cpu}
    → c.point ≢ slot
    → cpu_step time_slot sh c ≡ ok (sh', c')
    → is_running c'.point ≡ false
unfolding cpu_step
cpu_step-outside time_slot sh c {sh'} {c'} ne e =
    subst (Holds IsOutside) e (at_point-IsOutside time_slot sh c c.point (going c.point ne) refl)
