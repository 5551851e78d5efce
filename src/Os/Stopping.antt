-- ===== src/Os/Stopping.antt =====
-- When a CPU stops.
use os_to_read.Base.{
  ℕ, ◌≡◌, ◌≢◌, refl, ap, subst, Bool, true, false, Option, none, some, inl, inr, ◌⊎◌, Bool-cases,
  ◌==◌,
}
use os_to_read.Base.Int.{ℤ}
use os_to_read.Base.Access.{Access, ok, err, fault, ◌>>=◌}
use os_to_read.Cpu.{Pcb, run}
use os_to_read.Os.{
  Point, top, finished, put_back, loaded, idle, slot, running, stopped, Cpu, Shared, fetch_proc,
  first_check, first_load, deref, check_status, at_top, at_loaded, run_proc, at_running, at_point,
  cpu_step, is_zero,
}

abbrev is_stopped : Point → Bool
is_stopped stopped = true
is_stopped top = false
is_stopped finished = false
is_stopped put_back = false
is_stopped loaded = false
is_stopped idle = false
is_stopped slot = false
is_stopped running = false

-- What a step that stops the CPU says about the state before it.
abbrev StopsWith : Shared → Cpu → Access (Shared × Cpu) → Type 0
StopsWith sh c (ok r) = (is_stopped (r.1.point) ≡ false) ⊎ (sh.done ≡ true) × (c.proc ≡ none)
StopsWith sh c err = Unit
StopsWith sh c fault = Unit

bind-StopsWith :
    {A : Type 0} (sh : Shared) (c : Cpu) (f : A → Access (Shared × Cpu)) (r : Access A)
    → ((x : A) → StopsWith sh c (f x))
    → StopsWith sh c (r >>= f)
bind-StopsWith sh c f (ok x) h = h x
bind-StopsWith sh c f err h = tt
bind-StopsWith sh c f fault h = tt

first_check-moves : (c : Cpu) (o : Option ℕ) → is_stopped ((first_check c o).point) ≡ false
unfolding first_check
first_check-moves c none = refl
first_check-moves c (some p) = refl

check_status-moves :
    (sh : Shared) (c : Cpu) (p : ℕ) (pcb : Pcb)
    → is_stopped ((check_status sh c p pcb).1.point) ≡ false
unfolding check_status
check_status-moves sh c p pcb = elim (Bool-cases (pcb.pc == pcb.code.size)) [
  | inl ended ↦ rw ended refl
  | inr more ↦ rw more (elim (Bool-cases (is_zero c.time_left)) [
    | inl over ↦ rw over refl
    | inr left ↦ rw left refl
  ])
]

at_loaded-stops :
    (time_slot : ℤ) (done : Bool) (c : Cpu) (o : Option ℕ)
    → (is_stopped ((at_loaded time_slot done c o).point) ≡ false) ⊎ (done ≡ true) × (o ≡ none)
unfolding at_loaded
at_loaded-stops time_slot true c none = inr (refl, refl)
at_loaded-stops time_slot false c none = inl refl
at_loaded-stops time_slot done c (some p) = elim (Bool-cases (is_zero c.time_left)) [
  | inl over ↦ rw over (inl refl)
  | inr left ↦ rw left (inl refl)
]

at_top-StopsWith : (sh : Shared) (c : Cpu) (o : Option ℕ) → StopsWith sh c (at_top sh c o)
unfolding at_top first_load
at_top-StopsWith sh c none = inl (first_check-moves c _)
at_top-StopsWith sh c (some p) =
    bind-StopsWith sh c _ (deref (sh.procs p)) (λ pcb. inl (check_status-moves sh c p pcb))

at_running-StopsWith : (sh : Shared) (c : Cpu) (o : Option ℕ) → StopsWith sh c (at_running sh c o)
unfolding at_running run_proc
at_running-StopsWith sh c none = tt
at_running-StopsWith sh c (some p) =
    bind-StopsWith sh c _ (deref (sh.procs p))
      (λ pcb. bind-StopsWith sh c _ (run pcb sh.krnl) (λ ran. inl refl))

at_point-StopsWith :
    (time_slot : ℤ) (sh : Shared) (c : Cpu) (point : Point)
    → is_stopped point ≡ false
    → StopsWith sh c (at_point time_slot sh c point)
unfolding at_point fetch_proc
at_point-StopsWith time_slot sh c top e = at_top-StopsWith sh c c.proc
at_point-StopsWith time_slot sh c finished e = inl refl
at_point-StopsWith time_slot sh c put_back e = inl refl
at_point-StopsWith time_slot sh c loaded e = at_loaded-stops time_slot sh.done c c.proc
at_point-StopsWith time_slot sh c idle e = inl refl
at_point-StopsWith time_slot sh c slot e = inl refl
at_point-StopsWith time_slot sh c running e = at_running-StopsWith sh c c.proc
at_point-StopsWith time_slot sh c stopped e = absurd (cc e)

going : (point : Point) → point ≢ stopped → is_stopped point ≡ false
going stopped ne = absurd (ne refl)
going top ne = refl
going finished ne = refl
going put_back ne = refl
going loaded ne = refl
going idle ne = refl
going slot ne = refl
going running ne = refl

-- A CPU stops only when it has no process and `done` is set.
pub stops_only :
    (time_slot : ℤ) (sh : Shared) (c : Cpu) {sh' : Shared} {c' : Cpu}
    → c.point ≢ stopped
    → cpu_step time_slot sh c ≡ ok (sh', c')
    → c'.point ≡ stopped
    → (sh.done ≡ true) × (c.proc ≡ none)
unfolding cpu_step
stops_only time_slot sh c {sh'} {c'} ne e end =
    elim (subst (StopsWith sh c) e (at_point-StopsWith time_slot sh c c.point (going c.point ne))) [
      | inl moves ↦ absurd (cc (moves, ap is_stopped end))
      | inr why ↦ why
    ]
