-- ===== src/Os/Slice.antt =====
-- `time_left`: how many instructions of a process a CPU still runs before it puts it back.
use os_to_read.Base.{
  ℕ, zero, suc, ◌≤◌, ◌<◌, ◌≡◌, refl, sym, subst, Bool, true, false, Option, none, some, List, [],
  ◌∷◌, arith, inl, inr, ◌==◌, get_elem?, set, Bool-cases,
}
use os_to_read.Base.Int.{ℤ, pos, negsuc}
use os_to_read.Base.Access.{Access, ok, err, fault, ◌>>=◌}
use os_to_read.Libmem.{Caller}
use os_to_read.Cpu.{Pcb, run}
use os_to_read.Os.{
  Point, top, finished, put_back, loaded, idle, slot, running, stopped, Cpu, Shared, fetch_proc,
  first_check, first_load, deref, check_status, at_top, at_loaded, run_proc, at_running, at_point,
  cpu_step, Os, Step, cpu, init_mm, load, finish, Reachable, here, next, is_zero, decrement,
}
use os_to_read.Os.Exclusion.{boot, start_cpus}

-- What a point asks of the time left: before an instruction runs, some of it is left.
abbrev pub Enough : Point → ℕ → Type 0
Enough slot n = 0 < n
Enough running n = 0 < n
Enough top n = Unit {0}
Enough finished n = Unit {0}
Enough put_back n = Unit {0}
Enough loaded n = Unit {0}
Enough idle n = Unit {0}
Enough stopped n = Unit {0}

abbrev pub IsTimed : ℕ → Point → ℤ → Type 0
IsTimed t point (pos n) = (n ≤ t) × Enough point n
IsTimed t point (negsuc n) = ⊥

abbrev KeepsTime : ℕ → Access (Shared × Cpu) → Type 0
KeepsTime t (ok r) = IsTimed t (r.1.point) (r.1.time_left)
KeepsTime t err = Unit
KeepsTime t fault = Unit

bind-KeepsTime :
    {A : Type 0} (t : ℕ) (f : A → Access (Shared × Cpu)) (r : Access A)
    → ((x : A) → KeepsTime t (f x))
    → KeepsTime t (r >>= f)
bind-KeepsTime t f (ok x) h = h x
bind-KeepsTime t f err h = tt
bind-KeepsTime t f fault h = tt

-- A point that asks nothing keeps the bound.
abbrev IsBounded : ℕ → ℤ → Type 0
IsBounded t (pos n) = n ≤ t
IsBounded t (negsuc n) = ⊥

bounded : (t : ℕ) (point : Point) (z : ℤ) → IsTimed t point z → IsBounded t z
bounded t point (pos n) h = h.0
bounded t point (negsuc n) h = h

unasked :
    (t : ℕ) (z : ℤ)
    → IsBounded t z
    → IsTimed t top z
      × IsTimed t finished z
      × IsTimed t put_back z
      × IsTimed t loaded z
      × IsTimed t idle z
      × IsTimed t stopped z
unasked t (pos n) h = ((h, tt), (h, tt), (h, tt), (h, tt), (h, tt), (h, tt))
unasked t (negsuc n) h = absurd h

first_check-KeepsTime :
    (t : ℕ) (c : Cpu) (o : Option ℕ)
    → IsBounded t c.time_left
    → IsTimed t ((first_check c o).point) ((first_check c o).time_left)
unfolding first_check
first_check-KeepsTime t c none h = (unasked t c.time_left h).4
first_check-KeepsTime t c (some p) h = (unasked t c.time_left h).3

check_status-KeepsTime :
    (t : ℕ) (sh : Shared) (c : Cpu) (p : ℕ) (pcb : Pcb)
    → IsBounded t c.time_left
    → KeepsTime t (ok (check_status sh c p pcb))
unfolding check_status
check_status-KeepsTime t sh c p pcb h = elim (Bool-cases (pcb.pc == pcb.code.size)) [
  | inl ended ↦ rw ended ((unasked t c.time_left h).1)
  | inr more ↦ rw more (elim (Bool-cases (is_zero c.time_left)) [
    | inl over ↦ rw over ((unasked t c.time_left h).2)
    | inr left ↦ rw left ((unasked t c.time_left h).3)
  ])
]

some_left : (t : ℕ) (z : ℤ) → IsBounded t z → is_zero z ≡ false → IsTimed t slot z
unfolding is_zero
some_left t (pos n) h e = (h, ground arith)
some_left t (negsuc n) h e = absurd h

at_loaded-KeepsTime :
    (t : ℕ) (done : Bool) (c : Cpu) (o : Option ℕ)
    → 0 < t
    → IsBounded t c.time_left
    → IsTimed t ((at_loaded (pos t) done c o).point) ((at_loaded (pos t) done c o).time_left)
unfolding at_loaded
at_loaded-KeepsTime t true c none some_slot h = (unasked t c.time_left h).5
at_loaded-KeepsTime t false c none some_slot h = (unasked t c.time_left h).4
at_loaded-KeepsTime t done c (some p) some_slot h = elim (Bool-cases (is_zero c.time_left)) [
  | inl over ↦ rw over (omega arith, some_slot)
  | inr left ↦ rw left (some_left t c.time_left h left)
]

one_less : (t : ℕ) (z : ℤ) → IsTimed t running z → IsTimed t top (decrement z)
unfolding decrement
one_less t (pos zero) h = absurd (omega (arith, h.1))
one_less t (pos (suc n)) h = (omega (arith, h.0), tt)
one_less t (negsuc n) h = absurd h

at_top-KeepsTime :
    (t : ℕ) (sh : Shared) (c : Cpu) (o : Option ℕ)
    → IsBounded t c.time_left
    → KeepsTime t (at_top sh c o)
unfolding at_top first_load
at_top-KeepsTime t sh c none h = first_check-KeepsTime t c _ h
at_top-KeepsTime t sh c (some p) h =
    bind-KeepsTime t _ (deref (sh.procs p)) (λ pcb. check_status-KeepsTime t sh c p pcb h)

at_running-KeepsTime :
    (t : ℕ) (sh : Shared) (c : Cpu) (o : Option ℕ)
    → IsTimed t running c.time_left
    → KeepsTime t (at_running sh c o)
unfolding at_running run_proc
at_running-KeepsTime t sh c none h = tt
at_running-KeepsTime t sh c (some p) h =
    bind-KeepsTime t _ (deref (sh.procs p))
      (λ pcb. bind-KeepsTime t _ (run pcb sh.krnl) (λ ran. one_less t c.time_left h))

still_left : (t : ℕ) (z : ℤ) → IsTimed t slot z → IsTimed t running z
still_left t (pos n) h = h
still_left t (negsuc n) h = h

at_point-KeepsTime :
    (t : ℕ) (sh : Shared) (c : Cpu) (point : Point)
    → 0 < t
    → IsTimed t point c.time_left
    → (point ≡ c.point)
    → KeepsTime t (at_point (pos t) sh c point)
unfolding at_point fetch_proc
at_point-KeepsTime t sh c top some_slot h e =
    at_top-KeepsTime t sh c c.proc (bounded t top c.time_left h)
at_point-KeepsTime t sh c finished some_slot h e = (omega arith, tt)
at_point-KeepsTime t sh c put_back some_slot h e =
    (unasked t c.time_left (bounded t put_back c.time_left h)).3
at_point-KeepsTime t sh c loaded some_slot h e =
    at_loaded-KeepsTime t sh.done c c.proc some_slot (bounded t loaded c.time_left h)
at_point-KeepsTime t sh c idle some_slot h e =
    (unasked t c.time_left (bounded t idle c.time_left h)).0
at_point-KeepsTime t sh c slot some_slot h e = still_left t c.time_left h
at_point-KeepsTime t sh c running some_slot h e = at_running-KeepsTime t sh c c.proc h
at_point-KeepsTime t sh c stopped some_slot h e = rw (sym e) h

cpu_step-KeepsTime :
    (t : ℕ) (sh : Shared) (c : Cpu) {r : Shared × Cpu}
    → 0 < t
    → IsTimed t c.point c.time_left
    → cpu_step (pos t) sh c ≡ ok r
    → IsTimed t (r.1.point) (r.1.time_left)
unfolding cpu_step
cpu_step-KeepsTime t sh c some_slot h e =
    subst (KeepsTime t) e (at_point-KeepsTime t sh c c.point some_slot h refl)

-- All CPUs keep the bound.
abbrev AreTimed : ℕ → List Cpu → Type 0
AreTimed t [] = Unit {0}
AreTimed t (c ∷ cs) = IsTimed t c.point c.time_left × AreTimed t cs

AreTimed-set :
    (t : ℕ) (cs : List Cpu) (i : ℕ) (c : Cpu)
    → IsTimed t c.point c.time_left
    → AreTimed t cs
    → AreTimed t (set cs i c)
AreTimed-set t [] i c h all = tt
AreTimed-set t (d ∷ cs) zero c h all = (h, all.1)
AreTimed-set t (d ∷ cs) (suc i) c h all = (all.0, AreTimed-set t cs i c h all.1)

get_elem?-IsTimed :
    (t : ℕ) (cs : List Cpu) (i : ℕ) {c : Cpu}
    → AreTimed t cs
    → get_elem? cs i ≡ some c
    → IsTimed t c.point c.time_left
get_elem?-IsTimed t [] i all e = absurd (ground arith)
get_elem?-IsTimed t (d ∷ cs) zero all e =
    subst (λ (o : Option Cpu). elim o [ none ↦ Unit {0} | some x ↦ IsTimed t x.point x.time_left ])
      e all.0
get_elem?-IsTimed t (d ∷ cs) (suc i) all e = get_elem?-IsTimed t cs i all.1 e

Step-AreTimed :
    {t : ℕ} {os os' : Os} → 0 < t → Step (pos t) os os' → AreTimed t os.cpus → AreTimed t os'.cpus
Step-AreTimed {t} some_slot (cpu os i c c' shared' at e) all =
    AreTimed-set t os.cpus i c'
      (cpu_step-KeepsTime t os.shared c some_slot (get_elem?-IsTimed t os.cpus i all at) e) all
Step-AreTimed some_slot (init_mm os mm) all = all
Step-AreTimed some_slot (load os p pcb fresh) all = all
Step-AreTimed some_slot (finish os) all = all

Reachable-AreTimed :
    {t : ℕ} {os os' : Os}
    → 0 < t
    → Reachable (pos t) os os'
    → AreTimed t os.cpus
    → AreTimed t os'.cpus
Reachable-AreTimed some_slot here all = all
Reachable-AreTimed some_slot (next r s) all =
    Step-AreTimed some_slot s (Reachable-AreTimed some_slot r all)

start-AreTimed : (t n : ℕ) → AreTimed t (start_cpus n)
start-AreTimed t zero = tt
start-AreTimed t (suc n) = ((omega arith, tt), start-AreTimed t n)

-- With a positive time slot, the time left of every CPU stays between 0 and the slot in every state
-- that the threads can reach, and it is not 0 where the CPU is about to run an instruction.
pub time_left_bounded :
    (n t : ℕ) (krnl : Caller) {os : Os} {c : Cpu} (i : ℕ)
    → 0 < t
    → Reachable (pos t) (boot n krnl) os
    → get_elem? os.cpus i ≡ some c
    → IsTimed t c.point c.time_left
time_left_bounded n t krnl {os} i some_slot r at =
    get_elem?-IsTimed t os.cpus i (Reachable-AreTimed some_slot r (start-AreTimed t n)) at
