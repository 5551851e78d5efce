-- ===== src/Os/Keeps.antt =====
-- One step of a CPU moves its process, and frees no process that stands elsewhere.
use os_to_read.Base.{
  ℕ, ◌+◌, ◌≤◌, ◌≡◌, refl, ap, sym, ◌∙◌, subst, Bool, Option, none, some, List, arith, inl, inr,
  ◌==◌, update, Bool-cases, ℕ_discrete,
}
use os_to_read.Base.Int.{ℤ, pos}
use os_to_read.Base.Access.{Access, ok, err, fault, ◌>>=◌}
use os_to_read.Cpu.{Pcb, run}
use os_to_read.Sched.{max_prio, get_proc}
use os_to_read.Sched.Inv.{IsReady}
use os_to_read.Os.{
  Point, top, finished, put_back, loaded, idle, slot, running, stopped, Cpu, Shared, fetch_proc,
  first_check, first_load, deref, check_status, at_top, at_loaded, run_proc, at_running, at_point,
  cpu_step, is_zero,
}
use os_to_read.Os.Places.{same, total, has, put_proc-Put, get_proc-Got}

unfoldable pub alive : Option Pcb → ℕ
alive none = 0
alive (some pcb) = 1

-- A step of one CPU keeps the bound on the places of every process, whatever the others hold.
pub record Keeps (ls : ℕ → List ℕ) (sh : Shared) (c : Cpu) (r : Shared × Cpu) : Type 0 where
  pub ls' : ℕ → List ℕ
  pub ready : IsReady (r.0.sched) ls'
  pub frame :
      (q x : ℕ)
      → total max_prio ls q + has c.proc q + x ≤ alive (sh.procs q)
      → total max_prio ls' q + has (r.1.proc) q + x ≤ alive (r.0.procs q)

abbrev pub Kept : (ℕ → List ℕ) → Shared → Cpu → Access (Shared × Cpu) → Type 0
Kept ls sh c (ok r) = Keeps ls sh c r
Kept ls sh c err = Unit
Kept ls sh c fault = Unit

bind-Kept :
    {A : Type 0} (ls : ℕ → List ℕ) (sh : Shared) (c : Cpu) (f : A → Access (Shared × Cpu))
    (r : Access A)
    → ((x : A) → Kept ls sh c (f x))
    → Kept ls sh c (r >>= f)
bind-Kept ls sh c f (ok x) h = h x
bind-Kept ls sh c f err h = tt
bind-Kept ls sh c f fault h = tt

fetch_proc-Keeps :
    {ls : ℕ → List ℕ} {sh : Shared} (c : Cpu) (left : ℤ)
    → IsReady sh.sched ls
    → Keeps ls sh c (fetch_proc sh (record c { time_left = left }))
unfolding fetch_proc
fetch_proc-Keeps {ls} {sh} c left ready =
    let g = get_proc-Got ready in
    record { ls' = g.ls'; ready = g.ready; frame = λ q x h. omega (arith, g.bound q, h) }

first_check-proc : (c : Cpu) (o : Option ℕ) → (first_check c o).proc ≡ o
unfolding first_check
first_check-proc c none = refl
first_check-proc c (some p) = refl

first_load-Keeps :
    {ls : ℕ → List ℕ} {sh : Shared} (c : Cpu)
    → IsReady sh.sched ls
    → Keeps ls sh c (first_load sh c)
unfolding first_load
first_load-Keeps {ls} {sh} c ready =
    let g = get_proc-Got ready in
    record {
      ls' = g.ls';
      ready = g.ready;
      frame =
          λ q x h. rw (first_check-proc c ((get_proc sh.sched).0)) (omega (arith, g.bound q, h));
    }

pub alive_le : (o : Option Pcb) → alive o ≤ 1
unfolding alive
alive_le none = omega arith
alive_le (some pcb) = omega arith

freed_places :
    (procs : ℕ → Option Pcb) (p q t x : ℕ)
    → t + same p q + x ≤ alive (procs q)
    → t + 0 + x ≤ alive (update procs p none q)
unfolding alive
freed_places procs p q t x h = ground (arith, alive_le (procs q))

kept_places :
    (procs : ℕ → Option Pcb) (p q n : ℕ) (pcb : Pcb)
    → n ≤ alive (procs q)
    → n ≤ alive (update procs p (some pcb) q)
unfolding alive
kept_places procs p q n pcb h = ground (arith, alive_le (procs q))

pub loaded_places :
    (procs : ℕ → Option Pcb) (p q t t' h : ℕ) (pcb : Pcb)
    → procs p ≡ none
    → t' ≤ t + same p q
    → t + h ≤ alive (procs q)
    → t' + h ≤ alive (update procs p (some pcb) q)
unfolding alive
loaded_places procs p q t t' h pcb fresh b k = elim (ℕ_discrete p q) [
  | yes e ↦
      let gone : alive (procs q) ≡ 0 = ap (λ i. alive (procs i)) (sym e) ∙ ap alive fresh in
      ground (arith, gone)
  | no ne ↦ ground arith
]

check_status-Keeps :
    {ls : ℕ → List ℕ} (sh : Shared) (c : Cpu) (p : ℕ) (pcb : Pcb)
    → IsReady sh.sched ls
    → c.proc ≡ some p
    → Keeps ls sh c (check_status sh c p pcb)
unfolding check_status has
check_status-Keeps {ls} sh c p pcb ready e = elim (Bool-cases (pcb.pc == pcb.code.size)) [
  | inl ended ↦ rw ended (record {
    ls' = ls;
    ready = ready;
    frame = λ q x h. freed_places sh.procs p q (total max_prio ls q) x (rw e at h);
  })
  | inr more ↦ rw more (elim (Bool-cases (is_zero c.time_left)) [
    | inl over ↦
        let put = put_proc-Put (λ q. pcb.prio) p ready in
        rw over (record {
          ls' = put.ls';
          ready = put.ready;
          frame = λ q x h. omega (arith, put.bound q, rw e at h);
        })
    | inr left ↦ rw left (record { ls' = ls; ready = ready; frame = λ q x h. h })
  ])
]

run_proc-Kept :
    {ls : ℕ → List ℕ} (sh : Shared) (c : Cpu) (p : ℕ) (pcb : Pcb)
    → IsReady sh.sched ls
    → Kept ls sh c (run_proc sh c p pcb)
unfolding run_proc
run_proc-Kept {ls} sh c p pcb ready = bind-Kept _ sh c _ (run pcb sh.krnl) (λ ran. record {
  ls' = ls;
  ready = ready;
  frame = λ q x h. kept_places sh.procs p q (total max_prio ls q + has c.proc q + x) (ran.1) h;
})

at_loaded-proc :
    (time_slot : ℤ) (done : Bool) (c : Cpu) (o : Option ℕ)
    → (at_loaded time_slot done c o).proc ≡ c.proc
unfolding at_loaded
at_loaded-proc time_slot done c none = elim (Bool-cases done) [
  | inl e ↦ rw e refl
  | inr e ↦ rw e refl
]
at_loaded-proc time_slot done c (some p) = elim (Bool-cases (is_zero c.time_left)) [
  | inl e ↦ rw e refl
  | inr e ↦ rw e refl
]

at_top-Kept :
    {ls : ℕ → List ℕ} (sh : Shared) (c : Cpu) (o : Option ℕ)
    → IsReady sh.sched ls
    → c.proc ≡ o
    → Kept ls sh c (at_top sh c o)
unfolding at_top
at_top-Kept sh c none ready e = first_load-Keeps c ready
at_top-Kept sh c (some p) ready e =
    bind-Kept _ sh c _ (deref (sh.procs p)) (λ pcb. check_status-Keeps sh c p pcb ready e)

at_running-Kept :
    {ls : ℕ → List ℕ} (sh : Shared) (c : Cpu) (o : Option ℕ)
    → IsReady sh.sched ls
    → Kept ls sh c (at_running sh c o)
unfolding at_running
at_running-Kept sh c none ready = tt
at_running-Kept sh c (some p) ready =
    bind-Kept _ sh c _ (deref (sh.procs p)) (λ pcb. run_proc-Kept sh c p pcb ready)

at_point-Kept :
    {ls : ℕ → List ℕ} (time_slot : ℤ) (sh : Shared) (c : Cpu) (point : Point)
    → IsReady sh.sched ls
    → Kept ls sh c (at_point time_slot sh c point)
unfolding at_point
at_point-Kept time_slot sh c top ready = at_top-Kept sh c c.proc ready refl
at_point-Kept time_slot sh c finished ready = fetch_proc-Keeps c (pos 0) ready
at_point-Kept time_slot sh c put_back ready = fetch_proc-Keeps c c.time_left ready
at_point-Kept {ls} time_slot sh c loaded ready = record {
  ls' = ls;
  ready = ready;
  frame = λ q x h. rw (at_loaded-proc time_slot sh.done c c.proc) h;
}
at_point-Kept {ls} time_slot sh c idle ready = record {
  ls' = ls;
  ready = ready;
  frame = λ q x h. h;
}
at_point-Kept {ls} time_slot sh c slot ready = record {
  ls' = ls;
  ready = ready;
  frame = λ q x h. h;
}
at_point-Kept time_slot sh c running ready = at_running-Kept sh c c.proc ready
at_point-Kept {ls} time_slot sh c stopped ready = record {
  ls' = ls;
  ready = ready;
  frame = λ q x h. h;
}

pub cpu_step-Keeps :
    {ls : ℕ → List ℕ} (time_slot : ℤ) (sh : Shared) (c : Cpu) {r : Shared × Cpu}
    → IsReady sh.sched ls
    → cpu_step time_slot sh c ≡ ok r
    → Keeps ls sh c r
unfolding cpu_step
cpu_step-Keeps {ls} time_slot sh c ready e =
    subst (Kept ls sh c) e (at_point-Kept time_slot sh c c.point ready)
