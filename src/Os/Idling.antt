-- ===== src/Os/Idling.antt =====
-- A CPU without a process, which never stops.
use os_to_read.Base.{ℕ, zero, suc, ◌*◌, ◌<◌, ◌≡◌, refl, ap, ◌∙◌, none, List, [], arith, inl, inr}
use os_to_read.Base.Int.{ℤ}
use os_to_read.Base.Access.{Access, ok, ◌>>=◌}
use os_to_read.Sched.{max_prio, Sched, get_proc}
use os_to_read.Sched.Inv.{IsReady}
use os_to_read.Sched.Policy.{get_mlq_proc_lem}
use os_to_read.Os.{top, Cpu, Shared, first_check, first_load, at_top, at_point, cpu_step}

-- `n` steps of one CPU.
pub cpu_steps : ℕ → ℤ → Shared → Cpu → Access (Shared × Cpu)
cpu_steps zero time_slot sh c = ok (sh, c)
cpu_steps (suc n) time_slot sh c = do r ← cpu_step time_slot sh c; cpu_steps n time_slot (r.0) (r.1)

-- No process is queued at any priority.
abbrev pub AreEmpty : (ℕ → List ℕ) → Type 0
AreEmpty ls = (i : ℕ) → i < max_prio → ls i ≡ []

pub get_proc-empty :
    {s : Sched} {ls : ℕ → List ℕ}
    → IsReady s ls
    → AreEmpty ls
    → ((get_proc s).0 ≡ none) × IsReady ((get_proc s).1) ls
unfolding get_proc
get_proc-empty {s} {ls} ready nothing = elim (get_mlq_proc_lem ready) [
  | inl v ↦ absurd (cc (nothing v.prio v.taken.in_range, v.taken.front))
  | inr i ↦ (i.result, i.ready)
]

-- A CPU at the head of its loop, without a process.
abbrev pub waiting : ℤ → Cpu
waiting z = record { point = top; proc = none; time_left = z }

abbrev pub after_get : Shared → Shared
after_get sh = record sh { sched = (get_proc sh.sched).1 }

two_steps :
    (n : ℕ) (time_slot z : ℤ) (sh : Shared)
    → (get_proc sh.sched).0 ≡ none
    → cpu_steps (suc (suc n)) time_slot sh (waiting z)
      ≡ cpu_steps n time_slot (after_get sh) (waiting z)
unfolding cpu_steps cpu_step at_point at_top first_load first_check
two_steps n time_slot z sh e = rw e refl

-- A CPU without a process, while no process is queued, goes round the first lines of its loop for
-- ever: after any number of rounds it stands at the head of the loop again, whether `done` is set or
-- not.
pub idles :
    (n : ℕ) (time_slot z : ℤ) (sh : Shared) {ls : ℕ → List ℕ}
    → IsReady sh.sched ls
    → AreEmpty ls
    → (sh' : Shared) × (cpu_steps (2 * n) time_slot sh (waiting z) ≡ ok (sh', waiting z))
      × (sh'.done ≡ sh.done)
idles zero time_slot z sh ready nothing = (sh, unfold cpu_steps in refl, refl)
idles (suc n) time_slot z sh ready nothing =
    let (none_left, ready') = get_proc-empty ready nothing in
    let (sh', e, d) = idles n time_slot z (after_get sh) ready' nothing in
    (
      sh',
      ap (λ k. cpu_steps k time_slot sh (waiting z)) (omega arith)
          ∙ two_steps (2 * n) time_slot z sh none_left
          ∙ e,
      d,
    )
