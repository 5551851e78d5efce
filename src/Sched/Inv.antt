-- ===== src/Sched/Inv.antt =====
-- What the scheduler's queues hold, and the bounds of its cursor and slots.
use os_to_read.Base.{
  ℕ, ◌+◌, ◌-◌, ◌≤◌, ◌<◌, ◌≡◌, refl, true, false, none, Bool-cases, inl, inr, arith, List, [], ◌∷◌,
  update, length, ◌==◌, not,
}
use os_to_read.Queue.{Queue}
use os_to_read.Queue.Refine.{Holds, Holds-unused, unused, empty_iff}
use os_to_read.Sched.{max_prio, Sched, init_scheduler, has_slot, has_proc, clear_queues}
use os_to_read.Sched.Slots.{clear_queues_lem, reset_slots_all}

-- Queue `i` holds the processes `ls i`, in order; the cursor is a priority; no priority has more
-- slots left than it is given.
pub record IsReady (s : Sched) (ls : ℕ → List ℕ) : Type 0 where
  pub holds : (i : ℕ) → i < max_prio → Holds (s.mlq_ready_queue i) (ls i)
  pub cursor : s.curr_prio < max_prio
  pub slots : (i : ℕ) → i < max_prio → s.slot i + i ≤ max_prio

-- The static variables before `init_scheduler`: all zero.
abbrev pub zeroed : Sched
zeroed = record {
  ready_queue = unused;
  run_queue = unused;
  running_list = unused;
  mlq_ready_queue = λ i. unused;
  slot = λ i. 0;
  curr_prio = 0;
  krnl = record { ready_queue = none; mlq_ready_queue = none; running_list = none };
}

cleared : (i : ℕ) → clear_queues max_prio 0 (λ i. unused) i ≡ unused
cleared i = ground (arith, clear_queues_lem max_prio 0 (λ i. unused) i)

-- `init_scheduler` on the zeroed statics leaves every queue empty, and gives priority `i` exactly
-- `MAX_PRIO - i` slots.
pub init_scheduler-IsReady :
    IsReady (init_scheduler zeroed) (λ i. [])
    × ((i : ℕ) → i < max_prio → (init_scheduler zeroed).slot i ≡ max_prio - i)
unfolding init_scheduler
init_scheduler-IsReady = (
  record {
    holds = λ i h. rw (cleared i) Holds-unused;
    cursor = omega arith;
    slots = λ i h. omega (arith, reset_slots_all (λ i. 0) i h);
  },
  λ i h. reset_slots_all (λ i. 0) i h,
)

-- The tests of the loops, on the lists.
pub has_proc_lem :
    {s : Sched} {ls : ℕ → List ℕ} → IsReady s ls → has_proc s ≡ not (length (ls s.curr_prio) == 0)
unfolding has_proc
has_proc_lem {s} {ls} r = rw (empty_iff (r.holds s.curr_prio r.cursor)) refl

pub has_proc-false :
    {s : Sched} {ls : ℕ → List ℕ} → IsReady s ls → has_proc s ≡ false → ls s.curr_prio ≡ []
has_proc-false {s} {ls} r e = ground (arith, has_proc_lem r)

pub has_slot-true : (s : Sched) → has_slot s ≡ true → (has_proc s ≡ true) × (0 < s.slot s.curr_prio)
unfolding has_slot has_proc
has_slot-true s e = ground arith

pub has_slot-full : (s : Sched) → has_slot s ≡ false → 0 < s.slot s.curr_prio → has_proc s ≡ false
unfolding has_slot has_proc
has_slot-full s e h = ground arith

pub has_proc-true :
    {s : Sched} {ls : ℕ → List ℕ}
    → IsReady s ls
    → has_proc s ≡ true
    → (p : ℕ) × (rest : List ℕ) × (ls s.curr_prio ≡ p ∷ rest)
has_proc-true {s} {ls} r e = nonempty (ls s.curr_prio) (ground (arith, has_proc_lem r))
  where
    nonempty : (l : List ℕ) → (length l == 0) ≡ false → (p : ℕ) × (rest : List ℕ) × (l ≡ p ∷ rest)
    nonempty [] h = absurd (cc)
    nonempty (p ∷ rest) h = (p, rest, refl)

-- One queue and its list change together.
pub Holds-update :
    {f : ℕ → Queue} {ls : ℕ → List ℕ} (c : ℕ) {q : Queue} {l : List ℕ}
    → ((i : ℕ) → i < max_prio → Holds (f i) (ls i))
    → Holds q l
    → (i : ℕ) → i < max_prio
    → Holds (update f c q i) (update ls c l i)
Holds-update c hs h i lt = elim (Bool-cases (c == i)) [ inl e ↦ rw e h | inr e ↦ rw e (hs i lt) ]
