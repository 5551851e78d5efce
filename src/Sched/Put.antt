-- ===== src/Sched/Put.antt =====
-- What `put_mlq_proc` and `add_mlq_proc` leave, what `get_mlq_proc` tells, and `queue_empty`.
use os_to_read.Base.{
  ℕ, ◌<◌, ◌≡◌, ◌≢◌, refl, true, false, Option, none, some, Bool-cases, ◌⊎◌, inl, inr, arith, List,
  [], ◌∷◌, update, length, if◌then◌else◌, ◌==◌, leb, ◌↔◌, ◌&&◌,
}
use os_to_read.Base.Int.{pos, minus_one}
use os_to_read.Queue.{empty}
use os_to_read.Queue.Refine.{push_back, enqueue_refines, empty_iff}
use os_to_read.Sched.{
  max_prio, Sched, get_mlq_proc, put_mlq_proc, add_mlq_proc, queue_empty, any_ready,
}
use os_to_read.Sched.Slots.{any_ready-false, any_ready-true}
use os_to_read.Sched.Inv.{IsReady, Holds-update}
use os_to_read.Sched.Policy.{get_mlq_proc_lem}

-- The lists after a process was put back: at the end of the list of its priority. A priority out of
-- range, or a full queue, loses the process.
unfoldable pub queued : (ℕ → List ℕ) → ℕ → ℕ → ℕ → List ℕ
queued ls prio p = if leb max_prio prio then ls else update ls prio (push_back (ls prio) p)

module _ (prio : ℕ → ℕ) where
  -- `put_mlq_proc` appends the process to the queue of its priority if that is in range and not full,
  -- and changes no queue otherwise.
  pub put_mlq_proc_refines :
      {s : Sched} {ls : ℕ → List ℕ} (p : ℕ)
      → IsReady s ls
      → IsReady (put_mlq_proc prio (some p) s) (queued ls (prio p) p)
  unfolding put_mlq_proc queued
  put_mlq_proc_refines {s} {ls} p r = elim (Bool-cases (leb max_prio (prio p))) [
    | inl out ↦ rw out r
    | inr in_range ↦ rw in_range (record {
      holds = Holds-update (prio p) r.holds (enqueue_refines p (r.holds (prio p) (ground arith)));
      cursor = r.cursor;
      slots = r.slots;
    })
  ]

  -- Both entry points do the same, for every process, NULL included.
  pub add_mlq_proc-put : (p : Option ℕ) (s : Sched) → add_mlq_proc prio p s ≡ put_mlq_proc prio p s
  unfolding add_mlq_proc put_mlq_proc
  add_mlq_proc-put none s = refl
  add_mlq_proc-put (some p) s = refl

  pub slot-put : (p : ℕ) (s : Sched) → (put_mlq_proc prio (some p) s).slot ≡ s.slot
  unfolding put_mlq_proc
  slot-put p s = ground arith

  pub curr_prio-put : (p : ℕ) (s : Sched) → (put_mlq_proc prio (some p) s).curr_prio ≡ s.curr_prio
  unfolding put_mlq_proc
  curr_prio-put p s = ground arith

-- `get_mlq_proc` returns NULL exactly when no process is queued at any priority.
pub get_mlq_proc-none_iff :
    {s : Sched} {ls : ℕ → List ℕ}
    → IsReady s ls
    → ((get_mlq_proc s).0 ≡ none) ↔ ((i : ℕ) → i < max_prio → ls i ≡ [])
get_mlq_proc-none_iff {s} {ls} r = elim (get_mlq_proc_lem r) [
  | inl v ↦ (
    λ e. absurd (cc (v.taken.result)),
    λ all. absurd (cc (all v.prio v.taken.in_range, v.taken.front)),
  )
  | inr idle ↦ (λ e. idle.nothing, λ all. idle.result)
]

nil_of_length : (l : List ℕ) → (length l == 0) ≡ true → l ≡ []
nil_of_length [] e = refl
nil_of_length (x ∷ l) e = absurd (ground arith)

nothing_ready :
    {s : Sched} {ls : ℕ → List ℕ}
    → IsReady s ls
    → any_ready max_prio 0 s ≡ false
    → (i : ℕ) → i < max_prio
    → ls i ≡ []
nothing_ready {s} {ls} r e i h =
    nil_of_length (ls i) (
      rw (empty_iff (r.holds i h)) at
        (any_ready-false max_prio 0 s e i (omega arith) (omega arith)))

-- `queue_empty` answers 1 only if no process is queued anywhere, and -1, which C takes for true as
-- well, exactly if one is queued at some priority.
pub queue_empty_lem :
    {s : Sched} {ls : ℕ → List ℕ}
    → IsReady s ls
    → ((queue_empty s ≡ minus_one) × (j : ℕ) × (j < max_prio) × (ls j ≢ []))
      ⊎ ((queue_empty s ≡ (if empty s.ready_queue && empty s.run_queue then pos 1 else pos 0))
          × ((i : ℕ) → i < max_prio → ls i ≡ []))
unfolding queue_empty
queue_empty_lem {s} {ls} r = elim (Bool-cases (any_ready max_prio 0 s)) [
  | inl e ↦
      let (j, below, busy) = any_ready-true max_prio 0 s e in
      inl (
        rw e refl,
        j,
        omega arith,
        λ none_left. ground (arith, empty_iff (r.holds j (omega arith))),
      )
  | inr e ↦ inr (rw e refl, nothing_ready r e)
]
