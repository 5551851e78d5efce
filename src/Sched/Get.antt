-- ===== src/Sched/Get.antt =====
-- What `get_mlq_proc` returns and leaves.
use os_to_read.Base.{
  ℕ, ◌+◌, ◌-◌, ◌%◌, ◌<◌, ◌≡◌, refl, subst, true, Option, none, some, ◌⊎◌, arith, List, [], ◌∷◌,
  update, if◌then◌else◌, ◌==◌,
}
use os_to_read.Queue.Refine.{Holds, dequeue_refines, head_of, tail_of}
use os_to_read.Sched.{max_prio, Sched, has_proc, current, take}
use os_to_read.Sched.Scan.{after, after_lem}
use os_to_read.Sched.Inv.{IsReady, Holds-update, has_proc-true}

-- Moving the cursor keeps the invariant.
pub cursor-IsReady :
    {s : Sched} {ls : ℕ → List ℕ} (c : ℕ)
    → c < max_prio
    → IsReady s ls
    → IsReady (record s { curr_prio = c }) ls
cursor-IsReady c h r = record { holds = r.holds; cursor = h; slots = r.slots }

pub after-IsReady : {s : Sched} {ls : ℕ → List ℕ} (d : ℕ) → IsReady s ls → IsReady (after s d) ls
after-IsReady {s} {ls} d r =
    rw (after_lem s d r.cursor) (cursor-IsReady ((s.curr_prio + d) % max_prio) (omega arith) r)

-- The process `p` comes off the front of the queue of priority `prio`, and all else stays queued.
pub record Taken (ls : ℕ → List ℕ) (r : Option ℕ × Sched) (prio p : ℕ) : Type 0 where
  pub rest : List ℕ
  pub in_range : prio < max_prio
  pub front : ls prio ≡ p ∷ rest
  pub result : r.0 ≡ some p
  pub ready : IsReady r.1 (update ls prio rest)

pub take-Taken :
    {s : Sched} {ls : ℕ → List ℕ}
    → IsReady s ls
    → has_proc s ≡ true
    → (p : ℕ) × Taken ls (take s) s.curr_prio p
unfolding take current head_of tail_of
take-Taken {s} {ls} r e =
    let (p, rest, front) = has_proc-true r e in
    let queue = s.mlq_ready_queue s.curr_prio in
    let front_of =
      dequeue_refines (p ∷ rest) (subst (Holds queue) front (r.holds s.curr_prio r.cursor)) in
    (
      p,
      record {
        rest = rest;
        in_range = r.cursor;
        front = front;
        result = front_of.0;
        ready = record {
          holds = Holds-update s.curr_prio r.holds front_of.1;
          cursor = r.cursor;
          slots = λ i h. ground (arith, r.slots i);
        };
      },
    )

pub slot-take : (s : Sched) → (take s).1.slot ≡ update s.slot s.curr_prio (s.slot s.curr_prio - 1)
unfolding take
slot-take s = refl

pub curr_prio-take : (s : Sched) → (take s).1.curr_prio ≡ s.curr_prio
unfolding take
curr_prio-take s = refl

-- Priority `i` is passed over: nothing is queued, or its slots are used up.
abbrev pub Passed : Sched → (ℕ → List ℕ) → ℕ → Type 0
Passed s ls i = (ls i ≡ []) ⊎ (s.slot i ≡ 0)

-- The priority is the first one from the cursor on, going round, that has a process and a slot left.
pub record Slotted (s : Sched) (ls : ℕ → List ℕ) (prio d : ℕ) (s' : Sched) : Type 0 where
  pub left : 0 < s.slot prio
  pub nearest : (e : ℕ) → e < d → Passed s ls ((s.curr_prio + e) % max_prio)
  pub slots : s'.slot ≡ update s.slot prio (s.slot prio - 1)

-- No priority has both, so the slots are given out anew, and the priority is the first one that has a
-- process.
pub record Refilled (s : Sched) (ls : ℕ → List ℕ) (prio d : ℕ) (s' : Sched) : Type 0 where
  pub exhausted : (i : ℕ) → i < max_prio → Passed s ls i
  pub nearest : (e : ℕ) → e < d → ls ((s.curr_prio + e) % max_prio) ≡ []
  pub slots :
      (i : ℕ) → i < max_prio → s'.slot i ≡ (if prio == i then max_prio - i - 1 else max_prio - i)

-- A process is taken from priority `prio`, at the distance `d` from the cursor, and the cursor moves
-- behind that priority.
pub record Served (s : Sched) (ls : ℕ → List ℕ) (r : Option ℕ × Sched) : Type 0 where
  pub prio : ℕ
  pub proc : ℕ
  pub taken : Taken ls r prio proc
  pub distance : ℕ
  pub near : distance < max_prio
  pub position : prio ≡ (s.curr_prio + distance) % max_prio
  pub choice : Slotted s ls prio distance r.1 ⊎ Refilled s ls prio distance r.1
  pub cursor : r.1.curr_prio ≡ (prio + 1) % max_prio

-- Nothing is queued at any priority.
pub record Idle (ls : ℕ → List ℕ) (r : Option ℕ × Sched) : Type 0 where
  pub nothing : (i : ℕ) → i < max_prio → ls i ≡ []
  pub result : r.0 ≡ none
  pub ready : IsReady r.1 ls
