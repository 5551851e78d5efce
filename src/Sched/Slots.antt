-- ===== src/Sched/Slots.antt =====
-- The loops of src/sched.c over all priorities: `slot` and the sizes of the queues.
use os_to_read.Base.{
  Bool-cases, inl, inr, dec_lt, ℕ, zero, suc, ◌+◌, ◌-◌, ◌≤◌, ◌<◌, ◌≡◌, true, false, if◌then◌else◌,
  ltb, leb, update, arith, ◌&&◌,
}
use os_to_read.Queue.{Queue, empty}
use os_to_read.Sched.{max_prio, reset_slots, clear_queues, any_ready, Sched}

pub reset_slots_lem :
    (n i : ℕ) (f : ℕ → ℕ) (j : ℕ)
    → reset_slots n i f j ≡ (if leb i j && ltb j (i + n) then max_prio - j else f j)
unfolding reset_slots
reset_slots_lem zero i f j = ground arith
reset_slots_lem (suc n) i f j =
    ground (arith, reset_slots_lem n (suc i) (update f i (max_prio - i)) j)

pub reset_slots_all : (f : ℕ → ℕ) (j : ℕ) → j < max_prio → reset_slots max_prio 0 f j ≡ max_prio - j
reset_slots_all f j h = ground (arith, reset_slots_lem max_prio 0 f j)

pub clear_queues_lem :
    (n i : ℕ) (f : ℕ → Queue) (j : ℕ)
    → clear_queues n i f j ≡ (if leb i j && ltb j (i + n) then record (f j) { size = 0 } else f j)
unfolding clear_queues
clear_queues_lem zero i f j = ground arith
clear_queues_lem (suc n) i f j =
    ground (arith, clear_queues_lem n (suc i) (update f i (record (f i) { size = 0 })) j)

pub any_ready-false :
    (n i : ℕ) (s : Sched)
    → any_ready n i s ≡ false
    → (j : ℕ) → i ≤ j
    → j < i + n
    → empty (s.mlq_ready_queue j) ≡ true
unfolding any_ready
any_ready-false zero i s e j lo hi = absurd (omega arith)
any_ready-false (suc n) i s e j lo hi = elim (Bool-cases (empty (s.mlq_ready_queue i))) [
  | inl idle ↦ elim (dec_lt i j) [
    | yes above ↦ any_ready-false n (suc i) s (ground arith) j above (omega arith)
    | no here ↦ let same : i ≡ j = omega arith in rw (← same) idle
  ]
  | inr busy ↦ absurd (ground arith)
]

pub any_ready-true :
    (n i : ℕ) (s : Sched)
    → any_ready n i s ≡ true
    → (j : ℕ) × (j < i + n) × (empty (s.mlq_ready_queue j) ≡ false)
unfolding any_ready
any_ready-true zero i s e = absurd (cc)
any_ready-true (suc n) i s e = elim (Bool-cases (empty (s.mlq_ready_queue i))) [
  | inl idle ↦
      let (j, below, busy) = any_ready-true n (suc i) s (ground arith) in (j, omega arith, busy)
  | inr busy ↦ (i, omega arith, busy)
]
