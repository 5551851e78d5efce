-- ===== src/Sched/Policy.antt =====
-- Which priority `get_mlq_proc` serves, and how it moves the cursor and the slots.
use os_to_read.Base.{
  dec_lt, ℕ, ◌+◌, ◌-◌, ◌%◌, ◌<◌, ◌≡◌, refl, ap, subst, ◌∙◌, true, false, Option, none, some, ◌⊎◌,
  inl, inr, arith, List, [], update, if◌then◌else◌, ◌==◌,
}
use os_to_read.Sched.{
  max_prio, Sched, has_slot, has_proc, take, advance, get_mlq_proc, second_try, retry, step_cursor,
  reset_slots,
}
use os_to_read.Sched.Slots.{reset_slots_all}
use os_to_read.Sched.Scan.{after, after_lem, Hit, Miss, scan_lem}
use os_to_read.Sched.Inv.{IsReady, has_proc-false, has_slot-true, has_slot-full}
use os_to_read.Sched.Get.{
  Taken, Passed, Served, Idle, take-Taken, slot-take, curr_prio-take, cursor-IsReady,
}

Passed-slot :
    {s : Sched} {ls : ℕ → List ℕ} → IsReady s ls → has_slot s ≡ false → Passed s ls s.curr_prio
Passed-slot {s} r e = elim (dec_lt 0 (s.slot s.curr_prio)) [
  | yes h ↦ inl (has_proc-false r (has_slot-full s e h))
  | no h ↦ inr (omega arith)
]

Passed-after :
    {s : Sched} {ls : ℕ → List ℕ} (e : ℕ)
    → IsReady s ls
    → has_slot (after s e) ≡ false
    → Passed s ls ((s.curr_prio + e) % max_prio)
Passed-after {s} {ls} e r h =
    let c = (s.curr_prio + e) % max_prio in
    Passed-slot (cursor-IsReady c (omega arith) r) (rw (after_lem s e r.cursor) at h)

empty_after :
    {s : Sched} {ls : ℕ → List ℕ} (e : ℕ)
    → IsReady s ls
    → has_proc (after s e) ≡ false
    → ls ((s.curr_prio + e) % max_prio) ≡ []
empty_after {s} {ls} e r h =
    let c = (s.curr_prio + e) % max_prio in
    has_proc-false (cursor-IsReady c (omega arith) r) (rw (after_lem s e r.cursor) at h)

-- Every priority is met on the way round.
unfoldable pub distance_to : ℕ → ℕ → ℕ
distance_to c i = (i + max_prio - c) % max_prio

pub distance_to_lem :
    (c i : ℕ)
    → c < max_prio
    → i < max_prio
    → (distance_to c i < max_prio) × ((c + distance_to c i) % max_prio ≡ i)
unfolding distance_to
distance_to_lem c i hc hi = omega arith

all_met :
    (P : ℕ → Type 0) (c : ℕ)
    → c < max_prio
    → ((e : ℕ) → e < max_prio → P ((c + e) % max_prio))
    → (i : ℕ) → i < max_prio
    → P i
all_met P c hc h i hi =
    let (near, met) = distance_to_lem c i hc hi in subst P met (h (distance_to c i) near)

retry-some : {p : ℕ} (r : Option ℕ × Sched) → r.0 ≡ some p → retry r ≡ r
unfolding retry
retry-some (some q, s) e = refl
retry-some (none, s) e = absurd (cc)

step_cursor-some :
    {p : ℕ} (r : Option ℕ × Sched) → r.0 ≡ some p → step_cursor r ≡ (some p, advance r.1)
unfolding step_cursor
step_cursor-some (some q, s) e = ground arith
step_cursor-some (none, s) e = absurd (cc)

advance-IsReady : {s : Sched} {ls : ℕ → List ℕ} → IsReady s ls → IsReady (advance s) ls
unfolding advance
advance-IsReady {s} r = cursor-IsReady ((s.curr_prio + 1) % max_prio) (omega arith) r

Taken-advance :
    {ls : ℕ → List ℕ} {r : Option ℕ × Sched} {prio p : ℕ}
    → Taken ls r prio p
    → Taken ls (step_cursor r) prio p
Taken-advance {r = r} t = rw (step_cursor-some r t.result) (record {
  rest = t.rest;
  in_range = t.in_range;
  front = t.front;
  result = refl;
  ready = advance-IsReady t.ready;
})

cursor-advance : (s : Sched) → (advance s).curr_prio ≡ (s.curr_prio + 1) % max_prio
unfolding advance
cursor-advance s = refl

slot-advance : (s : Sched) → (advance s).slot ≡ s.slot
unfolding advance
slot-advance s = refl

-- The state in which a loop makes its hit.
abbrev at : Sched → ℕ → Sched
at s d = record s { curr_prio = (s.curr_prio + d) % max_prio }

slot-Hit :
    {s : Sched} {ls : ℕ → List ℕ} {r : Option ℕ × Sched}
    → IsReady s ls
    → Hit has_slot max_prio s r
    → Served s ls (step_cursor (retry r))
slot-Hit {s} {ls} {r} ready hit =
    let d = hit.rounds in
    let here : has_slot (at s d) ≡ true = rw (after_lem s d ready.cursor) at (hit.here) in
    let (busy, left) = has_slot-true (at s d) here in
    let (p, taken) =
      take-Taken (cursor-IsReady ((s.curr_prio + d) % max_prio) (omega arith) ready) busy in
    rw (hit.result, after_lem s d ready.cursor, retry-some (take (at s d)) taken.result)
      (record {
        prio = (s.curr_prio + d) % max_prio;
        proc = p;
        taken = Taken-advance taken;
        distance = d;
        near = hit.within;
        position = refl;
        choice = inl (record {
          left = left;
          nearest = λ e h. Passed-after e ready (hit.skipped e h);
          slots =
              rw (step_cursor-some (take (at s d)) taken.result)
                (slot-advance (take (at s d)).1 ∙ slot-take (at s d));
        });
        cursor = rw (step_cursor-some (take (at s d)) taken.result) (
            cursor-advance (take (at s d)).1
            ∙ ap (λ c. (c + 1) % max_prio) (curr_prio-take (at s d)));
      })

-- A full round brings the cursor back.
round_trip : (s : Sched) → s.curr_prio < max_prio → after s max_prio ≡ s
round_trip s h = after_lem s max_prio h ∙ ground arith

abbrev refilled : Sched → Sched
refilled s = record s { slot = reset_slots max_prio 0 s.slot }

refilled-IsReady : {s : Sched} {ls : ℕ → List ℕ} → IsReady s ls → IsReady (refilled s) ls
refilled-IsReady {s} r = record {
  holds = r.holds;
  cursor = r.cursor;
  slots = λ i h. omega (arith, reset_slots_all s.slot i h);
}

slot_refilled :
    (s : Sched) (c i : ℕ)
    → c < max_prio
    → i < max_prio
    → update (refilled s).slot c ((refilled s).slot c - 1) i
      ≡ (if c == i then max_prio - i - 1 else max_prio - i)
slot_refilled s c i hc hi = ground (arith, reset_slots_all s.slot i hi)

proc-Hit :
    {s : Sched} {ls : ℕ → List ℕ} {r : Option ℕ × Sched}
    → IsReady s ls
    → ((i : ℕ) → i < max_prio → Passed s ls i)
    → Hit has_proc max_prio (refilled s) r
    → Served s ls (step_cursor r)
proc-Hit {s} {ls} {r} ready exhausted hit =
    let d = hit.rounds in
    let t = refilled s in
    let c = (s.curr_prio + d) % max_prio in
    let ready' = refilled-IsReady ready in
    let here : has_proc (at t d) ≡ true = rw (after_lem t d ready.cursor) at (hit.here) in
    let (p, taken) = take-Taken (cursor-IsReady c (omega arith) ready') here in
    rw (hit.result, after_lem t d ready.cursor)
      (record {
        prio = c;
        proc = p;
        taken = Taken-advance taken;
        distance = d;
        near = hit.within;
        position = refl;
        choice = inr (record {
          exhausted = exhausted;
          nearest = λ e h. empty_after e ready' (hit.skipped e h);
          slots = λ i h.
              rw (step_cursor-some (take (at t d)) taken.result, slot-advance, slot-take)
                (slot_refilled s c i (omega arith) h);
        });
        cursor = rw (step_cursor-some (take (at t d)) taken.result) (
            cursor-advance (take (at t d)).1
            ∙ ap (λ k. (k + 1) % max_prio) (curr_prio-take (at t d)));
      })

proc-Miss :
    {s : Sched} {ls : ℕ → List ℕ} {r : Option ℕ × Sched}
    → IsReady s ls
    → Miss has_proc max_prio (refilled s) r
    → Idle ls (step_cursor r)
unfolding step_cursor
proc-Miss {s} {ls} ready miss =
    let ready' = refilled-IsReady ready in
    rw (miss.result, round_trip (refilled s) ready.cursor)
      (record {
        nothing =
            all_met (λ i. ls i ≡ []) s.curr_prio ready.cursor
              (λ e h. empty_after e ready' (miss.skipped e h));
        result = refl;
        ready = ready';
      })

slot-Miss :
    {s : Sched} {ls : ℕ → List ℕ} {r : Option ℕ × Sched}
    → IsReady s ls
    → Miss has_slot max_prio s r
    → Served s ls (step_cursor (retry r)) ⊎ Idle ls (step_cursor (retry r))
unfolding retry second_try
slot-Miss {s} {ls} ready miss =
    let exhausted =
      all_met (Passed s ls) s.curr_prio ready.cursor
        (λ e h. Passed-after e ready (miss.skipped e h)) in
    rw (miss.result, round_trip s ready.cursor)
      (elim (scan_lem has_proc max_prio (refilled s)) [
        | inl hit ↦ inl (proc-Hit ready exhausted hit)
        | inr none_left ↦ inr (proc-Miss ready none_left)
      ])

pub get_mlq_proc_lem :
    {s : Sched} {ls : ℕ → List ℕ}
    → IsReady s ls
    → Served s ls (get_mlq_proc s) ⊎ Idle ls (get_mlq_proc s)
unfolding get_mlq_proc
get_mlq_proc_lem {s} ready = elim (scan_lem has_slot max_prio s) [
  | inl hit ↦ inl (slot-Hit ready hit)
  | inr miss ↦ slot-Miss ready miss
]
