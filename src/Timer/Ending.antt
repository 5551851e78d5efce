-- ===== src/Timer/Ending.antt =====
-- The timer ends only after every device has detached.
use os_to_read.Base.{
  get_elem?-lt, ℕ, zero, suc, ◌+◌, ◌≤◌, ◌≡◌, refl, Bool, true, false, ◌||◌, Option, none, some,
  List, [], ◌∷◌, if◌then◌else◌, ◌==◌, ◌⊎◌, inl, inr, get_elem?, set, length, arith, Bool-cases,
  subst, ◌∙◌, length-set,
}
use os_to_read.Timer.{
  Phase, working, signalled, detached, Device, TimerPoint, loop_head, collect, increase, release,
  ended, Timer, Move, signal, resume, detach, collect_at, release_at, timer_at, timer_step, Step,
  device, timer, stop, Reachable, here, next, start, unused, AreDetached,
}
use os_to_read.Timer.Upto.{Upto}
use os_to_read.Timer.Gone.{fsh_of, gone, gone-set, gone-suc, out_of_range, gone_le}
use os_to_read.Timer.Rounds.{IsReleasedIn, IsReleased, InRound, Reachable-IsInStep}
use os_to_read.Timer.Barrier.{start-IsInStep, attach_events-IsAttached}

-- The counters of the timer, by its point.
abbrev IsCounted : List Device → Bool → TimerPoint → Type 0
IsCounted l halt loop_head = Unit {0}
IsCounted l halt (collect i fsh event) = (event ≡ i) × (i ≤ length l) × (fsh ≤ gone l i)
IsCounted l halt (increase fsh event) = (event ≡ length l) × (fsh ≤ gone l (length l))
IsCounted l halt (release i fsh event) = (event ≡ length l) × (fsh ≤ gone l (length l))
IsCounted l halt ended = (halt ≡ true) ⊎ (length l ≤ gone l (length l))

record IsEnding (t : Timer) : Type 0 where
  counted : IsCounted t.dev_list t.timer_stop t.point
  halted : (t.timer_stop ≡ false) ⊎ AreDetached t.dev_list

fsh-Move : {d d' : Device} → Move d d' → fsh_of d.fsh ≤ fsh_of d'.fsh
fsh-Move (signal d e) = omega arith
fsh-Move (resume d e f) = omega arith
fsh-Move (detach d e) = most d.fsh
  where
    most : (b : Bool) → fsh_of b ≤ 1
    most true = omega arith
    most false = omega arith

set-IsCounted :
    (l : List Device) (j : ℕ) (d d' : Device) (halt : Bool) (p : TimerPoint)
    → get_elem? l j ≡ some d
    → fsh_of d.fsh ≤ fsh_of d'.fsh
    → IsCounted l halt p
    → IsCounted (set l j d') halt p
set-IsCounted l j d d' halt loop_head e h c = tt
set-IsCounted l j d d' halt (collect i fsh event) e h c =
    omega (arith, c, length-set l j d', gone-set l i j d d' e h)
set-IsCounted l j d d' halt (increase fsh event) e h c =
    rw (length-set l j d') (omega (arith, c, gone-set l (length l) j d d' e h))
set-IsCounted l j d d' halt (release i fsh event) e h c =
    rw (length-set l j d') (omega (arith, c, gone-set l (length l) j d d' e h))
set-IsCounted l j d d' halt ended e h (inl s) = inl s
set-IsCounted l j d d' halt ended e h (inr c) =
    inr (rw (length-set l j d') (omega (arith, c, gone-set l (length l) j d d' e h)))

-- A device that has detached does nothing more.
Move-AreDetached :
    (l : List Device) (j : ℕ) {d d' : Device}
    → get_elem? l j ≡ some d
    → Move d d'
    → AreDetached l
    → AreDetached (set l j d')
Move-AreDetached [] j e m all = tt
Move-AreDetached (x ∷ l) (suc j) e m all = (all.0, Move-AreDetached l j e m all.1)
Move-AreDetached (x ∷ l) zero e m all = absurd (stuck m (ap_phase e ∙ all.0))
  where
    ap_phase : {d : Device} → ◌≡◌ {A = Option Device} (some x) (some d) → d.phase ≡ x.phase
    ap_phase e = cc

    stuck : {d d' : Device} → Move d d' → d.phase ≡ detached → ⊥
    stuck (signal d e) f = cc (e, f)
    stuck (resume d e f) g = cc (e, g)
    stuck (detach d e) f = cc (e, f)

set-AreDetached :
    (l : List Device) (j : ℕ) (d : Device)
    → get_elem? l j ≡ some d
    → AreDetached l
    → AreDetached (set l j (record d { done = false }))
set-AreDetached [] j d e all = tt
set-AreDetached (x ∷ l) (suc j) d e all = (all.0, set-AreDetached l j d e all.1)
set-AreDetached (x ∷ l) zero d e all = (phase_same e ∙ all.0, all.1)
  where
    phase_same : ◌≡◌ {A = Option Device} (some x) (some d) → d.phase ≡ x.phase
    phase_same e = cc

stop-IsCounted :
    (l : List Device) (halt : Bool) (p : TimerPoint) → IsCounted l halt p → IsCounted l true p
stop-IsCounted l halt loop_head c = c
stop-IsCounted l halt (collect i fsh event) c = c
stop-IsCounted l halt (increase fsh event) c = c
stop-IsCounted l halt (release i fsh event) c = c
stop-IsCounted l halt ended (inl s) = inl refl
stop-IsCounted l halt ended (inr c) = inr c

abbrev EndingAfter : Option Timer → Type 0
EndingAfter none = Unit
EndingAfter (some t) = IsEnding t

count_one : (b : Bool) (fsh n m : ℕ) → fsh ≤ n → m ≡ n + fsh_of b → (if b then fsh + 1 else fsh) ≤ m
count_one true fsh n m h e = omega arith
count_one false fsh n m h e = omega arith

collect_at-Ending :
    (t : Timer) (i fsh event : ℕ) (o : Option Device)
    → get_elem? t.dev_list i ≡ o
    → IsCounted t.dev_list t.timer_stop (collect i fsh event)
    → (t.timer_stop ≡ false) ⊎ AreDetached t.dev_list
    → EndingAfter (collect_at t i fsh event o)
unfolding collect_at
collect_at-Ending t i fsh event none e c h =
    let last : i ≡ length t.dev_list = omega (arith, out_of_range t.dev_list i e, c.1) in
    record { counted = (c.0 ∙ last, subst (λ j. fsh ≤ gone t.dev_list j) last c.2); halted = h }
collect_at-Ending t i fsh event (some d) e c h = elim (Bool-cases (d.done || d.fsh)) [
  | inl over ↦ rw over (record {
    counted = (
      omega (arith, c.0),
      get_elem?-lt t.dev_list i e,
      count_one d.fsh fsh _ _ c.2 (gone-suc t.dev_list i d e),
    );
    halted = h;
  })
  | inr busy ↦ rw busy tt
]

release_at-Ending :
    (t : Timer) (i fsh event : ℕ) (o : Option Device)
    → get_elem? t.dev_list i ≡ o
    → IsCounted t.dev_list t.timer_stop (release i fsh event)
    → (t.timer_stop ≡ false) ⊎ AreDetached t.dev_list
    → IsEnding (release_at t i fsh event o)
unfolding release_at
release_at-Ending t i fsh event none e c h = elim (Bool-cases (fsh == event)) [
  | inl last ↦ rw last (record { counted = inr (ground (arith, last, c)); halted = h })
  | inr more ↦ rw more (record { counted = tt; halted = h })
]
release_at-Ending t i fsh event (some d) e c h = record {
  counted =
      set-IsCounted t.dev_list i d (record d { done = false }) t.timer_stop
        (release (suc i) fsh event) e (omega arith) c;
  halted = elim h [ inl s ↦ inl s | inr all ↦ inr (set-AreDetached t.dev_list i d e all) ];
}

timer_at-Ending :
    (t : Timer) (p : TimerPoint)
    → IsCounted t.dev_list t.timer_stop p
    → (t.timer_stop ≡ false) ⊎ AreDetached t.dev_list
    → EndingAfter (timer_at t p)
unfolding timer_at
timer_at-Ending t loop_head c h =
    let Halted : Bool → Type 0 = λ b. (b ≡ false) ⊎ AreDetached t.dev_list in
    elim (Bool-cases t.timer_stop) [
      | inl end ↦ rw end (record { counted = inl refl; halted = subst Halted end h })
      | inr more ↦
          rw more
            (record { counted = (refl, omega arith, omega arith); halted = subst Halted more h })
    ]
timer_at-Ending t (collect i fsh event) c h = collect_at-Ending t i fsh event _ refl c h
timer_at-Ending t (increase fsh event) c h = record { counted = c; halted = h }
timer_at-Ending t (release i fsh event) c h = release_at-Ending t i fsh event _ refl c h
timer_at-Ending t ended c h = tt

Step-IsEnding : {t t' : Timer} → Step t t' → IsEnding t → IsEnding t'
unfolding timer_step
Step-IsEnding (device t j d d' e m) k = record {
  counted = set-IsCounted t.dev_list j d d' t.timer_stop t.point e (fsh-Move m) k.counted;
  halted = elim k.halted [ inl s ↦ inl s | inr all ↦ inr (Move-AreDetached t.dev_list j e m all) ];
}
Step-IsEnding (timer t t' e) k = subst EndingAfter e (timer_at-Ending t t.point k.counted k.halted)
Step-IsEnding (stop t all) k = record {
  counted = stop-IsCounted t.dev_list t.timer_stop t.point k.counted;
  halted = inr all;
}

Reachable-IsEnding : {t t' : Timer} → Reachable t t' → IsEnding t → IsEnding t'
Reachable-IsEnding here k = k
Reachable-IsEnding (next r s) k = Step-IsEnding s (Reachable-IsEnding r k)

start-IsEnding : (n : ℕ) → IsEnding (start n)
unfolding start
start-IsEnding n =
    let a = attach_events-IsAttached n unused refl tt in
    record { counted = rw (a.point) tt; halted = inl (a.stop_flag) }

IsReleased-detached :
    (r : ℕ) (p : Phase) (done fsh : Bool) (n : ℕ)
    → fsh ≡ true
    → IsReleasedIn r p done fsh n
    → p ≡ detached
IsReleased-detached r working done fsh n e h = absurd (cc (e, h.1))
IsReleased-detached r signalled true fsh n e h = absurd (cc (e, h.0))
IsReleased-detached r signalled false fsh n e h = absurd (cc (e, h.0))
IsReleased-detached r detached done fsh n e h = refl

fsh_of-true : (b : Bool) → 1 ≤ fsh_of b → b ≡ true
fsh_of-true true h = refl
fsh_of-true false h = absurd (omega (arith, h))

all_gone :
    (r : ℕ) (l : List Device)
    → Upto (IsReleased r) (IsReleased r) l 0
    → length l ≤ gone l (length l)
    → AreDetached l
unfolding gone
all_gone r [] u h = tt
all_gone r (d ∷ l) u h =
    let le = gone_le l (length l) in
    let finished = fsh_of-true d.fsh (omega (arith, le, h)) in
    let one = le_one d.fsh in
    (
      IsReleased-detached r d.phase d.done d.fsh d.slots finished u.0,
      all_gone r l u.1 (omega (arith, one, h)),
    )
  where
    le_one : (b : Bool) → fsh_of b ≤ 1
    le_one true = omega arith
    le_one false = omega arith

ended_in :
    (t : Timer) (r : ℕ) (p : TimerPoint)
    → p ≡ ended
    → InRound r t.dev_list p
    → IsCounted t.dev_list t.timer_stop p
    → (t.timer_stop ≡ false) ⊎ AreDetached t.dev_list
    → AreDetached t.dev_list
ended_in t r ended e u (inr c) h = all_gone r t.dev_list u c
ended_in t r ended e u (inl s) (inr all) = all
ended_in t r ended e u (inl s) (inl run) = absurd (cc (s, run))
ended_in t r loop_head e u c h = absurd (cc e)
ended_in t r (collect i fsh event) e u c h = absurd (cc e)
ended_in t r (increase fsh event) e u c h = absurd (cc e)
ended_in t r (release i fsh event) e u c h = absurd (cc e)

-- When the timer has ended, by its own count or because it was told to stop, all `n` devices have
-- called `detach_event`: none is left to wait for a slot that does not come.
pub ended_only :
    (n : ℕ) {t : Timer} → Reachable (start n) t → t.point ≡ ended → AreDetached t.dev_list
ended_only n {t} r e =
    let k = Reachable-IsInStep r (start-IsInStep n) in
    let c = Reachable-IsEnding r (start-IsEnding n) in
    ended_in t k.round t.point e k.devices c.counted c.halted
