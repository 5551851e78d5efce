-- ===== src/Timer/Rounds.antt =====
-- The rounds of the timer: what holds of each device, by the point of the timer thread.
use os_to_read.Base.{
  ℕ, suc, ◌+◌, ◌%◌, ◌^◌, ◌≤◌, ◌≡◌, refl, Bool, true, false, ◌||◌, Option, none, some, List, ◌==◌,
  inl, inr, get_elem?, set, arith, Bool-cases, subst,
}
use os_to_read.Timer.{
  Phase, working, signalled, detached, Device, TimerPoint, loop_head, collect, increase, release,
  ended, Timer, Move, signal, resume, detach, collect_at, release_at, timer_at, timer_step, Step,
  device, timer, stop, Reachable, here, next,
}
use os_to_read.Timer.Upto.{Upto, Upto-set, Upto-suc, Upto-suc_same, Upto-end, Upto-zero}

-- In round `r`, before the timer has seen the device: it works in slot `r`, or has done it, or has not
-- yet left its wait for it.
abbrev pub IsReleasedIn : ℕ → Phase → Bool → Bool → ℕ → Type 0
IsReleasedIn r working done fsh n = (done ≡ false) × (fsh ≡ false) × (n ≡ r)
IsReleasedIn r signalled true fsh n = (fsh ≡ false) × (n ≡ r)
IsReleasedIn r signalled false fsh n = (fsh ≡ false) × (n + 1 ≡ r)
IsReleasedIn r detached done fsh n = (fsh ≡ true) × (n ≤ r)

-- After the timer has seen it, and until the timer releases it.
abbrev pub IsWaitingIn : ℕ → Phase → Bool → Bool → ℕ → Type 0
IsWaitingIn r working done fsh n = ⊥
IsWaitingIn r signalled true fsh n = (fsh ≡ false) × (n ≡ r)
IsWaitingIn r signalled false fsh n = ⊥
IsWaitingIn r detached done fsh n = (fsh ≡ true) × (n ≤ r)

abbrev pub IsReleased : ℕ → Device → Type 0
IsReleased r d = IsReleasedIn r d.phase d.done d.fsh d.slots

abbrev pub IsWaiting : ℕ → Device → Type 0
IsWaiting r d = IsWaitingIn r d.phase d.done d.fsh d.slots

-- What holds of the devices in round `r`, by the point of the timer.
abbrev pub InRound : ℕ → List Device → TimerPoint → Type 0
InRound r l loop_head = Upto (IsReleased r) (IsReleased r) l 0
InRound r l (collect i fsh event) = Upto (IsWaiting r) (IsReleased r) l i
InRound r l (increase fsh event) = Upto (IsWaiting r) (IsWaiting r) l 0
InRound r l (release i fsh event) = Upto (IsReleased (suc r)) (IsWaiting r) l i
InRound r l ended = Upto (IsReleased r) (IsReleased r) l 0

-- What `_time` has counted: the second pass belongs to the next slot.
abbrev pub now : ℕ → TimerPoint → ℕ
now r loop_head = r
now r (collect i fsh event) = r
now r (increase fsh event) = r
now r (release i fsh event) = suc r
now r ended = r

pub record IsInStep (t : Timer) : Type 0 where
  pub round : ℕ
  pub devices : InRound round t.dev_list t.point
  pub clock : t.time ≡ now round t.point % 2 ^ 64

-- The devices keep both properties.
Move-IsReleased : (r : ℕ) {d d' : Device} → Move d d' → IsReleased r d → IsReleased r d'
Move-IsReleased r (signal d e) h =
    let h' = subst (λ p. IsReleasedIn r p d.done d.fsh d.slots) e h in (h'.1, h'.2)
Move-IsReleased r (resume d e f) h =
    let h' = subst (λ p. IsReleasedIn r p d.done d.fsh d.slots) e h in
    let h'' = subst (λ b. IsReleasedIn r signalled b d.fsh d.slots) f h' in (f, h''.0, h''.1)
Move-IsReleased r (detach d e) h =
    let h' = subst (λ p. IsReleasedIn r p d.done d.fsh d.slots) e h in (refl, omega (arith, h'.2))

Move-IsWaiting : (r : ℕ) {d d' : Device} → Move d d' → IsWaiting r d → IsWaiting r d'
Move-IsWaiting r (signal d e) h = absurd (subst (λ p. IsWaitingIn r p d.done d.fsh d.slots) e h)
Move-IsWaiting r (resume d e f) h = absurd (
    subst (λ b. IsWaitingIn r signalled b d.fsh d.slots) f
      (subst (λ p. IsWaitingIn r p d.done d.fsh d.slots) e h))
Move-IsWaiting r (detach d e) h = absurd (subst (λ p. IsWaitingIn r p d.done d.fsh d.slots) e h)

Move-InRound :
    (r : ℕ) (l : List Device) (j : ℕ) {d d' : Device} (p : TimerPoint)
    → get_elem? l j ≡ some d
    → Move d d'
    → InRound r l p
    → InRound r (set l j d') p
Move-InRound r l j loop_head e m u =
    Upto-set (IsReleased r) (IsReleased r) l 0 j _ _ e (Move-IsReleased r m) (Move-IsReleased r m) u
Move-InRound r l j (collect i fsh event) e m u =
    Upto-set (IsWaiting r) (IsReleased r) l i j _ _ e (Move-IsWaiting r m) (Move-IsReleased r m) u
Move-InRound r l j (increase fsh event) e m u =
    Upto-set (IsWaiting r) (IsWaiting r) l 0 j _ _ e (Move-IsWaiting r m) (Move-IsWaiting r m) u
Move-InRound r l j (release i fsh event) e m u =
    Upto-set (IsReleased (suc r)) (IsWaiting r) l i j _ _ e (Move-IsReleased (suc r) m)
      (Move-IsWaiting r m) u
Move-InRound r l j ended e m u =
    Upto-set (IsReleased r) (IsReleased r) l 0 j _ _ e (Move-IsReleased r m) (Move-IsReleased r m) u

-- A device that has done its slot or has finished is waiting.
seen :
    (r : ℕ) (p : Phase) (done fsh : Bool) (n : ℕ)
    → done || fsh ≡ true
    → IsReleasedIn r p done fsh n
    → IsWaitingIn r p done fsh n
seen r working done fsh n e h = absurd (cc (h.0, h.1, e))
seen r signalled true fsh n e h = h
seen r signalled false fsh n e h = absurd (cc (h.0, e))
seen r detached done fsh n e h = h

freed :
    (r : ℕ) (p : Phase) (done fsh : Bool) (n : ℕ)
    → IsWaitingIn r p done fsh n
    → IsReleasedIn (suc r) p false fsh n
freed r working done fsh n h = absurd h
freed r signalled true fsh n h = (h.0, omega (arith, h.1))
freed r signalled false fsh n h = absurd h
freed r detached done fsh n h = (h.0, omega (arith, h.1))

abbrev InStepAfter : Option Timer → Type 0
InStepAfter none = Unit
InStepAfter (some t) = IsInStep t

collect_at-InStep :
    (t : Timer) (r i fsh event : ℕ) (o : Option Device)
    → get_elem? t.dev_list i ≡ o
    → InRound r t.dev_list (collect i fsh event)
    → t.time ≡ r % 2 ^ 64
    → InStepAfter (collect_at t i fsh event o)
unfolding collect_at
collect_at-InStep t r i fsh event none e u c = record {
  round = r;
  devices = Upto-end (IsWaiting r) (IsReleased r) (IsWaiting r) t.dev_list i e u;
  clock = c;
}
collect_at-InStep t r i fsh event (some d) e u c = elim (Bool-cases (d.done || d.fsh)) [
  | inl over ↦ rw over (record {
    round = r;
    devices =
        Upto-suc_same (IsWaiting r) (IsReleased r) t.dev_list i d e
          (seen r d.phase d.done d.fsh d.slots over) u;
    clock = c;
  })
  | inr busy ↦ rw busy tt
]

release_at-InStep :
    (t : Timer) (r i fsh event : ℕ) (o : Option Device)
    → get_elem? t.dev_list i ≡ o
    → InRound r t.dev_list (release i fsh event)
    → t.time ≡ suc r % 2 ^ 64
    → IsInStep (release_at t i fsh event o)
unfolding release_at
release_at-InStep t r i fsh event none e u c =
    let all = Upto-end (IsReleased (suc r)) (IsWaiting r) (IsReleased (suc r)) t.dev_list i e u in
    elim (Bool-cases (fsh == event)) [
      | inl last ↦ rw last (record { round = suc r; devices = all; clock = c })
      | inr more ↦ rw more (record { round = suc r; devices = all; clock = c })
    ]
release_at-InStep t r i fsh event (some d) e u c = record {
  round = r;
  devices =
      Upto-suc (IsReleased (suc r)) (IsWaiting r) t.dev_list i d (record d { done = false }) e
        (freed r d.phase d.done d.fsh d.slots) u;
  clock = c;
}

timer_at-InStep :
    (t : Timer) (r : ℕ) (p : TimerPoint)
    → InRound r t.dev_list p
    → t.time ≡ now r p % 2 ^ 64
    → InStepAfter (timer_at t p)
unfolding timer_at
timer_at-InStep t r loop_head u c = elim (Bool-cases t.timer_stop) [
  | inl end ↦ rw end (record { round = r; devices = u; clock = c })
  | inr more ↦ rw more (record {
    round = r;
    devices = Upto-zero (IsReleased r) (IsWaiting r) (IsReleased r) t.dev_list u;
    clock = c;
  })
]
timer_at-InStep t r (collect i fsh event) u c = collect_at-InStep t r i fsh event _ refl u c
timer_at-InStep t r (increase fsh event) u c = record {
  round = r;
  devices = Upto-zero (IsWaiting r) (IsReleased (suc r)) (IsWaiting r) t.dev_list u;
  clock = omega (arith, c);
}
timer_at-InStep t r (release i fsh event) u c = release_at-InStep t r i fsh event _ refl u c
timer_at-InStep t r ended u c = tt

Step-IsInStep : {t t' : Timer} → Step t t' → IsInStep t → IsInStep t'
unfolding timer_step
Step-IsInStep (device t j d d' e m) k = record {
  round = k.round;
  devices = Move-InRound k.round t.dev_list j t.point e m k.devices;
  clock = k.clock;
}
Step-IsInStep (timer t t' e) k =
    subst InStepAfter e (timer_at-InStep t k.round t.point k.devices k.clock)
Step-IsInStep (stop t all) k = record { round = k.round; devices = k.devices; clock = k.clock }

pub Reachable-IsInStep : {t t' : Timer} → Reachable t t' → IsInStep t → IsInStep t'
Reachable-IsInStep here k = k
Reachable-IsInStep (next r s) k = Step-IsInStep s (Reachable-IsInStep r k)
