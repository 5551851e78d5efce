-- ===== src/Timer/Barrier.antt =====
-- The timer is a barrier: no device gets more than one slot ahead of another.
use os_to_read.Base.{
  ℕ, zero, suc, ◌+◌, ◌≤◌, ◌≡◌, ◌≢◌, refl, Bool, true, false, some, List, ◌∷◌, ◌⊎◌, inl, inr,
  get_elem?, arith,
}
use os_to_read.Timer.{
  Phase, working, signalled, detached, Device, TimerPoint, loop_head, collect, increase, release,
  ended, Timer, fresh_device, attach_event, attach_events, unused, Reachable, start,
}
use os_to_read.Timer.Upto.{Upto, Upto-get_elem?}
use os_to_read.Timer.Rounds.{
  IsReleasedIn, IsWaitingIn, IsReleased, IsWaiting, InRound, now, IsInStep, Reachable-IsInStep,
}

-- The calls of `next_slot` that have returned, against what `_time` has counted.
abbrev IsNear : ℕ → Phase → ℕ → Type 0
IsNear m p n = (n ≤ m) × ((p ≡ detached) ⊎ (m ≤ n + 1))

IsReleased-IsNear :
    (r : ℕ) (p : Phase) (done fsh : Bool) (n : ℕ) → IsReleasedIn r p done fsh n → IsNear r p n
IsReleased-IsNear r working done fsh n h = (omega (arith, h.2), inr (omega (arith, h.2)))
IsReleased-IsNear r signalled true fsh n h = (omega (arith, h.1), inr (omega (arith, h.1)))
IsReleased-IsNear r signalled false fsh n h = (omega (arith, h.1), inr (omega (arith, h.1)))
IsReleased-IsNear r detached done fsh n h = (h.1, inl refl)

IsWaiting-IsNear :
    (r : ℕ) (p : Phase) (done fsh : Bool) (n : ℕ)
    → IsWaitingIn r p done fsh n
    → IsNear r p n × IsNear (suc r) p n
IsWaiting-IsNear r working done fsh n h = absurd h
IsWaiting-IsNear r signalled true fsh n h =
    ((omega (arith, h.1), inr (omega (arith, h.1))), (omega (arith, h.1), inr (omega (arith, h.1))))
IsWaiting-IsNear r signalled false fsh n h = absurd h
IsWaiting-IsNear r detached done fsh n h = ((h.1, inl refl), (omega (arith, h.1), inl refl))

InRound-IsNear :
    (r : ℕ) (l : List Device) (p : TimerPoint) (j : ℕ) (d : Device)
    → get_elem? l j ≡ some d
    → InRound r l p
    → IsNear (now r p) d.phase d.slots
InRound-IsNear r l loop_head j d e u =
    elim (Upto-get_elem? (IsReleased r) (IsReleased r) l 0 j d e u) [
      | inl h ↦ IsReleased-IsNear r d.phase d.done d.fsh d.slots h
      | inr h ↦ IsReleased-IsNear r d.phase d.done d.fsh d.slots h
    ]
InRound-IsNear r l (collect i fsh event) j d e u =
    elim (Upto-get_elem? (IsWaiting r) (IsReleased r) l i j d e u) [
      | inl h ↦ (IsWaiting-IsNear r d.phase d.done d.fsh d.slots h).0
      | inr h ↦ IsReleased-IsNear r d.phase d.done d.fsh d.slots h
    ]
InRound-IsNear r l (increase fsh event) j d e u =
    elim (Upto-get_elem? (IsWaiting r) (IsWaiting r) l 0 j d e u) [
      | inl h ↦ (IsWaiting-IsNear r d.phase d.done d.fsh d.slots h).0
      | inr h ↦ (IsWaiting-IsNear r d.phase d.done d.fsh d.slots h).0
    ]
InRound-IsNear r l (release i fsh event) j d e u =
    elim (Upto-get_elem? (IsReleased (suc r)) (IsWaiting r) l i j d e u) [
      | inl h ↦ IsReleased-IsNear (suc r) d.phase d.done d.fsh d.slots h
      | inr h ↦ (IsWaiting-IsNear r d.phase d.done d.fsh d.slots h).1
    ]
InRound-IsNear r l ended j d e u = elim (Upto-get_elem? (IsReleased r) (IsReleased r) l 0 j d e u) [
  | inl h ↦ IsReleased-IsNear r d.phase d.done d.fsh d.slots h
  | inr h ↦ IsReleased-IsNear r d.phase d.done d.fsh d.slots h
]

pub attach_event-open :
    (t : Timer)
    → t.timer_started ≡ false
    → attach_event t ≡ record t { dev_list = fresh_device ∷ t.dev_list }
unfolding attach_event
attach_event-open t e = rw e refl

pub record IsAttached (t t' : Timer) : Type 0 where
  pub devices : Upto (IsReleased 0) (IsReleased 0) t'.dev_list 0
  pub clock : t'.time ≡ t.time
  pub point : t'.point ≡ t.point
  pub stop_flag : t'.timer_stop ≡ t.timer_stop

pub attach_events-IsAttached :
    (n : ℕ) (t : Timer)
    → t.timer_started ≡ false
    → Upto (IsReleased 0) (IsReleased 0) t.dev_list 0
    → IsAttached t (attach_events n t)
unfolding attach_events
attach_events-IsAttached zero t e u = record {
  devices = u;
  clock = refl;
  point = refl;
  stop_flag = refl;
}
attach_events-IsAttached (suc n) t e u =
    let t' : Timer = record t { dev_list = fresh_device ∷ t.dev_list } in
    let a = attach_events-IsAttached n t' e ((refl, refl, refl), u) in
    rw (attach_event-open t e)
      (record { devices = a.devices; clock = a.clock; point = a.point; stop_flag = a.stop_flag })

pub start-IsInStep : (n : ℕ) → IsInStep (start n)
unfolding start
start-IsInStep n =
    let a = attach_events-IsAttached n unused refl tt in
    record { round = 0; devices = rw (a.point) (a.devices); clock = rw (a.clock, a.point) refl }

-- In every state that the timer and `n` devices can reach, in whatever order they take their steps, a
-- device has returned from `next_slot` at most once more than any device that has not detached.
pub barrier :
    (n i j : ℕ) {t : Timer} {d d' : Device}
    → Reachable (start n) t
    → get_elem? t.dev_list i ≡ some d
    → get_elem? t.dev_list j ≡ some d'
    → d'.phase ≢ detached
    → d.slots ≤ d'.slots + 1
barrier n i j {t} {d} {d'} r e e' attached =
    let k = Reachable-IsInStep r (start-IsInStep n) in
    let ahead = InRound-IsNear k.round t.dev_list t.point i d e k.devices in
    elim ((InRound-IsNear k.round t.dev_list t.point j d' e' k.devices).1) [
      | inl gone ↦ absurd (attached gone)
      | inr behind ↦ omega (arith, ahead.0, behind)
    ]
