-- ===== src/Timer/Progress.antt =====
-- The threads and the timer are never all stuck, and the timer ends only after every device.
use os_to_read.Base.{
  ℕ, suc, ◌+◌, ◌≡◌, ◌≢◌, refl, Bool, true, false, ◌||◌, Option, none, some, if◌then◌else◌, inl, inr,
  get_elem?, arith, Bool-cases, ◌∙◌,
}
use os_to_read.Timer.{
  Phase, working, signalled, detached, Device, TimerPoint, loop_head, collect, increase, release,
  ended, Timer, signal, resume, collect_at, timer_at, timer_step, Step, device, timer, Reachable,
  start,
}
use os_to_read.Timer.Upto.{Upto-get_elem?_at}
use os_to_read.Timer.Rounds.{IsReleasedIn, IsReleased, IsWaiting, InRound, Reachable-IsInStep}
use os_to_read.Timer.Barrier.{start-IsInStep}

-- There is a step from `t`.
abbrev CanStep : Timer → Type 0
CanStep t = (t' : Timer) × Step t t'

-- The device that the timer waits for can do something itself.
busy_steps :
    (t : Timer) (i : ℕ) (d : Device) (r : ℕ) (p : Phase) (b : Bool)
    → get_elem? t.dev_list i ≡ some d
    → d.phase ≡ p
    → d.done ≡ b
    → d.done || d.fsh ≡ false
    → IsReleasedIn r p b d.fsh d.slots
    → CanStep t
busy_steps t i d r working b e f g busy h = (_, device t i d _ e (signal d f))
busy_steps t i d r signalled true e f g busy h = absurd (cc (g, busy))
busy_steps t i d r signalled false e f g busy h = (_, device t i d _ e (resume d f g))
busy_steps t i d r detached b e f g busy h = absurd (ground (arith, h.0))

collect_at-over :
    (t : Timer) (i fsh event : ℕ) (d : Device)
    → d.done || d.fsh ≡ true
    → collect_at t i fsh event (some d)
      ≡ some (record t { point = collect (suc i) (if d.fsh then fsh + 1 else fsh) (event + 1) })
unfolding collect_at
collect_at-over t i fsh event d over = rw over refl

collect_at-end :
    (t : Timer) (i fsh event : ℕ)
    → collect_at t i fsh event none ≡ some (record t { point = increase fsh event })
unfolding collect_at
collect_at-end t i fsh event = refl

collect_steps :
    (t : Timer) (r i fsh event : ℕ) (o : Option Device)
    → get_elem? t.dev_list i ≡ o
    → ((d : Device) → get_elem? t.dev_list i ≡ some d → IsReleased r d)
    → timer_step t ≡ collect_at t i fsh event o
    → CanStep t
collect_steps t r i fsh event none e released s = (_, timer t _ (s ∙ collect_at-end t i fsh event))
collect_steps t r i fsh event (some d) e released s = elim (Bool-cases (d.done || d.fsh)) [
  | inl over ↦ (_, timer t _ (s ∙ collect_at-over t i fsh event d over))
  | inr busy ↦ busy_steps t i d r d.phase d.done e refl refl busy (released d e)
]

point_steps :
    (t : Timer) (r : ℕ) (p : TimerPoint)
    → timer_step t ≡ timer_at t p
    → InRound r t.dev_list p
    → p ≢ ended
    → CanStep t
unfolding timer_at
point_steps t r loop_head s u ne = (_, timer t _ s)
point_steps t r (collect i fsh event) s u ne =
    collect_steps t r i fsh event (get_elem? t.dev_list i) refl
      (λ d e. Upto-get_elem?_at (IsWaiting r) (IsReleased r) t.dev_list i d e u) s
point_steps t r (increase fsh event) s u ne = (_, timer t _ s)
point_steps t r (release i fsh event) s u ne = (_, timer t _ s)
point_steps t r ended s u ne = absurd (ne refl)

timer_step_lem : (t : Timer) → timer_step t ≡ timer_at t t.point
unfolding timer_step
timer_step_lem t = refl

-- In every reachable state in which the timer has not ended, the timer or a device has a step: they
-- never all wait for one another.
pub progress :
    (n : ℕ) {t : Timer} → Reachable (start n) t → t.point ≢ ended → (t' : Timer) × Step t t'
progress n {t} r ne =
    let k = Reachable-IsInStep r (start-IsInStep n) in
    point_steps t k.round t.point (timer_step_lem t) k.devices ne
