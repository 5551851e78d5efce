-- ===== src/Timer/Steps.antt =====
-- What a step of the timer thread leaves of the devices and of the time.
use os_to_read.Base.{
  ℕ, zero, suc, ◌+◌, ◌%◌, ◌^◌, ◌≡◌, refl, sym, ap, subst, false, ◌||◌, Option, none, some, inl, inr,
  ◌⊎◌, List, [], ◌∷◌, get_elem?, set, length, length-set, arith, Bool-cases, ◌∙◌,
  get_elem?-set_cases,
}
use os_to_read.Timer.{
  Device, TimerPoint, loop_head, collect, increase, release, ended, Timer, collect_at, release_at,
  timer_at, timer_step, Step, device, timer, stop, Reachable, here, next, fresh_device,
  attach_events, start, unused, detached, AreDetached,
}
use os_to_read.Timer.Barrier.{attach_event-open, attach_events-IsAttached}

-- A device keeps its thread.
pub record IsSameThread (d d' : Device) : Type 0 where
  pub phase : d'.phase ≡ d.phase
  pub slots : d'.slots ≡ d.slots

-- What a step of the timer thread does to the time, the list and the device `j`.
record Passes (t t' : Timer) : Type 0 where
  time : (t'.time ≡ t.time) ⊎ (t'.time ≡ (t.time + 1) % 2 ^ 64)
  len : length t'.dev_list ≡ length t.dev_list
  thread :
      (j : ℕ) (d' : Device)
      → get_elem? t'.dev_list j ≡ some d'
      → (d : Device) × (get_elem? t.dev_list j ≡ some d) × IsSameThread d d'

abbrev PassesTo : Timer → Option Timer → Type 0
PassesTo t none = Unit {0}
PassesTo t (some t') = Passes t t'

same_thread :
    (l : List Device) (j : ℕ) (d' : Device)
    → get_elem? l j ≡ some d'
    → (d : Device) × (get_elem? l j ≡ some d) × IsSameThread d d'
same_thread l j d' e = (d', e, record { phase = refl; slots = refl })

collect_at-Passes :
    (t : Timer) (i fsh event : ℕ) (o : Option Device) → PassesTo t (collect_at t i fsh event o)
unfolding collect_at
collect_at-Passes t i fsh event none = record {
  time = inl refl;
  len = refl;
  thread = same_thread t.dev_list;
}
collect_at-Passes t i fsh event (some d) = elim (Bool-cases (d.done || d.fsh)) [
  | inl over ↦ rw over (record { time = inl refl; len = refl; thread = same_thread t.dev_list })
  | inr busy ↦ rw busy tt
]

release_at-thread :
    (l : List Device) (i : ℕ) (d : Device) (j : ℕ) (d' : Device)
    → get_elem? l i ≡ some d
    → get_elem? (set l i (record d { done = false })) j ≡ some d'
    → (x : Device) × (get_elem? l j ≡ some x) × IsSameThread x d'
release_at-thread l i d j d' at e = elim (get_elem?-set_cases l i j at e) [
  | inl mine ↦ (
    d,
    subst (λ k. get_elem? l k ≡ some d) mine.0 at,
    subst (IsSameThread d) mine.1 (record { phase = refl; slots = refl }),
  )
  | inr other ↦ same_thread l j d' other.1
]

release_at-Passes :
    (t : Timer) (i fsh event : ℕ) (o : Option Device)
    → get_elem? t.dev_list i ≡ o
    → Passes t (release_at t i fsh event o)
unfolding release_at
release_at-Passes t i fsh event none e = record {
  time = inl refl;
  len = refl;
  thread = same_thread t.dev_list;
}
release_at-Passes t i fsh event (some d) e = record {
  time = inl refl;
  len = length-set t.dev_list i (record d { done = false });
  thread = λ j d' e'. release_at-thread t.dev_list i d j d' e e';
}

timer_at-Passes : (t : Timer) (p : TimerPoint) → PassesTo t (timer_at t p)
unfolding timer_at
timer_at-Passes t loop_head = record {
  time = inl refl;
  len = refl;
  thread = same_thread t.dev_list;
}
timer_at-Passes t (collect i fsh event) = collect_at-Passes t i fsh event _
timer_at-Passes t (increase fsh event) = record {
  time = inr refl;
  len = refl;
  thread = same_thread t.dev_list;
}
timer_at-Passes t (release i fsh event) = release_at-Passes t i fsh event _ refl
timer_at-Passes t ended = tt

timer_step-Passes : (t t' : Timer) → timer_step t ≡ some t' → Passes t t'
unfolding timer_step
timer_step-Passes t t' e = subst (PassesTo t) e (timer_at-Passes t t.point)

pub timer_step-time :
    (t t' : Timer) → timer_step t ≡ some t' → (t'.time ≡ t.time) ⊎ (t'.time ≡ (t.time + 1) % 2 ^ 64)
timer_step-time t t' e = (timer_step-Passes t t' e).time

-- The device of a thread was there before, with the thread at the same place.
pub timer_step-thread :
    (t t' : Timer) (j : ℕ) (d' : Device)
    → timer_step t ≡ some t'
    → get_elem? t'.dev_list j ≡ some d'
    → (d : Device) × (get_elem? t.dev_list j ≡ some d) × IsSameThread d d'
timer_step-thread t t' j d' e = (timer_step-Passes t t' e).thread j d'

Step-length : {t t' : Timer} → Step t t' → length t'.dev_list ≡ length t.dev_list
Step-length (device t i d d' e m) = length-set t.dev_list i d'
Step-length (timer t t' e) = (timer_step-Passes t t' e).len
Step-length (stop t all) = refl

-- The devices stay as many as they are.
pub Reachable-length : {t t' : Timer} → Reachable t t' → length t'.dev_list ≡ length t.dev_list
Reachable-length here = refl
Reachable-length (next r s) = Step-length s ∙ Reachable-length r

attach_events-length :
    (n : ℕ) (t : Timer)
    → t.timer_started ≡ false
    → length (attach_events n t).dev_list ≡ length t.dev_list + n
unfolding attach_events
attach_events-length zero t e = omega arith
attach_events-length (suc n) t e =
    let t' : Timer = record t { dev_list = fresh_device ∷ t.dev_list } in
    let opened = ap (λ x. length (attach_events n x).dev_list) (attach_event-open t e) in
    omega (arith, opened, attach_events-length n t' e)

pub start-length : (n : ℕ) → length (start n).dev_list ≡ n
unfolding start
start-length n = omega (arith, attach_events-length n unused refl)

pub start-time : (n : ℕ) → (start n).time ≡ 0
unfolding start
start-time n = (attach_events-IsAttached n unused refl tt).clock

AreFresh : List Device → Type 0
AreFresh l = (j : ℕ) (d : Device) → get_elem? l j ≡ some d → d ≡ fresh_device

attach_events-fresh :
    (n : ℕ) (t : Timer)
    → t.timer_started ≡ false
    → AreFresh t.dev_list
    → AreFresh (attach_events n t).dev_list
unfolding attach_events AreFresh
attach_events-fresh zero t e k = k
attach_events-fresh (suc n) t e k =
    let t' : Timer = record t { dev_list = fresh_device ∷ t.dev_list } in
    let more : AreFresh t'.dev_list = added in
    subst (λ x. AreFresh (attach_events n x).dev_list) (sym (attach_event-open t e))
      (attach_events-fresh n t' e more)
  where
    added : AreFresh (fresh_device ∷ t.dev_list)
    added zero d at = cc at
    added (suc j) d at = k j d at

-- At the start no thread has done anything.
pub start-fresh :
    (n j : ℕ) (d : Device) → get_elem? (start n).dev_list j ≡ some d → d ≡ fresh_device
unfolding start AreFresh
start-fresh n = attach_events-fresh n unused refl (λ j d at. absurd (cc at))

pub AreDetached-get_elem? :
    (l : List Device) (i : ℕ) (d : Device)
    → get_elem? l i ≡ some d
    → AreDetached l
    → d.phase ≡ detached
AreDetached-get_elem? [] i d e all = absurd (cc e)
AreDetached-get_elem? (x ∷ l) zero d e all =
    let same : x ≡ d = cc e in subst (λ (y : Device). y.phase ≡ detached) same all.0
AreDetached-get_elem? (x ∷ l) (suc i) d e all = AreDetached-get_elem? l i d e all.1
