-- ===== src/Timer.antt =====
-- src/timer.c: the timer thread and the devices that wait for it, the CPUs and the loader. A step is
-- one section under a lock; a wait on a condition is a step that is only possible when the condition
-- of its loop has ended, since the flags change under the lock that the waiting thread holds.
pub mod Upto
pub mod Steps
pub mod Rounds
pub mod Barrier
pub mod Progress
pub mod Gone
pub mod Ending
mod Tests
use os_to_read.Base.{
  ℕ, zero, suc, ◌+◌, ◌%◌, ◌^◌, Bool, true, false, ◌||◌, Option, none, some, List, [], ◌∷◌,
  if◌then◌else◌, ◌==◌, ◌≡◌, get_elem?, set,
}

-- Where the thread of a device stands: outside, in the second half of `next_slot`, or after
-- `detach_event`.
pub data Phase : Type 0 where
  working : Phase
  signalled : Phase
  detached : Phase

-- `struct timer_id_t` without its locks and conditions. `phase` is the place of its thread, and `slots`
-- counts the calls of `next_slot` that have returned.
pub record Device : Type 0 where
  pub done : Bool
  pub fsh : Bool
  pub phase : Phase
  pub slots : ℕ

-- Where `timer_routine` stands, with its local variables: the head of the loop; the first pass, at the
-- device with index `i`; before `_time++`; the second pass; after the loop.
pub data TimerPoint : Type 0 where
  loop_head : TimerPoint
  collect : (i fsh event : ℕ) → TimerPoint
  increase : (fsh event : ℕ) → TimerPoint
  release : (i fsh event : ℕ) → TimerPoint
  ended : TimerPoint

-- The static variables and the point of the thread.
pub record Timer : Type 0 where
  pub dev_list : List Device
  pub time : ℕ
  pub timer_started : Bool
  pub timer_stop : Bool
  pub point : TimerPoint

-- One section of the thread of a device: the first half of `next_slot`, the end of its wait, and
-- `detach_event`.
pub data Move : Device → Device → Type 0 where
  signal : (d : Device) → d.phase ≡ working → Move d (record d { done = true; phase = signalled })
  resume :
      (d : Device)
      → d.phase ≡ signalled
      → d.done ≡ false
      → Move d (record d { phase = working; slots = d.slots + 1 })
  detach : (d : Device) → d.phase ≡ working → Move d (record d { fsh = true; phase = detached })

-- The body of the first `for`; `none` while the device has neither done its slot nor finished.
unfoldable pub collect_at : Timer → ℕ → ℕ → ℕ → Option Device → Option Timer
collect_at t i fsh event none = some (record t { point = increase fsh event })
collect_at t i fsh event (some d) =
    if d.done || d.fsh
    then some (record t { point = collect (suc i) (if d.fsh then fsh + 1 else fsh) (event + 1) })
    else none

-- The body of the second `for`, and the test behind it.
unfoldable pub release_at : Timer → ℕ → ℕ → ℕ → Option Device → Timer
release_at t i fsh event none = record t { point = if fsh == event then ended else loop_head }
release_at t i fsh event (some d) = record t {
  dev_list = set t.dev_list i (record d { done = false });
  point = release (suc i) fsh event;
}

unfoldable pub timer_at : Timer → TimerPoint → Option Timer
unfolding collect_at release_at
timer_at t loop_head = some (record t { point = if t.timer_stop then ended else collect 0 0 0 })
timer_at t (collect i fsh event) = collect_at t i fsh event (get_elem? t.dev_list i)
timer_at t (increase fsh event) =
    some (record t { time = (t.time + 1) % 2 ^ 64; point = release 0 fsh event })
timer_at t (release i fsh event) = some (release_at t i fsh event (get_elem? t.dev_list i))
timer_at t ended = none

-- A step of `timer_routine`, if there is one.
unfoldable pub timer_step : Timer → Option Timer
unfolding timer_at
timer_step t = timer_at t t.point

abbrev pub fresh_device : Device
fresh_device = record { done = false; fsh = false; phase = working; slots = 0 }

-- `attach_event`; after the start it returns NULL.
unfoldable pub attach_event : Timer → Timer
attach_event t = if t.timer_started then t else record t { dev_list = fresh_device ∷ t.dev_list }

unfoldable pub start_timer : Timer → Timer
start_timer t = record t { timer_started = true }

abbrev pub unused : Timer
unused = record {
  dev_list = [];
  time = 0;
  timer_started = false;
  timer_stop = false;
  point = loop_head;
}

unfoldable pub attach_events : ℕ → Timer → Timer
unfolding attach_event
attach_events zero t = t
attach_events (suc n) t = attach_events n (attach_event t)

-- The timer as `main` starts it, with `n` devices.
unfoldable pub start : ℕ → Timer
unfolding attach_events start_timer
start n = start_timer (attach_events n unused)

pub current_time : Timer → ℕ
current_time t = t.time

-- The loop of `stop_timer` that frees the devices, after the timer thread has ended.
pub free_list : List Device → List Device
free_list [] = []
free_list (d ∷ l) = free_list l

pub free_devices : Timer → Timer
unfolding free_list
free_devices t = record t { dev_list = free_list t.dev_list }

abbrev pub AreDetached : List Device → Type 0
AreDetached [] = Unit {0}
AreDetached (d ∷ l) = (d.phase ≡ detached) × AreDetached l

-- The steps of the devices and of the timer. `main` sets `timer_stop` after it has joined all threads.
pub data Step : Timer → Timer → Type 0 where
  device :
      (t : Timer) (i : ℕ) (d d' : Device)
      → get_elem? t.dev_list i ≡ some d
      → Move d d'
      → Step t (record t { dev_list = set t.dev_list i d' })
  timer : (t t' : Timer) → timer_step t ≡ some t' → Step t t'
  stop : (t : Timer) → AreDetached t.dev_list → Step t (record t { timer_stop = true })

pub data Reachable (t : Timer) : Timer → Type 0 where
  here : Reachable t t
  next : {t' t'' : Timer} → Reachable t t' → Step t' t'' → Reachable t t''
