-- ===== src/Timer/Tests.antt =====
-- Runs of the timer with two devices, and the theorems at states that it reaches.
use os_to_read.Base.{◌≡◌, ◌+◌, ◌≤◌, refl, true, false, [], ◌∷◌}
use os_to_read.Timer.{
  free_devices, free_list, working, signalled, detached, Device, loop_head, release, ended, Timer,
  signal, resume, timer_step, fresh_device, device, timer, Reachable, here, next, start,
}
use os_to_read.Timer.Barrier.{barrier}

abbrev waiting : Device
waiting = record { done = true; fsh = false; phase = signalled; slots = 0 }

abbrev released : Device
released = record { done = false; fsh = false; phase = signalled; slots = 0 }

abbrev resumed : Device
resumed = record { done = false; fsh = false; phase = working; slots = 1 }

abbrev gone_one : Device
gone_one = record { done = false; fsh = true; phase = detached; slots = 0 }

abbrev two_waiting : Timer
two_waiting = record {
  dev_list = waiting ∷ waiting ∷ [];
  time = 0;
  timer_started = true;
  timer_stop = false;
  point = loop_head;
}

-- Both devices have done their slot.
both_signal : Reachable (start 2) two_waiting
unfolding start
both_signal =
    next (next here (device (start 2) 0 fresh_device waiting refl (signal fresh_device refl)))
      (device _ 1 fresh_device waiting refl (signal fresh_device refl))

-- The first device has left its wait while the timer is still in its second pass.
abbrev one_ahead : Timer
one_ahead = record {
  dev_list = resumed ∷ waiting ∷ [];
  time = 1;
  timer_started = true;
  timer_stop = false;
  point = release 1 0 2;
}

one_ahead-Reachable : Reachable (start 2) one_ahead
unfolding timer_step
one_ahead-Reachable =
    next
      (next
        (next
          (next (next (next (next both_signal (timer _ _ refl)) (timer _ _ refl)) (timer _ _ refl))
            (timer _ _ refl))
          (timer _ _ refl))
        (timer _ _ refl))
      (device _ 0 released resumed refl (resume released refl refl))

barrier_example : 1 ≤ 0 + 1
barrier_example =
    barrier 2 0 1 {d = resumed} {d' = waiting} one_ahead-Reachable refl refl (λ e. cc e)

-- Both devices have finished and the timer has ended.
abbrev all_over : Timer
all_over = record {
  dev_list = gone_one ∷ gone_one ∷ [];
  time = 1;
  timer_started = true;
  timer_stop = false;
  point = ended;
}

freed : free_devices all_over ≡ record all_over { dev_list = [] }
unfolding free_devices free_list
freed = refl
