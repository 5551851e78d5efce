-- ===== src/Boot/Clocked/Refines.antt =====
-- The program on the timer only takes steps that the machine of the threads has, and only steps that
-- the timer and its devices have.
use os_to_read.Base.{ℕ, ◌+◌, ◌≡◌, sym, subst, inl, inr, arith}
use os_to_read.Base.Int.{ℤ}
use os_to_read.Libmem.{Caller}
use os_to_read.Timer
use os_to_read.Timer.{Timer, signal, resume, detach, device, timer, stop}
use os_to_read.Timer.Steps.{timer_step-time, start-time}
use os_to_read.Loader.{Stdio}
use os_to_read.Boot.{LdArgs, Machine, MachineStep, Runs, no_step, then_step}
use os_to_read.Boot
use os_to_read.Boot.Loads.{start_machine}
use os_to_read.Boot.Clocked.{
  Clocked, cpu_event, ld_event, set_device, ClockedStep, cpu_moves, cpu_waits, cpu_wakes,
  cpu_detaches, loader_moves, loader_waits, loader_wakes, loader_detaches, timer_moves, stops,
  ClockedRuns, at_start, one_more, start_clocked,
}

-- The machine without the devices: the time is that of the timer.
abbrev pub machine : Clocked → Machine
machine m = record { os = m.os; ld = m.ld; time = m.timer.time }

module _ {F : Type 0} (io : Stdio F) (args : LdArgs) (n : ℕ) (time_slot : ℤ) where
  -- The step as one of the threads, if it is one.
  step_of_machine :
      {m₀ : Machine} {m m' : Clocked}
      → ClockedStep io args n time_slot m m'
      → Runs io args time_slot m₀ (machine m)
      → Runs io args time_slot m₀ (machine m')
  unfolding set_device
  step_of_machine (cpu_moves m i c c' d shared' at at' w e s) r =
      then_step r (Boot.cpu_moves (machine m) i c c' shared' at s)
  step_of_machine (cpu_waits m i c d at at' w e) r = r
  step_of_machine (cpu_wakes m i c c' d shared' at at' w e s) r =
      then_step r (Boot.cpu_moves (machine m) i c c' shared' at s)
  step_of_machine (cpu_detaches m i c d at at' w e) r = r
  step_of_machine (loader_moves m p g mm shared' ld' d at w fresh e s) r =
      then_step r (Boot.loader_moves (machine m) p g mm shared' ld' fresh s)
  step_of_machine (loader_waits m d at w e) r = r
  step_of_machine (loader_wakes m d at w e) r = r
  step_of_machine (loader_detaches m d at w e) r = r
  step_of_machine {m₀} (timer_moves m t' s h) r =
      let At : ℕ → Type 0 =
        λ time. Runs io args time_slot m₀ (record { os = m.os; ld = m.ld; time = time }) in
      elim (timer_step-time m.timer t' s) [
        | inl same ↦ subst At (sym same) r
        | inr next ↦
            let later : m.timer.time + 1 ≡ t'.time = omega (arith, next, h) in
            subst At later (then_step r (Boot.ticks (machine m) h))
      ]
  step_of_machine (stops m all) r = r

  -- The step as one of the timer and its devices, if it is one.
  step_of_timer :
      {t : Timer} {m m' : Clocked}
      → ClockedStep io args n time_slot m m'
      → Timer.Reachable t m.timer
      → Timer.Reachable t m'.timer
  unfolding set_device
  step_of_timer (cpu_moves m i c c' d shared' at at' w e s) r = r
  step_of_timer (cpu_waits m i c d at at' w e) r =
      Timer.next r (device m.timer (cpu_event n i) d _ at' (signal d w))
  step_of_timer (cpu_wakes m i c c' d shared' at at' w e s) r =
      Timer.next r (device m.timer (cpu_event n i) d _ at' (resume d w e))
  step_of_timer (cpu_detaches m i c d at at' w e) r =
      Timer.next r (device m.timer (cpu_event n i) d _ at' (detach d w))
  step_of_timer (loader_moves m p g mm shared' ld' d at w fresh e s) r = r
  step_of_timer (loader_waits m d at w e) r =
      Timer.next r (device m.timer ld_event d _ at (signal d w))
  step_of_timer (loader_wakes m d at w e) r =
      Timer.next r (device m.timer ld_event d _ at (resume d w e))
  step_of_timer (loader_detaches m d at w e) r =
      Timer.next r (device m.timer ld_event d _ at (detach d w))
  step_of_timer (timer_moves m t' s h) r = Timer.next r (timer m.timer t' s)
  step_of_timer (stops m all) r = Timer.next r (stop m.timer all)

  ClockedRuns-Runs :
      {m₀ m : Clocked}
      → ClockedRuns io args n time_slot m₀ m
      → Runs io args time_slot (machine m₀) (machine m) × Timer.Reachable m₀.timer m.timer
  ClockedRuns-Runs at_start = (no_step, Timer.here)
  ClockedRuns-Runs (one_more r s) =
      let before = ClockedRuns-Runs r in (step_of_machine s before.0, step_of_timer s before.1)

-- The threads on the timer, in whatever order they take their steps, up to the slot 2 ^ 64 - 1: without
-- the devices every state is one that the machine of the threads reaches, and its timer is one that the
-- timer reaches with a device for each of the `n` CPUs and one for the loader. What holds of the states
-- of the two holds of the whole.
pub clocked_refines :
    {F : Type 0} (io : Stdio F) (args : LdArgs) (time_slot : ℤ) (n : ℕ) (krnl : Caller)
    {m : Clocked}
    → ClockedRuns io args n time_slot (start_clocked n krnl) m
    → Runs io args time_slot (start_machine n krnl) (machine m)
      × Timer.Reachable (Timer.start (n + 1)) m.timer
unfolding start_clocked
clocked_refines io args time_slot n krnl {m} r =
    let both = ClockedRuns-Runs io args n time_slot r in
    let At : ℕ → Type 0 =
      λ time. Runs io args time_slot (record (start_machine n krnl) { time = time }) (machine m) in
    (subst At (start-time (n + 1)) both.0, both.1)
