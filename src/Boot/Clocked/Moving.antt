-- ===== src/Boot/Clocked/Moving.antt =====
-- The threads and the timer never all wait for one another.
use os_to_read.Base.{
  ℕ, ◌+◌, ◌-◌, ◌≤◌, ◌<◌, ◌^◌, ◌≡◌, ◌≢◌, refl, subst, true, false, none, some, ◌⊎◌, inl, inr,
  get_elem?, length, get_elem?-in, get_elem?-lt, ℕ_discrete, arith, Bool-cases,
}
use os_to_read.Base.Int.{ℤ}
use os_to_read.Base.Access.{Access, ok, err, fault}
use os_to_read.Mm.{Mm}
use os_to_read.Libmem.{Caller}
use os_to_read.Os.{
  Point, top, finished, put_back, loaded, idle, slot, running, stopped, Cpu, cpu_step,
}
use os_to_read.Timer
use os_to_read.Timer.{Device, Timer, working, signalled, signal, resume, detach, Move}
use os_to_read.Timer.Progress.{progress}
use os_to_read.Timer.Steps.{Reachable-length, start-length}
use os_to_read.Loader.{Stdio, Garbage}
use os_to_read.Boot.{LdArgs, LdPoint, loop_test, waits, adds, ended, ld_step}
use os_to_read.Boot.Clocked.{
  Clocked, in_next_slot, calls_timer, is_early, cpu_event, ld_event, ClockedStep, cpu_moves,
  cpu_waits, cpu_wakes, cpu_detaches, loader_moves, loader_waits, loader_wakes, loader_detaches,
  timer_moves, stops, ClockedRuns, start_clocked,
}
use os_to_read.Boot.Clocked.Refines.{clocked_refines}
use os_to_read.Boot.Clocked.Kept.{ClockedRuns-IsLinked}

-- An access that has no result.
abbrev pub Fails : {A : Type 0} → Access A → Type 0
Fails (ok a) = ⊥
Fails err = Unit
Fails fault = Unit

result_cases : {A : Type 0} (x : Access A) → ((a : A) × (x ≡ ok a)) ⊎ Fails x
result_cases (ok a) = inl (a, refl)
result_cases err = inr tt
result_cases fault = inr tt

call_cases : (p : Point) → (calls_timer p ≡ false) ⊎ (in_next_slot p ≡ true) ⊎ (p ≡ stopped)
unfolding calls_timer in_next_slot
call_cases top = inl refl
call_cases finished = inl refl
call_cases put_back = inl refl
call_cases loaded = inl refl
call_cases idle = inr (inl refl)
call_cases slot = inr (inl refl)
call_cases running = inl refl
call_cases stopped = inr (inr refl)

ended_cases : (p : LdPoint) → (p ≡ ended) ⊎ (p ≢ ended)
ended_cases loop_test = inr (λ e. cc e)
ended_cases (waits p pcb) = inr (λ e. cc e)
ended_cases (adds p pcb) = inr (λ e. cc e)
ended_cases ended = inl refl

module _ {F : Type 0} (io : Stdio F) (args : LdArgs) (n : ℕ) (time_slot : ℤ) (p : ℕ) (g : Garbage)
    (mm : Mm) where
  -- The next step of a CPU or of the loader ends the program or makes an access that C leaves undefined.
  pub Breaks : Clocked → Type 0
  Breaks m =
      ((j : ℕ) × (c : Cpu) × (get_elem? m.os.cpus j ≡ some c)
        × Fails (cpu_step time_slot m.os.shared c))
      ⊎ (m.ld.point ≢ ended) × Fails (ld_step io args m.os.shared m.ld m.timer.time p g mm)

  pub Moves : Clocked → Type 0
  unfolding Breaks
  Moves m = ((m' : Clocked) × ClockedStep io args n time_slot m m') ⊎ Breaks m

  working-Moves :
      (m : Clocked) (j : ℕ) (c : Cpu) (d : Device)
      → get_elem? m.os.cpus j ≡ some c
      → get_elem? m.timer.dev_list (cpu_event n j) ≡ some d
      → d.phase ≡ working
      → Moves m
  unfolding Moves
  working-Moves m j c d at at' w = elim (call_cases c.point) [
    | inl own ↦ elim (result_cases (cpu_step time_slot m.os.shared c)) [
      | inl e ↦ inl (_, cpu_moves m j c (e.0.1) d (e.0.0) at at' w own e.1)
      | inr fails ↦ inr (inl (j, c, at, fails))
    ]
    | inr (inl call) ↦ inl (_, cpu_waits m j c d at at' w call)
    | inr (inr over) ↦ inl (_, cpu_detaches m j c d at at' w over)
  ]

  cpu-Moves :
      (m : Clocked) (j : ℕ) (c : Cpu) {d d' : Device}
      → get_elem? m.os.cpus j ≡ some c
      → get_elem? m.timer.dev_list (cpu_event n j) ≡ some d
      → Move d d'
      → Moves m
  unfolding Moves
  cpu-Moves m j c at at' (signal d w) = working-Moves m j c d at at' w
  cpu-Moves m j c at at' (detach d w) = working-Moves m j c d at at' w
  cpu-Moves m j c at at' (resume d w free) =
      elim (result_cases (cpu_step time_slot m.os.shared c)) [
        | inl e ↦ inl (_, cpu_wakes m j c (e.0.1) d (e.0.0) at at' w free e.1)
        | inr fails ↦ inr (inl (j, c, at, fails))
      ]

  ld_working-Moves :
      (m : Clocked) (d : Device)
      → get_elem? m.timer.dev_list ld_event ≡ some d
      → m.os.shared.procs p ≡ none
      → d.phase ≡ working
      → Moves m
  unfolding Moves
  ld_working-Moves m d at fresh w =
      elim (Bool-cases (is_early args m.ld.i m.ld.point m.timer.time)) [
        | inl early ↦ inl (_, loader_waits m d at w early)
        | inr due ↦ elim (ended_cases m.ld.point) [
          | inl over ↦ inl (_, loader_detaches m d at w over)
          | inr more ↦ elim (result_cases (ld_step io args m.os.shared m.ld m.timer.time p g mm)) [
            | inl e ↦ inl (_, loader_moves m p g mm (e.0.0) (e.0.1) d at w fresh due e.1)
            | inr fails ↦ inr (inr (more, fails))
          ]
        ]
      ]

  loader-Moves :
      (m : Clocked) {d d' : Device}
      → get_elem? m.timer.dev_list ld_event ≡ some d
      → m.os.shared.procs p ≡ none
      → Move d d'
      → Moves m
  unfolding Moves
  loader-Moves m at fresh (signal d w) = ld_working-Moves m d at fresh w
  loader-Moves m at fresh (detach d w) = ld_working-Moves m d at fresh w
  loader-Moves m at fresh (resume d w free) = inl (_, loader_wakes m d at w free)

  device-Moves :
      (m : Clocked) (i : ℕ) {d d' : Device}
      → length m.os.cpus ≡ n
      → i ≤ n
      → get_elem? m.timer.dev_list i ≡ some d
      → m.os.shared.procs p ≡ none
      → Move d d'
      → Moves m
  unfolding cpu_event
  device-Moves m i {d} count h at fresh move = elim (ℕ_discrete i 0) [
    | yes first ↦
        loader-Moves m (subst (λ k. get_elem? m.timer.dev_list k ≡ some d) first at) fresh move
    | no other ↦
        let found = get_elem?-in m.os.cpus (n - i) (omega (arith, h, count, other)) in
        let event : i ≡ n - (n - i) = omega (arith, h) in
        cpu-Moves m (n - i) (found.0) found.1
          (subst (λ k. get_elem? m.timer.dev_list k ≡ some d) event at) move
  ]

  step-Moves :
      (m : Clocked) (t' : Timer)
      → length m.os.cpus ≡ n
      → length m.timer.dev_list ≡ n + 1
      → m.timer.time + 1 < 2 ^ 64
      → m.os.shared.procs p ≡ none
      → Timer.Step m.timer t'
      → Moves m
  unfolding Moves
  step-Moves m _ count devices h fresh (Timer.device t i d d' at move) =
      device-Moves m i count (omega (arith, get_elem?-lt t.dev_list i at, devices)) at fresh move
  step-Moves m t' count devices h fresh (Timer.timer t _ e) = inl (_, timer_moves m t' e h)
  step-Moves m _ count devices h fresh (Timer.stop t all) = inl (_, stops m all)

-- In every state of a run in which the timer has not ended, with memory for the next process at `p`: the
-- program has a next step, or the next step of a CPU or of the loader ends the program or makes an
-- access that C leaves undefined. The threads and the timer never all wait for one another.
pub moving :
    {F : Type 0} (io : Stdio F) (args : LdArgs) (n : ℕ) (time_slot : ℤ) (krnl : Caller) (p : ℕ)
    (g : Garbage) (mm : Mm) {m : Clocked}
    → ClockedRuns io args n time_slot (start_clocked n krnl) m
    → m.timer.point ≢ Timer.ended
    → m.timer.time + 1 < 2 ^ 64
    → m.os.shared.procs p ≡ none
    → ((m' : Clocked) × ClockedStep io args n time_slot m m') ⊎ Breaks io args n time_slot p g mm m
unfolding Moves
moving io args n time_slot krnl p g mm {m} r ne h fresh =
    let linked = ClockedRuns-IsLinked io args n time_slot krnl r in
    let reached = (clocked_refines io args time_slot n krnl r).1 in
    let devices : length m.timer.dev_list ≡ n + 1 =
      omega (arith, Reachable-length reached, start-length (n + 1)) in
    let next = progress (n + 1) reached ne in
    step-Moves io args n time_slot p g mm m next.0 linked.count devices h fresh next.1
