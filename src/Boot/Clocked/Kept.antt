-- ===== src/Boot/Clocked/Kept.antt =====
-- Every step of a run keeps the devices at the places of their threads, and the count of the slots.
use os_to_read.Base.{
  ℕ, zero, suc, ◌+◌, ◌≤◌, ◌≡◌, ◌≢◌, refl, sym, ap, subst, Bool, true, false, ◌&&◌, some,
  if◌then◌else◌, ◌==◌, get_elem?, length, get_elem?-set_self, get_elem?-lt, get_elem?-in, arith,
  ◌∙◌,
}
use os_to_read.Base.Int.{ℤ}
use os_to_read.Libmem.{Caller}
use os_to_read.Os.{stopped, Cpu}
use os_to_read.Os.Entering.{is_running}
use os_to_read.Os.Exclusion.{start_cpus}
use os_to_read.Timer
use os_to_read.Timer.{Phase, working, signalled, detached, Device, Timer}
use os_to_read.Timer.Steps.{
  Reachable-length, start-length, IsSameThread, timer_step-thread, start-fresh,
}
use os_to_read.Loader.{Stdio}
use os_to_read.Boot.{LdArgs}
use os_to_read.Boot.Ends.{start_cpus-top}
use os_to_read.Boot.Clocked.Refines.{clocked_refines}
use os_to_read.Boot.Clocked.{
  Clocked, in_next_slot, cpu_event, ld_event, set_device, ClockedStep, cpu_moves, cpu_waits,
  cpu_wakes, cpu_detaches, loader_moves, loader_waits, loader_wakes, loader_detaches, timer_moves,
  stops, executes, executed, ClockedRuns, at_start, one_more, start_clocked,
}
use os_to_read.Boot.Clocked.Linked.{
  Link, IsLinked, Agrees, one_if, IsLinked-ext, device-IsLinked, loader-IsLinked, cpu-IsLinked,
  moves-Link, wakes-Link,
}

add_zero : (x : ℕ) → x + 0 ≡ x
add_zero x = omega arith

counts_mine : (b : Bool) (i : ℕ) → (if b && (i == i) then 1 else 0) ≡ one_if b
counts_mine true i = ground arith
counts_mine false i = refl

counts_other : (b : Bool) (i j : ℕ) → i ≢ j → ◌≡◌ {A = ℕ} (if b && (i == j) then 1 else 0) 0
counts_other true i j ne = ground (arith, ne)
counts_other false i j ne = refl

waits-Link :
    (c : Cpu) (d : Device) (k : ℕ)
    → in_next_slot c.point ≡ true
    → Link c d k
    → Link c (record d { done = true; phase = signalled }) k
waits-Link c d k e l = record { agrees = e; paced = l.paced }

detaches-Link :
    (c : Cpu) (d : Device) (k : ℕ)
    → c.point ≡ stopped
    → Link c d k
    → Link c (record d { fsh = true; phase = detached }) k
detaches-Link c d k e l = record { agrees = e; paced = l.paced }

passes-Link : (c : Cpu) (d d' : Device) (k : ℕ) → IsSameThread d d' → Link c d k → Link c d' k
passes-Link c d d' k same l = record {
  agrees = subst (λ p. Agrees p c.point) (sym same.phase) l.agrees;
  paced = subst (λ s. k + one_if (is_running c.point) ≤ s) (sym same.slots) l.paced;
}

timer-IsLinked :
    {n : ℕ} (m : Clocked) {f : ℕ → ℕ} (t' : Timer)
    → Timer.timer_step m.timer ≡ some t'
    → IsLinked n m f
    → IsLinked n (record m { timer = t' }) f
timer-IsLinked {n} m {f} t' e k = record {
  count = k.count;
  cpus = λ j c d' at at'.
      let before = timer_step-thread m.timer t' (cpu_event n j) d' e at' in
      passes-Link c before.0 d' (f j) before.2 (k.cpus j c before.0 at before.1);
  loader = λ d' at' gone.
      let before = timer_step-thread m.timer t' ld_event d' e at' in
      k.loader before.0 before.1 (sym (before.2.phase) ∙ gone);
}

module _ {F : Type 0} (io : Stdio F) (args : LdArgs) (n : ℕ) (time_slot : ℤ) where
  Step-IsLinked :
      {m m' : Clocked} {f : ℕ → ℕ} (s : ClockedStep io args n time_slot m m')
      → IsLinked n m f
      → IsLinked n m' (λ j. f j + executes io args n time_slot j s)
  unfolding executes set_device
  Step-IsLinked {f = f} (cpu_moves m i c c' d sh' at at' w e s) k =
      let b = is_running c.point in
      cpu-IsLinked m i c c' d sh' at at'
        (λ l.
          subst (λ x. Link c' d (f i + x)) (sym (counts_mine b i))
            (moves-Link time_slot m.os.shared sh' c c' d (f i) w e s l))
        (λ j ne. ap (λ x. f j + x) (counts_other b i j ne) ∙ add_zero (f j)) k
  Step-IsLinked (cpu_waits m i c d at at' w e) k =
      IsLinked-ext (λ j. omega arith) (device-IsLinked m i c d _ at at' (waits-Link c d _ e) k)
  Step-IsLinked {f = f} (cpu_wakes m i c c' d sh' at at' w e s) k =
      let new = record d { phase = working; slots = d.slots + 1 } in
      let old = k.cpus i c d at at' in
      let event =
        get_elem?-set_self m.timer.dev_list (cpu_event n i) new
          (get_elem?-lt m.timer.dev_list (cpu_event n i) at') in
      let moved = device-IsLinked m i c d new at at' (wakes-Link c c d (f i)) k in
      IsLinked-ext (λ j. omega arith)
        (cpu-IsLinked (record m { timer = set_device m.timer (cpu_event n i) new }) i c c' new sh'
          at event (λ l. wakes-Link c c' d (f i) old) (λ j ne. refl) moved)
  Step-IsLinked (cpu_detaches m i c d at at' w e) k =
      IsLinked-ext (λ j. omega arith) (device-IsLinked m i c d _ at at' (detaches-Link c d _ e) k)
  Step-IsLinked (loader_moves m p g mm sh' ld' d at w fresh early s) k =
      IsLinked-ext (λ j. omega arith)
        (record {
          count = k.count;
          cpus = k.cpus;
          loader = λ y aty gone.
              let it : d ≡ y = cc (at, aty) in
              absurd (cc (w, gone, ap (λ (z : Device). z.phase) it));
        })
  Step-IsLinked (loader_waits m d at w e) k =
      IsLinked-ext (λ j. omega arith) (loader-IsLinked m d _ at (λ gone. absurd (cc gone)) k)
  Step-IsLinked (loader_wakes m d at w e) k =
      IsLinked-ext (λ j. omega arith) (loader-IsLinked m d _ at (λ gone. absurd (cc gone)) k)
  Step-IsLinked (loader_detaches m d at w e) k =
      IsLinked-ext (λ j. omega arith) (loader-IsLinked m d _ at (λ gone. e) k)
  Step-IsLinked (timer_moves m t' s h) k = IsLinked-ext (λ j. omega arith) (timer-IsLinked m t' s k)
  Step-IsLinked (stops m all) k =
      IsLinked-ext (λ j. omega arith) (record { count = k.count; cpus = k.cpus; loader = k.loader })

length-start_cpus : (n : ℕ) → length (start_cpus n) ≡ n
length-start_cpus zero = refl
length-start_cpus (suc n) = ap suc (length-start_cpus n)

-- At the start every thread works in the slot 0.
start_clocked-IsLinked : (n : ℕ) (krnl : Caller) → IsLinked n (start_clocked n krnl) (λ j. 0)
unfolding start_clocked is_running
start_clocked-IsLinked n krnl = record {
  count = length-start_cpus n;
  cpus = λ j c d at at'.
      let fresh = start-fresh (n + 1) (cpu_event n j) d at' in
      let top = start_cpus-top n j c at in
      record { agrees = rw (fresh) tt; paced = rw (top) (omega arith) };
  loader = λ d at gone.
      let fresh = start-fresh (n + 1) ld_event d at in
      absurd (cc (gone, ap (λ (z : Device). z.phase) fresh));
}

-- What is so in every state of a run.
pub ClockedRuns-IsLinked :
    {F : Type 0} (io : Stdio F) (args : LdArgs) (n : ℕ) (time_slot : ℤ) (krnl : Caller)
    {m : Clocked} (r : ClockedRuns io args n time_slot (start_clocked n krnl) m)
    → IsLinked n m (λ j. executed io args n time_slot j r)
unfolding executed
ClockedRuns-IsLinked io args n time_slot krnl at_start = start_clocked-IsLinked n krnl
ClockedRuns-IsLinked io args n time_slot krnl (one_more r s) =
    Step-IsLinked io args n time_slot s (ClockedRuns-IsLinked io args n time_slot krnl r)

-- The CPU has a device.
pub has_device :
    {F : Type 0} (io : Stdio F) (args : LdArgs) (n : ℕ) (time_slot : ℤ) (krnl : Caller)
    {m : Clocked}
    → ClockedRuns io args n time_slot (start_clocked n krnl) m
    → (i : ℕ) → i ≤ n
    → (d : Device) × (get_elem? m.timer.dev_list i ≡ some d)
has_device io args n time_slot krnl {m} r i h =
    let devices = Reachable-length (clocked_refines io args time_slot n krnl r).1 in
    get_elem?-in m.timer.dev_list i (omega (arith, h, devices, start-length (n + 1)))
