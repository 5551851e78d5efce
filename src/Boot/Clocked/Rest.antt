-- ===== src/Boot/Clocked/Rest.antt =====
-- The program when all CPUs have stopped.
use os_to_read.Base.{
  ℕ, some, ◌≡◌, ◌≢◌, refl, sym, ap, ◌∙◌, inl, inr, get_elem?, set, get_elem?-set_cases,
}
use os_to_read.Base.Int.{ℤ}
use os_to_read.Base.Access.{ok, err}
use os_to_read.Mm.{Mm}
use os_to_read.Libmem.{Caller}
use os_to_read.Os.{stopped, Cpu, Shared, Os, cpu_step, at_point}
use os_to_read.Loader.{Stdio, Garbage}
use os_to_read.Boot.{LdArgs, ended, Ld, ld_step, ld_at}
use os_to_read.Boot.Ends.{stopped_after_all}
use os_to_read.Boot.Clocked.{
  Clocked, ClockedStep, cpu_moves, cpu_waits, cpu_wakes, cpu_detaches, loader_moves, loader_waits,
  loader_wakes, loader_detaches, timer_moves, stops, ClockedRuns, at_start, one_more, start_clocked,
}
use os_to_read.Boot.Clocked.Refines.{clocked_refines}

abbrev pub AreStopped : Os → Type 0
AreStopped os = (j : ℕ) (c : Cpu) → get_elem? os.cpus j ≡ some c → c.point ≡ stopped

-- A CPU that has stopped does nothing.
rests :
    (time_slot : ℤ) (sh : Shared) (c : Cpu)
    → c.point ≡ stopped
    → cpu_step time_slot sh c ≡ ok (sh, c)
unfolding cpu_step at_point
rests time_slot sh c end = rw end refl

stopped_step :
    (time_slot : ℤ) (sh sh' : Shared) (c c' : Cpu)
    → c.point ≡ stopped
    → cpu_step time_slot sh c ≡ ok (sh', c')
    → (sh' ≡ sh) × (c' ≡ c)
stopped_step time_slot sh sh' c c' end e =
    let stays : ok (sh, c) ≡ ok (sh', c') = sym (rests time_slot sh c end) ∙ e in
    (cc stays, cc stays)

ended_step :
    {F : Type 0} (io : Stdio F) (args : LdArgs) (sh sh' : Shared) (ld ld' : Ld) (now p : ℕ)
    (g : Garbage) (mm : Mm)
    → ld.point ≡ ended
    → ld_step io args sh ld now p g mm ≢ ok (sh', ld')
unfolding ld_step ld_at
ended_step io args sh sh' ld ld' now p g mm end e =
    let none_left : err ≡ ok (sh', ld') = rw end at e in cc none_left

-- The state has what the threads share as `sh`, its CPUs have stopped and its loader has ended.
record IsAtRest (sh : Shared) (m : Clocked) : Type 0 where
  kept : m.os.shared ≡ sh
  cpus : AreStopped m.os
  loader : m.ld.point ≡ ended

moved-IsAtRest :
    (time_slot : ℤ) (m m' : Clocked) (sh sh' : Shared) (i : ℕ) (c c' : Cpu)
    → get_elem? m.os.cpus i ≡ some c
    → cpu_step time_slot m.os.shared c ≡ ok (sh', c')
    → m'.os ≡ record { shared = sh'; cpus = set m.os.cpus i c' }
    → m'.ld ≡ m.ld
    → IsAtRest sh m
    → IsAtRest sh m'
moved-IsAtRest time_slot m m' sh sh' i c c' at s now ld k =
    let same = stopped_step time_slot m.os.shared sh' c c' (k.cpus i c at) s in
    record {
      kept = ap (λ (o : Os). o.shared) now ∙ same.0 ∙ k.kept;
      cpus = λ j x at'.
          elim (get_elem?-set_cases m.os.cpus i j at
            (ap (λ (o : Os). get_elem? o.cpus j) (sym now) ∙ at')) [
              | inl mine ↦ ap (λ (y : Cpu). y.point) (sym mine.1 ∙ same.1) ∙ k.cpus i c at
              | inr other ↦ k.cpus j x other.1
            ];
      loader = ap (λ (l : Ld). l.point) ld ∙ k.loader;
    }

module _ {F : Type 0} (io : Stdio F) (args : LdArgs) (n : ℕ) (time_slot : ℤ) (sh : Shared) where
  ClockedStep-IsAtRest :
      {m m' : Clocked} → ClockedStep io args n time_slot m m' → IsAtRest sh m → IsAtRest sh m'
  ClockedStep-IsAtRest (cpu_moves m i c c' d sh' at at' w e s) k =
      moved-IsAtRest time_slot m _ sh sh' i c c' at s refl refl k
  ClockedStep-IsAtRest (cpu_wakes m i c c' d sh' at at' w e s) k =
      moved-IsAtRest time_slot m _ sh sh' i c c' at s refl refl k
  ClockedStep-IsAtRest (loader_moves m p g mm sh' ld' d at w fresh e s) k =
      absurd (ended_step io args m.os.shared sh' m.ld ld' m.timer.time p g mm k.loader s)
  ClockedStep-IsAtRest (cpu_waits m i c d at at' w e) k = record {
    kept = k.kept;
    cpus = k.cpus;
    loader = k.loader;
  }
  ClockedStep-IsAtRest (cpu_detaches m i c d at at' w e) k = record {
    kept = k.kept;
    cpus = k.cpus;
    loader = k.loader;
  }
  ClockedStep-IsAtRest (loader_waits m d at w e) k = record {
    kept = k.kept;
    cpus = k.cpus;
    loader = k.loader;
  }
  ClockedStep-IsAtRest (loader_wakes m d at w e) k = record {
    kept = k.kept;
    cpus = k.cpus;
    loader = k.loader;
  }
  ClockedStep-IsAtRest (loader_detaches m d at w e) k = record {
    kept = k.kept;
    cpus = k.cpus;
    loader = k.loader;
  }
  ClockedStep-IsAtRest (timer_moves m t' s h) k = record {
    kept = k.kept;
    cpus = k.cpus;
    loader = k.loader;
  }
  ClockedStep-IsAtRest (stops m all) k = record { kept = k.kept; cpus = k.cpus; loader = k.loader }

  ClockedRuns-IsAtRest :
      {m m' : Clocked} → ClockedRuns io args n time_slot m m' → IsAtRest sh m → IsAtRest sh m'
  ClockedRuns-IsAtRest at_start k = k
  ClockedRuns-IsAtRest (one_more r s) k = ClockedStep-IsAtRest s (ClockedRuns-IsAtRest r k)

-- When a run of the program on the timer has come to a state in which all its CPUs have stopped, one at
-- least, what the threads share, the ready queues, the processes and the memory, is the same in every
-- state behind it: a process that is in a ready queue then stays there and runs no more.
pub left_for_good :
    {F : Type 0} (io : Stdio F) (args : LdArgs) (n : ℕ) (time_slot : ℤ) (krnl : Caller) (j : ℕ)
    {m m' : Clocked} {c : Cpu}
    → ClockedRuns io args n time_slot (start_clocked n krnl) m
    → get_elem? m.os.cpus j ≡ some c
    → AreStopped m.os
    → ClockedRuns io args n time_slot m m'
    → m'.os.shared ≡ m.os.shared
left_for_good io args n time_slot krnl j {m} {m'} {c} r at all r' =
    let reached = (clocked_refines io args time_slot n krnl r).0 in
    let over = stopped_after_all io args time_slot n j krnl reached at (all j c at) in
    let k : IsAtRest m.os.shared m = record { kept = refl; cpus = all; loader = over.0 } in
    let k' : IsAtRest m.os.shared m' = ClockedRuns-IsAtRest io args n time_slot _ r' k in k'.kept
