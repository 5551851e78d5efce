-- ===== src/Boot/Clocked/Late.antt =====
-- A process that `ld_routine` of src/os.c adds while a CPU is on its way to stop.
use os_to_read.Base.{
  ℕ, ◌+◌, ◌<◌, ◌≡◌, ◌≢◌, refl, ◌∙◌, true, false, none, some, List, [], ◌∷◌, arith, get_elem?, set,
  update, update_self, update_ne, get_elem?-set_self, get_elem?-set_ne, get_elem?-lt, length-set,
  ltb,
}
use os_to_read.Base.Int.{ℤ}
use os_to_read.Base.Access.{ok}
use os_to_read.Mm.{Mm}
use os_to_read.Libmem.{Caller}
use os_to_read.Cpu.{Pcb}
use os_to_read.Sched.{max_prio, get_proc, add_proc}
use os_to_read.Sched.Inv.{IsReady}
use os_to_read.Sched.Put.{queued}
use os_to_read.Os.{finished, stopped, Cpu, Shared}
use os_to_read.Os.Idling.{AreEmpty, get_proc-empty}
use os_to_read.Os.Late.{asked, asks, stops_now, queued-alone, add_proc-alone}
use os_to_read.Timer.{Device, working}
use os_to_read.Loader.{Stdio, Garbage}
use os_to_read.Boot.{LdArgs, loop_test, adds, ended, Ld, ld_step, ld_at, ld_add}
use os_to_read.Boot.Clocked.{
  Clocked, ClockedRuns, one_more, cpu_moves, loader_moves, start_clocked, cpu_event, ld_event,
  calls_timer, is_early,
}

module _ {F : Type 0} (io : Stdio F) (args : LdArgs) where
  adds_now :
      (sh : Shared) (ld : Ld) (now p q : ℕ) (g : Garbage) (mm : Mm) (pcb : Pcb)
      → ld.point ≡ adds p pcb
      → ld_step io args sh ld now q g mm ≡ ok (ld_add sh ld p pcb)
  unfolding ld_step ld_at
  adds_now sh ld now p q g mm pcb e = rw e refl

  ends_now :
      (sh : Shared) (ld : Ld) (now q : ℕ) (g : Garbage) (mm : Mm)
      → ld.point ≡ loop_test
      → ld.i ≡ args.num_processes
      → ld_step io args sh ld now q g mm
        ≡ ok (record sh { done = true }, record ld { point = ended })
  unfolding ld_step ld_at
  ends_now sh ld now q g mm e last =
      let over : ltb ld.i args.num_processes ≡ false = ground (arith, last) in rw (e, over) refl

  not-is_early : (i now p : ℕ) (pcb : Pcb) → is_early args i (adds p pcb) now ≡ false
  unfolding is_early
  not-is_early i now p pcb = refl

  not-is_early_test : (i now : ℕ) → is_early args i loop_test now ≡ false
  unfolding is_early
  not-is_early_test i now = refl

no_call : (c : Cpu) → c.point ≡ finished → calls_timer c.point ≡ false
unfolding calls_timer
no_call c e = rw e refl

no_call_asked : (c : Cpu) → calls_timer (asked c).point ≡ false
unfolding calls_timer
no_call_asked c = refl

-- What the threads share after the CPU has asked for a process, after the loader has added one, and
-- after it has ended.
abbrev after_ask : Shared → Shared
after_ask sh = record sh { sched = (get_proc sh.sched).1 }

abbrev after_add : Shared → ℕ → Pcb → Shared
after_add sh p pcb = record sh {
  sched = add_proc (λ q. pcb.prio) (some p) sh.sched;
  procs = update sh.procs p (some pcb);
}

abbrev after_done : Shared → Shared
after_done sh = record sh { done = true }

-- A run of the program on the timer reaches a state in which a CPU has freed its process, nothing is
-- queued, and the loader is about to add the last process `p`, whose priority is in range; neither of
-- the two waits for a slot, and no process is at the address `q`. It can go on so that the loader adds
-- `p`, sets `done` and ends, and the CPU stops all the same, with `p` in its ready queue: the CPU asks
-- for a process first and looks at `done` later. The other CPUs are where they were.
pub late_process :
    {F : Type 0} (io : Stdio F) (args : LdArgs) (n : ℕ) (time_slot : ℤ) (krnl : Caller) (i p q : ℕ)
    (pcb : Pcb) (g : Garbage) (mm : Mm) {m : Clocked} {c : Cpu} {d e : Device} {ls : ℕ → List ℕ}
    → ClockedRuns io args n time_slot (start_clocked n krnl) m
    → get_elem? m.os.cpus i ≡ some c
    → get_elem? m.timer.dev_list (cpu_event n i) ≡ some d
    → d.phase ≡ working
    → c.point ≡ finished
    → get_elem? m.timer.dev_list ld_event ≡ some e
    → e.phase ≡ working
    → m.ld.point ≡ adds p pcb
    → m.ld.i + 1 ≡ args.num_processes
    → m.os.shared.procs q ≡ none
    → p ≢ q
    → IsReady m.os.shared.sched ls
    → AreEmpty ls
    → pcb.prio < max_prio
    → (m' : Clocked) × ClockedRuns io args n time_slot (start_clocked n krnl) m'
      × (m'.ld.point ≡ ended)
      × (m'.os.shared.done ≡ true)
      × (get_elem? m'.os.cpus i ≡ some (record (asked c) { point = stopped }))
      × ((j : ℕ) → i ≢ j → get_elem? m'.os.cpus j ≡ get_elem? m.os.cpus j)
      × (m'.os.shared.procs p ≡ some pcb)
      × ((ls' : ℕ → List ℕ) × IsReady m'.os.shared.sched ls' × (ls' pcb.prio ≡ p ∷ []))
unfolding ld_add
late_process io args n time_slot krnl i p q pcb g mm {m} {c} {d} {e} {ls} r at dev works point
      ld_dev ld_works adding last fresh ne ready nothing h =
    let got = get_proc-empty ready nothing in
    let inside = get_elem?-lt m.os.cpus i at in
    let sh1 = after_ask m.os.shared in
    let sh2 = after_add sh1 p pcb in
    let sh3 = after_done sh2 in
    let ld2 : Ld = record m.ld { point = loop_test; i = m.ld.i + 1 } in
    let end = record (asked c) { point = stopped } in
    let r1 = one_more r (
      cpu_moves m i c (asked c) d sh1 at dev works (no_call c point)
        (asks time_slot m.os.shared c point got.0)) in
    let r2 = one_more r1 (
      loader_moves _ q g mm sh2 ld2 e ld_dev ld_works fresh
        (rw adding (not-is_early io args m.ld.i m.timer.time p pcb))
        (adds_now io args sh1 m.ld m.timer.time p q g mm pcb adding)) in
    let r3 = one_more r2 (
      loader_moves _ q g mm sh3 _ e ld_dev ld_works (update_ne sh1.procs (some pcb) ne ∙ fresh)
        (not-is_early_test io args (m.ld.i + 1) m.timer.time)
        (ends_now io args sh2 ld2 m.timer.time q g mm refl last)) in
    (
      _,
      one_more r3 (
          cpu_moves _ i (asked c) end d sh3 (get_elem?-set_self m.os.cpus i (asked c) inside) dev
            works (no_call_asked c) (stops_now time_slot sh3 c refl)),
      refl,
      refl,
      get_elem?-set_self (set m.os.cpus i (asked c)) i end
          (omega (arith, inside, length-set m.os.cpus i (asked c))),
      (λ j other.
          get_elem?-set_ne (set m.os.cpus i (asked c)) end other
          ∙ get_elem?-set_ne m.os.cpus (asked c) other),
      update_self sh1.procs p (some pcb),
      (queued ls pcb.prio p, add_proc-alone p pcb.prio got.1, queued-alone ls p pcb.prio nothing h),
    )
