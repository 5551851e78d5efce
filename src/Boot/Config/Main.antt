-- ===== src/Boot/Config/Main.antt =====
-- From `main` to the threads: what `main` starts is what the theorems on the threads and the timer are
-- about.
use os_to_read.Base.{ℕ, ◌+◌, ◌≡◌, refl, subst, List, [], ◌∷◌}
use os_to_read.Base.Int.{pos_part}
use os_to_read.Base.Access.{ok, Holds, Holds-bind, Holds-self}
use os_to_read.Memphy.{Memphy}
use os_to_read.Mm.{Mm}
use os_to_read.Os.{Reachable}
use os_to_read.Os.Exclusion.{boot}
use os_to_read.Timer.{start}
use os_to_read.Loader.{Stdio, codes}
use os_to_read.Boot.{Machine, Runs}
use os_to_read.Boot.Loads.{start_machine, machine_refines}
use os_to_read.Boot.Clocked.{Clocked, start_clocked}
use os_to_read.Boot.Config.{
  ConfigIo, Started, strcat, ld_args, init_swaps, first_swap, read_config, main,
}

-- What the threads of a machine and the timer start from.
abbrev StartsFrom : Mm → Started → Type 0
StartsFrom mm s =
    (active : Memphy) × (s.machine
      ≡ start_machine (pos_part s.config.num_cpus) (record { mm = mm; active_mswp = active }))
    × (s.timer ≡ start (pos_part s.config.num_cpus + 1))

module _ {F : Type 0} (io : ConfigIo F) (junk : ℕ → ℕ × ℕ) (mp : Memphy) (mm : Mm) where
  main-StartsFrom : (argv : List (List ℕ)) → Holds (StartsFrom mm) (main io junk mp mm argv)
  unfolding main
  main-StartsFrom [] = tt
  main-StartsFrom (name ∷ []) = tt
  main-StartsFrom (name ∷ arg ∷ more ∷ l) = tt
  main-StartsFrom (name ∷ arg ∷ []) =
      Holds-bind (λ path. strcat 100 (codes "input/") arg ≡ ok path) (StartsFrom mm) _ _
        (Holds-self (strcat 100 (codes "input/") arg))
        (λ path e.
          Holds-bind (λ c. read_config io junk path ≡ ok c) (StartsFrom mm) _ _
            (Holds-self (read_config io junk path))
            (λ c e'.
              Holds-bind (λ d. first_swap (init_swaps mp c.memswpsz) ≡ ok d) (StartsFrom mm) _ _
                (Holds-self (first_swap (init_swaps mp c.memswpsz)))
                (λ active e''. (active, refl, refl))))

-- The threads that `main` starts, with the timer.
abbrev pub threads : Started → Clocked
threads s = record { os = s.machine.os; ld = s.machine.ld; timer = s.timer }

-- With any configuration that `main` accepts, any program files and any order of the threads, every
-- state that they come to is a reachable state of `Os` with `num_cpus` CPUs; and the threads with the
-- timer start as `start_clocked` has them, with a device for each of these CPUs and one for the loader:
-- the theorems on both hold of the program as it is started.
pub main_refines :
    {F G : Type 0} (io : ConfigIo F) (files : Stdio G) (junk : ℕ → ℕ × ℕ) (mp : Memphy) (mm : Mm)
    (argv : List (List ℕ)) {s : Started} {m : Machine}
    → main io junk mp mm argv ≡ ok s
    → Runs files (ld_args s.config) s.config.time_slot s.machine m
    → (active : Memphy) × Reachable s.config.time_slot
        (boot (pos_part s.config.num_cpus) (record { mm = mm; active_mswp = active }))
        m.os
      × (threads s
          ≡ start_clocked (pos_part s.config.num_cpus) (record { mm = mm; active_mswp = active }))
unfolding start_clocked
main_refines io files junk mp mm argv {s} {m} e r =
    let (active, started, timed) =
      subst (Holds (StartsFrom mm)) e (main-StartsFrom io junk mp mm argv) in
    let r' = subst (λ x. Runs files (ld_args s.config) s.config.time_slot x m) started r in
    (
      active,
      machine_refines files (ld_args s.config) s.config.time_slot (pos_part s.config.num_cpus)
          (record { mm = mm; active_mswp = active }) r',
      rw (started, timed) refl,
    )
