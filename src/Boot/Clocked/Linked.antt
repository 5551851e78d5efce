-- ===== src/Boot/Clocked/Linked.antt =====
-- The devices are at the places of their threads, and a CPU runs at most one instruction per slot.
use os_to_read.Base.{
  ℕ, ◌+◌, ◌≤◌, ◌<◌, ◌≡◌, ◌≢◌, refl, sym, ap, subst, Bool, true, false, some, inl, inr, get_elem?,
  set, length, length-set, get_elem?-set_cases, get_elem?-lt, ℕ_discrete, arith, ◌∙◌,
}
use os_to_read.Base.Int.{ℤ}
use os_to_read.Base.Access.{ok}
use os_to_read.Os.{Point, stopped, Cpu, Shared, cpu_step}
use os_to_read.Os.Entering.{is_running, cpu_step-outside}
use os_to_read.Timer.{Phase, working, signalled, detached, Device}
use os_to_read.Boot.{ended}
use os_to_read.Boot.Clocked.{Clocked, in_next_slot, calls_timer, cpu_event, ld_event, set_device}

-- Where the CPU of a device is.
abbrev pub Agrees : Phase → Point → Type 0
Agrees working p = Unit {0}
Agrees signalled p = in_next_slot p ≡ true
Agrees detached p = p ≡ stopped

abbrev pub one_if : Bool → ℕ
one_if true = 1
one_if false = 0

-- A CPU that has run `k` instructions, and its device.
pub record Link (c : Cpu) (d : Device) (k : ℕ) : Type 0 where
  pub agrees : Agrees d.phase c.point
  pub paced : k + one_if (is_running c.point) ≤ d.slots

-- Every CPU has its device, and the loader has its own.
pub record IsLinked (n : ℕ) (m : Clocked) (k : ℕ → ℕ) : Type 0 where
  pub count : length m.os.cpus ≡ n
  pub cpus :
      (j : ℕ) (c : Cpu) (d : Device)
      → get_elem? m.os.cpus j ≡ some c
      → get_elem? m.timer.dev_list (cpu_event n j) ≡ some d
      → Link c d (k j)
  pub loader :
      (d : Device)
      → get_elem? m.timer.dev_list ld_event ≡ some d
      → d.phase ≡ detached
      → m.ld.point ≡ ended

one_if_le : (b : Bool) → one_if b ≤ 1
one_if_le true = omega arith
one_if_le false = omega arith

-- Each thread has a device of its own.
cpu_event-distinct : (n i j : ℕ) → i < n → j < n → i ≢ j → cpu_event n i ≢ cpu_event n j
unfolding cpu_event
cpu_event-distinct n i j h h' ne e = ne (omega (arith, h, h', e))

cpu_event-ld_event : (n i : ℕ) → i < n → cpu_event n i ≢ ld_event
unfolding cpu_event
cpu_event-ld_event n i h e = omega (arith, h, e)

-- The CPU steps inside its slot.
pub moves-Link :
    (time_slot : ℤ) (sh sh' : Shared) (c c' : Cpu) (d : Device) (k : ℕ)
    → d.phase ≡ working
    → calls_timer c.point ≡ false
    → cpu_step time_slot sh c ≡ ok (sh', c')
    → Link c d k
    → Link c' d (k + one_if (is_running c.point))
unfolding calls_timer
moves-Link time_slot sh sh' c c' d k w inside e l =
    let outside = cpu_step-outside time_slot sh c (λ at. cc (inside, ap calls_timer at)) e in
    record {
      agrees = subst (λ p. Agrees p c'.point) (sym w) tt;
      paced = rw outside (omega (arith, l.paced));
    }

-- The call of `next_slot` returns.
pub wakes-Link :
    (c c' : Cpu) (d : Device) (k : ℕ)
    → Link c d k
    → Link c' (record d { phase = working; slots = d.slots + 1 }) k
wakes-Link c c' d k l = record {
  agrees = tt;
  paced = omega (arith, l.paced, one_if_le (is_running c'.point));
}

pub IsLinked-ext :
    {n : ℕ} {m : Clocked} {f g : ℕ → ℕ} → ((j : ℕ) → g j ≡ f j) → IsLinked n m f → IsLinked n m g
IsLinked-ext {f = f} {g = g} same k = record {
  count = k.count;
  cpus = λ j c d at at'. subst (Link c d) (sym (same j)) (k.cpus j c d at at');
  loader = k.loader;
}

-- The device of a CPU is no other's.
pub device-IsLinked :
    {n : ℕ} (m : Clocked) {f : ℕ → ℕ} (i : ℕ) (c : Cpu) (d d' : Device)
    → get_elem? m.os.cpus i ≡ some c
    → get_elem? m.timer.dev_list (cpu_event n i) ≡ some d
    → (Link c d (f i) → Link c d' (f i))
    → IsLinked n m f
    → IsLinked n (record m { timer = set_device m.timer (cpu_event n i) d' }) f
unfolding set_device
device-IsLinked {n} m {f} i c d d' at at' step k =
    let in_range : (j : ℕ) (x : Cpu) → get_elem? m.os.cpus j ≡ some x → j < n =
      λ j x e. subst (λ l. j < l) k.count (get_elem?-lt m.os.cpus j e) in
    record {
      count = k.count;
      cpus = λ j x y atx aty.
          elim (get_elem?-set_cases m.timer.dev_list (cpu_event n i) (cpu_event n j) at' aty) [
            | inr other ↦ k.cpus j x y atx other.1
            | inl mine ↦ elim (ℕ_discrete i j) [
              | yes same ↦
                  let it : c ≡ x = cc (at, atx, same) in
                  subst (λ q. Link x y (f q)) same
                    (subst (λ z. Link z y (f i)) it
                      (subst (λ z. Link c z (f i)) mine.1 (step (k.cpus i c d at at'))))
              | no ne ↦
                  absurd (cpu_event-distinct n i j (in_range i c at) (in_range j x atx) ne mine.0)
            ]
          ];
      loader = λ y aty gone.
          elim (get_elem?-set_cases m.timer.dev_list (cpu_event n i) ld_event at' aty) [
            | inl mine ↦ absurd (cpu_event-ld_event n i (in_range i c at) mine.0)
            | inr other ↦ k.loader y other.1 gone
          ];
    }

-- The device of the loader is no CPU's.
pub loader-IsLinked :
    {n : ℕ} (m : Clocked) {f : ℕ → ℕ} (d d' : Device)
    → get_elem? m.timer.dev_list ld_event ≡ some d
    → (d'.phase ≡ detached → m.ld.point ≡ ended)
    → IsLinked n m f
    → IsLinked n (record m { timer = set_device m.timer ld_event d' }) f
unfolding set_device
loader-IsLinked {n} m {f} d d' at step k = record {
  count = k.count;
  cpus = λ j x y atx aty.
      elim (get_elem?-set_cases m.timer.dev_list ld_event (cpu_event n j) at aty) [
        | inr other ↦ k.cpus j x y atx other.1
        | inl mine ↦
            let h = subst (λ l. j < l) k.count (get_elem?-lt m.os.cpus j atx) in
            absurd (cpu_event-ld_event n j h (sym (mine.0)))
      ];
  loader = λ y aty gone. elim (get_elem?-set_cases m.timer.dev_list ld_event ld_event at aty) [
    | inl mine ↦ step (ap (λ (z : Device). z.phase) mine.1 ∙ gone)
    | inr other ↦ absurd (other.0 refl)
  ];
}

-- A CPU in place of another.
pub cpu-IsLinked :
    {n : ℕ} (m : Clocked) {f g : ℕ → ℕ} (i : ℕ) (c c' : Cpu) (d : Device) (sh' : Shared)
    → get_elem? m.os.cpus i ≡ some c
    → get_elem? m.timer.dev_list (cpu_event n i) ≡ some d
    → (Link c d (f i) → Link c' d (g i))
    → ((j : ℕ) → i ≢ j → g j ≡ f j)
    → IsLinked n m f
    → IsLinked n (record m { os = record { shared = sh'; cpus = set m.os.cpus i c' } }) g
cpu-IsLinked {n} m {f} {g} i c c' d sh' at at' step rest k = record {
  count = length-set m.os.cpus i c' ∙ k.count;
  cpus = λ j x y atx aty. elim (get_elem?-set_cases m.os.cpus i j at atx) [
    | inr other ↦ subst (Link x y) (sym (rest j other.0)) (k.cpus j x y other.1 aty)
    | inl mine ↦
        let it : d ≡ y = cc (at', aty, mine.0) in
        subst (λ q. Link x y (g q)) mine.0
          (subst (λ z. Link z y (g i)) mine.1
            (subst (λ z. Link c' z (g i)) it (step (k.cpus i c d at at'))))
  ];
  loader = k.loader;
}
