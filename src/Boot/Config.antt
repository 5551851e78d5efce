-- ===== src/Boot/Config.antt =====
-- `read_config` and `main` of src/os.c up to the start of the threads. The functions of stdio are a
-- parameter, in the formats that `read_config` uses; `err` stands for `exit(1)` and for `return 1`, and
-- `fault` for what C leaves undefined: a write past the end of an array, a read of `proc` before it has a
-- value. What the program does behind such an access is not modelled.
pub mod Main
pub mod Lines
mod Tests
use os_to_read.Base.{
  ℕ, zero, suc, ◌+◌, ◌≤◌, ◌<◌, ◌≡◌, refl, ◌∙◌, ap, Bool, true, false, Option, none, some, List, [],
  ◌∷◌, ◌++◌, if◌then◌else◌, ltb, ◌==◌, length, length-append, Bool-cases, Option-cases, inl, inr,
  arith, get_or,
}
use os_to_read.Base.Int.{ℤ, pos, negsuc, pos_part}
use os_to_read.Base.Access.{Access, ok, err, fault, ◌>>=◌, Holds, Holds-bind, Holds-self}
use os_to_read.Memphy.{Memphy, init_memphy}
use os_to_read.Mm.{Mm}
use os_to_read.Loader.{codes}
use os_to_read.Timer.{Timer, start}
use os_to_read.Boot.{LdArgs, Machine}
use os_to_read.Boot.Loads.{start_machine}

-- What a formatted read of one line for a process has converted.
pub record Line : Type 0 where
  pub start_time : Option ℕ
  pub proc : Option (List ℕ)
  pub prio : Option ℕ

-- `"%d %d %d\n"`, `FORMAT_ARG` and `"%lu %s %lu\n"`, on a stream of type `F`.
pub record ConfigIo (F : Type 0) : Type 0 where
  pub fopen : List ℕ → Option F
  pub fscanf_three : F → List ℤ × F
  pub fscanf_size : F → Option ℕ × F
  pub fscanf_line : F → Line × F

-- What `read_config` sets. A value that is missing in the file stays as it was: 0 in a static variable,
-- and in the memory of `malloc` whatever was there, which the file has not filled in.
pub record Config : Type 0 where
  pub time_slot : ℤ
  pub num_cpus : ℤ
  pub num_processes : ℤ
  pub memramsz : ℕ
  pub memswpsz : List ℕ
  pub entries : List (List ℕ × ℕ × ℕ)

pub or_else : Option ℕ → ℕ → ℕ
or_else none d = d
or_else (some n) d = n

pub nth_int : List ℤ → ℕ → ℤ
nth_int l i = get_or l i (pos 0)

-- `strcat(buffer, text)` behind `prefix`: both must fit the array with the terminating 0.
pub strcat : ℕ → List ℕ → List ℕ → Access (List ℕ)
strcat room prefix text = if ltb (length (prefix ++ text)) room then ok (prefix ++ text) else fault

-- The word in `char proc[100]`, which has no value before.
pub read_proc : Option (List ℕ) → Access (List ℕ)
read_proc none = fault
read_proc (some w) = if ltb (length w) 100 then ok w else fault

-- One line: the path with its prefix, the start time and the priority; `junk` is what the memory of
-- `malloc` holds where `fscanf` has converted nothing. A name that does not fit `proc[100]` or a path that
-- does not fit its 100 bytes is a write out of bounds.
pub read_line : ℕ × ℕ → Line → Access (List ℕ × ℕ × ℕ)
unfolding read_proc strcat or_else
read_line junk l = do
  proc ← read_proc l.proc
  path ← strcat 100 (codes "input/proc/") proc
  ok (path, or_else l.start_time junk.0, or_else l.prio junk.1)

pub column : {A : Type 0} → (List ℕ × ℕ × ℕ → A) → List (List ℕ × ℕ × ℕ) → List A
column f [] = []
column f (e ∷ l) = f e ∷ column f l

-- The fields of `ld_processes`.
pub ld_args : Config → LdArgs
unfolding column
ld_args c = record {
  path = column (λ e. e.0) c.entries;
  start_time = column (λ e. e.1) c.entries;
  prio = column (λ e. e.2) c.entries;
  num_processes = pos_part c.num_processes;
}

-- What `main` has set up when it starts the loader and the CPUs.
pub record Started : Type 0 where
  pub config : Config
  pub timer : Timer
  pub mram : Memphy
  pub mswp : List Memphy
  pub machine : Machine

pub init_swaps : Memphy → List ℕ → List Memphy
init_swaps junk [] = []
init_swaps junk (n ∷ sizes) = init_memphy junk n 1 ∷ init_swaps junk sizes

-- `&mswp[0]`
pub first_swap : List Memphy → Access Memphy
first_swap [] = fault
first_swap (d ∷ l) = ok d

module _ {F : Type 0} (io : ConfigIo F) where
  -- The loop over `memswpsz`.
  pub read_sizes : ℕ → F → List ℕ × F
  unfolding or_else
  read_sizes zero f = ([], f)
  read_sizes (suc n) f =
      let r = io.fscanf_size f in let rest = read_sizes n r.1 in (or_else r.0 0 ∷ rest.0, rest.1)

  pub read_lines : ℕ → (ℕ → ℕ × ℕ) → F → Access (List (List ℕ × ℕ × ℕ))
  unfolding read_line
  read_lines zero junk f = ok []
  read_lines (suc n) junk f = do
    first ← read_line (junk n) (io.fscanf_line f).0
    rest ← read_lines n junk (io.fscanf_line f).1
    ok (first ∷ rest)

  pub read_file : (ℕ → ℕ × ℕ) → F → Access Config
  unfolding read_sizes read_lines nth_int or_else
  read_file junk f =
      let three = io.fscanf_three f in
      let ram = io.fscanf_size three.1 in
      let swaps = read_sizes 4 ram.1 in
      do
        entries ← read_lines (pos_part (nth_int three.0 2)) junk swaps.1
        ok (record {
          time_slot = nth_int three.0 0;
          num_cpus = nth_int three.0 1;
          num_processes = nth_int three.0 2;
          memramsz = or_else ram.0 0;
          memswpsz = swaps.0;
          entries = entries;
        })

  pub read_config : (ℕ → ℕ × ℕ) → List ℕ → Access Config
  unfolding read_file
  read_config junk path = elim (io.fopen path) [ none ↦ err | some f ↦ read_file junk f ]

  -- `main` with the arguments `argv`; `junk` and `mp` are what fresh memory and the stack hold, `mm` the
  -- structure that no process reads before `init_mm`.
  pub main : (ℕ → ℕ × ℕ) → Memphy → Mm → List (List ℕ) → Access Started
  unfolding read_config strcat init_swaps first_swap
  main junk mp mm (name ∷ arg ∷ []) = do
    path ← strcat 100 (codes "input/") arg
    c ← read_config junk path
    let mswp = init_swaps mp c.memswpsz
    active ← first_swap mswp
    ok (record {
      config = c;
      timer = start (pos_part c.num_cpus + 1);
      mram = init_memphy mp c.memramsz 1;
      mswp = mswp;
      machine = start_machine (pos_part c.num_cpus) (record { mm = mm; active_mswp = active });
    })
  main junk mp mm argv = err
