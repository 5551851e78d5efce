-- ===== src/Boot/Config/Tests.antt =====
-- A configuration that is read, and the theorem at it.
use os_to_read.Base.{
  arith, false, ◌+◌, ◌==◌, if◌then◌else◌, ℕ, ◌≡◌, refl, none, some, List, [], ◌∷◌, ◌*◌, ◌++◌,
  get_elem?,
}
use os_to_read.Base.Int.{pos}
use os_to_read.Base.Access.{ok}
use os_to_read.Memphy.{Memphy, null, init_memphy}
use os_to_read.Mm.{Mm}
use os_to_read.Os.{Reachable}
use os_to_read.Os.Exclusion.{boot}
use os_to_read.Timer
use os_to_read.Loader.{codes, Stdio, Garbage, load, load_from, read_header, read_insts}
use os_to_read.Boot.{
  waits, Machine, ld_step, ld_at, ld_load, entry, loader_moves, ticks, Runs, no_step, then_step,
}
use os_to_read.Boot.Loads.{start_machine}
use os_to_read.Boot.Config.{Config, Started, ld_args, column, init_swaps, first_swap, main}
use os_to_read.Boot.Config.Lines.{Row, size, no_size, line, no_line, IsFile, read_config-IsFile}
use os_to_read.Boot.Config.Main.{threads, main_refines}
use os_to_read.Boot.Clocked.{start_clocked}
use os_to_read.Boot.Config.{
  ConfigIo, read_config, read_file, read_lines, read_sizes, read_line, read_proc, strcat, or_else,
  nth_int,
}

-- A configuration with two processes; the second line has no priority.
abbrev two_lines : ConfigIo ℕ
two_lines = record {
  fopen = λ path. some 0;
  fscanf_three = λ f. (pos 2 ∷ pos 1 ∷ pos 2 ∷ [], f);
  fscanf_size = λ f. (some 4096, f);
  fscanf_line = λ f. (
    record {
      start_time = some f;
      proc = some (codes "p0");
      prio = if f == 0 then some 7 else none;
    },
    f + 1,
  );
}

abbrev path : List ℕ
path = codes "input/os_0"

abbrev memory : ℕ → ℕ × ℕ
memory n = (40 + n, 50 + n)

reads_two :
    read_config two_lines memory path
    ≡ ok (record {
      time_slot = pos 2;
      num_cpus = pos 1;
      num_processes = pos 2;
      memramsz = 4096;
      memswpsz = 4096 ∷ 4096 ∷ 4096 ∷ 4096 ∷ [];
      entries = (codes "input/proc/p0", 0, 7) ∷ (codes "input/proc/p0", 1, 50) ∷ [];
    })
unfolding read_config read_file read_lines read_sizes read_line read_proc strcat or_else nth_int
reads_two = refl

-- A file with two whole lines.
abbrev rows : List Row
rows =
    record { name = codes "p0"; start_time = 0; prio = 7 }
    ∷ record { name = codes "p0"; start_time = 1; prio = 9 }
    ∷ []

abbrev whole_file : ConfigIo ℕ
whole_file = record two_lines {
  fscanf_line = λ f.
      (record { start_time = some f; proc = some (codes "p0"); prio = some (7 + 2 * f) }, f + 1);
}

whole_file-IsFile :
    IsFile whole_file path (pos 2) (pos 1) 4096 (4096 ∷ 4096 ∷ 4096 ∷ 4096 ∷ []) rows
whole_file-IsFile = record {
  opened = 0;
  behind_three = 0;
  behind_sizes = 0;
  found = refl;
  three = refl;
  sizes = size refl (size refl (size refl (size refl (size refl no_size))));
  four = refl;
  lines = line refl (omega arith) (line refl (omega arith) no_line);
}

read_config-IsFile_example :
    (c : Config) × (read_config whole_file memory path ≡ ok c)
    × (c.time_slot ≡ pos 2)
    × (c.num_cpus ≡ pos 1)
    × (c.memramsz ≡ 4096)
    × (c.memswpsz ≡ 4096 ∷ 4096 ∷ 4096 ∷ 4096 ∷ [])
    × ((ld_args c).num_processes ≡ 2)
    × ((i : ℕ) (r : Row)
        → get_elem? rows i ≡ some r
        → (entry (ld_args c).path i ≡ ok (codes "input/proc/" ++ r.name))
          × (entry (ld_args c).start_time i ≡ ok r.start_time)
          × (entry (ld_args c).prio i ≡ ok r.prio))
read_config-IsFile_example =
    read_config-IsFile whole_file memory path (pos 2) (pos 1) 4096 (4096 ∷ 4096 ∷ 4096 ∷ 4096 ∷ [])
      rows whole_file-IsFile

-- Program files in which no read converts anything.
abbrev empty_files : Stdio ℕ
empty_files = record {
  fopen = λ path. some 0;
  fscanf_u = λ n f. ([], f);
  fscanf_s = λ f. (none, f);
  fscanf_arg = λ n f. ([], f);
  fgets = λ n f. (none, f);
  sscanf_arg = λ n l. [];
}

abbrev no_code : Garbage
no_code = record { priority = 0; prio = 0; size = 0; text = λ n. [] }

abbrev mm : Mm
mm = record { mmap = []; symrgtbl = []; fifo_pgn = [] }

abbrev stack : Memphy
stack = record { storage = []; maxsz = pos 0; rdmflg = false; cursor = 0; free_fp_list = null }

abbrev swap : Memphy
swap = init_memphy stack 4096 1

abbrev argv : List (List ℕ)
argv = codes "os" ∷ codes "os_0" ∷ []

abbrev first_machine : Machine
first_machine = start_machine 1 (record { mm = mm; active_mswp = swap })

abbrev started : Started
started = record {
  config = record {
    time_slot = pos 2;
    num_cpus = pos 1;
    num_processes = pos 2;
    memramsz = 4096;
    memswpsz = 4096 ∷ 4096 ∷ 4096 ∷ 4096 ∷ [];
    entries = (codes "input/proc/p0", 0, 7) ∷ (codes "input/proc/p0", 1, 50) ∷ [];
  };
  timer = Timer.start 2;
  mram = swap;
  mswp = swap ∷ swap ∷ swap ∷ swap ∷ [];
  machine = first_machine;
}

starts : main two_lines memory stack mm argv ≡ ok started
unfolding main read_config read_file read_lines read_sizes read_line read_proc strcat or_else
    nth_int init_swaps first_swap
starts = refl

-- The first process, which waits for its time.
abbrev waiting : Machine
waiting = record first_machine {
  ld = record {
    point =
        waits 8 (record {
          pid = 1;
          priority = 0;
          prio = 7;
          code = record { text = []; size = 0 };
          pc = 0;
        });
    i = 0;
    avail_pid = 2;
  };
  time = 1;
}

loads_first : Runs empty_files (ld_args started.config) (pos 2) first_machine waiting
unfolding ld_step ld_at ld_load entry load load_from read_header read_insts ld_args column
loads_first =
    then_step (then_step no_step (loader_moves first_machine 8 no_code mm _ _ refl refl))
      (ticks _ (omega arith))

main_refines_example :
    (active : Memphy) × Reachable
      (pos 2)
      (boot 1 (record { mm = mm; active_mswp = active }))
      waiting.os
    × (threads started ≡ start_clocked 1 (record { mm = mm; active_mswp = active }))
main_refines_example = main_refines two_lines empty_files memory stack mm argv starts loads_first
