-- ===== src/Boot/Tests.antt =====
-- A run of the machine with one CPU and one empty process, and the theorems at it.
use os_to_read.Base.{arith, update, ℕ, refl, true, none, some, [], ◌∷◌}
use os_to_read.Base.Int.{pos}
use os_to_read.Memphy.{null}
use os_to_read.Mm.{Mm}
use os_to_read.Libmem.{Caller}
use os_to_read.Cpu.{Pcb}
use os_to_read.Sched.{add_proc}
use os_to_read.Loader.{Stdio, Garbage, codes, load, load_from, read_header, read_insts}
use os_to_read.Boot.{
  LdArgs, ended, Machine, loader_moves, ticks, Runs, no_step, then_step, ld_step, ld_at, ld_load,
  ld_wait, ld_add, entry,
}
use os_to_read.Boot.Loads.{start_machine}
use os_to_read.Boot.Due.{IsDue, added-IsDue}

-- Files in which no read converts anything.
abbrev pub empty_files : Stdio ℕ
empty_files = record {
  fopen = λ path. some 0;
  fscanf_u = λ n f. ([], f);
  fscanf_s = λ f. (none, f);
  fscanf_arg = λ n f. ([], f);
  fgets = λ n f. (none, f);
  sscanf_arg = λ n l. [];
}

abbrev pub no_code : Garbage
no_code = record { priority = 0; prio = 0; size = 0; text = λ n. [] }

abbrev pub mm : Mm
mm = record { mmap = []; symrgtbl = []; fifo_pgn = [] }

abbrev pub kernel : Caller
kernel = record {
  mm = mm;
  active_mswp = record {
    storage = [];
    maxsz = pos 0;
    rdmflg = true;
    cursor = 0;
    free_fp_list = null;
  };
}

abbrev args : LdArgs
args = record {
  path = codes "input/proc/p0" ∷ [];
  start_time = 3 ∷ [];
  prio = 0 ∷ [];
  num_processes = 1;
}

abbrev empty_proc : Pcb
empty_proc = record {
  pid = 1;
  priority = 0;
  prio = 0;
  code = record { text = []; size = 0 };
  pc = 0;
}

abbrev start : Machine
start = start_machine 1 kernel

-- The machine after the loader has added its process, at address 8, and has ended.
abbrev all_added : Machine
all_added = record {
  os = record (start.os) {
    shared = record (start.os.shared) {
      sched = add_proc (λ q. 0) (some 8) start.os.shared.sched;
      procs = update start.os.shared.procs 8 (some empty_proc);
      done = true;
    };
  };
  ld = record { point = ended; i = 1; avail_pid = 2 };
  time = 3;
}

-- The loader waits from slot 0 to slot 3, adds its process and ends.
loads_one : Runs empty_files args (pos 2) start all_added
unfolding ld_step ld_at ld_load ld_wait ld_add entry load load_from read_header read_insts
loads_one =
    let first = then_step no_step (loader_moves start 8 no_code mm _ _ refl refl) in
    let wait = then_step first (loader_moves _ 9 no_code mm _ _ refl refl) in
    let slot1 = then_step wait (ticks _ (omega arith)) in
    let slot2 = then_step slot1 (ticks _ (omega arith)) in
    let slot3 = then_step slot2 (ticks _ (omega arith)) in
    let due = then_step slot3 (loader_moves _ 9 no_code mm _ _ refl refl) in
    let added = then_step due (loader_moves _ 9 no_code mm _ _ refl refl) in
    then_step added (loader_moves _ 9 no_code mm _ _ refl refl)

added-IsDue_example : IsDue args 3 0
added-IsDue_example = added-IsDue empty_files args (pos 2) 1 0 kernel loads_one (omega arith)
