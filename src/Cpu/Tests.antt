-- ===== src/Cpu/Tests.antt =====
-- Runs of instructions, and the theorems at concrete processes.
use os_to_read.Base.{◌≡◌, refl, true, [], ◌∷◌}
use os_to_read.Base.Int.{pos}
use os_to_read.Base.Access.{ok}
use os_to_read.Memphy.{null}
use os_to_read.Libmem.{Caller}
use os_to_read.Cpu.{Opcode, calc, other, Inst, Pcb, run, exec, fetch}

abbrev simple : Opcode → Inst
simple op = record { opcode = op; arg_0 = 0; arg_1 = 0; arg_2 = 0; arg_3 = 0 }

-- Three instructions, the first of which is done.
abbrev proc : Pcb
proc = record {
  pid = 1;
  priority = 0;
  prio = 0;
  code = record { text = simple calc ∷ simple calc ∷ simple (other 77) ∷ []; size = 3 };
  pc = 1;
}

abbrev caller : Caller
caller = record {
  mm = record { mmap = []; symrgtbl = []; fifo_pgn = [] };
  active_mswp = record {
    storage = [];
    maxsz = pos 0;
    rdmflg = true;
    cursor = 0;
    free_fp_list = null;
  };
}

-- `calc` has status 0, an opcode without a name status 1; the counter goes up in both cases.
counts_up :
    (run proc caller ≡ ok (pos 0, record proc { pc = 2 }, caller))
    × (run (record proc { pc = 2 }) caller ≡ ok (pos 1, record proc { pc = 3 }, caller))
unfolding run fetch exec
counts_up = (refl, refl)
