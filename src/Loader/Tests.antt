-- ===== src/Loader/Tests.antt =====
-- The theorems at a program of three instructions.
use os_to_read.Base.{
  ◌↔◌, ℕ, true, ◌≡◌, ◌≢◌, refl, some, List, [], ◌∷◌, ◌⊎◌, inr, arith, replicate, length,
  length-replicate,
}
use os_to_read.Base.Access.{ok, err, fault}
use os_to_read.Libmem.{Caller}
use os_to_read.Memphy.{null}
use os_to_read.Base.Int.{pos}
use os_to_read.Cpu.{calc, alloc, kmalloc, syscall, other, Inst, Pcb}
use os_to_read.Cpu.Run.{run_times}
use os_to_read.Loader.{
  codes, same, get_opcode, Garbage, load, load_from, read_insts, read_inst, scan_inst, scan_args,
  scan_line, read_line, read_word, store_args, set_arg, read_header,
}
use os_to_read.Loader.Tokens.{word, num, newline, File, stdio, print, At, Inside, stdio-Prints}
use os_to_read.Loader.Names.{opcode_name, get_opcode_lem}
use os_to_read.Loader.Text.{load-run_times}
use os_to_read.Loader.Printed.{ArePrintable, AgreeFrom}
use os_to_read.Loader.Round.{load-Prints}

abbrev blank : Inst
blank = record { opcode = other 90; arg_0 = 91; arg_1 = 92; arg_2 = 93; arg_3 = 94 }

abbrev garbage : Garbage
garbage = record { priority = 7; prio = 0; size = 8; text = λ n. replicate n blank }

abbrev program : List Inst
program =
    record { opcode = calc; arg_0 = 0; arg_1 = 0; arg_2 = 0; arg_3 = 0 }
    ∷ record { opcode = alloc; arg_0 = 300; arg_1 = 4; arg_2 = 0; arg_3 = 0 }
    ∷ record { opcode = syscall; arg_0 = 17; arg_1 = 1; arg_2 = 2; arg_3 = 3 }
    ∷ []

abbrev printed : File
printed = num 5 ∷ num 3 ∷ newline ∷ print program

-- The process as it comes back; the operands that are not in the file are those of the memory.
abbrev proc : Pcb
proc = record {
  pid = 1;
  priority = 5;
  prio = 0;
  code = record {
    text =
        record { opcode = calc; arg_0 = 91; arg_1 = 92; arg_2 = 93; arg_3 = 94 }
        ∷ record { opcode = alloc; arg_0 = 300; arg_1 = 4; arg_2 = 93; arg_3 = 94 }
        ∷ record { opcode = syscall; arg_0 = 17; arg_1 = 1; arg_2 = 2; arg_3 = 3 }
        ∷ [];
    size = 3;
  };
  pc = 0;
}

abbrev path : List ℕ
path = codes "input/proc/p0s"

loads : load (stdio printed) path garbage 1 ≡ ok (proc, 2)
unfolding load load_from read_header read_insts read_inst scan_inst scan_args scan_line read_line
    read_word store_args set_arg get_opcode same
loads = refl

-- The names of four opcodes do not fit `opcode[10]`.
no_long_names :
    load (stdio (num 5 ∷ num 1 ∷ newline ∷ word (codes "copy_to_user") ∷ [])) path garbage 1 ≡ fault
unfolding load load_from read_header read_insts read_inst read_word
no_long_names = refl

-- A word that is no name ends the program.
no_opcode : load (stdio (num 5 ∷ num 1 ∷ newline ∷ word (codes "jump") ∷ [])) path garbage 1 ≡ err
unfolding load load_from read_header read_insts read_inst read_word get_opcode same
no_opcode = refl

abbrev caller : Caller
caller = record {
  mm = record { mmap = []; symrgtbl = []; fifo_pgn = [] };
  active_mswp = record {
    storage = [];
    maxsz = pos 0;
    rdmflg = true;
    cursor = 0;
    free_fp_list = null;
  };
}

get_opcode_lem_example :
    ((get_opcode (codes "kmalloc") ≡ ok kmalloc) ↔ (opcode_name kmalloc ≡ some (codes "kmalloc")))
    × (get_opcode (codes "kmalloc") ≢ fault)
get_opcode_lem_example = get_opcode_lem (codes "kmalloc") kmalloc

load-run_times_example :
    (run_times 3 proc caller ≡ fault)
    ⊎ ((c' : Caller) × (run_times 3 proc caller ≡ ok (record proc { pc = 3 }, c')))
load-run_times_example =
    load-run_times (stdio printed) garbage path 1 2 proc caller (λ n. length-replicate n blank)
      loads

program-ArePrintable : ArePrintable program
program-ArePrintable = (
  record {
    loadable = (codes "calc", refl, omega arith);
    arg_0 = omega arith;
    arg_1 = omega arith;
    arg_2 = omega arith;
    arg_3 = omega arith;
  },
  (
    record {
      loadable = (codes "alloc", refl, omega arith);
      arg_0 = omega arith;
      arg_1 = omega arith;
      arg_2 = omega arith;
      arg_3 = omega arith;
    },
    (
      record {
        loadable = (codes "syscall", refl, omega arith);
        arg_0 = omega arith;
        arg_1 = omega arith;
        arg_2 = omega arith;
        arg_3 = omega arith;
      },
      tt,
    ),
  ),
)

load-Prints_example :
    (p : Pcb) × (load (stdio printed) path garbage 1 ≡ ok (p, 2))
    × (p.priority ≡ 5)
    × (p.code.size ≡ 3)
    × (length p.code.text ≡ 3)
    × AgreeFrom p.code.text 0 program
load-Prints_example =
    load-Prints (stdio printed) At Inside garbage path 1 5 printed (newline ∷ print program) program
      (stdio-Prints printed) (λ n. length-replicate n blank) refl refl (inr refl) (omega arith)
      (omega arith) program-ArePrintable
