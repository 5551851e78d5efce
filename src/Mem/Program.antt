-- ===== src/Mem/Program.antt =====
-- src/paging.c, a program of its own in the build without MM_PAGING: it loads a process twice, runs the
-- two in turn and dumps the memory. The registers and page tables that `malloc` gives are parameters.
pub mod Nothing
use os_to_read.Base.{
  ℕ, zero, suc, ◌+◌, ◌*◌, ◌%◌, ◌^◌, ◌≤◌, ◌<◌, ◌≡◌, refl, sym, ap, subst, ◌∙◌, none, some, List, [],
  ◌∷◌, ◌++◌, if◌then◌else◌, leb, get_elem?, replicate, arith, Option, inl, inr, Bool-cases, Bool,
  true, false, ◌==◌,
}
use os_to_read.Base.Int.{ℤ, pos}
use os_to_read.Base.Access.{Access, ok, err, fault, ◌>>=◌, Holds, Holds-bind, Holds-self}
use os_to_read.Syscall.{ScRegs, libsyscall}
use os_to_read.Cpu
use os_to_read.Cpu.{
  Opcode, calc, syscall, kmalloc, kmem_cache_create, kmem_cache_alloc, copy_from_user, copy_to_user,
  other, Inst, Pcb, fetch,
}
use os_to_read.Loader.{Stdio, Garbage, codes}
use os_to_read.Loader
use os_to_read.Mem
use os_to_read.Mem.{Mem, MemPcb, PageStat, init_mem, page_size, num_pages}
use os_to_read.Mem.Dump.{Dumped, dump}

-- `struct pcb_t` with the fields of this build.
pub record Proc : Type 0 where
  pub pcb : Pcb
  pub memory : MemPcb

-- The status of an instruction, with what it leaves of the process and the memory.
pub keeps_memory : Mem → Access (ℕ × MemPcb) → Access (ℕ × MemPcb × Mem)
keeps_memory m r = do done ← r; ok (done.0, done.1, m)

pub keeps_proc : MemPcb → Access (ℕ × Mem) → Access (ℕ × MemPcb × Mem)
keeps_proc p r = do done ← r; ok (done.0, p, done.1)

-- The `switch` of `run` in src/cpu.c without MM_PAGING. The parameters of the functions have 32 bits; a
-- system call returns 0, and its registers are dropped.
pub exec : Mem → MemPcb → Inst → Opcode → Access (ℕ × MemPcb × Mem)
unfolding keeps_memory keeps_proc
exec m p ins calc = ok (0, p, m)
exec m p ins Cpu.alloc = keeps_memory m (Mem.alloc p (ins.arg_0 % 2 ^ 32) (ins.arg_1 % 2 ^ 32))
exec m p ins Cpu.free = do stat ← Mem.free_data p (ins.arg_0 % 2 ^ 32); ok (stat, p, m)
exec m p ins Cpu.read =
    keeps_memory m (Mem.read m p (ins.arg_0 % 2 ^ 32) (ins.arg_1 % 2 ^ 32) (ins.arg_2 % 2 ^ 32))
exec m p ins Cpu.write =
    keeps_proc p (Mem.write m p (ins.arg_0 % 2 ^ 8) (ins.arg_1 % 2 ^ 32) (ins.arg_2 % 2 ^ 32))
exec m p ins syscall = elim (libsyscall (ins.arg_0 % 2 ^ 32) ins.arg_1 ins.arg_2 ins.arg_3) [
  | ok regs ↦ ok (0, p, m)
  | err ↦ ok (0, p, m)
  | fault ↦ fault
]
exec m p ins kmalloc = ok (1, p, m)
exec m p ins kmem_cache_create = ok (1, p, m)
exec m p ins kmem_cache_alloc = ok (1, p, m)
exec m p ins copy_from_user = ok (1, p, m)
exec m p ins copy_to_user = ok (1, p, m)
exec m p ins (other k) = ok (1, p, m)

pub run : Mem → Proc → Access (Proc × Mem)
unfolding exec
run m p = if leb p.pcb.code.size p.pcb.pc then ok (p, m) else (do
  ins ← fetch p.pcb
  done ← exec m p.memory ins ins.opcode
  ok (record { pcb = record (p.pcb) { pc = (p.pcb.pc + 1) % 2 ^ 32 }; memory = done.1 }, done.2))

-- The loop, with `n` rounds left.
pub run_both : ℕ → Mem → Proc → Proc → Access Mem
unfolding run
run_both zero m proc ld = ok m
run_both (suc n) m proc ld = do
  first ← run m proc
  second ← run (first.1) ld
  run_both n (second.1) (first.0) (second.0)

-- The static variables are 0 at the start, as `init_mem` sets them.
pub main : {F : Type 0} → Stdio F → Garbage → Garbage → MemPcb → MemPcb → Access (List Dumped)
unfolding run_both
main io g g' memory memory' = do
  ld ← Loader.load io (codes "input/p0") g 1
  proc ← Loader.load io (codes "input/p0") g' (ld.1)
  m ←
      run_both (proc.0.code.size) init_mem
        (record { pcb = proc.0; memory = record memory' { bp = page_size } })
        (record { pcb = ld.0; memory = record memory { bp = page_size } })
  dump m
