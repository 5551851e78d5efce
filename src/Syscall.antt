-- ===== src/Syscall.antt =====
-- src/syscall.c, src/sys_mem.c, src/sys_listsyscall.c and src/libstd.c: the dispatch of system calls.
pub mod Dispatch
mod Tests
use os_to_read.Base.{ℕ, if◌then◌else◌, ◌==◌}
use os_to_read.Base.Int.{ℤ, pos, negsuc, to_int}
use os_to_read.Base.Access.{Access, ok, err, fault}

-- The fields of `struct sc_regs` that a call of the library sets.
pub record ScRegs : Type 0 where
  pub a1 : ℕ
  pub a2 : ℕ
  pub a3 : ℕ

abbrev pub sysmem_map_op : ℕ
sysmem_map_op = 1

abbrev pub sysmem_inc_op : ℕ
sysmem_inc_op = 2

abbrev pub sysmem_swp_op : ℕ
sysmem_swp_op = 3

abbrev pub sysmem_io_read : ℕ
sysmem_io_read = 4

abbrev pub sysmem_io_write : ℕ
sysmem_io_write = 5

-- The `switch` of `__sys_memmap`. It works on a process that it allocates itself, with a kernel
-- structure whose pointers are never set: the operations that reach a device follow one of those.
-- `vmap_pgd_memset` and `inc_vma_limit` only return 0.
pub memop : ℤ → ScRegs → Access ScRegs
memop (negsuc n) regs = ok regs
memop (pos n) regs =
    if n == sysmem_map_op
    then ok regs
    else (if n == sysmem_inc_op
        then ok regs
        else (if n == sysmem_swp_op
            then fault
            else (if n == sysmem_io_read
                then fault
                else (if n == sysmem_io_write then fault else ok regs))))

pub sys_memmap : ScRegs → Access ScRegs
unfolding memop
sys_memmap regs = memop (to_int regs.a1) regs

-- `__sys_listsyscall` prints the table and returns 0.
pub sys_listsyscall : ScRegs → Access ScRegs
sys_listsyscall regs = ok regs

-- The cases come from src/syscall.tbl; any other number returns 0.
pub syscall : ℕ → ScRegs → Access ScRegs
unfolding sys_memmap sys_listsyscall
syscall nr regs =
    if nr == 0 then sys_listsyscall regs else (if nr == 17 then sys_memmap regs else ok regs)

pub libsyscall : ℕ → ℕ → ℕ → ℕ → Access ScRegs
unfolding syscall
libsyscall syscall_idx a1 a2 a3 = syscall syscall_idx (record { a1 = a1; a2 = a2; a3 = a3 })
