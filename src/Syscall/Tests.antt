-- ===== src/Syscall/Tests.antt =====
-- Runs of system calls, and the theorem at concrete registers.
use os_to_read.Base.{◌≡◌, refl, ◌⊎◌}
use os_to_read.Base.Access.{ok, fault}
use os_to_read.Syscall.{ScRegs, syscall, libsyscall, sys_memmap, memop}
use os_to_read.Syscall.Dispatch.{IsWild, syscall_lem}

abbrev read_op : ScRegs
read_op = record { a1 = 4; a2 = 100; a3 = 0 }

syscall_lem_example :
    ((syscall 17 read_op ≡ fault) × IsWild 17 read_op)
    ⊎ ((syscall 17 read_op ≡ ok read_op) × ¬ IsWild 17 read_op)
syscall_lem_example = syscall_lem 17 read_op

-- A read of physical memory follows an unset pointer; any other number does nothing.
reads_wild : (syscall 17 read_op ≡ fault) × (libsyscall 5 4 100 0 ≡ ok read_op)
unfolding libsyscall syscall sys_memmap memop
reads_wild = (refl, refl)
