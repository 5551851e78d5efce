-- ===== src/Syscall/Dispatch.antt =====
-- Which system calls return, and which follow a pointer that was never set.
use os_to_read.Base.{ℕ, ◌%◌, ◌^◌, ◌≤◌, ◌≡◌, refl, arith, ◌⊎◌}
use os_to_read.Base.Int.{pos}
use os_to_read.Base.Access.{ok, fault}
use os_to_read.Syscall.{ScRegs, memop, sys_memmap, sys_listsyscall, syscall, sysmem_inc_op}

-- The operation is a swap, a read or a write of physical memory (3 to 5).
abbrev pub IsDeviceOp : ℕ → Type 0
IsDeviceOp op = (3 ≤ op) × (op ≤ 5)

abbrev pub IsWild : ℕ → ScRegs → Type 0
IsWild nr regs = (nr ≡ 17) × IsDeviceOp (regs.a1 % 2 ^ 32)

pub syscall-inc :
    (a2 a3 : ℕ)
    → syscall 17 (record { a1 = sysmem_inc_op; a2 = a2; a3 = a3 })
      ≡ ok (record { a1 = sysmem_inc_op; a2 = a2; a3 = a3 })
unfolding syscall sys_memmap memop
syscall-inc a2 a3 = refl

memop_lem :
    (op : ℕ) (regs : ScRegs)
    → ((memop (pos op) regs ≡ fault) × IsDeviceOp op)
      ⊎ ((memop (pos op) regs ≡ ok regs) × ¬ IsDeviceOp op)
unfolding memop
memop_lem op regs = ground arith

sys_memmap_lem :
    (regs : ScRegs)
    → ((sys_memmap regs ≡ fault) × IsDeviceOp (regs.a1 % 2 ^ 32))
      ⊎ ((sys_memmap regs ≡ ok regs) × ¬ IsDeviceOp (regs.a1 % 2 ^ 32))
unfolding sys_memmap memop
sys_memmap_lem regs = ground arith

-- Every system call returns with its registers unchanged, except for call 17 with the operations 3, 4
-- and 5 (as an `int`), which follow an unset pointer.
pub syscall_lem :
    (nr : ℕ) (regs : ScRegs)
    → ((syscall nr regs ≡ fault) × IsWild nr regs)
      ⊎ ((syscall nr regs ≡ ok regs) × ¬ IsWild nr regs)
unfolding syscall sys_listsyscall
syscall_lem nr regs = ground (arith, sys_memmap_lem regs)
