-- ===== src/Cpu.antt =====
-- src/cpu.c as built with MM_PAGING: one instruction of a process.
pub mod Run
mod Tests
use os_to_read.Base.{
  ℕ, zero, suc, ◌+◌, ◌%◌, ◌^◌, Option, none, some, List, if◌then◌else◌, leb, get_elem?,
}
use os_to_read.Base.Int.{ℤ, pos}
use os_to_read.Base.Access.{Access, ok, err, fault, ◌>>=◌}
use os_to_read.Libmem.{Caller}
use os_to_read.Libmem.Calls.{
  liballoc, libfree, libread, libwrite, libkmem_malloc, libkmem_cache_pool_create,
  libkmem_cache_alloc, libkmem_copy_from_user, libkmem_copy_to_user,
}
use os_to_read.Syscall.{ScRegs, libsyscall}

-- `enum ins_opcode_t`; `other` is any value without a name.
pub data Opcode : Type 0 where
  calc : Opcode
  alloc : Opcode
  free : Opcode
  read : Opcode
  write : Opcode
  kmalloc : Opcode
  kmem_cache_create : Opcode
  kmem_cache_alloc : Opcode
  copy_from_user : Opcode
  copy_to_user : Opcode
  syscall : Opcode
  other : ℕ → Opcode

pub record Inst : Type 0 where
  pub opcode : Opcode
  pub arg_0 : ℕ
  pub arg_1 : ℕ
  pub arg_2 : ℕ
  pub arg_3 : ℕ

pub record CodeSeg : Type 0 where
  pub text : List Inst
  pub size : ℕ

-- `struct pcb_t`, without the fields that only the build without MM_PAGING uses.
pub record Pcb : Type 0 where
  pub pid : ℕ
  pub priority : ℕ
  pub prio : ℕ
  pub code : CodeSeg
  pub pc : ℕ

-- A system call returns 0, and its registers are dropped.
pub call_status : Caller → Access ScRegs → Access (ℤ × Caller)
call_status c (ok regs) = ok (pos 0, c)
call_status c err = ok (pos 0, c)
call_status c fault = fault

-- The `switch` of `run`. `calc` returns 0.
pub exec : Caller → Inst → Opcode → Access (ℤ × Caller)
exec c ins calc = ok (pos 0, c)
exec c ins alloc = liballoc c ins.arg_0 ins.arg_1
exec c ins free = libfree c ins.arg_0
exec c ins read = libread c ins.arg_0 ins.arg_1
exec c ins write = libwrite c ins.arg_1 ins.arg_2
exec c ins kmalloc = libkmem_malloc c ins.arg_0 ins.arg_1
exec c ins kmem_cache_create = libkmem_cache_pool_create c ins.arg_0 ins.arg_1 ins.arg_2
exec c ins kmem_cache_alloc = libkmem_cache_alloc c ins.arg_0 ins.arg_1
exec c ins copy_from_user = libkmem_copy_from_user c ins.arg_0 ins.arg_1 ins.arg_2 ins.arg_3
exec c ins copy_to_user = libkmem_copy_to_user c ins.arg_0 ins.arg_1 ins.arg_2 ins.arg_3
exec c ins syscall = call_status c (libsyscall (ins.arg_0 % 2 ^ 32) ins.arg_1 ins.arg_2 ins.arg_3)
exec c ins (other n) = ok (pos 1, c)

pub fetch : Pcb → Access Inst
fetch p = elim (get_elem? p.code.text p.pc) [ none ↦ fault | some ins ↦ ok ins ]

-- The status, the process and the memory afterwards; `pc` has 32 bits.
unfoldable pub run : Pcb → Caller → Access (ℤ × Pcb × Caller)
run p c = if leb p.code.size p.pc then ok (pos 1, p, c) else (do
  ins ← fetch p
  done ← exec c ins ins.opcode
  ok (done.0, record p { pc = (p.pc + 1) % 2 ^ 32 }, done.1))
