-- ===== src/Cpu/Run.antt =====
-- What `run` does to the program counter, and that a program comes to its end.
use os_to_read.Base.{
  ℕ, zero, suc, ◌+◌, ◌%◌, ◌^◌, ◌≤◌, ◌<◌, ◌≡◌, refl, ap, arith, inl, inr, ◌⊎◌, get_elem?-in, length,
  dec_lt, le→leb, leb-false,
}
use os_to_read.Base.Int.{ℤ, pos}
use os_to_read.Base.Access.{Access, ok, err, fault}
use os_to_read.Libmem.{Caller}
use os_to_read.Libmem.Calls.{
  IsSettled, liballoc-IsSettled, libfree-IsSettled, libread-IsSettled, libwrite-IsSettled,
  libkmem-IsSettled,
}
use os_to_read.Syscall.{ScRegs, libsyscall}
use os_to_read.Cpu.{
  Opcode, calc, alloc, free, read, write, kmalloc, kmem_cache_create, kmem_cache_alloc,
  copy_from_user, copy_to_user, syscall, other, Inst, Pcb, call_status, exec, fetch, run,
}

call_status-IsSettled : (c : Caller) (r : Access ScRegs) → IsSettled (call_status c r)
unfolding call_status
call_status-IsSettled c (ok regs) = inl (_, refl)
call_status-IsSettled c err = inl (_, refl)
call_status-IsSettled c fault = inr refl

exec-IsSettled : (c : Caller) (ins : Inst) (op : Opcode) → IsSettled (exec c ins op)
unfolding exec
exec-IsSettled c ins calc = inl (_, refl)
exec-IsSettled c ins alloc = liballoc-IsSettled c ins.arg_0 ins.arg_1
exec-IsSettled c ins free = libfree-IsSettled c ins.arg_0
exec-IsSettled c ins read = libread-IsSettled c ins.arg_0 ins.arg_1
exec-IsSettled c ins write = libwrite-IsSettled c ins.arg_1 ins.arg_2
exec-IsSettled c ins kmalloc = (libkmem-IsSettled c ins.arg_0 ins.arg_1 ins.arg_2 ins.arg_3).0
exec-IsSettled c ins kmem_cache_create =
    (libkmem-IsSettled c ins.arg_0 ins.arg_1 ins.arg_2 ins.arg_3).1
exec-IsSettled c ins kmem_cache_alloc =
    (libkmem-IsSettled c ins.arg_0 ins.arg_1 ins.arg_2 ins.arg_3).2
exec-IsSettled c ins copy_from_user =
    (libkmem-IsSettled c ins.arg_0 ins.arg_1 ins.arg_2 ins.arg_3).3
exec-IsSettled c ins copy_to_user = (libkmem-IsSettled c ins.arg_0 ins.arg_1 ins.arg_2 ins.arg_3).4
exec-IsSettled c ins syscall =
    call_status-IsSettled c (libsyscall (ins.arg_0 % 2 ^ 32) ins.arg_1 ins.arg_2 ins.arg_3)
exec-IsSettled c ins (other n) = inl (_, refl)

-- The code segment of a loaded process: as many instructions as it says, and a 32-bit count.
abbrev pub IsLoaded : Pcb → Type 0
IsLoaded p = (length p.code.text ≡ p.code.size) × (p.code.size < 2 ^ 32)

fetch_ok : (p : Pcb) → IsLoaded p → p.pc < p.code.size → (ins : Inst) × (fetch p ≡ ok ins)
unfolding fetch
fetch_ok p loaded h =
    let (ins, e) = get_elem?-in p.code.text p.pc (omega (arith, loaded.0)) in
    (ins, rw (e, fetch) refl)

-- The instruction at the program counter was carried out and the counter went up by one.
abbrev pub Executed : Pcb → Access (ℤ × Pcb × Caller) → Type 0
Executed p r = (stat : ℤ) × (c' : Caller) × (r ≡ ok (stat, record p { pc = suc p.pc }, c'))

run-past : (p : Pcb) (c : Caller) → p.code.size ≤ p.pc → run p c ≡ ok (pos 1, p, c)
unfolding run
run-past p c h = rw (le→leb p.code.size p.pc h) refl

run-inside :
    (p : Pcb) (c : Caller)
    → IsLoaded p
    → p.pc < p.code.size
    → (run p c ≡ fault) ⊎ Executed p (run p c)
unfolding run
run-inside p c loaded h =
    let (ins, e) = fetch_ok p loaded h in
    let next : (p.pc + 1) % 2 ^ 32 ≡ suc p.pc = omega (arith, loaded.1) in
    elim (exec-IsSettled c ins ins.opcode) [
      | inl (done, f) ↦ inr (done.0, done.1, rw (leb-false p.code.size p.pc h, e, f, next) refl)
      | inr f ↦ inl (rw (leb-false p.code.size p.pc h, e, f) refl)
    ]

-- At the end of its code a process is left alone, with status 1. Before it, `run` carries out exactly
-- one instruction, whatever status that has, and the counter goes up by one, unless the instruction
-- reaches an invalid address.
pub run_lem :
    (p : Pcb) (c : Caller)
    → IsLoaded p
    → ((p.code.size ≤ p.pc) × (run p c ≡ ok (pos 1, p, c)))
      ⊎ ((p.pc < p.code.size) × ((run p c ≡ fault) ⊎ Executed p (run p c)))
run_lem p c loaded = elim (dec_lt p.pc p.code.size) [
  | yes h ↦ inr (h, run-inside p c loaded h)
  | no h ↦ inl (omega arith, run-past p c (omega arith))
]

-- `n` calls of `run` on one process.
pub run_times : ℕ → Pcb → Caller → Access (Pcb × Caller)
run_times zero p c = ok (p, c)
run_times (suc n) p c = elim (run p c) [
  | ok (stat, p', c') ↦ run_times n p' c'
  | err ↦ err
  | fault ↦ fault
]

run_times-fault : (n : ℕ) (p : Pcb) (c : Caller) → run p c ≡ fault → run_times (suc n) p c ≡ fault
unfolding run_times
run_times-fault n p c e = rw (e, run_times) refl

run_times-Executed :
    (n : ℕ) (p : Pcb) (c : Caller) (ex : Executed p (run p c))
    → run_times (suc n) p c ≡ run_times n (record p { pc = suc p.pc }) ex.1
unfolding run_times
run_times-Executed n p c ex = rw (ex.2, run_times) refl

-- As many calls of `run` as instructions are left bring the program counter to the end of the code,
-- unless one of them reaches an invalid address.
pub run_times_lem :
    (n : ℕ) (p : Pcb) (c : Caller)
    → IsLoaded p
    → p.pc + n ≡ p.code.size
    → (run_times n p c ≡ fault)
      ⊎ ((c' : Caller) × (run_times n p c ≡ ok (record p { pc = p.code.size }, c')))
run_times_lem zero p c loaded e =
    inr (c, unfold run_times in ap (λ k. ok (record p { pc = k }, c)) (omega (arith, e)))
run_times_lem (suc n) p c loaded e = elim (run-inside p c loaded (omega (arith, e))) [
  | inl f ↦ inl (run_times-fault n p c f)
  | inr ex ↦
      rw (run_times-Executed n p c ex)
        (run_times_lem n (record p { pc = suc p.pc }) ex.1 loaded (omega (arith, e)))
]
