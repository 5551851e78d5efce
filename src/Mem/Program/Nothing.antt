-- ===== src/Mem/Program/Nothing.antt =====
-- The program of src/paging.c never has anything to show.
use os_to_read.Base.{
  ℕ, zero, suc, ◌+◌, ◌%◌, ◌^◌, ◌≡◌, refl, sym, subst, ◌∙◌, [], leb, inl, inr, Bool-cases,
}
use os_to_read.Base.Access.{Access, ok, err, fault, ◌>>=◌, Holds, Holds-bind, Holds-self}
use os_to_read.Syscall.{ScRegs}
use os_to_read.Cpu
use os_to_read.Cpu.{
  Opcode, calc, syscall, kmalloc, kmem_cache_create, kmem_cache_alloc, copy_from_user, copy_to_user,
  other, Inst, Pcb, fetch,
}
use os_to_read.Loader
use os_to_read.Loader.{Stdio, Garbage, codes}
use os_to_read.Mem
use os_to_read.Mem.{Mem, MemPcb, PageStat, init_mem, num_pages, reg, write_mem}
use os_to_read.Mem.Dead.{translate_fails}
use os_to_read.Mem.Dump.{dump, dump-init_mem}
use os_to_read.Mem.Program
use os_to_read.Mem.Program.{Proc, keeps_memory, keeps_proc, run, run_both}

abbrev SameMem : Mem → ℕ × MemPcb × Mem → Type 0
SameMem m r = r.2 ≡ m

keeps_memory-SameMem : (m : Mem) (r : Access (ℕ × MemPcb)) → Holds (SameMem m) (keeps_memory m r)
unfolding keeps_memory
keeps_memory-SameMem m (ok done) = refl
keeps_memory-SameMem m err = tt
keeps_memory-SameMem m fault = tt

write-SameMem :
    (m : Mem) (p : MemPcb) (byte i offset : ℕ)
    → Holds (SameMem m) (keeps_proc p (Mem.write m p byte i offset))
unfolding keeps_proc Mem.write write_mem
write-SameMem m p byte i offset = with_base (reg p i)
  where
    with_base :
        (r : Access ℕ)
        → Holds
            (SameMem m)
            (keeps_proc p (r >>= λ base. write_mem m ((base + offset) % 2 ^ 64) p byte))
    with_base (ok base) = rw (translate_fails ((base + offset) % 2 ^ 64) p) refl
    with_base err = tt
    with_base fault = tt

free-SameMem :
    (m : Mem) (p : MemPcb) (r : Access ℕ) → Holds (SameMem m) (r >>= λ stat. ok (stat, p, m))
free-SameMem m p (ok stat) = refl
free-SameMem m p err = tt
free-SameMem m p fault = tt

syscall-SameMem :
    (m : Mem) (p : MemPcb) (r : Access ScRegs)
    → Holds (SameMem m) (elim r [ ok regs ↦ ok (0, p, m) | err ↦ ok (0, p, m) | fault ↦ fault ])
syscall-SameMem m p (ok regs) = refl
syscall-SameMem m p err = refl
syscall-SameMem m p fault = tt

exec-SameMem :
    (m : Mem) (p : MemPcb) (ins : Inst) (op : Opcode) → Holds (SameMem m) (Program.exec m p ins op)
unfolding Program.exec
exec-SameMem m p ins calc = refl
exec-SameMem m p ins Cpu.alloc = keeps_memory-SameMem m _
exec-SameMem m p ins Cpu.free = free-SameMem m p _
exec-SameMem m p ins Cpu.read = keeps_memory-SameMem m _
exec-SameMem m p ins Cpu.write = write-SameMem m p _ _ _
exec-SameMem m p ins syscall = syscall-SameMem m p _
exec-SameMem m p ins kmalloc = refl
exec-SameMem m p ins kmem_cache_create = refl
exec-SameMem m p ins kmem_cache_alloc = refl
exec-SameMem m p ins copy_from_user = refl
exec-SameMem m p ins copy_to_user = refl
exec-SameMem m p ins (other k) = refl

run-SameMem : (m : Mem) (p : Proc) → Holds (λ r. r.1 ≡ m) (run m p)
unfolding run
run-SameMem m p = elim (Bool-cases (leb p.pcb.code.size p.pcb.pc)) [
  | inl over ↦ rw over refl
  | inr more ↦ rw more (
      Holds-bind (λ ins. fetch p.pcb ≡ ok ins) (λ r. r.1 ≡ m) (fetch p.pcb) _
        (Holds-self (fetch p.pcb))
        (λ ins e.
          Holds-bind (SameMem m) (λ r. r.1 ≡ m) (Program.exec m p.memory ins ins.opcode) _
            (exec-SameMem m p.memory ins ins.opcode) (λ done k. k)))
]

run_both-same :
    (n : ℕ) (m m₀ : Mem) (proc ld : Proc) → m ≡ m₀ → Holds (λ r. r ≡ m₀) (run_both n m proc ld)
unfolding run_both
run_both-same zero m m₀ proc ld e = e
run_both-same (suc n) m m₀ proc ld e =
    Holds-bind (λ r. r.1 ≡ m) (λ r. r ≡ m₀) (run m proc) _ (run-SameMem m proc)
      (λ first k.
        Holds-bind (λ r. r.1 ≡ first.1) (λ r. r ≡ m₀) (run (first.1) ld) _
          (run-SameMem (first.1) ld)
          (λ second k'. run_both-same n (second.1) m₀ (first.0) (second.0) (k' ∙ k ∙ e)))

-- Whatever the files are and the fresh memory holds, the program of src/paging.c, if it comes to its end,
-- prints nothing: no instruction of the two processes changes the memory, and no page is taken.
pub main_shows_nothing :
    {F : Type 0} (io : Stdio F) (g g' : Garbage) (memory memory' : MemPcb)
    → Holds (λ out. out ≡ []) (Program.main io g g' memory memory')
unfolding Program.main
main_shows_nothing io g g' memory memory' =
    let path = codes "input/p0" in
    Holds-bind (λ ld. Loader.load io path g 1 ≡ ok ld) (λ out. out ≡ []) (Loader.load io path g 1) _
      (Holds-self (Loader.load io path g 1))
      (λ ld e.
        Holds-bind (λ proc. Loader.load io path g' (ld.1) ≡ ok proc) (λ out. out ≡ [])
          (Loader.load io path g' (ld.1)) _ (Holds-self (Loader.load io path g' (ld.1)))
          (λ proc e'.
            Holds-bind (λ m. m ≡ init_mem) (λ out. out ≡ [])
              (run_both (proc.0.code.size) init_mem _ _) _
              (run_both-same (proc.0.code.size) init_mem init_mem _ _ refl)
              (λ m k.
                subst (λ x. Holds (λ out. out ≡ []) (dump x)) (sym k)
                  (subst (Holds (λ out. out ≡ [])) (sym dump-init_mem) refl))))
