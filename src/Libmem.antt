-- ===== src/Libmem.antt =====
-- src/libmem.c: allocating, freeing, reading and writing the regions of a process. `mmvm_lock` makes
-- each operation one step; `__read` does not take it, and is taken as one step too. The area asked for
-- is number 0, as in every call of the library.
pub mod Reclaim
pub mod Kernel
pub mod Calls
pub mod Account
pub mod Free
pub mod Grow
pub mod Pages
pub mod Wear
mod Tests
use os_to_read.Base.{
  ℕ, zero, suc, ◌+◌, ◌-◌, ◌/◌, ◌%◌, ◌^◌, Bool, true, false, ◌&&◌, ◌||◌, Option, none, some, List,
  [], ◌∷◌, if◌then◌else◌, ltb, leb, ◌==◌, get_elem?, set, length,
}
use os_to_read.Base.Int.{ℤ, pos, negsuc, minus_one, to_int, to_addr, add_addr, ltz, pos_part}
pub use os_to_read.Base.Access.{Access, ok, err, fault, ◌>>=◌}
use os_to_read.Mm.{
  Region, no_region, Vma, Mm, get_vma_by_num, deref, get_free_vmrg_area, find_victim_page,
  enlist_pgn_node,
}
use os_to_read.Memphy.{Memphy, get_freefp}
use os_to_read.Paging.{page_present, paging_fpn, paging_pgn, pte_get_entry}
use os_to_read.Syscall.{ScRegs, syscall, sysmem_inc_op}

abbrev pub max_symtbl_sz : ℕ
max_symtbl_sz = 30

-- What the library reaches through `caller->krnl`: the memory of the process and the active swap.
pub record Caller : Type 0 where
  pub mm : Mm
  pub active_mswp : Memphy

-- `mm->symrgtbl[rgid] = rg`, an access outside the table for a number that is no index of it.
pub set_sym : Mm → ℤ → Region → Access Mm
set_sym mm (negsuc n) rg = fault
set_sym mm (pos i) rg =
    if ltb i (length mm.symrgtbl) then ok (record mm { symrgtbl = set mm.symrgtbl i rg }) else fault

pub get_sym : Mm → ℤ → Access Region
get_sym mm (negsuc n) = fault
get_sym mm (pos i) = elim (get_elem? mm.symrgtbl i) [ none ↦ fault | some rg ↦ ok rg ]

-- The list grows at its front; `tail` is what `rg_next` of the new node holds before.
pub enlist : Region → List Region → List Region → List Region
enlist rg tail [] = rg ∷ tail
enlist rg tail (r ∷ l) = rg ∷ r ∷ l

pub enlist_vm_freerg_list : Mm → Region → List Region → Access Mm
unfolding enlist
enlist_vm_freerg_list mm rg tail = elim mm.mmap [
  | [] ↦ fault
  | v ∷ vs ↦
      if leb rg.rg_end rg.rg_start
      then err
      else ok
          (record mm { mmap = record v { vm_freerg_list = enlist rg tail v.vm_freerg_list } ∷ vs })
]

-- Whether a region number passes the test of `get_symrg_byid` and `__free`; 30 itself does.
pub bad_rgid : ℤ → Bool
bad_rgid rgid = ltz rgid (pos 0) || ltz (pos max_symtbl_sz) rgid

-- `__alloc` where no free region has room: `sbrk` goes through an `int`, and the system call that is
-- meant to raise the limit changes nothing.
pub grow : Mm → ℤ → Option ℕ → ℤ → ℕ → Access (ℕ × Mm)
grow mm vmaid cur_vma rgid size = do
  v ← deref mm cur_vma
  regs ← syscall 17 (record { a1 = sysmem_inc_op; a2 = to_addr vmaid; a3 = size })
  mm' ← set_sym mm rgid (record {
    rg_start = to_addr (to_int v.sbrk);
    rg_end = add_addr (to_addr (to_int v.sbrk)) size;
  })
  ok (to_addr (to_int v.sbrk), mm')

pub place : ℤ → Option ℕ → ℤ → ℕ → Option Region × Mm → Access (ℕ × Mm)
place vmaid cur_vma rgid size (none, mm) = grow mm vmaid cur_vma rgid size
place vmaid cur_vma rgid size (some rg, mm) = do mm' ← set_sym mm rgid rg; ok (rg.rg_start, mm')

-- `__alloc`: the address of the region and the memory afterwards.
pub alloc : Mm → ℤ → ℤ → ℕ → Access (ℕ × Mm)
alloc mm vmaid rgid size = do
  cur_vma ← get_vma_by_num mm vmaid
  found ← get_free_vmrg_area mm vmaid (to_int size)
  place vmaid cur_vma rgid size found

-- The return value of `enlist_vm_freerg_list` is not looked at.
pub settle : Mm → Access Mm → Access Mm
settle cleared (ok mm') = ok mm'
settle cleared err = ok cleared
settle cleared fault = fault

-- The end of `__free`.
pub release : Mm → ℤ → Region → Access Mm
unfolding settle
release mm rgid rg = if rg.rg_start == 0 && rg.rg_end == 0 then err else (do
  cleared ← set_sym mm rgid no_region
  settle cleared (enlist_vm_freerg_list cleared rg []))

-- `__free`; `err` leaves the memory as it was.
pub free : Mm → ℤ → Access Mm
free mm rgid = if bad_rgid rgid then err else (do rg ← get_sym mm rgid; release mm rgid rg)

-- `pg_getpage`: `none` stands for the return value -1. The page table entry is always 0, so every page
-- counts as absent, and no byte moves.
pub get_page : Caller → ℕ → Access (Option ℕ × Caller)
get_page c pgn =
    if page_present (pte_get_entry pgn)
    then ok (some (paging_fpn (pte_get_entry pgn)), c)
    else elim (find_victim_page c.mm) [
      | err ↦ ok (none, c)
      | fault ↦ fault
      | ok (vicpgn, mm) ↦ elim (get_freefp c.active_mswp) [
        | err ↦ ok (none, record c { mm = mm })
        | fault ↦ fault
        | ok (swpfpn, mswp) ↦ ok (
          some (paging_fpn (pte_get_entry pgn)),
          record {
            mm = record mm { fifo_pgn = enlist_pgn_node mm.fifo_pgn pgn };
            active_mswp = mswp;
          },
        )
      ]
    ]

-- `pg_getval` and `pg_setval` reach the page of the address, and move no byte.
pub touch : Caller → ℕ → Access (Option ℕ × Caller)
unfolding get_page
touch c addr = get_page c (paging_pgn (addr % 2 ^ 32))

-- `get_symrg_byid`, read through at once: NULL for a bad number.
pub symrg : Mm → ℤ → Access Region
symrg mm rgid = if bad_rgid rgid then fault else get_sym mm rgid

-- `__read`: it returns 0 whatever `pg_getval` returned.
pub read : Caller → ℤ → ℕ → Access Caller
read c rgid offset = do
  currg ← symrg c.mm rgid
  touched ← touch c (add_addr currg.rg_start offset)
  ok touched.1

-- `__write`: -1 for a bad region number or without an area.
pub write : Caller → ℤ → ℤ → ℕ → Access Caller
write c vmaid rgid offset = do
  cur_vma ← get_vma_by_num c.mm vmaid
  elim (bad_rgid rgid || (elim cur_vma [ none ↦ true | some k ↦ false ])) [
    | true ↦ err
    | false ↦ (do
      currg ← get_sym c.mm rgid
      touched ← touch c (add_addr currg.rg_start offset)
      ok touched.1)
  ]
