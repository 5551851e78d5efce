-- ===== src/Libmem/Grow.antt =====
-- `__alloc` where no free region has room.
use os_to_read.Base.{
  ℕ, ◌+◌, ◌^◌, ◌<◌, ◌≡◌, ◌≢◌, refl, sym, ◌∙◌, none, some, List, [], ◌∷◌, ◌++◌, arith, length,
  get_elem?, set, inl, inr, get_elem?-set_self, get_elem?-set_ne, length-set,
}
use os_to_read.Base.Int.{pos, to_int, to_addr, add_addr}
use os_to_read.Mm.{Region, Vma, Mm, get_free_vmrg_area, deref}
use os_to_read.Mm.Regions.{AreRegions, AreSmall}
use os_to_read.Mm.Areas.{get_free_vmrg_area-Found, get_vma_by_num-zero}
use os_to_read.Syscall.Dispatch.{syscall-inc}
use os_to_read.Libmem.{ok, alloc, place, grow}
use os_to_read.Libmem.Account.{set_sym_ok, alloc-place}

-- The region that `__alloc` puts at the limit of the area.
abbrev pub at_sbrk : Vma → ℕ → Region
at_sbrk v size = record { rg_start = v.sbrk; rg_end = v.sbrk + size }

sbrk_addr : (v : Vma) → v.sbrk < 2 ^ 31 → to_addr (to_int v.sbrk) ≡ v.sbrk
sbrk_addr v h = ground arith

sbrk_region :
    (v : Vma) (size : ℕ) → v.sbrk < 2 ^ 31 → size < 2 ^ 31 → add_addr v.sbrk size ≡ v.sbrk + size
sbrk_region v size h small = omega arith

deref-front : (mm : Mm) (v : Vma) (vs : List Vma) → mm.mmap ≡ v ∷ vs → deref mm (some 0) ≡ ok v
unfolding deref
deref-front mm v vs front = rw front refl

grow_lem :
    (mm : Mm) (v : Vma) (vs : List Vma) (i size : ℕ)
    → mm.mmap ≡ v ∷ vs
    → v.sbrk < 2 ^ 31
    → size < 2 ^ 31
    → i < length mm.symrgtbl
    → grow mm (pos 0) (some 0) (pos i) size
      ≡ ok (v.sbrk, record mm { symrgtbl = set mm.symrgtbl i (at_sbrk v size) })
unfolding grow
grow_lem mm v vs i size front brk small inside =
    rw
      (
        deref-front mm v vs front,
        syscall-inc (to_addr (pos 0)) size,
        sbrk_addr v brk,
        sbrk_region v size brk small,
        set_sym_ok mm i (at_sbrk v size) inside,
      )
      refl

small_host :
    (size : ℕ) (before : List Region) (host : Region) (behind : List Region)
    → AreSmall size (before ++ (host ∷ behind))
    → host.rg_end < host.rg_start + size
small_host size [] host behind small = small.0
small_host size (r ∷ before) host behind small = small_host size before host behind small.1

-- Without room in the free regions the search returns -1 and changes nothing.
full_area :
    (mm : Mm) (v : Vma) (vs : List Vma) (size : ℕ)
    → mm.mmap ≡ v ∷ vs
    → v.vm_id < 2 ^ 31
    → AreRegions v.vm_freerg_list
    → AreSmall size v.vm_freerg_list
    → size < 2 ^ 31
    → get_free_vmrg_area mm (pos 0) (pos size) ≡ ok (none, mm)
full_area mm v vs size front id regions full small =
    elim (get_free_vmrg_area-Found mm (pos 0) size 0 v (get_vma_by_num-zero mm v vs front id)
      (rw front refl) regions small) [
        | inl (e, none_fits) ↦ e
        | inr (rg, l', e, f) ↦
            let over = small_host size f.before f.host f.behind (rw f.whole at full) in
            absurd (omega (arith, over, f.inside, f.start, f.stop))
      ]

pub alloc-grow :
    (mm : Mm) (v : Vma) (vs : List Vma) (i size : ℕ)
    → mm.mmap ≡ v ∷ vs
    → v.vm_id < 2 ^ 31
    → v.sbrk < 2 ^ 31
    → AreRegions v.vm_freerg_list
    → AreSmall size v.vm_freerg_list
    → size < 2 ^ 31
    → i < length mm.symrgtbl
    → alloc mm (pos 0) (pos i) size
      ≡ ok (v.sbrk, record mm { symrgtbl = set mm.symrgtbl i (at_sbrk v size) })
unfolding place
alloc-grow mm v vs i size front id brk regions full small inside =
    alloc-place mm (pos 0) (pos i) size 0 (get_vma_by_num-zero mm v vs front id) small
      (full_area mm v vs size front id regions full small)
    ∙ grow_lem mm v vs i size front brk small inside

-- Two allocations without room in the free regions, for different symbols, return the same address:
-- both regions start at the limit of the area, and that limit, like the areas, stays as it was.
pub alloc_overlap :
    (mm : Mm) {v : Vma} {vs : List Vma} (i j size size' : ℕ)
    → mm.mmap ≡ v ∷ vs
    → v.vm_id < 2 ^ 31
    → v.sbrk < 2 ^ 31
    → AreRegions v.vm_freerg_list
    → AreSmall size v.vm_freerg_list
    → AreSmall size' v.vm_freerg_list
    → size < 2 ^ 31
    → size' < 2 ^ 31
    → i < length mm.symrgtbl
    → j < length mm.symrgtbl
    → i ≢ j
    → (mm' mm'' : Mm) × (alloc mm (pos 0) (pos i) size ≡ ok (v.sbrk, mm'))
      × (alloc mm' (pos 0) (pos j) size' ≡ ok (v.sbrk, mm''))
      × (get_elem? mm''.symrgtbl i ≡ some (at_sbrk v size))
      × (get_elem? mm''.symrgtbl j ≡ some (at_sbrk v size'))
      × (mm''.mmap ≡ mm.mmap)
alloc_overlap mm {v} {vs} i j size size' front id brk regions full full' small small' inside inside'
      ne =
    let mm' : Mm = record mm { symrgtbl = set mm.symrgtbl i (at_sbrk v size) } in
    let inside'' : j < length mm'.symrgtbl =
      omega (arith, length-set mm.symrgtbl i (at_sbrk v size)) in
    (
      mm',
      record mm' { symrgtbl = set mm'.symrgtbl j (at_sbrk v size') },
      alloc-grow mm v vs i size front id brk regions full small inside,
      alloc-grow mm' v vs j size' front id brk regions full' small' inside'',
      get_elem?-set_ne mm'.symrgtbl (at_sbrk v size') (λ e. ne (sym e))
          ∙ get_elem?-set_self mm.symrgtbl i (at_sbrk v size) inside,
      get_elem?-set_self mm'.symrgtbl j (at_sbrk v size') inside'',
      refl,
    )
