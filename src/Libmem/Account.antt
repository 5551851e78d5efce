-- ===== src/Libmem/Account.antt =====
-- Allocation from the free regions and freeing move addresses between the free lists and the symbol
-- table, and neither lose nor duplicate one.
use os_to_read.Base.{
  ℕ, zero, suc, ◌+◌, ◌^◌, ◌<◌, ◌≡◌, ◌≢◌, refl, ◌∙◌, Option, some, List, [], ◌∷◌, arith, length,
  get_elem?, set, inl, inr, get_elem?-set_self, get_elem?-set_ne, lt→ltb,
}
use os_to_read.Base.Int.{ℤ, pos, to_int}
use os_to_read.Mm.{Region, no_region, Vma, Mm, get_vma_by_num, get_free_vmrg_area, set_free}
use os_to_read.Mm.Regions.{AreRegions, AreSmall, Fit, cover, holds_addr}
use os_to_read.Mm.Areas.{get_free_vmrg_area-Found}
use os_to_read.Libmem.{Access, ok, alloc, place, set_sym}

-- How many free regions of all areas contain an address, and how many free regions and symbols do.
unfoldable pub areas_cover : List Vma → ℕ → ℕ
areas_cover [] a = 0
areas_cover (v ∷ vs) a = cover v.vm_freerg_list a + areas_cover vs a

unfoldable pub owners : Mm → ℕ → ℕ
owners mm a = areas_cover mm.mmap a + cover mm.symrgtbl a

pub cover-set :
    (l : List Region) (i : ℕ) (old rg : Region) (a : ℕ)
    → get_elem? l i ≡ some old
    → cover (set l i rg) a + holds_addr old a ≡ cover l a + holds_addr rg a
unfolding cover
cover-set [] i old rg a e = absurd (ground arith)
cover-set (r ∷ l) zero old rg a e = ground arith
cover-set (r ∷ l) (suc i) old rg a e = omega (arith, cover-set l i old rg a e)

pub areas_cover-set :
    (vs : List Vma) (k : ℕ) (v : Vma) (l' : List Region) (a : ℕ)
    → get_elem? vs k ≡ some v
    → areas_cover (set vs k (record v { vm_freerg_list = l' })) a + cover v.vm_freerg_list a
      ≡ areas_cover vs a + cover l' a
unfolding areas_cover
areas_cover-set [] k v l' a e = absurd (ground arith)
areas_cover-set (w ∷ vs) zero v l' a e = ground arith
areas_cover-set (w ∷ vs) (suc k) v l' a e = omega (arith, areas_cover-set vs k v l' a e)

pub holds_addr-no_region : (a : ℕ) → holds_addr no_region a ≡ 0
unfolding holds_addr
holds_addr-no_region a = ground arith

pub lt_of_get_elem? :
    {A : Type 0} (l : List A) (i : ℕ) {x : A} → get_elem? l i ≡ some x → i < length l
lt_of_get_elem? [] i e = absurd (ground arith)
lt_of_get_elem? (y ∷ l) zero e = omega arith
lt_of_get_elem? (y ∷ l) (suc i) e = omega (arith, lt_of_get_elem? l i e)

pub set_sym_ok :
    (mm : Mm) (i : ℕ) (rg : Region)
    → i < length mm.symrgtbl
    → set_sym mm (pos i) rg ≡ ok (record mm { symrgtbl = set mm.symrgtbl i rg })
unfolding set_sym
set_sym_ok mm i rg h = rw (lt→ltb i (length mm.symrgtbl) h) refl

pub to_int-pos : (n : ℕ) → n < 2 ^ 31 → to_int n ≡ pos n
to_int-pos n h = ground arith

-- The region of `size` bytes at `addr` is symbol `i` of the memory `mm'` that the call leaves; every
-- other symbol is as before, and every address has as many owners as before.
pub record Allocated (mm : Mm) (i size : ℕ) (r : Access (ℕ × Mm)) : Type 0 where
  pub addr : ℕ
  pub mm' : Mm
  pub result : r ≡ ok (addr, mm')
  pub symbol : get_elem? mm'.symrgtbl i ≡ some (record { rg_start = addr; rg_end = addr + size })
  pub others : (j : ℕ) → i ≢ j → get_elem? mm'.symrgtbl j ≡ get_elem? mm.symrgtbl j
  pub same : (a : ℕ) → owners mm' a ≡ owners mm a

-- The area `v` at index `k` is the one with the number `vmaid`.
pub record IsArea (mm : Mm) (vmaid : ℤ) (k : ℕ) (v : Vma) : Type 0 where
  pub number : get_vma_by_num mm vmaid ≡ ok (some k)
  pub area : get_elem? mm.mmap k ≡ some v
  pub regions : AreRegions v.vm_freerg_list

pub alloc-place :
    (mm : Mm) (vmaid : ℤ) (rgid : ℤ) (size k : ℕ) {found : Option Region × Mm}
    → get_vma_by_num mm vmaid ≡ ok (some k)
    → size < 2 ^ 31
    → get_free_vmrg_area mm vmaid (pos size) ≡ ok found
    → alloc mm vmaid rgid size ≡ place vmaid (some k) rgid size found
unfolding alloc
alloc-place mm vmaid rgid size k e small f = rw (to_int-pos size small, e, f) refl

pub place_ok :
    (mm : Mm) (vmaid : ℤ) (k size i : ℕ) (rg : Region)
    → i < length mm.symrgtbl
    → place vmaid (some k) (pos i) size (some rg, mm)
      ≡ ok (rg.rg_start, record mm { symrgtbl = set mm.symrgtbl i rg })
unfolding place
place_ok mm vmaid k size i rg h = rw (set_sym_ok mm i rg h) refl

pub place-Allocated :
    {mm : Mm} {vmaid : ℤ} {k size : ℕ} {v : Vma} {rg : Region} {l' : List Region} (i : ℕ)
    → IsArea mm vmaid k v
    → get_elem? mm.symrgtbl i ≡ some no_region
    → Fit size v.vm_freerg_list rg l'
    → Allocated mm i size (place vmaid (some k) (pos i) size (some rg, set_free mm k v l'))
unfolding owners
place-Allocated {mm} {vmaid} {k} {size} {v} {rg} {l'} i area unused f = record {
  addr = rg.rg_start;
  mm' = record (set_free mm k v l') { symrgtbl = set mm.symrgtbl i rg };
  result = place_ok (set_free mm k v l') vmaid k size i rg (lt_of_get_elem? mm.symrgtbl i unused);
  symbol =
      get_elem?-set_self mm.symrgtbl i rg (lt_of_get_elem? mm.symrgtbl i unused)
      ∙ ground (arith, f.stop);
  others = λ j h. get_elem?-set_ne mm.symrgtbl rg h;
  same = λ a. omega (
    arith,
    cover-set mm.symrgtbl i no_region rg a unused,
    areas_cover-set mm.mmap k v l' a area.area,
    f.same a,
    holds_addr-no_region a,
  );
}

-- If the symbol is unused, the area exists, none of its free regions ends before it starts or beyond the
-- last address, and one has room for the size, which is below 2 ^ 31, `__alloc` gives the symbol a region
-- of that size: its addresses come from the free regions, so that every address has as many owners, free
-- regions and symbols together, as before, and no other symbol changes.
pub alloc-Allocated :
    {mm : Mm} {vmaid : ℤ} {k : ℕ} {v : Vma} (i size : ℕ)
    → IsArea mm vmaid k v
    → get_elem? mm.symrgtbl i ≡ some no_region
    → size < 2 ^ 31
    → ¬ AreSmall size v.vm_freerg_list
    → Allocated mm i size (alloc mm vmaid (pos i) size)
alloc-Allocated {mm} {vmaid} {k} {v} i size area unused small room =
    elim (get_free_vmrg_area-Found mm vmaid size k v area.number area.area area.regions small) [
      | inl (e, none_fits) ↦ absurd (room none_fits)
      | inr (rg, l', e, f) ↦
          rw (alloc-place mm vmaid (pos i) size k area.number small e)
            (place-Allocated i area unused f)
    ]
