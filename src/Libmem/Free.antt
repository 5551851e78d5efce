-- ===== src/Libmem/Free.antt =====
-- `__free`: the region of a symbol goes back to the free regions.
use os_to_read.Base.{
  ℕ, ◌+◌, ◌^◌, ◌≤◌, ◌<◌, ◌≡◌, ◌≢◌, refl, ap, sym, ◌∙◌, false, ◌&&◌, some, List, [], ◌∷◌, ◌++◌,
  arith, length, get_elem?, set, ◌==◌, inl, inr, get_elem?-set_self, get_elem?-out, length-set,
  get_elem?-set_ne, leb-false,
}
use os_to_read.Base.Int.{pos, negsuc}
use os_to_read.Mm.{Region, no_region, Vma, Mm, set_free}
use os_to_read.Mm.Regions.{AreRegions, AreSmall, cover}
use os_to_read.Mm.Areas.{get_free_vmrg_area-Found, get_vma_by_num-zero}
use os_to_read.Libmem.{
  Access, ok, err, fault, alloc, get_sym, free, release, bad_rgid, enlist, enlist_vm_freerg_list,
  max_symtbl_sz, settle,
}
use os_to_read.Libmem.Account.{
  owners, areas_cover, cover-set, holds_addr-no_region, lt_of_get_elem?, set_sym_ok, alloc-place,
  place_ok,
}

-- The symbol `i` of `mm` is empty in the memory `mm'`, and every address has as many owners as before.
pub record Freed (mm : Mm) (i : ℕ) (r : Access Mm) : Type 0 where
  pub mm' : Mm
  pub result : r ≡ ok mm'
  pub symbol : get_elem? mm'.symrgtbl i ≡ some no_region
  pub others : (j : ℕ) → i ≢ j → get_elem? mm'.symrgtbl j ≡ get_elem? mm.symrgtbl j
  pub same : (a : ℕ) → owners mm' a ≡ owners mm a

good_rgid : (i : ℕ) → i ≤ max_symtbl_sz → bad_rgid (pos i) ≡ false
unfolding bad_rgid
good_rgid i h = ground arith

get_sym_ok :
    (mm : Mm) (i : ℕ) {rg : Region} → get_elem? mm.symrgtbl i ≡ some rg → get_sym mm (pos i) ≡ ok rg
unfolding get_sym
get_sym_ok mm i e = rw (e, get_sym) refl

pub free-release :
    (mm : Mm) (i : ℕ) {rg : Region}
    → i ≤ max_symtbl_sz
    → get_elem? mm.symrgtbl i ≡ some rg
    → free mm (pos i) ≡ release mm (pos i) rg
unfolding free
free-release mm i h e = rw (good_rgid i h, get_sym_ok mm i e) refl

enlist_lem : (rg : Region) (l : List Region) → enlist rg [] l ≡ rg ∷ l
unfolding enlist
enlist_lem rg [] = refl
enlist_lem rg (r ∷ l) = refl

-- The first area with one more free region in front.
abbrev pub returned : Mm → Vma → List Vma → Region → Mm
returned mm v vs rg = record mm { mmap = record v { vm_freerg_list = rg ∷ v.vm_freerg_list } ∷ vs }

enlist-front :
    (mm : Mm) (v : Vma) (vs : List Vma) (rg : Region)
    → mm.mmap ≡ v ∷ vs
    → rg.rg_start < rg.rg_end
    → enlist_vm_freerg_list mm rg [] ≡ ok (returned mm v vs rg)
unfolding enlist_vm_freerg_list
enlist-front mm v vs rg e h =
    rw (e, enlist_vm_freerg_list, leb-false _ _ h, enlist_lem rg v.vm_freerg_list) refl

release_lem :
    (mm : Mm) (i : ℕ) (v : Vma) (vs : List Vma) (rg : Region)
    → i < length mm.symrgtbl
    → mm.mmap ≡ v ∷ vs
    → rg.rg_start < rg.rg_end
    → release mm (pos i) rg
      ≡ ok (returned (record mm { symrgtbl = set mm.symrgtbl i no_region }) v vs rg)
unfolding release settle
release_lem mm i v vs rg lt e h =
    let used : (rg.rg_start == 0 && rg.rg_end == 0) ≡ false = ground arith in
    let cleared : Mm = record mm { symrgtbl = set mm.symrgtbl i no_region } in
    rw (used, set_sym_ok mm i no_region lt, enlist-front cleared v vs rg e h) refl

-- `__free` of a symbol whose region is not empty.
pub free-returned :
    (mm : Mm) (i : ℕ) (v : Vma) (vs : List Vma) (rg : Region)
    → i < max_symtbl_sz
    → get_elem? mm.symrgtbl i ≡ some rg
    → mm.mmap ≡ v ∷ vs
    → rg.rg_start < rg.rg_end
    → free mm (pos i) ≡ ok (returned (record mm { symrgtbl = set mm.symrgtbl i no_region }) v vs rg)
free-returned mm i v vs rg h e front nonempty =
    free-release mm i (omega (arith, h)) e
    ∙ release_lem mm i v vs rg (lt_of_get_elem? mm.symrgtbl i e) front nonempty

release-no_region : (mm : Mm) (i : ℕ) → release mm (pos i) no_region ≡ err
unfolding release
release-no_region mm i = refl

owners-returned :
    (mm : Mm) (i : ℕ) (v : Vma) (vs : List Vma) (rg : Region) (a : ℕ)
    → get_elem? mm.symrgtbl i ≡ some rg
    → mm.mmap ≡ v ∷ vs
    → owners (returned (record mm { symrgtbl = set mm.symrgtbl i no_region }) v vs rg) a
      ≡ owners mm a
unfolding owners areas_cover cover
owners-returned mm i v vs rg a e front = omega (
  arith,
  cover-set mm.symrgtbl i rg no_region a e,
  holds_addr-no_region a,
  ap (λ m. areas_cover m a) front,
)

-- `__free` of a symbol below `PAGING_MAX_SYMTBL_SZ` whose region is not empty, in a memory with an area,
-- returns 0, clears the symbol and puts its region in front of the free regions of the first area; the
-- rest of that area and the other areas stay as they were. Every address has as many owners as before,
-- and no other symbol changes. A second `__free` of the same symbol returns -1.
pub free-Freed :
    {mm : Mm} {v : Vma} {vs : List Vma} {rg : Region} (i : ℕ)
    → i < max_symtbl_sz
    → get_elem? mm.symrgtbl i ≡ some rg
    → mm.mmap ≡ v ∷ vs
    → rg.rg_start < rg.rg_end
    → (f : Freed mm i (free mm (pos i))) × (f.mm'.mmap
        ≡ record v { vm_freerg_list = rg ∷ v.vm_freerg_list } ∷ vs)
      × (free f.mm' (pos i) ≡ err)
free-Freed {mm} {v} {vs} {rg} i h e front nonempty =
    let inside = lt_of_get_elem? mm.symrgtbl i e in
    let cleared : Mm = record mm { symrgtbl = set mm.symrgtbl i no_region } in
    let empty = get_elem?-set_self mm.symrgtbl i no_region inside in
    (
      record {
        mm' = returned cleared v vs rg;
        result = free-returned mm i v vs rg h e front nonempty;
        symbol = empty;
        others = λ j ne. get_elem?-set_ne mm.symrgtbl no_region ne;
        same = λ a. owners-returned mm i v vs rg a e front;
      },
      refl,
      free-release (returned cleared v vs rg) i (omega arith) empty
          ∙ release-no_region (returned cleared v vs rg) i,
    )

get_sym-out : (mm : Mm) (i : ℕ) → length mm.symrgtbl ≤ i → get_sym mm (pos i) ≡ fault
unfolding get_sym
get_sym-out mm i h = rw (get_elem?-out mm.symrgtbl i h, get_sym) refl

-- Numbers that no symbol has: below 0 and above 30 `__free` returns -1; 30 passes its test, and the
-- table has no entry of that number.
pub free_out_of_table :
    (mm : Mm) (n : ℕ)
    → length mm.symrgtbl ≡ max_symtbl_sz
    → (free mm (negsuc n) ≡ err)
      × (free mm (pos (max_symtbl_sz + 1 + n)) ≡ err)
      × (free mm (pos max_symtbl_sz) ≡ fault)
unfolding free bad_rgid
free_out_of_table mm n h =
    (ground arith, ground arith, rw (get_sym-out mm max_symtbl_sz (omega arith)) refl)

-- The head of the free regions is taken where it has room.
first_host :
    (size : ℕ) (r : Region) (l before : List Region) (host : Region) (behind : List Region)
    → r ∷ l ≡ before ++ (host ∷ behind)
    → AreSmall size before
    → r.rg_start + size ≤ r.rg_end
    → host ≡ r
first_host size r l [] host behind whole small room = cc
first_host size r l (b ∷ before) host behind whole small room =
    let same : b ≡ r = cc in
    absurd (
      omega (
        arith,
        small.0,
        room,
        ap (λ (x : Region). x.rg_start) same,
        ap (λ (x : Region). x.rg_end) same,
      ))

alloc_head :
    (mm : Mm) (i size : ℕ) (v : Vma) (vs : List Vma) (r : Region) (l : List Region)
    → mm.mmap ≡ v ∷ vs
    → v.vm_freerg_list ≡ r ∷ l
    → v.vm_id < 2 ^ 31
    → AreRegions (r ∷ l)
    → size < 2 ^ 31
    → r.rg_start + size ≤ r.rg_end
    → i < length mm.symrgtbl
    → (mm' : Mm) × (alloc mm (pos 0) (pos i) size ≡ ok (r.rg_start, mm'))
      × (get_elem? mm'.symrgtbl i
          ≡ some (record { rg_start = r.rg_start; rg_end = r.rg_start + size }))
alloc_head mm i size v vs r l front free_list id regions small room inside =
    let number = get_vma_by_num-zero mm v vs front id in
    let regions' : AreRegions v.vm_freerg_list = rw free_list regions in
    elim (get_free_vmrg_area-Found mm (pos 0) size 0 v number (rw front refl) regions' small) [
      | inl (e, none_fits) ↦ absurd (no_room (rw free_list at none_fits))
      | inr (rg, l', e, f) ↦
          let host =
            first_host size r l f.before f.host f.behind (sym free_list ∙ f.whole) f.small room in
          let start : rg.rg_start ≡ r.rg_start = f.start ∙ ap (λ (x : Region). x.rg_start) host in
          (
            record (set_free mm 0 v l') { symrgtbl = set mm.symrgtbl i rg },
            alloc-place mm (pos 0) (pos i) size 0 number small e
                ∙ place_ok (set_free mm 0 v l') (pos 0) 0 size i rg inside
                ∙ ap (λ t. ok (t, record (set_free mm 0 v l') { symrgtbl = set mm.symrgtbl i rg }))
                    start,
            get_elem?-set_self mm.symrgtbl i rg inside ∙ ground (arith, f.stop, start),
          )
    ]
  where
    no_room : AreSmall size (r ∷ l) → ⊥
    no_room s = omega (arith, s.0, room)

-- Freeing a symbol and allocating the same size for it again in the first area gives back the same
-- region at the same address.
pub alloc-free :
    (mm : Mm) {v : Vma} {vs : List Vma} {rg : Region} (i size : ℕ)
    → i < max_symtbl_sz
    → get_elem? mm.symrgtbl i ≡ some rg
    → mm.mmap ≡ v ∷ vs
    → v.vm_id < 2 ^ 31
    → AreRegions (rg ∷ v.vm_freerg_list)
    → rg.rg_end ≡ rg.rg_start + size
    → 0 < size
    → size < 2 ^ 31
    → (mm' mm'' : Mm) × (free mm (pos i) ≡ ok mm')
      × (alloc mm' (pos 0) (pos i) size ≡ ok (rg.rg_start, mm''))
      × (get_elem? mm''.symrgtbl i ≡ some rg)
alloc-free mm {v} {vs} {rg} i size h e front id regions span some_size small =
    let inside = lt_of_get_elem? mm.symrgtbl i e in
    let mm' : Mm = returned (record mm { symrgtbl = set mm.symrgtbl i no_region }) v vs rg in
    let v' : Vma = record v { vm_freerg_list = rg ∷ v.vm_freerg_list } in
    let (mm'', given, symbol) =
      alloc_head mm' i size v' vs rg v.vm_freerg_list refl refl id regions small (omega arith)
        (omega (arith, length-set mm.symrgtbl i no_region)) in
    (
      mm',
      mm'',
      free-release mm i (omega arith) e ∙ release_lem mm i v vs rg inside front (omega arith),
      given,
      symbol ∙ ground arith,
    )
