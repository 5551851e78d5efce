-- ===== src/Libmem/Tests.antt =====
-- Runs of the memory library, and its theorems at concrete memories.
use os_to_read.Base.{
  none, length-replicate, ℕ, true, ◌≡◌, refl, arith, some, [], ◌∷◌, replicate, get_elem?,
}
use os_to_read.Base.Int.{pos}
use os_to_read.Memphy.{Memphy, node, null}
use os_to_read.Paging.{page_present}
use os_to_read.Libmem.Reclaim.{
  max_pgn, paging_swp, free_pcb_memph, ram_frames, swap_frames, GivesBack, free_pcb_memph_lem,
}
use os_to_read.Mm.{Region, Vma, Mm, get_vma_by_num, no_region}
use os_to_read.Mm.Areas.{get_vma_by_num-zero}
use os_to_read.Mm.Regions.{AreRegions, AreSmall}
use os_to_read.Libmem.{ok, err, fault, alloc, free, Caller, get_page}
use os_to_read.Libmem.Account.{Allocated, alloc-Allocated}
use os_to_read.Libmem.Free.{Freed, free-Freed, alloc-free}
use os_to_read.Libmem.Grow.{at_sbrk, alloc_overlap}
use os_to_read.Libmem.Wear.{get_all, swap_wears_out}

-- An area of 300 bytes; the bytes from 100 to 150 belong to symbol 3.
abbrev area : Vma
area = record {
  vm_id = 0;
  vm_start = 0;
  vm_end = 300;
  sbrk = 300;
  vm_freerg_list =
      record { rg_start = 0; rg_end = 100 } ∷ record { rg_start = 150; rg_end = 300 } ∷ [];
}

area_regions : AreRegions area.vm_freerg_list
area_regions = ((omega arith, omega arith), ((omega arith, omega arith), tt))

abbrev third : Region
third = record { rg_start = 100; rg_end = 150 }

abbrev memory : Mm
memory = record {
  mmap = area ∷ [];
  symrgtbl = no_region ∷ no_region ∷ no_region ∷ third ∷ replicate 26 no_region;
  fifo_pgn = 4 ∷ 5 ∷ 6 ∷ [];
}

first_number : get_vma_by_num memory (pos 0) ≡ ok (some 0)
first_number = get_vma_by_num-zero memory area [] refl (omega arith)

-- The second free region has room for 120 bytes.
has_room : ¬ AreSmall 120 area.vm_freerg_list
has_room s = omega (arith, s.1.0)

alloc-Allocated_example : Allocated memory 1 120 (alloc memory (pos 0) (pos 1) 120)
alloc-Allocated_example =
    alloc-Allocated 1 120 (record { number = first_number; area = refl; regions = area_regions })
      refl (omega arith) has_room

free-Freed_example :
    (f : Freed memory 3 (free memory (pos 3))) × (f.mm'.mmap
      ≡ record area { vm_freerg_list = third ∷ area.vm_freerg_list } ∷ [])
    × (free f.mm' (pos 3) ≡ err)
free-Freed_example = free-Freed 3 (omega arith) refl refl (omega arith)

alloc-free_example :
    (mm' mm'' : Mm) × (free memory (pos 3) ≡ ok mm')
    × (alloc mm' (pos 0) (pos 3) 50 ≡ ok (100, mm''))
    × (get_elem? mm''.symrgtbl 3 ≡ some third)
alloc-free_example =
    alloc-free memory 3 50 (omega arith) refl refl (omega arith)
      ((omega arith, omega arith), area_regions) refl (omega arith) (omega arith)

-- No free region has room for 200 or 400 bytes.
alloc_overlap_example :
    (mm' mm'' : Mm) × (alloc memory (pos 0) (pos 0) 200 ≡ ok (300, mm'))
    × (alloc mm' (pos 0) (pos 1) 400 ≡ ok (300, mm''))
    × (get_elem? mm''.symrgtbl 0 ≡ some (at_sbrk area 200))
    × (get_elem? mm''.symrgtbl 1 ≡ some (at_sbrk area 400))
    × (mm''.mmap ≡ memory.mmap)
alloc_overlap_example =
    alloc_overlap memory 0 1 200 400 refl (omega arith) (omega arith) area_regions
      (omega arith, (omega arith, tt)) (omega arith, (omega arith, tt)) (omega arith) (omega arith)
      (omega arith) (omega arith) (λ e. omega (arith, e))

-- The swap has the frames 0 and 1.
abbrev caller : Caller
caller = record {
  mm = memory;
  active_mswp = record {
    storage = [];
    maxsz = pos 0;
    rdmflg = true;
    cursor = 0;
    free_fp_list = node 0 (node 1 null);
  };
}

-- Two accesses are served, two fail, and the fifth writes through NULL.
swap_wears_out_example :
    (c' : Caller) × (c'' : Caller) × (get_all (9 ∷ 10 ∷ []) caller ≡ ok (some 0 ∷ some 0 ∷ [], c'))
    × (get_all (11 ∷ 12 ∷ []) c' ≡ ok (none ∷ none ∷ [], c''))
    × (get_page c'' 13 ≡ fault)
swap_wears_out_example =
    swap_wears_out caller (9 ∷ 10 ∷ []) (11 ∷ 12 ∷ []) (0 ∷ 1 ∷ []) 13 refl refl (omega arith) refl

-- A table in which no entry was ever set.
free_pcb_memph_lem_example :
    (d' : Memphy × Memphy) × (free_pcb_memph
        (replicate max_pgn 0)
        (caller.active_mswp, caller.active_mswp)
      ≡ ok d')
    × GivesBack caller.active_mswp (ram_frames (replicate max_pgn 0) []) d'.0
    × GivesBack caller.active_mswp (swap_frames (replicate max_pgn 0) []) d'.1
free_pcb_memph_lem_example =
    free_pcb_memph_lem (replicate max_pgn 0) (caller.active_mswp, caller.active_mswp)
      (length-replicate {A = ℕ} max_pgn 0)

-- Entries that were never set put the swap frame 0 back once for each page.
frame_twice : (ram_frames (0 ∷ 0 ∷ []) [] ≡ []) × (swap_frames (0 ∷ 0 ∷ []) [] ≡ 0 ∷ 0 ∷ [])
unfolding page_present paging_swp
frame_twice = (refl, refl)
