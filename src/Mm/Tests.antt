-- ===== src/Mm/Tests.antt =====
-- Runs of the area and page lists, and their theorems at concrete memories.
use os_to_read.Base.{ℕ, ◌≡◌, refl, arith, some, none, [], ◌∷◌, replicate, ◌⊎◌}
use os_to_read.Base.Int.{pos}
use os_to_read.Mm.{
  Region, Vma, Mm, ok, err, fault, get_vma_by_num, get_free_vmrg_area, find_victim_page,
  enlist_pgn_node, no_region, vma_first, vma_walk, take_fit, shrink, use_up, deref,
  validate_overlap_vm_area, get_vm_area_node_at_brk,
}
use os_to_read.Mm.Areas.{Area, AreBelow, Found, get_vma_by_num_lem, get_free_vmrg_area-Found}
use os_to_read.Mm.Pages.{find_victim_page_lem}

abbrev region : ℕ → ℕ → Region
region rg_start rg_end = record { rg_start = rg_start; rg_end = rg_end }

abbrev first_area : Vma
first_area = record {
  vm_id = 0;
  vm_start = 0;
  vm_end = 300;
  sbrk = 300;
  vm_freerg_list = region 0 100 ∷ region 150 300 ∷ [];
}

abbrev other_area : Vma
other_area = record { vm_id = 2; vm_start = 400; vm_end = 400; sbrk = 400; vm_freerg_list = [] }

abbrev two_areas : Mm
two_areas = record {
  mmap = first_area ∷ other_area ∷ [];
  symrgtbl = replicate 30 no_region;
  fifo_pgn = 4 ∷ 5 ∷ 6 ∷ [];
}

-- Number 1 finds the area with number 2, and number 3 runs off the list.
finds_next : get_vma_by_num two_areas (pos 1) ≡ ok (some 1)
unfolding get_vma_by_num vma_first vma_walk
finds_next = refl

runs_off : get_vma_by_num two_areas (pos 3) ≡ fault
unfolding get_vma_by_num vma_first vma_walk
runs_off = refl

first_number : get_vma_by_num two_areas (pos 0) ≡ ok (some 0)
unfolding get_vma_by_num vma_first vma_walk
first_number = refl

get_vma_by_num_lem_example :
    ((i : ℕ) × (get_vma_by_num two_areas (pos 1) ≡ ok (some i)) × Area (pos 1) two_areas.mmap i)
    ⊎ ((get_vma_by_num two_areas (pos 1) ≡ ok none) × (two_areas.mmap ≡ []))
    ⊎ ((get_vma_by_num two_areas (pos 1) ≡ fault) × AreBelow (pos 1) two_areas.mmap)
get_vma_by_num_lem_example = get_vma_by_num_lem two_areas (pos 1)

get_free_vmrg_area-Found_example :
    Found two_areas 0 first_area 120 (get_free_vmrg_area two_areas (pos 0) (pos 120))
get_free_vmrg_area-Found_example =
    get_free_vmrg_area-Found two_areas (pos 0) 120 0 first_area first_number refl
      ((omega arith, omega arith), ((omega arith, omega arith), tt)) (omega arith)

find_victim_page_lem_example :
    (find_victim_page (record two_areas { fifo_pgn = enlist_pgn_node (5 ∷ 6 ∷ []) 4 })
      ≡ ok (6, record two_areas { fifo_pgn = enlist_pgn_node (5 ∷ []) 4 }))
    × (find_victim_page (record two_areas { fifo_pgn = [] }) ≡ err)
    × (find_victim_page (record two_areas { fifo_pgn = enlist_pgn_node [] 4 }) ≡ fault)
find_victim_page_lem_example = find_victim_page_lem two_areas 4 6 (5 ∷ [])

-- The first region is too small; the second loses its front.
takes_second :
    take_fit 120 first_area.vm_freerg_list
    ≡ some (region 150 270, region 0 100 ∷ region 270 300 ∷ [])
unfolding take_fit shrink
takes_second = refl

-- A region that is used up goes away, or stays with size 0 at the end of the list.
uses_up :
    (take_fit 100 first_area.vm_freerg_list ≡ some (region 0 100, region 150 300 ∷ []))
    × (take_fit 150 first_area.vm_freerg_list
        ≡ some (region 150 300, region 0 100 ∷ region 300 300 ∷ []))
unfolding take_fit shrink use_up
uses_up = (refl, refl)

-- The check for overlaps accepts what overlaps, and the limit of an area starts the region at it.
accepts_overlap : validate_overlap_vm_area two_areas (pos 0) 100 200 ≡ ok 0
unfolding validate_overlap_vm_area get_vma_by_num vma_first vma_walk
accepts_overlap = refl

at_limit : get_vm_area_node_at_brk two_areas (pos 0) 20 ≡ ok (region 300 320)
unfolding get_vm_area_node_at_brk get_vma_by_num vma_first vma_walk deref
at_limit = refl
