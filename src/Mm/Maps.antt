-- ===== src/Mm/Maps.antt =====
-- The functions of src/mm64.c and src/mm-vm.c that map pages to frames, as far as they are written: they
-- touch neither the tables nor the lists, and their result does not depend on the RAM. `init_mm` makes
-- an area that it does not store.
use os_to_read.Base.{ℕ, List, [], if◌then◌else◌, ◌==◌, ltb, set, length}
use os_to_read.Base.Int.{ℤ, pos}
use os_to_read.Base.Access.{Access, ok, fault}
use os_to_read.Memphy.{Memphy, swap_cp_page}
use os_to_read.Mm.{Region, Vma, Mm, init_vm_rg, enlist_vm_rg_node}

-- `__mm_swap_page`: the result of the copy is not looked at, and is 0.
pub mm_swap_page : ℕ → Memphy × Memphy → ℕ → ℕ → Access (Memphy × Memphy)
mm_swap_page junk d vicfpn swpfpn = swap_cp_page junk d.0 vicfpn d.1 swpfpn

pub inc_vma_limit : Mm → ℤ → ℕ → ℤ × Mm
inc_vma_limit mm vmaid inc_sz = (pos 0, mm)

pub vmap_pgd_memset : Mm → ℕ → ℤ → ℤ × Mm
vmap_pgd_memset mm addr pgnum = (pos 0, mm)

-- `ret_rg` is handed back as it came.
pub vmap_page_range : Mm → ℕ → ℤ → List ℕ → Region → ℕ × Mm × Region
vmap_page_range mm addr pgnum frames ret_rg = (0, mm, ret_rg)

pub alloc_pages_range : Mm → ℤ → List ℕ → ℕ × Mm × List ℕ
alloc_pages_range mm req_pgnum frm_lst = (0, mm, frm_lst)

-- `ret_alloc` is an `addr_t`, so the first test can not hold; 2 ^ 64 - 3000 stands for -3000.
pub map_ram : ℕ → Mm → ℕ → ℤ → Region → ℕ × Mm × Region
unfolding vmap_page_range
map_ram ret_alloc mm mapstart incpgnum ret_rg =
    if ret_alloc == 18446744073709548616 then (18446744073709551615, mm, ret_rg) else (
      0,
      (vmap_page_range mm mapstart incpgnum [] ret_rg).1,
      (vmap_page_range mm mapstart incpgnum [] ret_rg).2,
    )

pub vm_map_ram : Mm → ℕ → ℕ → ℕ → ℤ → Region → ℕ × Mm × Region
unfolding map_ram
vm_map_ram mm astart aend mapstart incpgnum ret_rg = map_ram 0 mm mapstart incpgnum ret_rg

-- `mm->pgd[pgn] = pte_val`
pub pte_set_entry : List ℕ → ℕ → ℕ → Access (List ℕ)
pte_set_entry pgd pgn pte_val = if ltb pgn (length pgd) then ok (set pgd pgn pte_val) else fault

-- The structure, which stays as `malloc` gave it, and the area, to which nothing points afterwards.
-- `rest` is what its list of free regions holds before it is set.
pub init_mm : Mm → List Region → Mm × Vma
unfolding init_vm_rg enlist_vm_rg_node
init_mm mm rest = (
  mm,
  record {
    vm_id = 0;
    vm_start = 0;
    vm_end = 0;
    sbrk = 0;
    vm_freerg_list = enlist_vm_rg_node rest (init_vm_rg 0 0);
  },
)
