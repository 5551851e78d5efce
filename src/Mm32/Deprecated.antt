-- ===== src/Mm32/Deprecated.antt =====
-- The functions of src/mm.c that print that the 32-bit mode is deprecated: all return 0 (NULL for a
-- pointer) and write through none of their pointers, so that what those point to comes back unchanged.
use os_to_read.Base.{ℕ, Option, none, List}
use os_to_read.Base.Int.{ℤ, pos}
use os_to_read.Memphy.{Memphy, Chain}
use os_to_read.Mm.{Region, Vma, Mm}
use os_to_read.Paging.{Directories}

pub get_pd_from_address : ℕ → Directories → ℤ × Directories
get_pd_from_address addr d = (pos 0, d)

pub get_pd_from_pagenum : ℕ → Directories → ℤ × Directories
get_pd_from_pagenum pgn d = (pos 0, d)

pub pte_get_entry : List ℕ → ℕ → ℕ
pte_get_entry pgd pgn = 0

pub vmap_pgd_memset : List ℕ → ℕ → ℤ → ℤ × List ℕ
vmap_pgd_memset pgd addr pgnum = (pos 0, pgd)

pub vmap_page_range : List ℕ → ℕ → ℤ → List ℕ → Region → ℕ × List ℕ × Region
vmap_page_range pgd addr pgnum frames ret_rg = (0, pgd, ret_rg)

pub alloc_pages_range : Memphy → ℤ → List ℕ → ℕ × Memphy × List ℕ
alloc_pages_range mram req_pgnum frm_lst = (0, mram, frm_lst)

pub vm_map_ram : List ℕ → ℕ → ℕ → ℕ → ℤ → Region → ℕ × List ℕ × Region
vm_map_ram pgd astart aend mapstart incpgnum ret_rg = (0, pgd, ret_rg)

pub swap_cp_page : Memphy → ℕ → Memphy → ℕ → ℤ × Memphy × Memphy
swap_cp_page mpsrc srcfpn mpdst dstfpn = (pos 0, mpsrc, mpdst)

pub init_mm : Mm → ℤ × Mm
init_mm mm = (pos 0, mm)

pub init_vm_rg : ℕ → ℕ → Option Region
init_vm_rg rg_start rg_end = none

pub enlist_vm_rg_node : List Region → Region → ℤ × List Region
enlist_vm_rg_node rglist rgnode = (pos 0, rglist)

pub enlist_pgn_node : List ℕ → ℕ → ℤ × List ℕ
enlist_pgn_node plist pgn = (pos 0, plist)

pub print_list_fp : Chain → ℤ
print_list_fp ifp = pos 0

pub print_list_rg : List Region → ℤ
print_list_rg irg = pos 0

pub print_list_vma : List Vma → ℤ
print_list_vma ivma = pos 0

pub print_list_pgn : List ℕ → ℤ
print_list_pgn ip = pos 0

pub print_pgtbl : ℕ → ℕ → ℤ
print_pgtbl start end = pos 0
