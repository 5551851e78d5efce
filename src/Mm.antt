-- ===== src/Mm.antt =====
-- The virtual memory areas of a process, their free regions and the page list: src/mm-vm.c, the list
-- routines of src/mm64.c, and `get_free_vmrg_area` and `find_victim_page` of src/libmem.c.
pub mod Regions
pub mod Areas
pub mod Pages
pub mod Maps
pub mod Print
mod Tests
use mathlib.Core.Option
use os_to_read.Base.{
  ℕ, zero, suc, ◌+◌, ◌-◌, ◌^◌, Bool, true, false, Option, none, some, List, [], ◌∷◌, if◌then◌else◌,
  ltb, leb, ◌==◌, get_elem?, set,
}
use os_to_read.Base.Int.{ℤ, pos, to_int, to_addr, add_addr, ltz}
pub use os_to_read.Base.Access.{Access, ok, err, fault, ◌>>=◌}

-- `struct vm_rg_struct`. `vmaid` is never read, and the chain `rg_next` is the list a region stands in.
pub record Region : Type 0 where
  pub rg_start : ℕ
  pub rg_end : ℕ

abbrev pub no_region : Region
no_region = record { rg_start = 0; rg_end = 0 }

-- `struct vm_area_struct`; the chain `vm_next` is the list `mmap`.
pub record Vma : Type 0 where
  pub vm_id : ℕ
  pub vm_start : ℕ
  pub vm_end : ℕ
  pub sbrk : ℕ
  pub vm_freerg_list : List Region

-- `struct mm_struct`, without the directories that nothing reads.
pub record Mm : Type 0 where
  pub mmap : List Vma
  pub symrgtbl : List Region
  pub fifo_pgn : List ℕ

-- The loop of `get_vma_by_num` from the area at index `k` on. The field `vm_id` is read through
-- `vm_next` before that is compared with NULL.
pub vma_walk : List Vma → ℕ → ℤ → Access (Option ℕ)
vma_walk [] k vmaid = fault
vma_walk (v ∷ vs) k vmaid =
    if ltz (to_int v.vm_id) vmaid then vma_walk vs (suc k) vmaid else ok (some k)

pub vma_first : List Vma → ℤ → Access (Option ℕ)
vma_first [] vmaid = ok none
vma_first (v ∷ vs) vmaid = vma_walk (v ∷ vs) 0 vmaid

-- The index of the area, or NULL.
pub get_vma_by_num : Mm → ℤ → Access (Option ℕ)
unfolding vma_first
get_vma_by_num mm vmaid = vma_first mm.mmap vmaid

-- What reading a field through that pointer gives.
unfoldable pub deref : Mm → Option ℕ → Access Vma
deref mm none = fault
deref mm (some k) = elim (get_elem? mm.mmap k) [ none ↦ fault | some v ↦ ok v ]

-- The node of a region that is used up takes over the next region, or stays with size 0 at the end.
pub use_up : Region → List Region → List Region
use_up r [] = record r { rg_start = r.rg_end } ∷ []
use_up r (next ∷ rest) = next ∷ rest

pub shrink : ℕ → Region → List Region → List Region
unfolding use_up
shrink size r rest =
    if ltb (add_addr r.rg_start size) r.rg_end
    then record r { rg_start = add_addr r.rg_start size } ∷ rest
    else use_up r rest

-- The loop of `get_free_vmrg_area`: the new region and the list afterwards.
pub take_fit : ℕ → List Region → Option (Region × List Region)
take_fit size [] = none
take_fit size (r ∷ rest) =
    let later = take_fit size rest in
    if leb (add_addr r.rg_start size) r.rg_end
    then some
        (record { rg_start = r.rg_start; rg_end = add_addr r.rg_start size }, shrink size r rest)
    else Option.map (λ found. (found.0, r ∷ found.1)) later

abbrev pub set_free : Mm → ℕ → Vma → List Region → Mm
set_free mm k v l = record mm { mmap = set mm.mmap k (record v { vm_freerg_list = l }) }

-- `newrg->rg_start == -1` stands for "not found".
pub fitted : Mm → ℕ → Vma → Option (Region × List Region) → Option Region × Mm
fitted mm k v none = (none, mm)
fitted mm k v (some (rg, l)) =
    (if rg.rg_start == 2 ^ 64 - 1 then none else some rg, set_free mm k v l)

pub free_in : Mm → ℤ → ℕ → Vma → List Region → Access (Option Region × Mm)
free_in mm size k v [] = ok (none, mm)
free_in mm size k v (r ∷ rest) = ok (fitted mm k v (take_fit (to_addr size) (r ∷ rest)))

pub free_area : Mm → ℤ → Option ℕ → Vma → Access (Option Region × Mm)
free_area mm size none v = fault
free_area mm size (some k) v = free_in mm size k v v.vm_freerg_list

-- `none` stands for the return value -1, with the memory as it is left.
pub get_free_vmrg_area : Mm → ℤ → ℤ → Access (Option Region × Mm)
unfolding free_area
get_free_vmrg_area mm vmaid size = do
  cur_vma ← get_vma_by_num mm vmaid
  v ← deref mm cur_vma
  free_area mm size cur_vma v

-- `validate_overlap_vm_area`: `OVERLAP` is the constant 0, so the loop over the areas finds nothing.
pub validate_overlap_vm_area : Mm → ℤ → ℕ → ℕ → Access ℕ
validate_overlap_vm_area mm vmaid vmastart vmaend =
    if leb vmaend vmastart then err else elim mm.mmap [
      | [] ↦ err
      | v ∷ vs ↦ elim (get_vma_by_num mm vmaid) [
        | ok none ↦ err
        | ok (some k) ↦ ok 0
        | err ↦ err
        | fault ↦ fault
      ]
    ]

-- `get_vm_area_node_at_brk`
pub get_vm_area_node_at_brk : Mm → ℤ → ℕ → Access Region
get_vm_area_node_at_brk mm vmaid size = do
  cur_vma ← get_vma_by_num mm vmaid
  v ← deref mm cur_vma
  ok (record { rg_start = v.sbrk; rg_end = add_addr v.sbrk size })

-- `init_vm_rg`, `enlist_vm_rg_node` and `enlist_pgn_node` of src/mm64.c.
pub init_vm_rg : ℕ → ℕ → Region
init_vm_rg rg_start rg_end = record { rg_start = rg_start; rg_end = rg_end }

pub enlist_vm_rg_node : List Region → Region → List Region
enlist_vm_rg_node rglist rgnode = rgnode ∷ rglist

unfoldable pub enlist_pgn_node : List ℕ → ℕ → List ℕ
enlist_pgn_node plist pgn = pgn ∷ plist

-- The oldest page stands last. With one page on the list `prev` is still NULL when it is written
-- through.
pub victim_from : ℕ → List ℕ → List ℕ × ℕ
victim_from p [] = ([], p)
victim_from p (q ∷ rest) = let (left, victim) = victim_from q rest in (p ∷ left, victim)

pub take_victim : Mm → List ℕ → Access (ℕ × Mm)
take_victim mm [] = err
take_victim mm (p ∷ []) = fault
take_victim mm (p ∷ q ∷ more) =
    let (left, victim) = victim_from p (q ∷ more) in ok (victim, record mm { fifo_pgn = left })

pub find_victim_page : Mm → Access (ℕ × Mm)
unfolding take_victim
find_victim_page mm = take_victim mm mm.fifo_pgn
