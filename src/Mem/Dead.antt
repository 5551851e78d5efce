-- ===== src/Mem/Dead.antt =====
-- Nothing can be allocated in the legacy memory, and no address of it is valid.
use os_to_read.Base.{get_elem?-in, ℕ, ◌+◌, ◌%◌, ◌^◌, ◌<◌, ◌≡◌, refl, List, [], ◌∷◌, none, length}
use os_to_read.Base.Access.{ok, fault}
use os_to_read.Mem.{
  PageRow, Mem, MemPcb, get_trans_table, translate, translate_in, get_first_lv, alloc_mem,
  alloc_mem_if, read_mem, write_mem, reg, alloc_to, alloc, free_data, free_mem, read, write,
  store_read,
}

get_trans_table-none : (index : ℕ) (rows : List PageRow) → get_trans_table index rows ≡ none
unfolding get_trans_table
get_trans_table-none index [] = refl
get_trans_table-none index (row ∷ rows) = get_trans_table-none index rows

pub translate_fails : (address : ℕ) (proc : MemPcb) → translate address proc ≡ 0
unfolding translate translate_in
translate_fails address proc =
    rw (get_trans_table-none (get_first_lv address) proc.page_table, translate_in) refl

reg_ok : (proc : MemPcb) (i : ℕ) → i < length proc.regs → (a : ℕ) × (reg proc i ≡ ok a)
unfolding reg
reg_ok proc i h = let (a, e) = get_elem?-in proc.regs i h in (a, rw (e, reg) refl)

-- With any page table, for registers that exist: `alloc` fails with 1 and changes nothing, `write` fails
-- with 1 and changes nothing, `free_data` returns 0, and `read`, which takes the failure of `read_mem`
-- for its success, reads a byte that was never set.
pub nothing_works :
    (m : Mem) (proc : MemPcb) (size byte i j offset : ℕ)
    → i < length proc.regs
    → (alloc proc size i ≡ ok (1, proc))
      × (write m proc byte i offset ≡ ok (1, m))
      × (free_data proc i ≡ ok 0)
      × (read m proc i offset j ≡ fault)
unfolding alloc alloc_to alloc_mem alloc_mem_if write write_mem free_data free_mem read read_mem
    store_read
nothing_works m proc size byte i j offset h =
    let (base, found) = reg_ok proc i h in
    let dead = translate_fails ((base + offset) % 2 ^ 64) proc in
    (refl, rw (found, dead) refl, rw found refl, rw (found, dead) refl)
