-- ===== src/Mem.antt =====
-- src/mem.c, the memory of the build without MM_PAGING, and the instructions of src/cpu.c on it. An
-- `addr_t` has 64 bits, a register number is that of an array of ten.
pub mod Split
pub mod Dead
pub mod Dump
pub mod Program
mod Tests
use Prim.Native.Nat.{bit_and}
use os_to_read.Base.{
  ℕ, zero, suc, ◌+◌, ◌-◌, ◌*◌, ◌/◌, ◌%◌, ◌^◌, Bool, true, false, Option, none, some, List, [], ◌∷◌,
  if◌then◌else◌, ◌==◌, get_elem?, set, replicate, length, ltb,
}
use os_to_read.Base.Access.{Access, ok, err, fault, ◌>>=◌}

abbrev pub address_size : ℕ
address_size = 20

abbrev pub offset_len : ℕ
offset_len = 10

abbrev pub page_len : ℕ
page_len = 5

abbrev pub num_pages : ℕ
num_pages = 2 ^ (address_size - offset_len)

abbrev pub page_size : ℕ
page_size = 2 ^ offset_len

abbrev pub ram_size : ℕ
ram_size = 2 ^ address_size

-- An entry of `_mem_stat`.
pub record PageStat : Type 0 where
  pub proc : ℕ
  pub index : ℕ
  pub next : ℕ

-- The static variables.
pub record Mem : Type 0 where
  pub ram : List ℕ
  pub mem_stat : List PageStat

pub init_mem : Mem
init_mem = record {
  ram = replicate ram_size 0;
  mem_stat = replicate num_pages (record { proc = 0; index = 0; next = 0 });
}

-- Entries of `struct trans_table_t` and `struct page_table_t`.
pub record TransRow : Type 0 where
  pub v_index : ℕ
  pub p_index : ℕ

pub record PageRow : Type 0 where
  pub v_index : ℕ
  pub next_lv : List TransRow

-- The fields of `struct pcb_t` that this memory uses.
pub record MemPcb : Type 0 where
  pub regs : List ℕ
  pub page_table : List PageRow
  pub bp : ℕ

-- `addr & ~((~0U) << OFFSET_LEN)`, where the mask has 32 bits.
pub get_offset : ℕ → ℕ
get_offset addr = bit_and addr (2 ^ 32 - 1 - (2 ^ 32 - 1) * 2 ^ offset_len % 2 ^ 32)

pub get_first_lv : ℕ → ℕ
get_first_lv addr = addr / 2 ^ (offset_len + page_len)

pub get_second_lv : ℕ → ℕ
unfolding get_first_lv
get_second_lv addr =
    (addr / 2 ^ offset_len + 2 ^ 64 - get_first_lv addr * 2 ^ page_len % 2 ^ 64) % 2 ^ 64

-- The loop over the rows does nothing, and NULL is returned.
pub get_trans_table : ℕ → List PageRow → Option (List TransRow)
get_trans_table index [] = none
get_trans_table index (row ∷ rows) = get_trans_table index rows

-- The loop over a table of the second level: 1 if it has the index.
pub find_row : ℕ → List TransRow → ℕ
find_row second_lv [] = 0
find_row second_lv (row ∷ rows) =
    let rest = find_row second_lv rows in if row.v_index == second_lv then 1 else rest

pub translate_in : ℕ → Option (List TransRow) → ℕ
unfolding find_row
translate_in second_lv none = 0
translate_in second_lv (some rows) = find_row second_lv rows

-- The status; `*physical_addr` is not written.
pub translate : ℕ → MemPcb → ℕ
unfolding translate_in get_trans_table get_second_lv get_first_lv
translate virtual_addr proc =
    translate_in (get_second_lv virtual_addr)
      (get_trans_table (get_first_lv virtual_addr) proc.page_table)

-- The number of pages that `alloc_mem` computes.
pub pages_for : ℕ → ℕ
pages_for size = if size % page_size == 0 then size / page_size + 1 else size / page_size

-- `mem_avail` is never set.
pub alloc_mem_if : Bool → ℕ → MemPcb → ℕ × MemPcb
unfolding pages_for
alloc_mem_if true size proc =
    (proc.bp, record proc { bp = (proc.bp + pages_for size * page_size) % 2 ^ 32 })
alloc_mem_if false size proc = (0, proc)

pub alloc_mem : ℕ → MemPcb → ℕ × MemPcb
unfolding alloc_mem_if
alloc_mem size proc = alloc_mem_if false size proc

pub free_mem : ℕ → MemPcb → ℕ
free_mem address proc = 0

-- `physical_addr` was not written, so that the access that follows a translation is undefined.
pub read_mem : Mem → ℕ → MemPcb → Access (ℕ × Option ℕ)
unfolding translate
read_mem m address proc = if translate address proc == 0 then ok (1, none) else fault

pub write_mem : Mem → ℕ → MemPcb → ℕ → Access (ℕ × Mem)
unfolding translate
write_mem m address proc byte = if translate address proc == 0 then ok (1, m) else fault

-- `proc->regs[i]`
pub reg : MemPcb → ℕ → Access ℕ
reg proc i = elim (get_elem? proc.regs i) [ none ↦ fault | some a ↦ ok a ]

pub set_reg : MemPcb → ℕ → ℕ → Access MemPcb
set_reg proc i a =
    if ltb i (length proc.regs) then ok (record proc { regs = set proc.regs i a }) else fault

-- The instruction `alloc`.
pub alloc_to : ℕ × MemPcb → ℕ → Access (ℕ × MemPcb)
unfolding set_reg
alloc_to r reg_index =
    if r.0 == 0 then ok (1, r.1) else (do proc ← set_reg r.1 reg_index r.0; ok (0, proc))

pub alloc : MemPcb → ℕ → ℕ → Access (ℕ × MemPcb)
unfolding alloc_mem alloc_to
alloc proc size reg_index = alloc_to (alloc_mem size proc) reg_index

pub free_data : MemPcb → ℕ → Access ℕ
unfolding reg free_mem
free_data proc reg_index = do address ← reg proc reg_index; ok (free_mem address proc)

-- What `read` does with the status and the byte of `read_mem`: a status other than 0 counts as success,
-- and the byte, which may have no value, goes to the register.
pub store_read : MemPcb → ℕ → ℕ × Option ℕ → Access (ℕ × MemPcb)
unfolding set_reg
store_read proc destination (zero, byte) = ok (1, proc)
store_read proc destination (suc n, none) = fault
store_read proc destination (suc n, some byte) = do
  proc' ← set_reg proc destination byte
  ok (0, proc')

pub read : Mem → MemPcb → ℕ → ℕ → ℕ → Access (ℕ × MemPcb)
unfolding reg read_mem store_read
read m proc source offset destination = do
  base ← reg proc source
  got ← read_mem m ((base + offset) % 2 ^ 64) proc
  store_read proc destination got

pub write : Mem → MemPcb → ℕ → ℕ → ℕ → Access (ℕ × Mem)
unfolding reg write_mem
write m proc byte destination offset = do
  base ← reg proc destination
  write_mem m ((base + offset) % 2 ^ 64) proc byte
