-- ===== src/Mem/Split.antt =====
-- An address of the legacy memory, taken apart and put together.
use os_to_read.Base.{ℕ, ◌+◌, ◌*◌, ◌%◌, ◌^◌, ◌<◌, ◌≡◌, arith}
use os_to_read.Paging.Digits.{ones, bit_and-ones}
use os_to_read.Mem.{get_offset, get_first_lv, get_second_lv, page_size}

get_offset_lem : (addr : ℕ) → get_offset addr ≡ addr % 1024
unfolding get_offset ones
get_offset_lem addr = bit_and-ones 10 addr

-- The two indices and the offset of an address of 64 bits: the second index is one of the 32 rows of its
-- table, the offset is inside a page, and the three make up the address.
pub address_lem :
    (addr : ℕ)
    → addr < 2 ^ 64
    → (get_second_lv addr < 32)
      × (get_offset addr < page_size)
      × (get_first_lv addr * 32768 + get_second_lv addr * 1024 + get_offset addr ≡ addr)
unfolding get_second_lv get_first_lv
address_lem addr h =
    let offset = get_offset_lem addr in
    (omega (arith, h), omega (arith, offset), omega (arith, h, offset))
