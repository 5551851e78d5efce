-- ===== src/Paging.antt =====
-- The macros of include/mm.h and include/mm64.h on addresses and page table entries, and the functions
-- of src/mm64.c that use them. `unsigned` has 32 bits, `addr_t` has 64.
pub mod Digits
pub mod Directory
pub mod Logic
pub mod Fields
mod Tests
use Prim.Native.Nat.{bit_and, bit_or}
use os_to_read.Base.{ℕ, ◌-◌, ◌*◌, ◌/◌, ◌%◌, ◌^◌, Bool, not, if◌then◌else◌, ◌==◌}
use os_to_read.Base.Access.{Access, ok, err}

abbrev ones32 : ℕ
ones32 = 2 ^ 32 - 1

abbrev ones64 : ℕ
ones64 = 2 ^ 64 - 1

-- `GENMASK(h, l)` and `GENMASK64(h, l)`
abbrev pub genmask : ℕ → ℕ → ℕ
genmask h l = bit_and (ones32 * 2 ^ l % 2 ^ 32) (ones32 / 2 ^ (32 - h - 1))

abbrev pub genmask64 : ℕ → ℕ → ℕ
genmask64 h l = bit_and (ones64 * 2 ^ l % 2 ^ 64) (ones64 / 2 ^ (64 - h - 1))

abbrev pub bit : ℕ → ℕ
bit nr = 2 ^ nr

abbrev pub present_mask : ℕ
present_mask = bit 31

abbrev pub swapped_mask : ℕ
swapped_mask = bit 30

abbrev pub dirty_mask : ℕ
dirty_mask = bit 28

abbrev pub fpn_mask : ℕ
fpn_mask = genmask 12 0

abbrev pub swptyp_mask : ℕ
swptyp_mask = genmask 4 0

abbrev pub swpoff_mask : ℕ
swpoff_mask = genmask 25 5

-- `NBITS(PAGING_PAGESZ)` is 8.
abbrev pub pgn_mask : ℕ
pgn_mask = genmask 21 8

-- `SETBIT`, `CLRBIT`, `SETVAL` and `GETVAL`. A mask is `unsigned`, so its complement has 32 bits.
pub setbit : ℕ → ℕ → ℕ
setbit v mask = bit_or v mask

pub clrbit : ℕ → ℕ → ℕ
clrbit v mask = bit_and v (ones32 - mask)

unfoldable pub setval : ℕ → ℕ → ℕ → ℕ → ℕ
setval v value mask offst =
    bit_or (bit_and v (ones32 - mask)) (bit_and (value * 2 ^ offst % 2 ^ 64) mask)

pub getval : ℕ → ℕ → ℕ → ℕ
getval v mask offst = bit_and v mask / 2 ^ offst

unfoldable pub page_present : ℕ → Bool
page_present pte = not (bit_and pte present_mask == 0)

-- `PAGING_FPN` and `PAGING_PGN`
unfoldable pub paging_fpn : ℕ → ℕ
unfolding getval
paging_fpn pte = getval pte fpn_mask 0

unfoldable pub paging_pgn : ℕ → ℕ
unfolding getval
paging_pgn addr = getval addr pgn_mask 8

-- The five directory indices of an address.
pub record Directories : Type 0 where
  pub pgd : ℕ
  pub p4d : ℕ
  pub pud : ℕ
  pub pmd : ℕ
  pub pt : ℕ

pub get_pd_from_address : ℕ → Directories
get_pd_from_address addr = record {
  pgd = bit_and addr (genmask64 56 48) / 2 ^ 48;
  p4d = bit_and addr (genmask64 47 39) / 2 ^ 39;
  pud = bit_and addr (genmask64 38 30) / 2 ^ 30;
  pmd = bit_and addr (genmask64 29 21) / 2 ^ 21;
  pt = bit_and addr (genmask64 20 12) / 2 ^ 12;
}

pub get_pd_from_pagenum : ℕ → Directories
get_pd_from_pagenum pgn = get_pd_from_address (pgn * 2 ^ 12 % 2 ^ 64)

-- `init_pte`; `drt` is not read. `err` leaves the entry as it was.
pub init_pte : ℕ → ℕ → ℕ → ℕ → ℕ → ℕ → Access ℕ
unfolding setbit clrbit setval
init_pte pte pre fpn swp swptyp swpoff =
    if pre == 0
    then ok pte
    else (if swp == 0
        then (if fpn == 0
            then err
            else ok (
                setval (clrbit (clrbit (setbit pte present_mask) swapped_mask) dirty_mask) fpn
                  fpn_mask 0))
        else ok (
            setval
              (setval (clrbit (setbit (setbit pte present_mask) swapped_mask) dirty_mask) swptyp
                swptyp_mask 0)
              swpoff swpoff_mask 5))

-- `pte_set_swap` and `pte_set_fpn` write to an entry that they allocate, and keep no pointer to it; the
-- page tables are not touched. `junk` is what the fresh entry holds; the result is its new value.
unfoldable pub pte_set_swap : ℕ → ℕ → ℕ → ℕ
unfolding setbit setval
pte_set_swap junk swptyp swpoff =
    setval (setval (setbit (setbit junk present_mask) swapped_mask) swptyp swptyp_mask 0) swpoff
      swpoff_mask 5

unfoldable pub pte_set_fpn : ℕ → ℕ → ℕ
unfolding setbit clrbit setval
pte_set_fpn junk fpn = setval (clrbit (setbit junk present_mask) swapped_mask) fpn fpn_mask 0

-- `pte_get_entry` reads no table: the entry is 0 for every page.
unfoldable pub pte_get_entry : ℕ → ℕ
pte_get_entry pgn = 0
