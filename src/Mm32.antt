-- ===== src/Mm32.antt =====
-- src/mm.c, the page table of the 32-bit build: entries in an array `mm->pgd`, where `addr_t` has 32 bits.
-- `Mm32.Deprecated` has the functions that only print that they are deprecated.
pub mod Entries
pub mod Deprecated
mod Tests
use Prim.Native.Nat.{bit_and, bit_or}
use os_to_read.Base.{
  ℕ, ◌-◌, ◌*◌, ◌%◌, ◌^◌, Option, none, some, List, if◌then◌else◌, ◌==◌, get_elem?, set, ltb, length,
}
use os_to_read.Base.Access.{Access, ok, err, fault, ◌>>=◌}
use os_to_read.Paging.{
  setbit, clrbit, present_mask, swapped_mask, dirty_mask, fpn_mask, swptyp_mask, swpoff_mask,
}

-- `SETVAL` on 32 bits.
pub setval : ℕ → ℕ → ℕ → ℕ → ℕ
setval v value mask offst =
    bit_or (bit_and v (2 ^ 32 - 1 - mask)) (bit_and (value * 2 ^ offst % 2 ^ 32) mask)

-- The entry that `init_pte` leaves, or -1.
pub init_pte : ℕ → ℕ → ℕ → ℕ → ℕ → ℕ → Access ℕ
unfolding setval
init_pte pte pre fpn swp swptyp swpoff =
    if pre == 0
    then ok pte
    else (if swp == 0
        then (if fpn == 0
            then err
            else ok (
                setval (clrbit (clrbit (setbit pte present_mask) swapped_mask) dirty_mask) fpn
                  fpn_mask 0))
        else ok (
            setval
              (setval (clrbit (setbit (setbit pte present_mask) swapped_mask) dirty_mask) swptyp
                swptyp_mask 0)
              swpoff swpoff_mask 5))

-- What `pte_set_swap` and `pte_set_fpn` make of an entry.
pub swapped_entry : ℕ → ℕ → ℕ → ℕ
unfolding setval
swapped_entry swptyp swpoff pte =
    setval (setval (setbit (setbit pte present_mask) swapped_mask) swptyp swptyp_mask 0) swpoff
      swpoff_mask 5

pub online_entry : ℕ → ℕ → ℕ
unfolding setval
online_entry fpn pte = setval (clrbit (setbit pte present_mask) swapped_mask) fpn fpn_mask 0

-- `pte = &mm->pgd[pgn]`, and what is written through it.
pub change : (ℕ → ℕ) → List ℕ → ℕ → Access (List ℕ)
change f pgd pgn = elim (get_elem? pgd pgn) [ none ↦ fault | some pte ↦ ok (set pgd pgn (f pte)) ]

pub pte_set_swap : List ℕ → ℕ → ℕ → ℕ → Access (List ℕ)
unfolding change swapped_entry
pte_set_swap pgd pgn swptyp swpoff = change (swapped_entry swptyp swpoff) pgd pgn

pub pte_set_fpn : List ℕ → ℕ → ℕ → Access (List ℕ)
unfolding change online_entry
pte_set_fpn pgd pgn fpn = change (online_entry fpn) pgd pgn

pub pte_set_entry : List ℕ → ℕ → ℕ → Access (List ℕ)
pte_set_entry pgd pgn pte_val = if ltb pgn (length pgd) then ok (set pgd pgn pte_val) else fault
