-- ===== src/Paging/Tests.antt =====
-- Runs of the macros and of `init_pte`, and the theorems at concrete addresses and entries.
use Prim.Native.Nat.{bit_and}
use os_to_read.Base.{◌≡◌, refl, arith, true}
use os_to_read.Base.Access.{ok, err}
use os_to_read.Paging.{
  get_pd_from_pagenum, pte_set_swap, page_present, getval, swapped_mask, swptyp_mask, swpoff_mask,
  init_pte,
}
use os_to_read.Paging.Directory.{page_of, page_of-get_pd_from_pagenum}
use os_to_read.Paging.Fields.{pte_set_swap_lem}

page_of-get_pd_from_pagenum_example : page_of (get_pd_from_pagenum 123456789) ≡ 123456789
page_of-get_pd_from_pagenum_example = page_of-get_pd_from_pagenum 123456789 (omega arith)

pte_set_swap_lem_example :
    (page_present (pte_set_swap 77 3 500) ≡ true)
    × (bit_and (pte_set_swap 77 3 500) swapped_mask ≡ swapped_mask)
    × (getval (pte_set_swap 77 3 500) swptyp_mask 0 ≡ 3)
    × (getval (pte_set_swap 77 3 500) swpoff_mask 5 ≡ 500)
pte_set_swap_lem_example = pte_set_swap_lem 77 3 500

-- Frame 0 is refused, and an entry that is not to be present stays as it was.
refuses_zero : (init_pte 5 1 0 0 0 0 ≡ err) × (init_pte 5 0 7 0 0 0 ≡ ok 5)
unfolding init_pte
refuses_zero = (refl, refl)
