-- ===== src/Paging/Fields.antt =====
-- What is read back of the fields that are written to a page table entry.
use Prim.Native.Nat.{bit_and}
use os_to_read.Base.{ℕ, ◌-◌, ◌*◌, ◌/◌, ◌%◌, ◌^◌, ◌≡◌, refl, ap, ◌∙◌, arith, true}
use os_to_read.Paging.{
  setval, getval, setbit, clrbit, fpn_mask, swptyp_mask, swpoff_mask, present_mask, swapped_mask,
  pte_set_fpn, pte_set_swap, page_present,
}
use os_to_read.Paging.Digits.{bit_and-none, bit_and-field, ones}
use os_to_read.Paging.Logic.{bit_and_assoc, bit_and-bit_or, bit_or-none, zero-bit_or, bit_or_absorb}

-- Two masks without a common digit, the first of them within 32 digits.
abbrev AreApart : ℕ → ℕ → Type 0
AreApart mask k = (bit_and (2 ^ 32 - 1 - mask) k ≡ k) × (bit_and mask k ≡ 0)

abbrev IsMask : ℕ → Type 0
IsMask mask = (bit_and (2 ^ 32 - 1 - mask) mask ≡ 0) × (bit_and mask mask ≡ mask)

bit_and-setval :
    (v value mask offst k : ℕ)
    → AreApart mask k
    → bit_and (setval v value mask offst) k ≡ bit_and v k
unfolding setval
bit_and-setval v value mask offst k (a, b) =
    rw (bit_and-bit_or, bit_and_assoc, a, bit_and_assoc, b, bit_and-none, bit_or-none) refl

bit_and-setval_self :
    (v value mask offst : ℕ)
    → IsMask mask
    → bit_and (setval v value mask offst) mask ≡ bit_and (value * 2 ^ offst % 2 ^ 64) mask
unfolding setval
bit_and-setval_self v value mask offst (a, b) =
    rw (bit_and-bit_or, bit_and_assoc, a, bit_and_assoc, b, bit_and-none, zero-bit_or) refl

bit_and-setbit : (v mask k : ℕ) → bit_and mask k ≡ 0 → bit_and (setbit v mask) k ≡ bit_and v k
unfolding setbit
bit_and-setbit v mask k b = rw (bit_and-bit_or, b, bit_or-none) refl

bit_and-clrbit : (v mask k : ℕ) → AreApart mask k → bit_and (clrbit v mask) k ≡ bit_and v k
unfolding clrbit
bit_and-clrbit v mask k (a, b) = rw (bit_and_assoc, a) refl

bit_and-clrbit_self : (v mask : ℕ) → IsMask mask → bit_and (clrbit v mask) mask ≡ 0
unfolding clrbit
bit_and-clrbit_self v mask (a, b) = rw (bit_and_assoc, a, bit_and-none) refl

setbit_self : (v mask : ℕ) → bit_and mask mask ≡ mask → bit_and (setbit v mask) mask ≡ mask
unfolding setbit
setbit_self v mask e = rw (bit_and-bit_or, e, bit_or_absorb) refl

page_present-true : (pte : ℕ) → bit_and pte present_mask ≡ present_mask → page_present pte ≡ true
unfolding page_present
page_present-true pte e = rw e refl

-- The field of `w` digits that is written at digit `l` is read back.
getval-setval :
    (w l v value mask : ℕ)
    → mask ≡ ones w * 2 ^ l
    → IsMask mask
    → getval (setval v value mask l) mask l ≡ value * 2 ^ l % 2 ^ 64 / 2 ^ l % 2 ^ w
unfolding getval
getval-setval w l v value mask e self =
    ap (λ t. t / 2 ^ l) (bit_and-setval_self v value mask l self)
    ∙ ap (λ m. bit_and (value * 2 ^ l % 2 ^ 64) m / 2 ^ l) e
    ∙ bit_and-field w l (value * 2 ^ l % 2 ^ 64)

fpn_field : fpn_mask ≡ ones 13 * 2 ^ 0
unfolding ones
fpn_field = refl

-- Whatever the fresh entry held, `pte_set_fpn` leaves one that is present and not swapped, and from
-- which the low 13 digits of the frame number are read back.
pub pte_set_fpn_lem :
    (junk fpn : ℕ)
    → (page_present (pte_set_fpn junk fpn) ≡ true)
      × (bit_and (pte_set_fpn junk fpn) swapped_mask ≡ 0)
      × (getval (pte_set_fpn junk fpn) fpn_mask 0 ≡ fpn % 2 ^ 13)
unfolding pte_set_fpn
pte_set_fpn_lem junk fpn =
    let marked = clrbit (setbit junk present_mask) swapped_mask in
    (
      page_present-true _ (
          bit_and-setval marked fpn fpn_mask 0 present_mask (refl, refl)
          ∙ bit_and-clrbit (setbit junk present_mask) swapped_mask present_mask (refl, refl)
          ∙ setbit_self junk present_mask refl),
      bit_and-setval marked fpn fpn_mask 0 swapped_mask (refl, refl)
          ∙ bit_and-clrbit_self (setbit junk present_mask) swapped_mask (refl, refl),
      getval-setval 13 0 marked fpn fpn_mask fpn_field (refl, refl) ∙ omega arith,
    )

swap_fields : (swptyp_mask ≡ ones 5 * 2 ^ 0) × (swpoff_mask ≡ ones 21 * 2 ^ 5)
unfolding ones
swap_fields = (refl, refl)

-- Writing the swap offset keeps the swap type.
getval-setval_apart :
    (v t o : ℕ)
    → getval (setval (setval v t swptyp_mask 0) o swpoff_mask 5) swptyp_mask 0
      ≡ t * 2 ^ 0 % 2 ^ 64 / 2 ^ 0 % 2 ^ 5
unfolding getval
getval-setval_apart v t o =
    ap (λ x. x / 2 ^ 0)
      (bit_and-setval (setval v t swptyp_mask 0) o swpoff_mask 5 swptyp_mask (refl, refl))
    ∙ getval-setval 5 0 v t swptyp_mask swap_fields.0 (refl, refl)

-- Whatever the fresh entry held, `pte_set_swap` leaves one that is present and swapped, and from which
-- the low 5 digits of the swap type and the low 21 digits of the swap offset are read back.
pub pte_set_swap_lem :
    (junk swptyp swpoff : ℕ)
    → (page_present (pte_set_swap junk swptyp swpoff) ≡ true)
      × (bit_and (pte_set_swap junk swptyp swpoff) swapped_mask ≡ swapped_mask)
      × (getval (pte_set_swap junk swptyp swpoff) swptyp_mask 0 ≡ swptyp % 2 ^ 5)
      × (getval (pte_set_swap junk swptyp swpoff) swpoff_mask 5 ≡ swpoff % 2 ^ 21)
unfolding pte_set_swap
pte_set_swap_lem junk swptyp swpoff =
    let marked = setbit (setbit junk present_mask) swapped_mask in
    let typed = setval marked swptyp swptyp_mask 0 in
    (
      page_present-true _ (
          bit_and-setval typed swpoff swpoff_mask 5 present_mask (refl, refl)
          ∙ bit_and-setval marked swptyp swptyp_mask 0 present_mask (refl, refl)
          ∙ bit_and-setbit (setbit junk present_mask) swapped_mask present_mask refl
          ∙ setbit_self junk present_mask refl),
      bit_and-setval typed swpoff swpoff_mask 5 swapped_mask (refl, refl)
          ∙ bit_and-setval marked swptyp swptyp_mask 0 swapped_mask (refl, refl)
          ∙ setbit_self (setbit junk present_mask) swapped_mask refl,
      getval-setval_apart marked swptyp swpoff ∙ omega arith,
      getval-setval 21 5 typed swpoff swpoff_mask swap_fields.1 (refl, refl) ∙ omega arith,
    )
