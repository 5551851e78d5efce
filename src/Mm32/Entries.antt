-- ===== src/Mm32/Entries.antt =====
-- The entries that the 32-bit functions write are those of the 64-bit ones, in their place in the table.
use Prim.Native.Nat.{bit_and, bit_or}
use os_to_read.Base.{
  ℕ, ◌*◌, ◌/◌, ◌%◌, ◌^◌, ◌<◌, ◌≡◌, ◌≢◌, refl, ap, sym, subst, ◌∙◌, ◌-◌, true, some, List, arith,
  get_elem?, set, length, get_elem?-in, get_elem?-set_self, get_elem?-set_ne,
}
use os_to_read.Base.Access.{Access, ok}
use os_to_read.Paging
use os_to_read.Paging.{
  page_present, getval, present_mask, swapped_mask, fpn_mask, swptyp_mask, swpoff_mask, setbit,
  clrbit,
}
use os_to_read.Paging.Digits.{ones, bit_and-ones, bit_and-shift}
use os_to_read.Paging.Fields.{pte_set_fpn_lem, pte_set_swap_lem}
use os_to_read.Mm32.{setval, swapped_entry, online_entry, change, pte_set_swap, pte_set_fpn}

-- A field of `w` digits from digit `l` on is the same whether the value is cut to 32 or to 64 digits.
field_32 :
    (w l x : ℕ)
    → x % 2 ^ 32 / 2 ^ l % 2 ^ w ≡ x % 2 ^ 64 / 2 ^ l % 2 ^ w
    → bit_and (x % 2 ^ 32) (ones w * 2 ^ l) ≡ bit_and (x % 2 ^ 64) (ones w * 2 ^ l)
field_32 w l x e =
    bit_and-shift l (ones w) (x % 2 ^ 32)
    ∙ ap (λ y. y * 2 ^ l)
        (bit_and-ones w (x % 2 ^ 32 / 2 ^ l) ∙ e ∙ sym (bit_and-ones w (x % 2 ^ 64 / 2 ^ l)))
    ∙ sym (bit_and-shift l (ones w) (x % 2 ^ 64))

masks :
    (fpn_mask ≡ ones 13 * 2 ^ 0) × (swptyp_mask ≡ ones 5 * 2 ^ 0) × (swpoff_mask ≡ ones 21 * 2 ^ 5)
unfolding ones
masks = (refl, refl, refl)

setval_same :
    (w l v value mask : ℕ)
    → mask ≡ ones w * 2 ^ l
    → value * 2 ^ l % 2 ^ 32 / 2 ^ l % 2 ^ w ≡ value * 2 ^ l % 2 ^ 64 / 2 ^ l % 2 ^ w
    → setval v value mask l ≡ Paging.setval v value mask l
unfolding setval Paging.setval
setval_same w l v value mask m e = ap (bit_or (bit_and v (2 ^ 32 - 1 - mask))) (
    ap (bit_and (value * 2 ^ l % 2 ^ 32)) m
    ∙ field_32 w l (value * 2 ^ l) e
    ∙ ap (bit_and (value * 2 ^ l % 2 ^ 64)) (sym m))

online_entry-pte_set_fpn : (fpn pte : ℕ) → online_entry fpn pte ≡ Paging.pte_set_fpn pte fpn
unfolding online_entry Paging.pte_set_fpn
online_entry-pte_set_fpn fpn pte = setval_same 13 0 _ fpn fpn_mask masks.0 (omega arith)

swapped_entry-pte_set_swap :
    (swptyp swpoff pte : ℕ)
    → swapped_entry swptyp swpoff pte ≡ Paging.pte_set_swap pte swptyp swpoff
unfolding swapped_entry Paging.pte_set_swap
swapped_entry-pte_set_swap swptyp swpoff pte =
    let marked = setbit (setbit pte present_mask) swapped_mask in
    setval_same 21 5 (setval marked swptyp swptyp_mask 0) swpoff swpoff_mask masks.2 (omega arith)
    ∙ ap (λ v. Paging.setval v swpoff swpoff_mask 5)
        (setval_same 5 0 marked swptyp swptyp_mask masks.1 (omega arith))

-- The entry of one page has changed, and no other one.
abbrev pub ChangedTo : List ℕ → ℕ → (ℕ → Type 0) → Access (List ℕ) → Type 0
ChangedTo pgd pgn P r =
    (pgd' : List ℕ) × (pte : ℕ) × (r ≡ ok pgd')
    × (get_elem? pgd' pgn ≡ some pte)
    × P pte
    × ((j : ℕ) → pgn ≢ j → get_elem? pgd' j ≡ get_elem? pgd j)

change-ChangedTo :
    (f : ℕ → ℕ) (P : ℕ → Type 0) (pgd : List ℕ) (pgn : ℕ)
    → pgn < length pgd
    → ((pte : ℕ) → P (f pte))
    → ChangedTo pgd pgn P (change f pgd pgn)
unfolding change
change-ChangedTo f P pgd pgn h k =
    let (pte, e) = get_elem?-in pgd pgn h in
    (
      set pgd pgn (f pte),
      f pte,
      rw (e, change) refl,
      get_elem?-set_self pgd pgn (f pte) h,
      k pte,
      λ j ne. get_elem?-set_ne pgd (f pte) ne,
    )

abbrev pub IsOnline : ℕ → ℕ → Type 0
IsOnline fpn pte =
    (page_present pte ≡ true)
    × (bit_and pte swapped_mask ≡ 0)
    × (getval pte fpn_mask 0 ≡ fpn % 2 ^ 13)

abbrev pub IsSwapped : ℕ → ℕ → ℕ → Type 0
IsSwapped swptyp swpoff pte =
    (page_present pte ≡ true)
    × (bit_and pte swapped_mask ≡ swapped_mask)
    × (getval pte swptyp_mask 0 ≡ swptyp % 2 ^ 5)
    × (getval pte swpoff_mask 5 ≡ swpoff % 2 ^ 21)

-- In the 32-bit table, `pte_set_fpn` makes a page present and not swapped with the low 13 digits of the
-- frame number, `pte_set_swap` makes it swapped with the low 5 digits of the type and 21 of the offset;
-- neither touches the entry of another page.
pub table_lem :
    (pgd : List ℕ) (pgn fpn swptyp swpoff : ℕ)
    → pgn < length pgd
    → ChangedTo pgd pgn (IsOnline fpn) (pte_set_fpn pgd pgn fpn)
      × ChangedTo pgd pgn (IsSwapped swptyp swpoff) (pte_set_swap pgd pgn swptyp swpoff)
unfolding pte_set_fpn pte_set_swap
table_lem pgd pgn fpn swptyp swpoff h = (
  change-ChangedTo (online_entry fpn) (IsOnline fpn) pgd pgn h (λ pte.
      subst (IsOnline fpn) (sym (online_entry-pte_set_fpn fpn pte)) (pte_set_fpn_lem pte fpn)),
  change-ChangedTo (swapped_entry swptyp swpoff) (IsSwapped swptyp swpoff) pgd pgn h (λ pte.
      subst (IsSwapped swptyp swpoff) (sym (swapped_entry-pte_set_swap swptyp swpoff pte))
        (pte_set_swap_lem pte swptyp swpoff)),
)
