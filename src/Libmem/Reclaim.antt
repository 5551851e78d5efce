-- ===== src/Libmem/Reclaim.antt =====
-- `free_pcb_memph` of src/libmem.c: the frames of all pages go back to their devices.
use Prim.Native.Nat.{bit_and}
use os_to_read.Base.{
  ℕ, zero, suc, ◌+◌, ◌/◌, ◌%◌, ◌^◌, ◌≡◌, refl, true, false, none, some, List, [], ◌∷◌,
  if◌then◌else◌, length, get_elem?, Bool-cases, inl, inr, arith, sym, ap, ◌∙◌,
}
use os_to_read.Base.Access.{Access, ok, fault}
use os_to_read.Memphy.{Memphy, put_freefp}
use os_to_read.Memphy.Frames.{get_frames, get_frames-put_freefp, get_frames_zero}
use os_to_read.Paging.{page_present, paging_fpn, swpoff_mask}

-- `PAGING_MAX_PGN`
abbrev pub max_pgn : ℕ
max_pgn = 2 ^ 22 / 256

-- `PAGING_SWP(pte)`
unfoldable pub paging_swp : ℕ → ℕ
paging_swp pte = bit_and pte swpoff_mask / 2 ^ 5

-- The devices `mram` and `active_mswp` after one page.
pub free_page : ℕ → Memphy × Memphy → Memphy × Memphy
unfolding paging_swp
free_page pte d =
    if page_present pte
    then (put_freefp d.0 (paging_fpn pte), d.1)
    else (d.0, put_freefp d.1 (paging_swp pte))

-- The loop, with `n` rounds left; `pte` has 32 bits.
pub free_pages : ℕ → ℕ → List ℕ → Memphy × Memphy → Access (Memphy × Memphy)
unfolding free_page
free_pages zero pagenum pgd d = ok d
free_pages (suc n) pagenum pgd d = elim (get_elem? pgd pagenum) [
  | none ↦ fault
  | some pte ↦ free_pages n (suc pagenum) pgd (free_page (pte % 2 ^ 32) d)
]

pub free_pcb_memph : List ℕ → Memphy × Memphy → Access (Memphy × Memphy)
unfolding free_pages
free_pcb_memph pgd d = free_pages max_pgn 0 pgd d

-- All pages of a list, in order.
free_list : List ℕ → Memphy × Memphy → Memphy × Memphy
free_list [] d = d
free_list (pte ∷ l) d = free_list l (free_page (pte % 2 ^ 32) d)

free_pages-free_list :
    (l pgd : List ℕ) (i : ℕ) (d : Memphy × Memphy)
    → ((j : ℕ) → get_elem? pgd (j + i) ≡ get_elem? l j)
    → free_pages (length l) i pgd d ≡ ok (free_list l d)
unfolding free_pages free_list
free_pages-free_list [] pgd i d same = refl
free_pages-free_list (pte ∷ l) pgd i d same =
    let first : get_elem? pgd i ≡ some pte = ap (get_elem? pgd) (omega arith) ∙ same 0 in
    rw (first, free_pages)
      (free_pages-free_list l pgd (suc i) (free_page (pte % 2 ^ 32) d)
        (λ j. ap (get_elem? pgd) (omega arith) ∙ same (suc j)))

-- The frames of the pages that are present, and the swap frames of the others, the last page first, in
-- front of `acc`.
abbrev pub ram_frames : List ℕ → List ℕ → List ℕ
ram_frames [] acc = acc
ram_frames (pte ∷ l) acc =
    let more = ram_frames l (paging_fpn (pte % 2 ^ 32) ∷ acc) in
    let same = ram_frames l acc in if page_present (pte % 2 ^ 32) then more else same

abbrev pub swap_frames : List ℕ → List ℕ → List ℕ
swap_frames [] acc = acc
swap_frames (pte ∷ l) acc =
    let more = swap_frames l (paging_swp (pte % 2 ^ 32) ∷ acc) in
    let same = swap_frames l acc in if page_present (pte % 2 ^ 32) then same else more

-- `mp'` gives out the frames `l` and is `mp` again.
abbrev pub GivesBack : Memphy → List ℕ → Memphy → Type 0
GivesBack mp l mp' = get_frames (length l) mp' ≡ ok (l, mp)

free_page_present :
    (pte : ℕ) (d : Memphy × Memphy)
    → page_present pte ≡ true
    → free_page pte d ≡ (put_freefp d.0 (paging_fpn pte), d.1)
unfolding free_page
free_page_present pte d e = rw e refl

free_page_away :
    (pte : ℕ) (d : Memphy × Memphy)
    → page_present pte ≡ false
    → free_page pte d ≡ (d.0, put_freefp d.1 (paging_swp pte))
unfolding free_page
free_page_away pte d e = rw e refl

free_list_cons :
    (pte : ℕ) (l : List ℕ) (d : Memphy × Memphy)
    → free_list (pte ∷ l) d ≡ free_list l (free_page (pte % 2 ^ 32) d)
unfolding free_list
free_list_cons pte l d = refl

free_list-GivesBack :
    (l : List ℕ) (d d' : Memphy × Memphy) (rams swaps : List ℕ)
    → GivesBack d.0 rams d'.0
    → GivesBack d.1 swaps d'.1
    → GivesBack d.0 (ram_frames l rams) (free_list l d').0
      × GivesBack d.1 (swap_frames l swaps) (free_list l d').1
unfolding free_list
free_list-GivesBack [] d d' rams swaps r s = (r, s)
free_list-GivesBack (pte ∷ l) d d' rams swaps r s =
    elim (Bool-cases (page_present (pte % 2 ^ 32))) [
      | inl here ↦
          let fpn = paging_fpn (pte % 2 ^ 32) in
          rw (here, free_list_cons pte l d', free_page_present (pte % 2 ^ 32) d' here)
            (free_list-GivesBack l d (put_freefp d'.0 fpn, d'.1) (fpn ∷ rams) swaps
              (get_frames-put_freefp (length rams) fpn rams d'.0 d.0 r) s)
      | inr away ↦
          let off = paging_swp (pte % 2 ^ 32) in
          rw (away, free_list_cons pte l d', free_page_away (pte % 2 ^ 32) d' away)
            (free_list-GivesBack l d (d'.0, put_freefp d'.1 off) rams (off ∷ swaps) r
              (get_frames-put_freefp (length swaps) off swaps d'.1 d.1 s))
    ]

-- `free_pcb_memph` puts back one frame for each of the `PAGING_MAX_PGN` pages: the frame of its entry on
-- the RAM if the page is present, and the swap frame of its entry otherwise, whether the entry was ever
-- set or not. The devices hand these frames out again, the last page first, and are then as before.
pub free_pcb_memph_lem :
    (pgd : List ℕ) (d : Memphy × Memphy)
    → length pgd ≡ max_pgn
    → (d' : Memphy × Memphy) × (free_pcb_memph pgd d ≡ ok d')
      × GivesBack d.0 (ram_frames pgd []) d'.0
      × GivesBack d.1 (swap_frames pgd []) d'.1
unfolding free_pcb_memph
free_pcb_memph_lem pgd d e =
    let all = free_pages-free_list pgd pgd 0 d (λ j. ap (get_elem? pgd) (omega arith)) in
    let (rams, swaps) =
      free_list-GivesBack pgd d d [] [] (get_frames_zero d.0) (get_frames_zero d.1) in
    (free_list pgd d, ap (λ n. free_pages n 0 pgd d) (sym e) ∙ all, rams, swaps)
