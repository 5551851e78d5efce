-- ===== src/Mm/Print.antt =====
-- The functions of src/mm64.c that print a list: their return value and what they print, one value for
-- each call of `printf`.
use os_to_read.Base.{ℕ, ◌≡◌, ◌↔◌, refl, ap, List, [], ◌∷◌}
use os_to_read.Base.Int.{ℤ, pos, minus_one}
use os_to_read.Base.Access.{Access, ok, fault, ◌>>=◌}
use os_to_read.Memphy.{Chain, null, wild, node}
use os_to_read.Mm.{Region, Vma}
use os_to_read.Paging.{Directories, get_pd_from_address}

-- The name of the function; "NULL list"; the end of a line; a line of each of the four lists; and the
-- letter n, which `print_list_pgn` prints at its end.
pub data Printed : Type 0 where
  title : Printed
  null_list : Printed
  newline : Printed
  fp : (fpn : ℕ) → Printed
  rg : (rg_start rg_end : ℕ) → Printed
  va : (vm_start vm_end : ℕ) → Printed
  page : (pgn : ℕ) → Printed
  letter_n : Printed

pub fp_lines : Chain → Access (List Printed)
fp_lines null = ok (newline ∷ [])
fp_lines wild = fault
fp_lines (node fpn fp_next) = do rest ← fp_lines fp_next; ok (fp fpn ∷ rest)

pub print_list_fp : Chain → Access (ℤ × List Printed)
unfolding fp_lines
print_list_fp null = ok (minus_one, title ∷ null_list ∷ [])
print_list_fp wild = fault
print_list_fp (node fpn fp_next) = do
  lines ← fp_lines (node fpn fp_next)
  ok (pos 0, title ∷ newline ∷ lines)

pub rg_lines : List Region → List Printed
rg_lines [] = newline ∷ []
rg_lines (r ∷ l) = rg (r.rg_start) (r.rg_end) ∷ rg_lines l

pub print_list_rg : List Region → ℤ × List Printed
unfolding rg_lines
print_list_rg [] = (minus_one, title ∷ null_list ∷ [])
print_list_rg (r ∷ l) = (pos 0, title ∷ newline ∷ rg_lines (r ∷ l))

pub vma_lines : List Vma → List Printed
vma_lines [] = newline ∷ []
vma_lines (v ∷ l) = va (v.vm_start) (v.vm_end) ∷ vma_lines l

pub print_list_vma : List Vma → ℤ × List Printed
unfolding vma_lines
print_list_vma [] = (minus_one, title ∷ null_list ∷ [])
print_list_vma (v ∷ l) = (pos 0, title ∷ newline ∷ vma_lines (v ∷ l))

pub pgn_lines : List ℕ → List Printed
pgn_lines [] = letter_n ∷ []
pgn_lines (p ∷ l) = page p ∷ pgn_lines l

pub print_list_pgn : List ℕ → ℤ × List Printed
unfolding pgn_lines
print_list_pgn [] = (minus_one, title ∷ null_list ∷ [])
print_list_pgn (p ∷ l) = (pos 0, title ∷ newline ∷ pgn_lines (p ∷ l))

-- It takes the first address apart, and prints nothing.
pub print_pgtbl : ℕ → ℕ → ℤ × Directories
print_pgtbl start end = (pos 0, get_pd_from_address start)

-- The regions and the pages that an output shows.
pub shown_regions : List Printed → List Region
shown_regions [] = []
shown_regions (title ∷ out) = shown_regions out
shown_regions (null_list ∷ out) = shown_regions out
shown_regions (newline ∷ out) = shown_regions out
shown_regions (fp fpn ∷ out) = shown_regions out
shown_regions (rg a b ∷ out) = record { rg_start = a; rg_end = b } ∷ shown_regions out
shown_regions (va a b ∷ out) = shown_regions out
shown_regions (page p ∷ out) = shown_regions out
shown_regions (letter_n ∷ out) = shown_regions out

rg_lines-shown : (l : List Region) → shown_regions (rg_lines l) ≡ l
unfolding rg_lines shown_regions
rg_lines-shown [] = refl
rg_lines-shown (r ∷ l) = ap (λ x. r ∷ x) (rg_lines-shown l)

-- The output of `print_list_rg` shows the regions of the list, in order, and its status is -1 exactly
-- for the empty list.
pub print_list_rg_lem :
    (l : List Region)
    → (shown_regions (print_list_rg l).1 ≡ l) × (((print_list_rg l).0 ≡ minus_one) ↔ (l ≡ []))
unfolding print_list_rg shown_regions
print_list_rg_lem [] = (refl, ((λ e. refl), (λ e. refl)))
print_list_rg_lem (r ∷ l) = (rg_lines-shown (r ∷ l), ((λ e. absurd (cc e)), (λ e. absurd (cc e))))
