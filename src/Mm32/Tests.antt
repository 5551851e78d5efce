-- ===== src/Mm32/Tests.antt =====
-- The theorem on the 32-bit table at a table of three entries.
use os_to_read.Base.{◌≡◌, refl, [], ◌∷◌, arith}
use os_to_read.Base.Access.{ok, err}
use os_to_read.Mm32.{pte_set_fpn, pte_set_swap, init_pte}
use os_to_read.Mm32.Entries.{ChangedTo, IsOnline, IsSwapped, table_lem}

table_lem_example :
    ChangedTo (0 ∷ 5 ∷ 4096 ∷ []) 1 (IsOnline 9) (pte_set_fpn (0 ∷ 5 ∷ 4096 ∷ []) 1 9)
    × ChangedTo (0 ∷ 5 ∷ 4096 ∷ []) 1 (IsSwapped 3 77) (pte_set_swap (0 ∷ 5 ∷ 4096 ∷ []) 1 3 77)
table_lem_example = table_lem (0 ∷ 5 ∷ 4096 ∷ []) 1 9 3 77 (omega arith)

-- A page that is not swapped has a frame other than 0; without `pre` nothing is written.
init_pte_cases : (init_pte 6 1 0 0 0 0 ≡ err) × (init_pte 6 0 0 0 0 0 ≡ ok 6)
unfolding init_pte
init_pte_cases = (refl, refl)
