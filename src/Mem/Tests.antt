-- ===== src/Mem/Tests.antt =====
-- The theorem on the legacy memory at a process with registers.
use os_to_read.Base.{◌≡◌, refl, replicate, [], ◌∷◌, arith}
use os_to_read.Base.Access.{ok, fault}
use os_to_read.Mem.{Mem, MemPcb, alloc, write, free_data, read, pages_for}
use os_to_read.Mem.Dead.{nothing_works}

abbrev memory : Mem
memory = record { ram = 7 ∷ []; mem_stat = [] }

abbrev proc : MemPcb
proc = record {
  regs = replicate 10 0;
  page_table = record { v_index = 0; next_lv = record { v_index = 0; p_index = 0 } ∷ [] } ∷ [];
  bp = 1024;
}

nothing_works_example :
    (alloc proc 300 4 ≡ ok (1, proc))
    × (write memory proc 9 4 5 ≡ ok (1, memory))
    × (free_data proc 4 ≡ ok 0)
    × (read memory proc 4 5 6 ≡ fault)
nothing_works_example = nothing_works memory proc 300 9 4 6 5 (omega arith)

-- A size that fills its pages gets one page more, and one that does not is cut down.
page_counts : (pages_for 1024 ≡ 2) × (pages_for 1500 ≡ 1) × (pages_for 300 ≡ 0)
unfolding pages_for
page_counts = (refl, refl, refl)
