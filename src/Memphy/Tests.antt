-- ===== src/Memphy/Tests.antt =====
-- Runs of src/mm-memphy.c, and the theorems at concrete devices.
use os_to_read.Base.{◌≡◌, refl, [], ◌∷◌, replicate, arith, true, false, ◌/◌}
use os_to_read.Base.Int.{pos}
use os_to_read.Memphy.{
  Memphy, ok, fault, wild, null, node, read, write, init_memphy, swap_cp_page, load, store, format,
  format_frames, frames, pagesz,
}
use os_to_read.Memphy.Frames.{Drains, init_memphy-Drains}
use os_to_read.Memphy.Swap.{CanCopy, Copied, swap_cp_page_lem}

-- A structure before it is set up: its list pointer is wild.
abbrev raw : Memphy
raw = record { storage = []; maxsz = pos 0; rdmflg = false; cursor = 0; free_fp_list = wild }

abbrev four_bytes : Memphy
four_bytes = record {
  storage = 1 ∷ 2 ∷ 3 ∷ 4 ∷ [];
  maxsz = pos 4;
  rdmflg = true;
  cursor = 0;
  free_fp_list = null;
}

-- Two frames of 256 bytes; the second device holds 7 everywhere.
abbrev zeros : Memphy
zeros = record {
  storage = replicate 512 0;
  maxsz = pos 512;
  rdmflg = true;
  cursor = 0;
  free_fp_list = null;
}

abbrev sevens : Memphy
sevens = record {
  storage = replicate 512 7;
  maxsz = pos 512;
  rdmflg = true;
  cursor = 0;
  free_fp_list = null;
}

write_third : write four_bytes 2 9 ≡ ok (record four_bytes { storage = 1 ∷ 2 ∷ 9 ∷ 4 ∷ [] })
unfolding write store
write_third = refl

read_outside : read four_bytes 4 ≡ fault
unfolding read load
read_outside = refl

format_two : (init_memphy raw 700 1).free_fp_list ≡ node 0 (node 1 null)
unfolding init_memphy format format_frames frames
format_two = refl

init_memphy-Drains_example : Drains (init_memphy raw 700 1) (700 / pagesz)
init_memphy-Drains_example = init_memphy-Drains raw 700 1 (omega arith) (omega arith)

abbrev zeros_from_sevens : CanCopy sevens zeros 0 1
zeros_from_sevens = record {
  src_random = refl;
  dst_random = refl;
  src_room = omega arith;
  dst_room = omega arith;
  src_size = omega arith;
  dst_size = omega arith;
}

swap_cp_page_lem_example :
    (dst' : Memphy) × (swap_cp_page 0 sevens 0 zeros 1 ≡ ok (sevens, dst'))
    × Copied sevens zeros 0 1 0 pagesz dst'
swap_cp_page_lem_example = swap_cp_page_lem 0 zeros_from_sevens
