-- ===== src/Memphy.antt =====
-- src/mm-memphy.c: a memory device with its bytes, its access mode and its list of free frames; and
-- `__swap_cp_page` of src/mm64.c, which copies a frame from one device to another.
pub mod Frames
pub mod Bytes
pub mod Swap
mod Tests
use os_to_read.Base.{
  ℕ, zero, suc, ◌+◌, ◌-◌, ◌*◌, ◌/◌, ◌%◌, ◌^◌, Bool, true, false, Option, none, some, List,
  get_elem?, set, replicate, length, if◌then◌else◌, ltb, ◌==◌, not,
}
pub use os_to_read.Base.Access.{Access, ok, err, fault}
use os_to_read.Base.Int.{ℤ, pos, minus_one, pos_part, to_int}

-- The `fp_next` chain of `struct framephy_struct`. `wild` is a pointer that was never set.
pub data Chain : Type 0 where
  null : Chain
  wild : Chain
  node : ℕ → Chain → Chain

-- `struct memphy_struct`; `used_fp_list` is never touched. `malloc` is taken to succeed, as the code
-- takes it. A `struct memphy_struct *` is the device itself: the simulator only passes addresses of
-- devices. A byte is a number below 256.
pub record Memphy : Type 0 where
  pub storage : List ℕ
  pub maxsz : ℤ
  pub rdmflg : Bool
  pub cursor : ℕ
  pub free_fp_list : Chain

abbrev pub pagesz : ℕ
pagesz = 256

-- `while (numstep < offset && numstep < maxsz)`, with `n` for `maxsz - numstep`.
pub csr_steps : ℕ → ℕ → ℕ → ℕ → ℕ → ℕ
csr_steps zero numstep offset maxsz cursor = cursor
csr_steps (suc n) numstep offset maxsz cursor =
    let rest = csr_steps n (numstep + 1) offset maxsz ((cursor + 1) % maxsz) in
    if ltb numstep offset then rest else cursor

pub mv_csr : Memphy → ℕ → Memphy
mv_csr mp offset = record mp {
  cursor = csr_steps (pos_part mp.maxsz) 0 offset (pos_part mp.maxsz) 0;
}

pub load : Memphy → ℕ → Access (ℕ × Memphy)
load mp addr = elim (get_elem? mp.storage addr) [ none ↦ fault | some v ↦ ok (v, mp) ]

pub store : Memphy → ℕ → ℕ → Access Memphy
store mp addr value =
    if ltb addr (length mp.storage)
    then ok (record mp { storage = set mp.storage addr value })
    else fault

pub seq_read : Memphy → ℕ → Access (ℕ × Memphy)
seq_read mp addr = if not mp.rdmflg then err else load (mv_csr mp addr) addr

pub read : Memphy → ℕ → Access (ℕ × Memphy)
read mp addr = if mp.rdmflg then load mp addr else seq_read mp addr

pub seq_write : Memphy → ℕ → ℕ → Access Memphy
seq_write mp addr value = if not mp.rdmflg then err else store (mv_csr mp addr) addr value

pub write : Memphy → ℕ → ℕ → Access Memphy
write mp addr value = if mp.rdmflg then store mp addr value else seq_write mp addr value

-- The nodes for the frames `iter … iter + n - 1`, behind a node whose `fp_next` is `last`.
pub frames : ℕ → ℕ → Chain → Chain
frames zero iter last = last
frames (suc n) iter last = node iter (frames n (suc iter) null)

-- `fp_next` of the first node is only set when there is a second one.
pub format_frames : ℕ → Memphy → ℤ × Memphy
format_frames zero mp = (minus_one, mp)
format_frames (suc n) mp = (pos 0, record mp { free_fp_list = node 0 (frames n 1 wild) })

-- A negative `maxsz` makes `numfp` zero or negative.
pub format : Memphy → ℕ → ℤ × Memphy
format mp size = format_frames (pos_part mp.maxsz / size) mp

take_frame : Memphy → Chain → Access (ℕ × Memphy)
take_frame mp null = err
take_frame mp wild = fault
take_frame mp (node fpn next) = ok (fpn, record mp { free_fp_list = next })

pub get_freefp : Memphy → Access (ℕ × Memphy)
unfolding take_frame
get_freefp mp = take_frame mp mp.free_fp_list

pub put_freefp : Memphy → ℕ → Memphy
put_freefp mp fpn = record mp { free_fp_list = node fpn mp.free_fp_list }

-- The result of `MEMPHY_format` is not looked at. `mp` is the structure before, with what was in it.
pub init_memphy : Memphy → ℕ → ℕ → Memphy
init_memphy mp max_size randomflg =
    let blank : Memphy = record mp { storage = replicate max_size 0; maxsz = to_int max_size } in
    let (code, formatted) = format blank pagesz in
    record formatted {
      rdmflg = not (randomflg == 0);
      cursor = if randomflg == 0 then 0 else formatted.cursor;
    }

write_cell : Memphy → ℕ → ℕ → Access Memphy
write_cell dst addr value = elim (write dst addr value) [
  | ok d ↦ ok d
  | err ↦ ok dst
  | fault ↦ fault
]

-- One round of `__swap_cp_page`. Neither return value is looked at; after a failed read the byte is
-- the indeterminate one, `junk`.
pub copy_cell : ℕ → Memphy → ℕ → Memphy → ℕ → Access (Memphy × Memphy)
unfolding write_cell
copy_cell junk src addrsrc dst addrdst = elim (read src addrsrc) [
  | ok (v, src') ↦ elim (write_cell dst addrdst v) [
    | ok dst' ↦ ok (src', dst')
    | err ↦ err
    | fault ↦ fault
  ]
  | err ↦ elim (write_cell dst addrdst junk) [
    | ok dst' ↦ ok (src, dst')
    | err ↦ err
    | fault ↦ fault
  ]
  | fault ↦ fault
]

abbrev pub cell : ℕ → ℕ → ℕ
cell fpn idx = (fpn * pagesz + idx) % 2 ^ 64

-- `for (cellidx = k; cellidx < k + n; cellidx++)`
pub copy_cells : ℕ → ℕ → ℕ → ℕ → ℕ → Memphy × Memphy → Access (Memphy × Memphy)
copy_cells junk zero k srcfpn dstfpn (src, dst) = ok (src, dst)
copy_cells junk (suc n) k srcfpn dstfpn (src, dst) =
    elim (copy_cell junk src (cell srcfpn k) dst (cell dstfpn k)) [
      | ok both ↦ copy_cells junk n (suc k) srcfpn dstfpn both
      | err ↦ err
      | fault ↦ fault
    ]

pub swap_cp_page : ℕ → Memphy → ℕ → Memphy → ℕ → Access (Memphy × Memphy)
swap_cp_page junk src srcfpn dst dstfpn = copy_cells junk pagesz 0 srcfpn dstfpn (src, dst)
