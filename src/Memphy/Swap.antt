-- ===== src/Memphy/Swap.antt =====
-- `__swap_cp_page` of src/mm64.c.
use os_to_read.Base.{
  ℕ, zero, suc, ◌+◌, ◌*◌, ◌^◌, ◌≤◌, ◌<◌, ◌≡◌, ◌≢◌, refl, sym, ◌∙◌, true, some, List, [], ◌∷◌, arith,
  dec_lt, length, get_elem?, get_elem?-set_ne, get_elem?-set_self, length-set, set,
}
use os_to_read.Memphy.{Memphy, ok, read, write, pagesz, cell, copy_cell, copy_cells, swap_cp_page}
use os_to_read.Memphy.Bytes.{write_random, read_random}

has_elem : (xs : List ℕ) (i : ℕ) → i < length xs → (v : ℕ) × (get_elem? xs i ≡ some v)
has_elem [] i h = absurd (omega arith)
has_elem (x ∷ xs) zero h = (x, refl)
has_elem (x ∷ xs) (suc i) h = has_elem xs i (omega arith)

-- The destination after the cells `k … k + n - 1` of a frame were copied: `rest` is all of it but the
-- storage.
pub record Copied (src dst : Memphy) (srcfpn dstfpn k n : ℕ) (dst' : Memphy) : Type 0 where
  pub size : length dst'.storage ≡ length dst.storage
  pub rest : dst' ≡ record dst { storage = dst'.storage }
  pub inside :
      (j : ℕ)
      → k ≤ j
      → j < k + n
      → get_elem? dst'.storage (dstfpn * pagesz + j) ≡ get_elem? src.storage (srcfpn * pagesz + j)
  pub outside :
      (a : ℕ)
      → ((j : ℕ) → k ≤ j → j < k + n → a ≢ dstfpn * pagesz + j)
      → get_elem? dst'.storage a ≡ get_elem? dst.storage a

-- Both devices are random access, the frames lie inside them, and their sizes are `addr_t` values.
pub record CanCopy (src dst : Memphy) (srcfpn dstfpn : ℕ) : Type 0 where
  pub src_random : src.rdmflg ≡ true
  pub dst_random : dst.rdmflg ≡ true
  pub src_room : srcfpn * pagesz + pagesz ≤ length src.storage
  pub dst_room : dstfpn * pagesz + pagesz ≤ length dst.storage
  pub src_size : length src.storage < 2 ^ 64
  pub dst_size : length dst.storage < 2 ^ 64

copy_cell_ok :
    (junk a b v : ℕ) (src dst : Memphy) {src' dst' : Memphy}
    → read src a ≡ ok (v, src')
    → write dst b v ≡ ok dst'
    → copy_cell junk src a dst b ≡ ok (src', dst')
unfolding copy_cell
copy_cell_ok junk a b v src dst r w = ground arith

copy_cell_lem :
    {src dst : Memphy} {srcfpn dstfpn : ℕ} (junk k v : ℕ)
    → CanCopy src dst srcfpn dstfpn
    → k < pagesz
    → get_elem? src.storage (srcfpn * pagesz + k) ≡ some v
    → copy_cell junk src (cell srcfpn k) dst (cell dstfpn k)
      ≡ ok (src, record dst { storage = set dst.storage (dstfpn * pagesz + k) v })
copy_cell_lem {src} {dst} {srcfpn} {dstfpn} junk k v c h e =
    let at_src : cell srcfpn k ≡ srcfpn * pagesz + k = omega (arith, c.src_room, c.src_size) in
    let at_dst : cell dstfpn k ≡ dstfpn * pagesz + k = omega (arith, c.dst_room, c.dst_size) in
    rw (at_src, at_dst)
      (copy_cell_ok junk (srcfpn * pagesz + k) (dstfpn * pagesz + k) v src dst
        (read_random src (srcfpn * pagesz + k) v c.src_random e)
        (write_random dst (dstfpn * pagesz + k) v c.dst_random (omega (arith, c.dst_room))))

CanCopy-set :
    {src dst : Memphy} {srcfpn dstfpn : ℕ} (i v : ℕ)
    → CanCopy src dst srcfpn dstfpn
    → CanCopy src (record dst { storage = set dst.storage i v }) srcfpn dstfpn
CanCopy-set {dst = dst} i v c = record {
  src_random = c.src_random;
  dst_random = c.dst_random;
  src_room = c.src_room;
  dst_room = omega (arith, c.dst_room, length-set dst.storage i v);
  src_size = c.src_size;
  dst_size = omega (arith, c.dst_size, length-set dst.storage i v);
}

Copied-zero : (src dst : Memphy) (srcfpn dstfpn k : ℕ) → Copied src dst srcfpn dstfpn k 0 dst
Copied-zero src dst srcfpn dstfpn k = record {
  size = refl;
  rest = refl;
  inside = λ j lo hi. absurd (omega arith);
  outside = λ a h. refl;
}

Copied-suc :
    {src dst dst' : Memphy} {srcfpn dstfpn : ℕ} (k n v : ℕ)
    → CanCopy src dst srcfpn dstfpn
    → k < pagesz
    → get_elem? src.storage (srcfpn * pagesz + k) ≡ some v
    → Copied src
        (record dst { storage = set dst.storage (dstfpn * pagesz + k) v })
        srcfpn
        dstfpn
        (suc k)
        n
        dst'
    → Copied src dst srcfpn dstfpn k (suc n) dst'
Copied-suc {src} {dst} {dst'} {srcfpn} {dstfpn} k n v c h e r = record {
  size = r.size ∙ length-set dst.storage (dstfpn * pagesz + k) v;
  rest = r.rest;
  inside = λ j lo hi. elim (dec_lt k j) [
    | yes later ↦ r.inside j later (omega arith)
    | no first ↦
        let same : k ≡ j = omega arith in
        rw (← same) (
          r.outside (dstfpn * pagesz + k) (λ i lo' hi'. omega arith)
          ∙ get_elem?-set_self dst.storage (dstfpn * pagesz + k) v (omega (arith, c.dst_room))
          ∙ sym e)
  ];
  outside = λ a away.
      r.outside a (λ j lo hi. away j (omega arith) (omega arith))
      ∙ get_elem?-set_ne dst.storage v (λ q. away k (omega arith) (omega arith) (sym q));
}

copy_cells_ok :
    (junk n k srcfpn dstfpn : ℕ) (src dst : Memphy) {both : Memphy × Memphy}
    → copy_cell junk src (cell srcfpn k) dst (cell dstfpn k) ≡ ok both
    → copy_cells junk (suc n) k srcfpn dstfpn (src, dst)
      ≡ copy_cells junk n (suc k) srcfpn dstfpn both
unfolding copy_cells
copy_cells_ok junk n k srcfpn dstfpn src dst e = rw (e, copy_cells) refl

copy_cells_lem :
    {src : Memphy} {srcfpn dstfpn : ℕ} (junk n k : ℕ) (dst : Memphy)
    → CanCopy src dst srcfpn dstfpn
    → k + n ≤ pagesz
    → (dst' : Memphy) × (copy_cells junk n k srcfpn dstfpn (src, dst) ≡ ok (src, dst'))
      × Copied src dst srcfpn dstfpn k n dst'
unfolding copy_cells
copy_cells_lem {src} {srcfpn} {dstfpn} junk zero k dst c h =
    (dst, refl, Copied-zero src dst srcfpn dstfpn k)
copy_cells_lem {src} {srcfpn} {dstfpn} junk (suc n) k dst c h =
    let (v, e) = has_elem src.storage (srcfpn * pagesz + k) (omega (arith, c.src_room)) in
    let next : Memphy = record dst { storage = set dst.storage (dstfpn * pagesz + k) v } in
    let (dst', done, copied) =
      copy_cells_lem junk n (suc k) next (CanCopy-set (dstfpn * pagesz + k) v c) (omega arith) in
    (
      dst',
      copy_cells_ok junk n k srcfpn dstfpn src dst (copy_cell_lem junk k v c (omega arith) e)
          ∙ done,
      Copied-suc k n v c (omega arith) e copied,
    )

-- If both devices are random access, both frames lie inside them and their sizes are below 2 ^ 64,
-- `__swap_cp_page` copies all 256 bytes of the source frame into the destination frame, and leaves every
-- other byte of the destination, its other fields with the list of free frames, and the whole source as
-- they were.
pub swap_cp_page_lem :
    {src dst : Memphy} {srcfpn dstfpn : ℕ} (junk : ℕ)
    → CanCopy src dst srcfpn dstfpn
    → (dst' : Memphy) × (swap_cp_page junk src srcfpn dst dstfpn ≡ ok (src, dst'))
      × Copied src dst srcfpn dstfpn 0 pagesz dst'
unfolding swap_cp_page
swap_cp_page_lem {dst = dst} junk c = copy_cells_lem junk pagesz 0 dst c (omega arith)
