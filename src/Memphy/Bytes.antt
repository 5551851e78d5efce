-- ===== src/Memphy/Bytes.antt =====
-- Reading and writing the bytes of a device.
use native.Mathlib.Nat.{mod-eq_of_lt, mod_self}
use os_to_read.Base.{
  ℕ, zero, suc, ◌+◌, ◌%◌, ◌<◌, ◌≡◌, refl, ap, ◌∙◌, true, false, some, List, arith, length,
  get_elem?, get_elem?-set_self, get_elem?-set_ne, set, if◌then◌else◌, ltb, ◌==◌, lt→ltb,
  Bool-cases, inl, inr,
}
use os_to_read.Base.Int.{pos_part}
use os_to_read.Memphy.{
  Memphy, ok, err, read, write, load, store, seq_read, seq_write, mv_csr, csr_steps,
}

-- A write inside a random access device.
pub write_random :
    (mp : Memphy) (addr v : ℕ)
    → mp.rdmflg ≡ true
    → addr < length mp.storage
    → write mp addr v ≡ ok (record mp { storage = set mp.storage addr v })
unfolding write store
write_random mp addr v random h = rw (random, lt→ltb addr (length mp.storage) h) refl

pub read_random :
    (mp : Memphy) (addr v : ℕ)
    → mp.rdmflg ≡ true
    → get_elem? mp.storage addr ≡ some v
    → read mp addr ≡ ok (v, mp)
unfolding read load
read_random mp addr v random h = ground arith

pub get_elem?-set :
    (xs : List ℕ) (i j v : ℕ)
    → i < length xs
    → get_elem? (set xs i v) j ≡ (if i == j then some v else get_elem? xs j)
get_elem?-set xs i j v h = elim (Bool-cases (i == j)) [
  | inl e ↦ let same : i ≡ j = ground arith in rw (e, ← same) (get_elem?-set_self xs i v h)
  | inr e ↦ rw e (get_elem?-set_ne xs v (ground arith))
]

-- On a random access device a read after a write in range gives the byte written at that address, and
-- what was there before at every other address that has a byte.
pub read-write :
    (mp : Memphy) (addr v a w : ℕ)
    → mp.rdmflg ≡ true
    → addr < length mp.storage
    → get_elem? mp.storage a ≡ some w
    → (mp' : Memphy) × (write mp addr v ≡ ok mp')
      × (read mp' a ≡ ok ((if addr == a then v else w), mp'))
read-write mp addr v a w random h at_a =
    let mp' = record mp { storage = set mp.storage addr v } in
    (
      mp',
      write_random mp addr v random h,
      read_random mp' a (if addr == a then v else w) random
          (get_elem?-set mp.storage addr a v h ∙ ground arith),
    )

-- A device that is not random access fails every read and every write: `MEMPHY_read` and
-- `MEMPHY_write` pass it on to the sequential routines, and those refuse a device without `rdmflg`.
pub sequential_fails :
    (mp : Memphy) (addr v : ℕ) → mp.rdmflg ≡ false → (read mp addr ≡ err) × (write mp addr v ≡ err)
unfolding read write seq_read seq_write
sequential_fails mp addr v e = rw e (refl, refl)

-- The cursor never leaves the device, and counts the steps it was asked for, going round once past
-- the last byte.
csr_steps_lem :
    (n k offset maxsz : ℕ)
    → k + n ≡ maxsz
    → 0 < n
    → csr_steps n k offset maxsz k
      ≡ (if ltb offset maxsz then (if ltb k offset then offset else k) else 0)
unfolding csr_steps
csr_steps_lem zero k offset maxsz e h = absurd (omega arith)
csr_steps_lem (suc zero) k offset maxsz e h =
    let edge : k + 1 ≡ maxsz = omega arith in
    let wrapped : (k + 1) % maxsz ≡ 0 = ap (λ t. t % maxsz) edge ∙ mod_self maxsz in
    ground (arith, wrapped)
csr_steps_lem (suc (suc n)) k offset maxsz e h =
    let next : (k + 1) % maxsz ≡ k + 1 = mod-eq_of_lt (omega arith) in
    rw next (ground (arith, csr_steps_lem (suc n) (k + 1) offset maxsz (omega arith) (omega arith)))

-- `MEMPHY_mv_csr` leaves the cursor at the offset it is given, if that lies on the device, and at 0
-- otherwise; it changes nothing else.
pub mv_csr_lem :
    (mp : Memphy) (offset : ℕ)
    → 0 < pos_part mp.maxsz
    → mv_csr mp offset ≡ record mp { cursor = if ltb offset (pos_part mp.maxsz) then offset else 0 }
unfolding mv_csr
mv_csr_lem mp offset h =
    ap (λ c. record mp { cursor = c })
      (csr_steps_lem (pos_part mp.maxsz) 0 offset (pos_part mp.maxsz) (omega arith) h
        ∙ ground arith)
