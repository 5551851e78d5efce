-- ===== src/Memphy/Frames.antt =====
-- The list of free frames of a device.
use os_to_read.Base.{
  subst, sym, replicate, not, ◌==◌, if◌then◌else◌, length-replicate, ℕ, zero, suc, ◌+◌, ◌-◌, ◌/◌,
  ◌*◌, ◌^◌, ◌≤◌, ◌<◌, ◌≡◌, refl, ap, List, [], ◌∷◌, arith, length,
}
use os_to_read.Base.Int.{pos, pos_part, to_int}
use os_to_read.Memphy.{
  Memphy, Chain, null, node, Access, ok, err, fault, pagesz, frames, format, format_frames,
  get_freefp, take_frame, put_freefp, init_memphy,
}

-- A chain that ends in NULL, and the frames on it.
abbrev pub chain : List ℕ → Chain
chain [] = null
chain (f ∷ l) = node f (chain l)

-- The frames `k … k + n - 1`.
abbrev pub from : ℕ → ℕ → List ℕ
from k zero = []
from k (suc n) = k ∷ from (suc k) n

frames_null : (n k : ℕ) → frames n k null ≡ chain (from k n)
unfolding frames
frames_null zero k = refl
frames_null (suc n) k = ap (node k) (frames_null n (suc k))

-- A device with room for two frames or more gets all of them, from 0 up, in order.
pub format_lem :
    (mp : Memphy) (n : ℕ)
    → pos_part mp.maxsz / pagesz ≡ suc (suc n)
    → format mp pagesz ≡ (pos 0, record mp { free_fp_list = chain (from 0 (suc (suc n))) })
unfolding format format_frames frames
format_lem mp n e =
    rw e (ap (λ c. (pos 0, record mp { free_fp_list = node 0 (node 1 c) })) (frames_null n 2))

-- `n` calls of `MEMPHY_get_freefp`.
pub get_frames : ℕ → Memphy → Access (List ℕ × Memphy)
get_frames zero mp = ok ([], mp)
get_frames (suc n) mp = elim (get_freefp mp) [
  | ok (f, mp') ↦ elim (get_frames n mp') [
    | ok (l, mp'') ↦ ok (f ∷ l, mp'')
    | err ↦ err
    | fault ↦ fault
  ]
  | err ↦ err
  | fault ↦ fault
]

get_frames-chain :
    (l : List ℕ) (mp : Memphy)
    → get_frames (length l) (record mp { free_fp_list = chain l })
      ≡ ok (l, record mp { free_fp_list = null })
unfolding get_frames get_freefp
get_frames-chain [] mp = refl
get_frames-chain (f ∷ l) mp = rw (get_frames-chain l mp) refl

length-from : (n k : ℕ) → length (from k n) ≡ n
length-from zero k = refl
length-from (suc n) k = ap suc (length-from n (suc k))

-- The structure before `init_memphy`, after its writes but that of the free list.
started : Memphy → ℕ → ℕ → Memphy
started mp max_size randomflg = record mp {
  storage = replicate max_size 0;
  maxsz = to_int max_size;
  rdmflg = not (randomflg == 0);
  cursor = if randomflg == 0 then 0 else mp.cursor;
}

init_memphy-chain :
    (mp : Memphy) (max_size randomflg n : ℕ)
    → max_size < 2 ^ 31
    → max_size / pagesz ≡ suc (suc n)
    → init_memphy mp max_size randomflg
      ≡ record (started mp max_size randomflg) { free_fp_list = chain (from 0 (suc (suc n))) }
unfolding init_memphy started
init_memphy-chain mp max_size randomflg n small e =
    rw
      (format_lem (record mp { storage = replicate max_size 0; maxsz = to_int max_size }) n
        (ground arith))
      refl

storage_started :
    (mp : Memphy) (max_size randomflg : ℕ)
    → length (started mp max_size randomflg).storage ≡ max_size
unfolding started
storage_started mp max_size randomflg = length-replicate max_size 0

get_freefp_null : (mp : Memphy) → get_freefp (record mp { free_fp_list = null }) ≡ err
unfolding get_freefp
get_freefp_null mp = refl

-- All `n` frames of a device come out in order, then none, and each lies inside the storage.
abbrev pub Drains : Memphy → ℕ → Type 0
Drains mp n =
    (mp' : Memphy) × (get_frames n mp ≡ ok (from 0 n, mp'))
    × (get_freefp mp' ≡ err)
    × ((f : ℕ) → f < n → f * pagesz + pagesz ≤ length mp.storage)

started-Drains :
    (mp : Memphy) (max_size randomflg n : ℕ)
    → n * pagesz ≤ max_size
    → Drains (record (started mp max_size randomflg) { free_fp_list = chain (from 0 n) }) n
started-Drains mp max_size randomflg n room =
    let d = started mp max_size randomflg in
    (
      record d { free_fp_list = null },
      rw (length-from n 0) at (get_frames-chain (from 0 n) d),
      get_freefp_null d,
      λ f h. omega (arith, storage_started mp max_size randomflg),
    )

-- After `init_memphy` with a size from 512 up to what an `int` can hold, `MEMPHY_get_freefp` hands out
-- the frames 0, 1, 2, … in order, as many as fit into the storage, each with its 256 bytes inside it;
-- the call after the last one returns -1.
pub init_memphy-Drains :
    (mp : Memphy) (max_size randomflg : ℕ)
    → 2 * pagesz ≤ max_size
    → max_size < 2 ^ 31
    → Drains (init_memphy mp max_size randomflg) (max_size / pagesz)
init_memphy-Drains mp max_size randomflg two small =
    let k = max_size / pagesz - 2 in
    let e : max_size / pagesz ≡ suc (suc k) = omega arith in
    subst (Drains (init_memphy mp max_size randomflg)) (sym e) (
      rw (init_memphy-chain mp max_size randomflg k small e)
        (started-Drains mp max_size randomflg (suc (suc k)) (omega arith)))

-- A device with room for exactly one frame hands it out and leaves a wild pointer: `fp_next` of the
-- first node was never set, and the next call follows it.
pub single_frame_wild :
    (mp : Memphy) (max_size randomflg : ℕ)
    → pagesz ≤ max_size
    → max_size < 2 * pagesz
    → (mp' : Memphy) × (get_freefp (init_memphy mp max_size randomflg) ≡ ok (0, mp'))
      × (get_freefp mp' ≡ fault)
unfolding init_memphy format
single_frame_wild mp max_size randomflg one two =
    let e : pos_part (to_int max_size) / pagesz ≡ 1 = ground arith in
    rw e (unfold format_frames frames get_freefp in (_, refl, refl))

-- A frame that is given back is the next one handed out, and the list is as before.
pub get_freefp-put_freefp : (mp : Memphy) (fpn : ℕ) → get_freefp (put_freefp mp fpn) ≡ ok (fpn, mp)
unfolding get_freefp put_freefp
get_freefp-put_freefp mp fpn = refl

-- A frame that is put back comes out before the others.
pub get_frames-put_freefp :
    (n f : ℕ) (l : List ℕ) (mp mp' : Memphy)
    → get_frames n mp ≡ ok (l, mp')
    → get_frames (suc n) (put_freefp mp f) ≡ ok (f ∷ l, mp')
unfolding get_frames
get_frames-put_freefp n f l mp mp' e = rw (get_freefp-put_freefp mp f, get_frames, e) refl

pub get_frames_zero : (mp : Memphy) → get_frames 0 mp ≡ ok ([], mp)
unfolding get_frames
get_frames_zero mp = refl

pub get_freefp_node :
    (mp : Memphy) (f : ℕ) (rest : Chain)
    → mp.free_fp_list ≡ node f rest
    → get_freefp mp ≡ ok (f, record mp { free_fp_list = rest })
unfolding get_freefp
get_freefp_node mp f rest e = rw (e, take_frame) refl

pub get_freefp_end : (mp : Memphy) → mp.free_fp_list ≡ null → get_freefp mp ≡ err
unfolding get_freefp
get_freefp_end mp e = rw (e, take_frame) refl
