-- ===== src/Mem/Dump.antt =====
-- `dump` of src/mem.c: what it prints, one value for each call of `printf`.
use os_to_read.Base.{
  ℕ, zero, suc, ◌+◌, ◌-◌, ◌*◌, ◌%◌, ◌≤◌, ◌<◌, ◌≡◌, ◌≢◌, refl, none, some, List, [], ◌∷◌, ◌++◌,
  if◌then◌else◌, ◌==◌, get_elem?, replicate, inl, inr, Bool-cases, arith,
}
use os_to_read.Base.Access.{Access, ok, fault, ◌>>=◌, Holds, Holds-bind, Holds-self}
use os_to_read.Mem.{Mem, init_mem, PageStat, page_size, num_pages}

-- The two lines of a page, its number and its data, and the line of a byte.
pub data Dumped : Type 0 where
  page_line : (i : ℕ) → Dumped
  range_line : (first last proc index next : ℕ) → Dumped
  byte_line : (j value : ℕ) → Dumped

-- An entry of a static array.
pub static_entry : {A : Type 0} → List A → ℕ → Access A
static_entry l i = elim (get_elem? l i) [ none ↦ fault | some a ↦ ok a ]

-- The inner loop, with `n` bytes left from `j` on.
pub dump_bytes : List ℕ → ℕ → ℕ → Access (List Dumped)
unfolding static_entry
dump_bytes ram zero j = ok []
dump_bytes ram (suc n) j = do
  b ← static_entry ram j
  rest ← dump_bytes ram n (suc j)
  ok (if b == 0 then rest else byte_line j b ∷ rest)

-- One page; its inner loop ends at the last byte of the page, without it.
pub dump_page : List ℕ → ℕ → PageStat → Access (List Dumped)
unfolding dump_bytes
dump_page ram i stat = if stat.proc == 0 then ok [] else (do
  bytes ← dump_bytes ram (page_size - 1) (i * page_size)
  ok (
      page_line i
      ∷ range_line (i * page_size) ((i + 1) * page_size - 1) stat.proc stat.index stat.next
      ∷ bytes))

-- The outer loop, with `n` pages left from `i` on.
pub dump_pages : Mem → ℕ → ℕ → Access (List Dumped)
unfolding dump_page static_entry
dump_pages m zero i = ok []
dump_pages m (suc n) i = do
  stat ← static_entry m.mem_stat i
  lines ← dump_page m.ram i stat
  rest ← dump_pages m n (suc i)
  ok (lines ++ rest)

pub dump : Mem → Access (List Dumped)
unfolding dump_pages
dump m = dump_pages m num_pages 0

-- Every byte that is shown is at an address with the property.
abbrev pub BytesAt : (ℕ → Type 0) → List Dumped → Type 0
BytesAt P [] = Unit {0}
BytesAt P (page_line i ∷ out) = BytesAt P out
BytesAt P (range_line a b p i n ∷ out) = BytesAt P out
BytesAt P (byte_line j b ∷ out) = P j × BytesAt P out

BytesAt-append :
    (P : ℕ → Type 0) (out more : List Dumped)
    → BytesAt P out
    → BytesAt P more
    → BytesAt P (out ++ more)
BytesAt-append P [] more h k = k
BytesAt-append P (page_line i ∷ out) more h k = BytesAt-append P out more h k
BytesAt-append P (range_line a b p i n ∷ out) more h k = BytesAt-append P out more h k
BytesAt-append P (byte_line j b ∷ out) more h k = (h.0, BytesAt-append P out more h.1 k)

-- The address is not the last of its page.
abbrev IsShown : ℕ → Type 0
IsShown j = j % page_size ≢ page_size - 1

dump_bytes-BytesAt :
    (ram : List ℕ) (i n j : ℕ)
    → i * page_size ≤ j
    → j + n ≡ i * page_size + (page_size - 1)
    → Holds (BytesAt IsShown) (dump_bytes ram n j)
unfolding dump_bytes
dump_bytes-BytesAt ram i zero j h e = tt
dump_bytes-BytesAt ram i (suc n) j h e =
    Holds-bind (λ b. static_entry ram j ≡ ok b) (BytesAt IsShown) (static_entry ram j) _
      (Holds-self (static_entry ram j))
      (λ b q.
        Holds-bind (BytesAt IsShown) (BytesAt IsShown) (dump_bytes ram n (suc j)) _
          (dump_bytes-BytesAt ram i n (suc j) (omega (arith, h)) (omega (arith, e)))
          (λ rest k. elim (Bool-cases (b == 0)) [
            | inl null ↦ rw null k
            | inr shown ↦ rw shown ((λ last. omega (arith, h, e, last)), k)
          ]))

dump_page-BytesAt :
    (ram : List ℕ) (i : ℕ) (stat : PageStat) → Holds (BytesAt IsShown) (dump_page ram i stat)
unfolding dump_page
dump_page-BytesAt ram i stat = elim (Bool-cases (stat.proc == 0)) [
  | inl unused ↦ rw unused tt
  | inr used ↦ rw used (
      Holds-bind (BytesAt IsShown) (BytesAt IsShown)
        (dump_bytes ram (page_size - 1) (i * page_size)) _
        (dump_bytes-BytesAt ram i (page_size - 1) (i * page_size) (omega arith) refl)
        (λ bytes k. k))
]

dump_pages-BytesAt : (m : Mem) (n i : ℕ) → Holds (BytesAt IsShown) (dump_pages m n i)
unfolding dump_pages
dump_pages-BytesAt m zero i = tt
dump_pages-BytesAt m (suc n) i =
    Holds-bind (λ s. static_entry m.mem_stat i ≡ ok s) (BytesAt IsShown) (static_entry m.mem_stat i)
      _ (Holds-self (static_entry m.mem_stat i))
      (λ s q.
        Holds-bind (BytesAt IsShown) (BytesAt IsShown) (dump_page m.ram i s) _
          (dump_page-BytesAt m.ram i s)
          (λ lines k.
            Holds-bind (BytesAt IsShown) (BytesAt IsShown) (dump_pages m n (suc i)) _
              (dump_pages-BytesAt m n (suc i)) (λ rest k'. BytesAt-append IsShown lines rest k k')))

-- `dump` never shows the last byte of a page.
pub dump-BytesAt : (m : Mem) → Holds (BytesAt IsShown) (dump m)
unfolding dump
dump-BytesAt m = dump_pages-BytesAt m num_pages 0

static_entry-replicate :
    {A : Type 0} (n i : ℕ) (a : A) → i < n → static_entry (replicate n a) i ≡ ok a
unfolding static_entry
static_entry-replicate zero i a h = absurd (omega (arith, h))
static_entry-replicate (suc n) zero a h = refl
static_entry-replicate (suc n) (suc i) a h = static_entry-replicate n i a (omega (arith, h))

abbrev zero_stat : PageStat
zero_stat = record { proc = 0; index = 0; next = 0 }

dump_pages-free :
    (m : Mem) (n i : ℕ)
    → ((j : ℕ) → j < i + n → static_entry m.mem_stat j ≡ ok zero_stat)
    → dump_pages m n i ≡ ok []
unfolding dump_pages dump_page
dump_pages-free m zero i h = refl
dump_pages-free m (suc n) i h =
    rw (h i (omega arith), dump_pages-free m n (suc i) (λ j k. h j (omega (arith, k)))) refl

-- A memory in which no page is taken shows nothing.
pub dump-init_mem : dump init_mem ≡ ok []
unfolding dump init_mem
dump-init_mem =
    dump_pages-free init_mem num_pages 0
      (λ j h. static_entry-replicate num_pages j zero_stat (omega (arith, h)))
