-- ===== src/Libmem/Pages.antt =====
-- `pg_getpage`: what reading and writing a region does to the page list and the swap.
use os_to_read.Base.{ℕ, ◌≡◌, refl, false, Option, none, some, List, [], ◌∷◌, ◌++◌, inl, inr, ◌⊎◌}
use os_to_read.Mm.{Mm, find_victim_page, enlist_pgn_node}
use os_to_read.Mm.Pages.{find_victim_page-last, find_victim_page-empty}
use os_to_read.Memphy.{Memphy, get_freefp}
use os_to_read.Paging.{page_present, paging_fpn, pte_get_entry}
use os_to_read.Libmem.{Access, ok, err, fault, Caller, get_page, touch}

pub absent : (pgn : ℕ) → page_present (pte_get_entry pgn) ≡ false
unfolding page_present pte_get_entry
absent pgn = refl

pub frame_zero : (pgn : ℕ) → paging_fpn (pte_get_entry pgn) ≡ 0
unfolding paging_fpn pte_get_entry
frame_zero pgn = refl

Access-cases : {A : Type 0} (r : Access A) → ((x : A) × (r ≡ ok x)) ⊎ ((r ≡ err) ⊎ (r ≡ fault))
Access-cases (ok x) = inl (x, refl)
Access-cases err = inr (inl refl)
Access-cases fault = inr (inr refl)

-- The memory after the page at the end of the list is gone.
abbrev pub evicted : Caller → ℕ → List ℕ → Mm
evicted c page l = record c.mm { fifo_pgn = page ∷ l }

-- The three ways in which an access to the page `pgn` ends, by what the swap has to offer.
abbrev pub Accessed : Caller → ℕ → ℕ → List ℕ → Access (Option ℕ × Caller) → Type 0
Accessed c pgn page l r =
    ((frame : ℕ × Memphy) × (get_freefp c.active_mswp ≡ ok frame)
      × (r
          ≡ ok (
            some 0,
            record { mm = record c.mm { fifo_pgn = pgn ∷ page ∷ l }; active_mswp = frame.1 },
          )))
    ⊎ ((get_freefp c.active_mswp ≡ err) × (r ≡ ok (none, record c { mm = evicted c page l })))
    ⊎ ((get_freefp c.active_mswp ≡ fault) × (r ≡ fault))

get_page-victim :
    (c : Caller) (pgn page x : ℕ) (l : List ℕ)
    → c.mm.fifo_pgn ≡ page ∷ (l ++ (x ∷ []))
    → find_victim_page c.mm ≡ ok (x, evicted c page l)
    → Accessed c pgn page l (get_page c pgn)
unfolding get_page enlist_pgn_node
get_page-victim c pgn page x l e victim = elim (Access-cases (get_freefp c.active_mswp)) [
  | inl (frame, taken) ↦ inl (frame, taken, rw (absent pgn, victim, taken, frame_zero pgn) refl)
  | inr (inl full) ↦ inr (inl (full, rw (absent pgn, victim, full) refl))
  | inr (inr wild) ↦ inr (inr (wild, rw (absent pgn, victim, wild) refl))
]

-- With at least two pages on the list, an access to the page `pgn` drops the page that was enlisted
-- first. If the swap has a free frame, the access takes it, puts `pgn` in front of the list and answers
-- frame 0; if it has none, the access fails and that page is gone all the same.
pub get_page-Accessed :
    (c : Caller) (pgn page x : ℕ) (l : List ℕ)
    → c.mm.fifo_pgn ≡ page ∷ (l ++ (x ∷ []))
    → Accessed c pgn page l (get_page c pgn)
get_page-Accessed c pgn page x l e =
    get_page-victim c pgn page x l e (find_victim_page-last c.mm page x l e)

-- A process without pages cannot get one: the access returns -1 and changes nothing.
pub get_page_empty : (c : Caller) (pgn : ℕ) → c.mm.fifo_pgn ≡ [] → get_page c pgn ≡ ok (none, c)
unfolding get_page
get_page_empty c pgn e = rw (absent pgn, find_victim_page-empty c.mm e) refl

pub touch_empty : (c : Caller) (addr : ℕ) → c.mm.fifo_pgn ≡ [] → touch c addr ≡ ok (none, c)
unfolding touch
touch_empty c addr e = get_page_empty c _ e
