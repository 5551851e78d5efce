-- ===== src/Libmem/Wear.antt =====
-- Accesses in a row: how the frames of the swap and the pages of a process are used up.
use os_to_read.Base.{
  ℕ, suc, ◌≤◌, ◌≡◌, refl, ap, Option, none, some, List, [], ◌∷◌, ◌++◌, length, replicate, arith,
}
use os_to_read.Mm.{enlist_pgn_node}
use os_to_read.Mm.Pages.{find_victim_page-last, find_victim_page_single}
use os_to_read.Memphy.Frames.{chain, get_freefp_node, get_freefp_end}
use os_to_read.Libmem.{Access, ok, err, fault, Caller, get_page}
use os_to_read.Libmem.Pages.{absent, frame_zero}

-- The accesses to the pages of a list, in order, with what each of them answers.
pub get_all : List ℕ → Caller → Access (List (Option ℕ) × Caller)
get_all [] c = ok ([], c)
get_all (pgn ∷ l) c = elim (get_page c pgn) [
  | ok (frame, c') ↦ elim (get_all l c') [
    | ok (frames, c'') ↦ ok (frame ∷ frames, c'')
    | err ↦ err
    | fault ↦ fault
  ]
  | err ↦ err
  | fault ↦ fault
]

get_all_step :
    (pgn : ℕ) (l : List ℕ) (c c' c'' : Caller) (frame : Option ℕ) (frames : List (Option ℕ))
    → get_page c pgn ≡ ok (frame, c')
    → get_all l c' ≡ ok (frames, c'')
    → get_all (pgn ∷ l) c ≡ ok (frame ∷ frames, c'')
unfolding get_all
get_all_step pgn l c c' c'' frame frames e e' = rw (e, get_all, e') refl

-- A list that is not empty has a last element.
split_last :
    (x : ℕ) (l : List ℕ)
    → (front : List ℕ) × (last : ℕ) × (x ∷ l ≡ front ++ (last ∷ [])) × (length front ≡ length l)
split_last x [] = ([], x, refl, refl)
split_last x (y ∷ l) =
    let (front, last, e, n) = split_last y l in (x ∷ front, last, ap (λ t. x ∷ t) e, ap suc n)

-- The pages of a process with two or more.
two_pages :
    (l : List ℕ) (n : ℕ)
    → length l ≡ suc (suc n)
    → (page : ℕ) × (front : List ℕ) × (last : ℕ) × (l ≡ page ∷ (front ++ (last ∷ [])))
      × (length front ≡ n)
two_pages [] n e = absurd (omega (arith, e))
two_pages (x ∷ []) n e = absurd (omega (arith, e))
two_pages (x ∷ y ∷ l) n e =
    let (front, last, same, len) = split_last y l in
    (x, front, last, ap (λ t. x ∷ t) same, omega (arith, len, e))

-- The swap has the frames `frames`, and the process `n` pages.
abbrev pub Has : Caller → List ℕ → ℕ → Type 0
Has c frames n = (c.active_mswp.free_fp_list ≡ chain frames) × (length c.mm.fifo_pgn ≡ n)

get_page-Has :
    (c : Caller) (pgn f n : ℕ) (frames : List ℕ)
    → Has c (f ∷ frames) (suc (suc n))
    → (c' : Caller) × (get_page c pgn ≡ ok (some 0, c')) × Has c' frames (suc (suc n))
unfolding get_page enlist_pgn_node
get_page-Has c pgn f n frames h =
    let (page, front, last, e, len) = two_pages c.mm.fifo_pgn n h.1 in
    let victim = find_victim_page-last c.mm page last front e in
    let taken = get_freefp_node c.active_mswp f (chain frames) h.0 in
    let after : Caller = record c {
      mm = record (c.mm) { fifo_pgn = pgn ∷ page ∷ front };
      active_mswp = record (c.active_mswp) { free_fp_list = chain frames };
    } in
    (after, rw (absent pgn, victim, taken, frame_zero pgn) refl, (refl, omega (arith, len)))

get_page-Has_empty :
    (c : Caller) (pgn n : ℕ)
    → Has c [] (suc (suc n))
    → (c' : Caller) × (get_page c pgn ≡ ok (none, c')) × Has c' [] (suc n)
unfolding get_page
get_page-Has_empty c pgn n h =
    let (page, front, last, e, len) = two_pages c.mm.fifo_pgn n h.1 in
    let victim = find_victim_page-last c.mm page last front e in
    let full = get_freefp_end c.active_mswp h.0 in
    let after : Caller = record c { mm = record (c.mm) { fifo_pgn = page ∷ front } } in
    (after, rw (absent pgn, victim, full) refl, (h.0, omega (arith, len)))

get_page_last : (c : Caller) (pgn : ℕ) → length c.mm.fifo_pgn ≡ 1 → get_page c pgn ≡ fault
unfolding get_page
get_page_last c pgn h = last_page c.mm.fifo_pgn refl h
  where
    last_page : (l : List ℕ) → c.mm.fifo_pgn ≡ l → length l ≡ 1 → get_page c pgn ≡ fault
    last_page [] e n = absurd (omega (arith, n))
    last_page (x ∷ []) e n = rw (absent pgn, find_victim_page_single c.mm x e) refl
    last_page (x ∷ y ∷ l) e n = absurd (omega (arith, n))

-- As long as the swap has frames.
get_all-frames :
    (c : Caller) (l frames : List ℕ) (n : ℕ)
    → length l ≡ length frames
    → Has c frames (suc (suc n))
    → (c' : Caller) × (get_all l c ≡ ok (replicate (length l) (some 0), c'))
      × Has c' [] (suc (suc n))
unfolding get_all
get_all-frames c [] [] n e h = (c, refl, h)
get_all-frames c (pgn ∷ l) [] n e h = absurd (omega (arith, e))
get_all-frames c [] (f ∷ frames) n e h = absurd (omega (arith, e))
get_all-frames c (pgn ∷ l) (f ∷ frames) n e h =
    let (c1, got, h1) = get_page-Has c pgn f n frames h in
    let (c2, rest, h2) = get_all-frames c1 l frames n (omega (arith, e)) h1 in
    (c2, get_all_step pgn l c c1 c2 (some 0) (replicate (length l) (some 0)) got rest, h2)

-- When it has none left, one page after the other.
get_all-pages :
    (c : Caller) (l : List ℕ)
    → Has c [] (suc (length l))
    → (c' : Caller) × (get_all l c ≡ ok (replicate (length l) none, c')) × Has c' [] 1
unfolding get_all
get_all-pages c [] h = (c, refl, h)
get_all-pages c (pgn ∷ l) h =
    let (c1, got, h1) = get_page-Has_empty c pgn (length l) h in
    let (c2, rest, h2) = get_all-pages c1 l h1 in
    (c2, get_all_step pgn l c c1 c2 none (replicate (length l) none) got rest, h2)

-- A process with two pages or more and a swap with `k` free frames: the next `k` accesses, to whatever
-- pages, succeed, all with frame 0; each access after them fails and loses a page, until one is left; and
-- the access after that writes through NULL. No frame ever comes back to the swap.
pub swap_wears_out :
    (c : Caller) (l l' frames : List ℕ) (pgn : ℕ)
    → c.active_mswp.free_fp_list ≡ chain frames
    → length c.mm.fifo_pgn ≡ suc (length l')
    → 1 ≤ length l'
    → length l ≡ length frames
    → (c' : Caller) × (c'' : Caller) × (get_all l c ≡ ok (replicate (length l) (some 0), c'))
      × (get_all l' c' ≡ ok (replicate (length l') none, c''))
      × (get_page c'' pgn ≡ fault)
swap_wears_out c l [] frames pgn free pages two e = absurd (omega (arith, two))
swap_wears_out c l (pgn' ∷ l') frames pgn free pages two e =
    let (c', served, h') = get_all-frames c l frames (length l') e (free, pages) in
    let (c'', failed, h'') = get_all-pages c' (pgn' ∷ l') h' in
    (c', c'', served, failed, get_page_last c'' pgn h''.1)
