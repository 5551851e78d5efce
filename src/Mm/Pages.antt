-- ===== src/Mm/Pages.antt =====
-- The list of pages: `enlist_pgn_node` puts a page in front, `find_victim_page` takes the last one.
use os_to_read.Base.{ℕ, ◌≡◌, refl, ap, List, [], ◌∷◌, ◌++◌}
use os_to_read.Mm.{Mm, ok, err, fault, find_victim_page, take_victim, victim_from, enlist_pgn_node}

victim_from_lem : (l : List ℕ) (p x : ℕ) → victim_from p (l ++ (x ∷ [])) ≡ (p ∷ l, x)
unfolding victim_from
victim_from_lem [] p x = refl
victim_from_lem (q ∷ l) p x = ap (λ r. (p ∷ r.0, r.1)) (victim_from_lem l q x)

take_victim_lem :
    (mm : Mm) (page x : ℕ) (l : List ℕ)
    → take_victim mm (page ∷ (l ++ (x ∷ []))) ≡ ok (x, record mm { fifo_pgn = page ∷ l })
unfolding take_victim victim_from
take_victim_lem mm page x [] = refl
take_victim_lem mm page x (q ∷ l) =
    ap (λ r. ok (r.1, record mm { fifo_pgn = page ∷ r.0 })) (victim_from_lem l q x)

-- The page that was enlisted first, and so stands last, is the victim, and the others stay in order,
-- provided that another page was enlisted after it. With no page the search returns -1, and with a
-- single page it writes through a NULL pointer.
pub find_victim_page_lem :
    (mm : Mm) (page x : ℕ) (l : List ℕ)
    → (find_victim_page (record mm { fifo_pgn = enlist_pgn_node (l ++ (x ∷ [])) page })
        ≡ ok (x, record mm { fifo_pgn = enlist_pgn_node l page }))
      × (find_victim_page (record mm { fifo_pgn = [] }) ≡ err)
      × (find_victim_page (record mm { fifo_pgn = enlist_pgn_node [] page }) ≡ fault)
unfolding find_victim_page enlist_pgn_node take_victim
find_victim_page_lem mm page x l =
    (take_victim_lem (record mm { fifo_pgn = page ∷ (l ++ (x ∷ [])) }) page x l, refl, refl)

pub find_victim_page-last :
    (mm : Mm) (page x : ℕ) (l : List ℕ)
    → mm.fifo_pgn ≡ page ∷ (l ++ (x ∷ []))
    → find_victim_page mm ≡ ok (x, record mm { fifo_pgn = page ∷ l })
unfolding find_victim_page
find_victim_page-last mm page x l e = rw e (take_victim_lem mm page x l)

pub find_victim_page-empty : (mm : Mm) → mm.fifo_pgn ≡ [] → find_victim_page mm ≡ err
unfolding find_victim_page take_victim
find_victim_page-empty mm e = rw e refl

pub find_victim_page_single :
    (mm : Mm) (page : ℕ) → mm.fifo_pgn ≡ page ∷ [] → find_victim_page mm ≡ fault
unfolding find_victim_page take_victim
find_victim_page_single mm page e = rw e refl
