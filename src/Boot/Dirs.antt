-- ===== src/Boot/Dirs.antt =====
-- The page directories of the kernel, which `ld_routine` of src/os.c allocates and fills before its loop.
-- Nothing reads them.
use os_to_read.Base.{
  ℕ, zero, suc, ◌+◌, ◌≤◌, ◌<◌, ◌≡◌, refl, ap, subst, some, List, ◌∙◌, get_elem?, set, length,
  length-set, ◌-◌, ◌^◌, ◌/◌, get_elem?-set_self, get_elem?-set_ne, arith, ℕ_discrete,
}

-- `krnl_pgd` to `krnl_pt` of `os`.
pub record Dirs : Type 0 where
  pub krnl_pgd : List ℕ
  pub krnl_p4d : List ℕ
  pub krnl_pud : List ℕ
  pub krnl_pmd : List ℕ
  pub krnl_pt : List ℕ

-- `PAGING64_MAX_PGN`
abbrev pub paging64_max_pgn : ℕ
paging64_max_pgn = (2 ^ 21 + 4096 - 1) / 4096

-- The addresses of the four fields that the entries are set to.
pub record Fields : Type 0 where
  pub p4d : ℕ
  pub pud : ℕ
  pub pmd : ℕ
  pub pt : ℕ

pub fill_at : Fields → ℕ → Dirs → Dirs
fill_at at i d = record {
  krnl_pgd = set d.krnl_pgd i at.p4d;
  krnl_p4d = set d.krnl_p4d i at.pud;
  krnl_pud = set d.krnl_pud i at.pmd;
  krnl_pmd = set d.krnl_pmd i at.pt;
  krnl_pt = set d.krnl_pt i 0;
}

-- The loop, with `n` rounds left, from `i` on.
pub fill_from : Fields → ℕ → ℕ → Dirs → Dirs
unfolding fill_at
fill_from at zero i d = d
fill_from at (suc n) i d = fill_from at n (suc i) (fill_at at i d)

-- The five arrays that `malloc` gives, filled.
pub fill_dirs : Fields → Dirs → Dirs
unfolding fill_from
fill_dirs at d = fill_from at paging64_max_pgn 0 d

-- The loop on one of the arrays.
fill_list : ℕ → ℕ → ℕ → List ℕ → List ℕ
fill_list x zero i l = l
fill_list x (suc n) i l = fill_list x n (suc i) (set l i x)

fill_list-length : (x n i : ℕ) (l : List ℕ) → length (fill_list x n i l) ≡ length l
unfolding fill_list
fill_list-length x zero i l = refl
fill_list-length x (suc n) i l = fill_list-length x n (suc i) (set l i x) ∙ length-set l i x

fill_list-before :
    (x n i j : ℕ) (l : List ℕ) → j < i → get_elem? (fill_list x n i l) j ≡ get_elem? l j
unfolding fill_list
fill_list-before x zero i j l h = refl
fill_list-before x (suc n) i j l h =
    fill_list-before x n (suc i) j (set l i x) (omega (arith, h))
    ∙ get_elem?-set_ne l x (λ e. omega (arith, h, e))

fill_list-filled :
    (x n i j : ℕ) (l : List ℕ)
    → i + n ≤ length l
    → i ≤ j
    → j < i + n
    → get_elem? (fill_list x n i l) j ≡ some x
unfolding fill_list
fill_list-filled x zero i j l h ge lt = absurd (omega (arith, ge, lt))
fill_list-filled x (suc n) i j l h ge lt = elim (ℕ_discrete i j) [
  | yes now ↦
      let kept = fill_list-before x n (suc i) j (set l i x) (omega (arith, now)) in
      let self = get_elem?-set_self l i x (omega (arith, h)) in
      kept ∙ subst (λ k. get_elem? (set l i x) k ≡ some x) now self
  | no later ↦
      fill_list-filled x n (suc i) j (set l i x) (omega (arith, h, length-set l i x))
        (omega (arith, ge, later)) (omega (arith, lt))
]

record AreFilled (at : Fields) (n i : ℕ) (d d' : Dirs) : Type 0 where
  pgd : d'.krnl_pgd ≡ fill_list at.p4d n i d.krnl_pgd
  p4d : d'.krnl_p4d ≡ fill_list at.pud n i d.krnl_p4d
  pud : d'.krnl_pud ≡ fill_list at.pmd n i d.krnl_pud
  pmd : d'.krnl_pmd ≡ fill_list at.pt n i d.krnl_pmd
  pt : d'.krnl_pt ≡ fill_list 0 n i d.krnl_pt

fill_from-AreFilled : (at : Fields) (n i : ℕ) (d : Dirs) → AreFilled at n i d (fill_from at n i d)
unfolding fill_from fill_at fill_list
fill_from-AreFilled at zero i d = record {
  pgd = refl;
  p4d = refl;
  pud = refl;
  pmd = refl;
  pt = refl;
}
fill_from-AreFilled at (suc n) i d =
    let rest = fill_from-AreFilled at n (suc i) (fill_at at i d) in
    record { pgd = rest.pgd; p4d = rest.p4d; pud = rest.pud; pmd = rest.pmd; pt = rest.pt }

-- Every entry of the first four arrays is the address of the field that holds the next one, and every
-- entry of the last is 0.
pub fill_dirs_lem :
    (at : Fields) (d : Dirs) (j : ℕ)
    → length d.krnl_pgd ≡ paging64_max_pgn
    → length d.krnl_p4d ≡ paging64_max_pgn
    → length d.krnl_pud ≡ paging64_max_pgn
    → length d.krnl_pmd ≡ paging64_max_pgn
    → length d.krnl_pt ≡ paging64_max_pgn
    → j < paging64_max_pgn
    → (get_elem? (fill_dirs at d).krnl_pgd j ≡ some at.p4d)
      × (get_elem? (fill_dirs at d).krnl_p4d j ≡ some at.pud)
      × (get_elem? (fill_dirs at d).krnl_pud j ≡ some at.pmd)
      × (get_elem? (fill_dirs at d).krnl_pmd j ≡ some at.pt)
      × (get_elem? (fill_dirs at d).krnl_pt j ≡ some 0)
unfolding fill_dirs
fill_dirs_lem at d j h₁ h₂ h₃ h₄ h₅ lt =
    let k = fill_from-AreFilled at paging64_max_pgn 0 d in
    (
      ap (λ l. get_elem? l j) k.pgd
          ∙ fill_list-filled at.p4d paging64_max_pgn 0 j d.krnl_pgd (omega (arith, h₁))
              (omega arith) lt,
      ap (λ l. get_elem? l j) k.p4d
          ∙ fill_list-filled at.pud paging64_max_pgn 0 j d.krnl_p4d (omega (arith, h₂))
              (omega arith) lt,
      ap (λ l. get_elem? l j) k.pud
          ∙ fill_list-filled at.pmd paging64_max_pgn 0 j d.krnl_pud (omega (arith, h₃))
              (omega arith) lt,
      ap (λ l. get_elem? l j) k.pmd
          ∙ fill_list-filled at.pt paging64_max_pgn 0 j d.krnl_pmd (omega (arith, h₄)) (omega arith)
              lt,
      ap (λ l. get_elem? l j) k.pt
          ∙ fill_list-filled 0 paging64_max_pgn 0 j d.krnl_pt (omega (arith, h₅)) (omega arith) lt,
    )
