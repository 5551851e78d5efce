-- ===== src/Mm/Areas.antt =====
-- Finding an area by its number, and a free region in it.
use os_to_read.Base.{
  ℕ, suc, ◌+◌, ◌-◌, ◌%◌, ◌^◌, ◌<◌, ◌≡◌, refl, ap, ◌∙◌, true, false, Option, none, some, List, [],
  ◌∷◌, ◌++◌, arith, length, get_elem?, ◌==◌, Bool-cases, inl, inr, ◌⊎◌,
}
use os_to_read.Base.Int.{ℤ, pos, to_int, ltz}
use os_to_read.Mm.{
  Region, Vma, Mm, Access, ok, fault, vma_walk, vma_first, get_vma_by_num, get_free_vmrg_area,
  deref, free_area, free_in, fitted, set_free, take_fit,
}
use os_to_read.Mm.Regions.{AreRegions, AreSmall, Fit, take_fit_lem}

-- The number of an area is below `vmaid`, both as `int`.
abbrev pub IsBelow : ℤ → Vma → Type 0
IsBelow vmaid v = ltz (to_int v.vm_id) vmaid ≡ true

abbrev pub AreBelow : ℤ → List Vma → Type 0
AreBelow vmaid [] = Unit {0}
AreBelow vmaid (v ∷ vs) = IsBelow vmaid v × AreBelow vmaid vs

-- The area `v` at index `i` is the first one whose number is not below `vmaid`.
pub record Area (vmaid : ℤ) (vs : List Vma) (i : ℕ) : Type 0 where
  pub before : List Vma
  pub area : Vma
  pub behind : List Vma
  pub whole : vs ≡ before ++ (area ∷ behind)
  pub position : length before ≡ i
  pub skipped : AreBelow vmaid before
  pub reached : ltz (to_int area.vm_id) vmaid ≡ false

vma_walk-skip :
    (v : Vma) (vs : List Vma) (k : ℕ) (vmaid : ℤ)
    → ltz (to_int v.vm_id) vmaid ≡ true
    → vma_walk (v ∷ vs) k vmaid ≡ vma_walk vs (suc k) vmaid
unfolding vma_walk
vma_walk-skip v vs k vmaid e = rw e refl

vma_walk-here :
    (v : Vma) (vs : List Vma) (k : ℕ) (vmaid : ℤ)
    → ltz (to_int v.vm_id) vmaid ≡ false
    → vma_walk (v ∷ vs) k vmaid ≡ ok (some k)
unfolding vma_walk
vma_walk-here v vs k vmaid e = rw e refl

vma_walk_lem :
    (vs : List Vma) (k : ℕ) (vmaid : ℤ)
    → ((i : ℕ) × (vma_walk vs k vmaid ≡ ok (some (k + i))) × Area vmaid vs i)
      ⊎ ((vma_walk vs k vmaid ≡ fault) × AreBelow vmaid vs)
vma_walk_lem [] k vmaid = inr (unfold vma_walk in (refl, tt))
vma_walk_lem (v ∷ vs) k vmaid = elim (Bool-cases (ltz (to_int v.vm_id) vmaid)) [
  | inl below ↦ rw (vma_walk-skip v vs k vmaid below) (elim (vma_walk_lem vs (suc k) vmaid) [
    | inl (i, e, a) ↦ inl (
      suc i,
      e ∙ ap (λ t. ok (some t)) (omega arith),
      record {
        before = v ∷ a.before;
        area = a.area;
        behind = a.behind;
        whole = ap (λ t. v ∷ t) a.whole;
        position = ap suc a.position;
        skipped = (below, a.skipped);
        reached = a.reached;
      },
    )
    | inr (e, all) ↦ inr (e, (below, all))
  ])
  | inr here ↦ inl (
    0,
    rw (vma_walk-here v vs k vmaid here) (ap (λ t. ok (some t)) (omega arith)),
    record {
      before = [];
      area = v;
      behind = vs;
      whole = refl;
      position = refl;
      skipped = tt;
      reached = here;
    },
  )
]

vma_first_lem :
    (vs : List Vma) (vmaid : ℤ)
    → ((i : ℕ) × (vma_first vs vmaid ≡ ok (some i)) × Area vmaid vs i)
      ⊎ ((vma_first vs vmaid ≡ ok none) × (vs ≡ []))
      ⊎ ((vma_first vs vmaid ≡ fault) × AreBelow vmaid vs)
unfolding vma_first
vma_first_lem [] vmaid = inr (inl (refl, refl))
vma_first_lem (v ∷ rest) vmaid = elim (vma_walk_lem (v ∷ rest) 0 vmaid) [
  | inl (i, e, a) ↦ inl (i, e ∙ ap (λ t. ok (some t)) (omega arith), a)
  | inr h ↦ inr (inr h)
]

get_vma_by_num-first : (mm : Mm) (vmaid : ℤ) → get_vma_by_num mm vmaid ≡ vma_first mm.mmap vmaid
unfolding get_vma_by_num
get_vma_by_num-first mm vmaid = refl

-- `get_vma_by_num` finds the first area whose number is not below the one asked for, returns NULL when
-- there is no area at all, and reads through NULL when all areas have smaller numbers.
pub get_vma_by_num_lem :
    (mm : Mm) (vmaid : ℤ)
    → ((i : ℕ) × (get_vma_by_num mm vmaid ≡ ok (some i)) × Area vmaid mm.mmap i)
      ⊎ ((get_vma_by_num mm vmaid ≡ ok none) × (mm.mmap ≡ []))
      ⊎ ((get_vma_by_num mm vmaid ≡ fault) × AreBelow vmaid mm.mmap)
get_vma_by_num_lem mm vmaid = rw (get_vma_by_num-first mm vmaid) (vma_first_lem mm.mmap vmaid)

-- The outcome of the search for a free region in the area `v` at index `k`: nothing has room and
-- nothing changes, or the region is cut off the free regions of that area.
abbrev pub Found : Mm → ℕ → Vma → ℕ → Access (Option Region × Mm) → Type 0
Found mm k v size r =
    ((r ≡ ok (none, mm)) × AreSmall size v.vm_freerg_list)
    ⊎ ((rg : Region) × (l' : List Region) × (r ≡ ok (some rg, set_free mm k v l'))
        × Fit size v.vm_freerg_list rg l')

fitted-Found :
    (mm : Mm) (k : ℕ) (v : Vma) (size : ℕ) (r : Region) (rest : List Region)
    → v.vm_freerg_list ≡ r ∷ rest
    → AreRegions (r ∷ rest)
    → size < 2 ^ 31
    → Found mm k v size (ok (fitted mm k v (take_fit size (r ∷ rest))))
unfolding fitted
fitted-Found mm k v size r rest e w small = elim (take_fit_lem size (r ∷ rest) w small) [
  | inl (none_fits, all) ↦ inl (rw none_fits refl, rw e all)
  | inr (rg, l', found, f) ↦
      let valid : (rg.rg_start == 2 ^ 64 - 1) ≡ false = ground (arith, f.bounded, f.stop) in
      inr (rg, l', rw (found, valid) refl, rw e f)
]

free_in-Found :
    (mm : Mm) (k : ℕ) (v : Vma) (size : ℕ) (l : List Region)
    → v.vm_freerg_list ≡ l
    → AreRegions l
    → size < 2 ^ 31
    → Found mm k v size (free_in mm (pos size) k v l)
unfolding free_in
free_in-Found mm k v size [] e w small = inl (refl, rw e tt)
free_in-Found mm k v size (r ∷ rest) e w small =
    let same : size % 2 ^ 64 ≡ size = omega arith in
    rw same (fitted-Found mm k v size r rest e w small)

get_free_lem :
    (mm : Mm) (vmaid : ℤ) (size : ℤ) (k : ℕ) (v : Vma)
    → get_vma_by_num mm vmaid ≡ ok (some k)
    → get_elem? mm.mmap k ≡ some v
    → get_free_vmrg_area mm vmaid size ≡ free_in mm size k v v.vm_freerg_list
unfolding get_free_vmrg_area free_area deref
get_free_lem mm vmaid size k v e at = ground arith

-- In the area that the number names, `get_free_vmrg_area` takes the first free region with room: it
-- returns 0 with a region of the size asked for, cut off the front of that free region, or returns -1
-- and changes nothing when no free region has room.
pub get_free_vmrg_area-Found :
    (mm : Mm) (vmaid : ℤ) (size k : ℕ) (v : Vma)
    → get_vma_by_num mm vmaid ≡ ok (some k)
    → get_elem? mm.mmap k ≡ some v
    → AreRegions v.vm_freerg_list
    → size < 2 ^ 31
    → Found mm k v size (get_free_vmrg_area mm vmaid (pos size))
get_free_vmrg_area-Found mm vmaid size k v e at w small =
    rw (get_free_lem mm vmaid (pos size) k v e at)
      (free_in-Found mm k v size v.vm_freerg_list refl w small)

vma_first-cons :
    (v : Vma) (vs : List Vma) (vmaid : ℤ) → vma_first (v ∷ vs) vmaid ≡ vma_walk (v ∷ vs) 0 vmaid
unfolding vma_first
vma_first-cons v vs vmaid = refl

-- Area number 0 is the first one, unless its number is negative as an `int`.
pub get_vma_by_num-zero :
    (mm : Mm) (v : Vma) (vs : List Vma)
    → mm.mmap ≡ v ∷ vs
    → v.vm_id < 2 ^ 31
    → get_vma_by_num mm (pos 0) ≡ ok (some 0)
get_vma_by_num-zero mm v vs e h =
    get_vma_by_num-first mm (pos 0)
    ∙ ap (λ l. vma_first l (pos 0)) e
    ∙ vma_first-cons v vs (pos 0)
    ∙ vma_walk-here v vs 0 (pos 0) (ground arith)
