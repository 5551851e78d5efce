-- ===== src/Mm/Regions.antt =====
-- `get_free_vmrg_area`: first fit on the free regions, and what it does to the free addresses.
use mathlib.Core.Option
use os_to_read.Base.{
  ℕ, ◌+◌, ◌^◌, ◌≤◌, ◌<◌, ◌≡◌, refl, ap, ◌&&◌, none, some, List, [], ◌∷◌, ◌++◌, arith, dec_lt,
  if◌then◌else◌, ltb, leb, inl, inr, ◌⊎◌, leb-false, le→leb,
}
use os_to_read.Base.Int.{add_addr}
use os_to_read.Mm.{Region, take_fit, shrink}

-- Addresses have 57 bits (`PAGING64_CPU_BUS_WIDTH`), sizes are those that an `int` holds.
abbrev pub max_addr : ℕ
max_addr = 2 ^ 57

abbrev pub IsRegion : Region → Type 0
IsRegion r = (r.rg_start ≤ r.rg_end) × (r.rg_end ≤ max_addr)

abbrev pub AreRegions : List Region → Type 0
AreRegions [] = Unit {0}
AreRegions (r ∷ l) = IsRegion r × AreRegions l

-- How many regions contain the address `a`.
unfoldable pub holds_addr : Region → ℕ → ℕ
holds_addr r a = if leb r.rg_start a && ltb a r.rg_end then 1 else 0

unfoldable pub cover : List Region → ℕ → ℕ
cover [] a = 0
cover (r ∷ l) a = holds_addr r a + cover l a

-- No region of the list has room for `size` bytes.
abbrev pub AreSmall : ℕ → List Region → Type 0
AreSmall size [] = Unit {0}
AreSmall size (r ∷ l) = (r.rg_end < r.rg_start + size) × AreSmall size l

-- The region `rg` of `size` bytes starts with the first region of `l` that has room for it and lies
-- inside it; the regions `l'` that are left cover every address as often as before, but for those of
-- `rg`, which they cover once less.
pub record Fit (size : ℕ) (l : List Region) (rg : Region) (l' : List Region) : Type 0 where
  pub before : List Region
  pub host : Region
  pub behind : List Region
  pub whole : l ≡ before ++ (host ∷ behind)
  pub small : AreSmall size before
  pub start : rg.rg_start ≡ host.rg_start
  pub stop : rg.rg_end ≡ rg.rg_start + size
  pub inside : rg.rg_end ≤ host.rg_end
  pub bounded : rg.rg_end ≤ max_addr
  pub regions : AreRegions l'
  pub same : (a : ℕ) → cover l' a + holds_addr rg a ≡ cover l a

shrink_lem :
    (size : ℕ) (r : Region) (rest : List Region) (a : ℕ)
    → IsRegion r
    → size < 2 ^ 31
    → r.rg_start + size ≤ r.rg_end
    → cover (shrink size r rest) a
        + holds_addr (record { rg_start = r.rg_start; rg_end = r.rg_start + size }) a
      ≡ cover (r ∷ rest) a
unfolding cover holds_addr shrink
shrink_lem size r [] a w small fit = ground arith
shrink_lem size r (n ∷ rest) a w small fit = ground arith

shrink-AreRegions :
    (size : ℕ) (r : Region) (rest : List Region)
    → IsRegion r
    → AreRegions rest
    → size < 2 ^ 31
    → r.rg_start + size ≤ r.rg_end
    → AreRegions (shrink size r rest)
unfolding shrink
shrink-AreRegions size r [] w ws small fit = ground arith
shrink-AreRegions size r (n ∷ rest) w ws small fit = ground arith

no_wrap :
    (size : ℕ) (r : Region)
    → IsRegion r
    → size < 2 ^ 31
    → add_addr r.rg_start size ≡ r.rg_start + size
no_wrap size r w small = omega arith

take_fit_here :
    (size : ℕ) (r : Region) (rest : List Region)
    → IsRegion r
    → size < 2 ^ 31
    → r.rg_start + size ≤ r.rg_end
    → take_fit size (r ∷ rest)
      ≡ some (record { rg_start = r.rg_start; rg_end = r.rg_start + size }, shrink size r rest)
unfolding take_fit
take_fit_here size r rest w small fit = rw (no_wrap size r w small, le→leb _ _ fit) refl

take_fit_later :
    (size : ℕ) (r : Region) (rest : List Region)
    → IsRegion r
    → size < 2 ^ 31
    → r.rg_end < r.rg_start + size
    → take_fit size (r ∷ rest) ≡ Option.map (λ found. (found.0, r ∷ found.1)) (take_fit size rest)
unfolding take_fit
take_fit_later size r rest w small over = rw (no_wrap size r w small, leb-false _ _ over) refl

here-Fit :
    (size : ℕ) (r : Region) (rest : List Region)
    → AreRegions (r ∷ rest)
    → size < 2 ^ 31
    → r.rg_start + size ≤ r.rg_end
    → Fit size
        (r ∷ rest)
        (record { rg_start = r.rg_start; rg_end = r.rg_start + size })
        (shrink size r rest)
here-Fit size r rest w small fit = record {
  before = [];
  host = r;
  behind = rest;
  whole = refl;
  small = tt;
  start = refl;
  stop = refl;
  inside = fit;
  bounded = omega (arith, w.0);
  regions = shrink-AreRegions size r rest w.0 w.1 small fit;
  same = λ a. shrink_lem size r rest a w.0 small fit;
}

later-Fit :
    {size : ℕ} {rest l' : List Region} {rg : Region} (r : Region)
    → IsRegion r
    → r.rg_end < r.rg_start + size
    → Fit size rest rg l'
    → Fit size (r ∷ rest) rg (r ∷ l')
unfolding cover
later-Fit r w over f = record {
  before = r ∷ f.before;
  host = f.host;
  behind = f.behind;
  whole = ap (λ t. r ∷ t) f.whole;
  small = (over, f.small);
  start = f.start;
  stop = f.stop;
  inside = f.inside;
  bounded = f.bounded;
  regions = (w, f.regions);
  same = λ a. omega (arith, f.same a);
}

-- The search either finds nothing, and then no region has room, or cuts the new region off.
pub take_fit_lem :
    (size : ℕ) (l : List Region)
    → AreRegions l
    → size < 2 ^ 31
    → ((take_fit size l ≡ none) × AreSmall size l)
      ⊎ ((rg : Region) × (l' : List Region) × (take_fit size l ≡ some (rg, l')) × Fit size l rg l')
take_fit_lem size [] w small = inl (unfold take_fit in (refl, tt))
take_fit_lem size (r ∷ rest) w small = elim (dec_lt r.rg_end (r.rg_start + size)) [
  | yes over ↦
      rw (take_fit_later size r rest w.0 small over) (elim (take_fit_lem size rest w.1 small) [
        | inl (e, all) ↦ inl (rw e refl, (over, all))
        | inr (rg, l', e, f) ↦ inr (rg, r ∷ l', rw e refl, later-Fit r w.0 over f)
      ])
  | no fit ↦ inr (
    record { rg_start = r.rg_start; rg_end = r.rg_start + size },
    shrink size r rest,
    take_fit_here size r rest w.0 small (omega arith),
    here-Fit size r rest w small (omega arith),
  )
]
