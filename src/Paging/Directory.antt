-- ===== src/Paging/Directory.antt =====
-- The five directory indices of an address, and the address they come from.
use Prim.Native.Nat.{bit_and}
use os_to_read.Base.{ℕ, ◌+◌, ◌*◌, ◌/◌, ◌%◌, ◌^◌, ◌<◌, ◌≡◌, refl, ap, ◌∙◌, arith}
use os_to_read.Paging.{Directories, get_pd_from_address, get_pd_from_pagenum, genmask64}
use os_to_read.Paging.Digits.{ones, bit_and-field}

nine : (l mask x : ℕ) → mask ≡ ones 9 * 2 ^ l → bit_and x mask / 2 ^ l ≡ x / 2 ^ l % 512
nine l mask x e = ap (λ m. bit_and x m / 2 ^ l) e ∙ bit_and-field 9 l x

-- Every mask has nine adjacent ones.
masks :
    (genmask64 56 48 ≡ ones 9 * 2 ^ 48)
    × (genmask64 47 39 ≡ ones 9 * 2 ^ 39)
    × (genmask64 38 30 ≡ ones 9 * 2 ^ 30)
    × (genmask64 29 21 ≡ ones 9 * 2 ^ 21)
    × (genmask64 20 12 ≡ ones 9 * 2 ^ 12)
unfolding ones
masks = (refl, refl, refl, refl, refl)

-- `get_pd_from_address` cuts the digits 12 to 56 of the address into five indices of nine digits each.
pub get_pd_from_address_lem :
    (addr : ℕ)
    → get_pd_from_address addr ≡ record {
      pgd = addr / 2 ^ 48 % 512;
      p4d = addr / 2 ^ 39 % 512;
      pud = addr / 2 ^ 30 % 512;
      pmd = addr / 2 ^ 21 % 512;
      pt = addr / 2 ^ 12 % 512;
    }
unfolding get_pd_from_address
get_pd_from_address_lem addr =
    let (a, b, c, d, e) = masks in
    rw
      (
        nine 48 (genmask64 56 48) addr a,
        nine 39 (genmask64 47 39) addr b,
        nine 30 (genmask64 38 30) addr c,
        nine 21 (genmask64 29 21) addr d,
        nine 12 (genmask64 20 12) addr e,
      )
      refl

-- The page number that five indices stand for.
abbrev pub page_of : Directories → ℕ
page_of d = d.pt + 512 * (d.pmd + 512 * (d.pud + 512 * (d.p4d + 512 * d.pgd)))

-- A page number of at most 45 digits is made up of the five indices that `get_pd_from_pagenum` takes
-- it apart into.
pub page_of-get_pd_from_pagenum : (pgn : ℕ) → pgn < 2 ^ 45 → page_of (get_pd_from_pagenum pgn) ≡ pgn
unfolding get_pd_from_pagenum
page_of-get_pd_from_pagenum pgn h =
    rw (get_pd_from_address_lem (pgn * 2 ^ 12 % 2 ^ 64)) (omega arith)
