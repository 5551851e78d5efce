-- ===== src/Paging/Digits.antt =====
-- `bit_and` with a mask of adjacent ones, as a quotient and a remainder.
use Prim.Native.Nat.{bit_and, digits, bit_and-bitwise, min}
use native.Mathlib.Nat.{
  pow-suc, pow-succ', div-add-mod', add-mul-mod_self_right, mod-eq_of_lt, mod-lt, one-le-pow,
  div-one, mul-one, div-div-eq-div-mul, mul-div_left,
}
use os_to_read.Base.{
  ℕ, zero, suc, ◌+◌, ◌*◌, ◌/◌, ◌%◌, ◌^◌, ◌≤◌, ◌<◌, ◌≡◌, refl, ap, sym, ◌∙◌, arith,
}

abbrev both : ℕ → ℕ → ℕ → ℕ
both fuel x y = digits (λ y. zero) min fuel x y

-- Fuel above the first number makes no difference.
both_enough : (k l x y : ℕ) → x ≤ k → x ≤ l → both k x y ≡ both l x y
both_enough zero zero x y p q = refl
both_enough (suc k) zero zero y p q = refl
both_enough zero (suc l) zero y p q = refl
both_enough (suc k) (suc l) zero y p q = refl
both_enough k zero (suc x) y p q = absurd (omega arith)
both_enough zero l (suc x) y p q = absurd (omega arith)
both_enough (suc k) (suc l) (suc x) y p q =
    omega (arith, both_enough k l (suc x / 2) (y / 2) (omega arith) (omega arith))

pub bit_and-half : (x y : ℕ) → bit_and x y ≡ 2 * bit_and (x / 2) (y / 2) + min (x % 2) (y % 2)
bit_and-half zero y = omega (arith, bit_and-bitwise 0 y, bit_and-bitwise 0 (y / 2))
bit_and-half (suc x) y =
    let below : suc x / 2 ≤ x = omega arith in
    omega (
      arith,
      both_enough x (suc x / 2) (suc x / 2) (y / 2) below (omega arith),
      bit_and-bitwise (suc x) y,
      bit_and-bitwise (suc x / 2) (y / 2),
    )

power_pos : (k : ℕ) → 0 < 2 ^ k
power_pos k = one-le-pow k 2 (omega arith)

-- `k` ones.
unfoldable pub ones : ℕ → ℕ
ones zero = 0
ones (suc k) = 2 * ones k + 1

bit_and-none_fuel : (n x : ℕ) → x ≤ n → bit_and x 0 ≡ 0
bit_and-none_fuel n zero h = refl
bit_and-none_fuel zero (suc x) h = absurd (omega arith)
bit_and-none_fuel (suc n) (suc x) h =
    omega (arith, bit_and-half (suc x) 0, bit_and-none_fuel n (suc x / 2) (omega arith))

pub bit_and-none : (x : ℕ) → bit_and x 0 ≡ 0
bit_and-none x = bit_and-none_fuel x x (omega arith)

half_mask : (o : ℕ) → ((2 * o + 1) / 2 ≡ o) × ((2 * o + 1) % 2 ≡ 1)
half_mask o = (omega arith, omega arith)

low_digit : (x t : ℕ) → 0 < t → x % (t * 2) ≡ 2 * (x / 2 % t) + x % 2
low_digit x t h =
    let q = x / 2 / t in
    let r = x / 2 % t in
    let split : x ≡ (2 * r + x % 2) + q * (t * 2) = omega (arith, div-add-mod' (x / 2) t) in
    ap (λ y. y % (t * 2)) split
    ∙ add-mul-mod_self_right (2 * r + x % 2) q (t * 2)
    ∙ mod-eq_of_lt (omega (arith, mod-lt (x / 2) h))

pub bit_and-ones : (k x : ℕ) → bit_and x (ones k) ≡ x % 2 ^ k
unfolding ones
bit_and-ones zero x = omega (arith, bit_and-none x)
bit_and-ones (suc k) x =
    let (half, last) = half_mask (ones k) in
    let rest : bit_and (x / 2) ((2 * ones k + 1) / 2) ≡ x / 2 % 2 ^ k =
      rw half (bit_and-ones k (x / 2)) in
    omega (
      arith,
      bit_and-half x (2 * ones k + 1),
      rest,
      last,
      low_digit x (2 ^ k) (power_pos k),
      ap (λ t. x % t) (pow-suc 2 k),
    )

shift_mask : (l o : ℕ) → (o * 2 ^ suc l / 2 ≡ o * 2 ^ l) × (o * 2 ^ suc l % 2 ≡ 0)
shift_mask l o =
    let double : o * 2 ^ suc l ≡ 2 * (o * 2 ^ l) = omega (arith, ap (λ t. o * t) (pow-suc 2 l)) in
    (omega (arith, double), omega (arith, double))

pub bit_and-shift : (l o x : ℕ) → bit_and x (o * 2 ^ l) ≡ bit_and (x / 2 ^ l) o * 2 ^ l
bit_and-shift zero o x =
    ap (λ t. bit_and x t) (mul-one o) ∙ ap (λ t. bit_and t o) (sym (div-one x)) ∙ sym (mul-one _)
bit_and-shift (suc l) o x =
    let (half, last) = shift_mask l o in
    let rest : bit_and (x / 2) (o * 2 ^ suc l / 2) ≡ bit_and (x / 2 / 2 ^ l) o * 2 ^ l =
      rw half (bit_and-shift l o (x / 2)) in
    let quotient : x / 2 / 2 ^ l ≡ x / 2 ^ suc l =
      div-div-eq-div-mul x 2 (2 ^ l) ∙ ap (λ t. x / t) (sym (pow-succ' 2 l)) in
    omega (
      arith,
      bit_and-half x (o * 2 ^ suc l),
      rest,
      last,
      ap (λ t. bit_and t o * 2 ^ l) quotient,
      ap (λ t. bit_and (x / 2 ^ suc l) o * t) (pow-suc 2 l),
    )

-- The field of `w` digits from digit `l` on.
pub bit_and-field : (w l x : ℕ) → bit_and x (ones w * 2 ^ l) / 2 ^ l ≡ x / 2 ^ l % 2 ^ w
bit_and-field w l x =
    ap (λ t. t / 2 ^ l) (bit_and-shift l (ones w) x)
    ∙ mul-div_left (bit_and (x / 2 ^ l) (ones w)) (power_pos l)
    ∙ bit_and-ones w (x / 2 ^ l)
