-- ===== src/Paging/Logic.antt =====
-- The laws of `bit_and` and `bit_or` that masks use.
use Prim.Native.Nat.{bit_and, bit_or, digits, bit_and-bitwise, bit_or-bitwise, min, max}
use os_to_read.Base.{ℕ, zero, suc, ◌+◌, ◌*◌, ◌/◌, ◌%◌, ◌≤◌, ◌≡◌, refl, arith}
use os_to_read.Paging.Digits.{bit_and-half}

abbrev either : ℕ → ℕ → ℕ → ℕ
either fuel x y = digits (λ y. y) max fuel x y

either_enough : (k l x y : ℕ) → x ≤ k → x ≤ l → either k x y ≡ either l x y
either_enough zero zero x y p q = refl
either_enough (suc k) zero zero y p q = refl
either_enough zero (suc l) zero y p q = refl
either_enough (suc k) (suc l) zero y p q = refl
either_enough k zero (suc x) y p q = absurd (omega arith)
either_enough zero l (suc x) y p q = absurd (omega arith)
either_enough (suc k) (suc l) (suc x) y p q =
    omega (arith, either_enough k l (suc x / 2) (y / 2) (omega arith) (omega arith))

bit_or-half : (x y : ℕ) → bit_or x y ≡ 2 * bit_or (x / 2) (y / 2) + max (x % 2) (y % 2)
bit_or-half zero y = omega (arith, bit_or-bitwise 0 y, bit_or-bitwise 0 (y / 2))
bit_or-half (suc x) y =
    let below : suc x / 2 ≤ x = omega arith in
    omega (
      arith,
      either_enough x (suc x / 2) (suc x / 2) (y / 2) below (omega arith),
      bit_or-bitwise (suc x) y,
      bit_or-bitwise (suc x / 2) (y / 2),
    )

bit_and-div : (x y : ℕ) → bit_and x y / 2 ≡ bit_and (x / 2) (y / 2)
bit_and-div x y = omega (arith, bit_and-half x y)

bit_and-mod : (x y : ℕ) → bit_and x y % 2 ≡ min (x % 2) (y % 2)
bit_and-mod x y = omega (arith, bit_and-half x y)

bit_or-div : (x y : ℕ) → bit_or x y / 2 ≡ bit_or (x / 2) (y / 2)
bit_or-div x y = omega (arith, bit_or-half x y)

bit_or-mod : (x y : ℕ) → bit_or x y % 2 ≡ max (x % 2) (y % 2)
bit_or-mod x y = omega (arith, bit_or-half x y)

by_digits : (x y : ℕ) → x / 2 ≡ y / 2 → x % 2 ≡ y % 2 → x ≡ y
by_digits x y d m = omega (arith, d, m)

zero-bit_and : (y : ℕ) → bit_and 0 y ≡ 0
zero-bit_and y = bit_and-bitwise 0 y

pub zero-bit_or : (y : ℕ) → bit_or 0 y ≡ y
zero-bit_or y = bit_or-bitwise 0 y

assoc_fuel : (n v c k : ℕ) → v ≤ n → bit_and (bit_and v c) k ≡ bit_and v (bit_and c k)
assoc_fuel zero zero c k p = simp zero-bit_and refl
assoc_fuel zero (suc v) c k p = absurd (omega arith)
assoc_fuel (suc n) v c k p =
    by_digits _ _ (simp bit_and-div (assoc_fuel n (v / 2) (c / 2) (k / 2) (omega arith)))
      (simp bit_and-mod (omega arith))

pub bit_and_assoc : (v c k : ℕ) → bit_and (bit_and v c) k ≡ bit_and v (bit_and c k)
bit_and_assoc v c k = assoc_fuel v v c k (omega arith)

distrib_fuel :
    (n a b k : ℕ) → a ≤ n → b ≤ n → bit_and (bit_or a b) k ≡ bit_or (bit_and a k) (bit_and b k)
distrib_fuel zero zero zero k p q = simp (zero-bit_or, zero-bit_and) refl
distrib_fuel zero (suc a) b k p q = absurd (omega arith)
distrib_fuel zero zero (suc b) k p q = absurd (omega arith)
distrib_fuel (suc n) a b k p q =
    by_digits _ _
      (simp (bit_and-div, bit_or-div)
        (distrib_fuel n (a / 2) (b / 2) (k / 2) (omega arith) (omega arith)))
      (simp (bit_and-mod, bit_or-mod) (omega arith))

pub bit_and-bit_or : (a b k : ℕ) → bit_and (bit_or a b) k ≡ bit_or (bit_and a k) (bit_and b k)
bit_and-bit_or a b k = distrib_fuel (a + b) a b k (omega arith) (omega arith)

none_fuel : (n x : ℕ) → x ≤ n → bit_or x 0 ≡ x
none_fuel zero zero p = zero-bit_or 0
none_fuel zero (suc x) p = absurd (omega arith)
none_fuel (suc n) x p =
    by_digits _ _ (simp bit_or-div (none_fuel n (x / 2) (omega arith)))
      (simp bit_or-mod (omega arith))

pub bit_or-none : (x : ℕ) → bit_or x 0 ≡ x
bit_or-none x = none_fuel x x (omega arith)

absorb_fuel : (n v m : ℕ) → v ≤ n → bit_or (bit_and v m) m ≡ m
absorb_fuel zero zero m p = simp (zero-bit_and, zero-bit_or) refl
absorb_fuel zero (suc v) m p = absurd (omega arith)
absorb_fuel (suc n) v m p =
    by_digits _ _ (simp (bit_or-div, bit_and-div) (absorb_fuel n (v / 2) (m / 2) (omega arith)))
      (simp (bit_or-mod, bit_and-mod) (omega arith))

pub bit_or_absorb : (v m : ℕ) → bit_or (bit_and v m) m ≡ m
bit_or_absorb v m = absorb_fuel v v m (omega arith)
