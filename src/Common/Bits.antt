-- ===== src/Common/Bits.antt =====
-- Masks and shifts of machine words as arithmetic: `<<` is a product, `|` of disjoint fields a sum,
-- `&` with a run of ones a remainder or a rounding down.
use Prim.Native.Nat.{
  ℕ, zero, suc, ◌+◌, ◌-◌, ◌*◌, ◌/◌, ◌%◌, ◌^◌, ◌≤◌, ◌<◌, min, max, digits, differ, bit_and, bit_or,
  bit_xor, bit_and-bitwise, bit_or-bitwise, bit_xor-bitwise,
}
use mathlib.Core.Path.{◌≡◌, refl, ap}
use native.Mathlib.Omega.{arith}
use native.Mathlib.Nat.{pow-suc, one-le-pow}

abbrev pub u32 : ℕ
u32 = 2 ^ 32

-- A bitwise operation on digits, with its fuel gone: one equation for the lowest digit.
module _ (z : ℕ → ℕ) (f : ℕ → ℕ → ℕ) where
  more_fuel : (n m a b : ℕ) → a ≤ n → a ≤ m → digits z f n a b ≡ digits z f m a b
  more_fuel zero zero a b p q = refl
  more_fuel zero (suc m) zero b p q = refl
  more_fuel zero (suc m) (suc a) b p q = absurd (omega arith)
  more_fuel (suc n) zero zero b p q = refl
  more_fuel (suc n) zero (suc a) b p q = absurd (omega arith)
  more_fuel (suc n) (suc m) zero b p q = refl
  more_fuel (suc n) (suc m) (suc a) b p q =
      ap (λ t. t * 2 + f (suc a % 2) (b % 2))
        (more_fuel n m (suc a / 2) (b / 2) (omega arith) (omega arith))

  lowest_digit :
      ((b : ℕ) → z b ≡ z (b / 2) * 2 + f 0 (b % 2))
      → (a b : ℕ) → digits z f a a b ≡ digits z f (a / 2) (a / 2) (b / 2) * 2 + f (a % 2) (b % 2)
  lowest_digit h zero b = h b
  lowest_digit h (suc a) b =
      ap (λ t. t * 2 + f (suc a % 2) (b % 2))
        (more_fuel a (suc a / 2) (suc a / 2) (b / 2) (omega arith) (omega arith))

pub and_digit : (a b : ℕ) → bit_and a b ≡ bit_and (a / 2) (b / 2) * 2 + min (a % 2) (b % 2)
and_digit a b = simp bit_and-bitwise (lowest_digit (λ b. 0) min (λ b. omega arith) a b)

pub or_digit : (a b : ℕ) → bit_or a b ≡ bit_or (a / 2) (b / 2) * 2 + max (a % 2) (b % 2)
or_digit a b = simp bit_or-bitwise (lowest_digit (λ b. b) max (λ b. omega arith) a b)

pub xor_digit : (a b : ℕ) → bit_xor a b ≡ bit_xor (a / 2) (b / 2) * 2 + differ (a % 2) (b % 2)
xor_digit a b = simp bit_xor-bitwise (lowest_digit (λ b. b) differ (λ b. omega arith) a b)

-- `f (q << k + r) (p << k + s)` for low parts below `2 ^ k` works on the two parts apart.
twice_pow : (q k : ℕ) → q * 2 ^ suc k ≡ 2 * (q * 2 ^ k)
twice_pow q k = omega (arith, ap (λ (t : ℕ). q * t) (pow-suc 2 k))

or-zero : (n a : ℕ) → a ≤ n → bit_or a 0 ≡ a
or-zero zero zero h = refl
or-zero zero (suc a) h = absurd (omega arith)
or-zero (suc n) zero h = refl
or-zero (suc n) (suc a) h = omega (arith, or_digit (suc a) 0, or-zero n (suc a / 2) (omega arith))

and-zero : (n a : ℕ) → a ≤ n → bit_and a 0 ≡ 0
and-zero zero zero h = refl
and-zero zero (suc a) h = absurd (omega arith)
and-zero (suc n) zero h = refl
and-zero (suc n) (suc a) h =
    omega (arith, and_digit (suc a) 0, and-zero n (suc a / 2) (omega arith))

-- `(q << k) | r`
pub or_fields : (k q r : ℕ) → r < 2 ^ k → bit_or (q * 2 ^ k) r ≡ q * 2 ^ k + r
or_fields zero q r h = ground (arith, or-zero q q (omega arith))
or_fields (suc k) q r h = ground (
  arith,
  or_digit (q * 2 ^ suc k) r,
  twice_pow q k,
  pow-suc 2 k,
  or_fields k q (r / 2) (omega (arith, pow-suc 2 k)),
)

-- `r | (q << k)`
pub fields_or : (k q r : ℕ) → r < 2 ^ k → bit_or r (q * 2 ^ k) ≡ q * 2 ^ k + r
fields_or zero q zero h = simp bit_or-bitwise (omega arith)
fields_or zero q (suc r) h = absurd (omega arith)
fields_or (suc k) q r h = ground (
  arith,
  or_digit r (q * 2 ^ suc k),
  twice_pow q k,
  pow-suc 2 k,
  fields_or k q (r / 2) (omega (arith, pow-suc 2 k)),
)

low_field : (k q r : ℕ) → r < 2 ^ k → bit_and (q * 2 ^ k + r) (2 ^ k - 1) ≡ r
low_field zero q r h = ground (arith, and-zero q q (omega arith))
low_field (suc k) q r h = ground (
  arith,
  and_digit (q * 2 ^ suc k + r) (2 ^ suc k - 1),
  twice_pow q k,
  pow-suc 2 k,
  one-le-pow k 2,
  low_field k q (r / 2) (omega (arith, pow-suc 2 k)),
)

-- `x & ((1 << k) - 1)`
pub and_low : (k x : ℕ) → bit_and x (2 ^ k - 1) ≡ x % 2 ^ k
and_low k x = ground (arith, one-le-pow k 2, low_field k (x / 2 ^ k) (x % 2 ^ k))

high_field : (k q r m : ℕ) → r < 2 ^ k → bit_and (q * 2 ^ k + r) (m * 2 ^ k) ≡ bit_and q m * 2 ^ k
high_field zero q r m h = ground arith
high_field (suc k) q r m h = ground (
  arith,
  and_digit (q * 2 ^ suc k + r) (m * 2 ^ suc k),
  twice_pow q k,
  twice_pow m k,
  twice_pow (bit_and q m) k,
  pow-suc 2 k,
  high_field k q (r / 2) m (omega (arith, pow-suc 2 k)),
)

-- `x & (m << k)`
pub and_shifted : (k x m : ℕ) → bit_and x (m * 2 ^ k) ≡ bit_and (x / 2 ^ k) m * 2 ^ k
and_shifted k x m = ground (arith, one-le-pow k 2, high_field k (x / 2 ^ k) (x % 2 ^ k) m)

differ-le : (x y : ℕ) → x ≤ 1 → y ≤ 1 → differ x y ≤ 1
differ-le zero y p q = q
differ-le (suc x) zero p q = p
differ-le (suc zero) (suc zero) p q = omega arith
differ-le (suc zero) (suc (suc y)) p q = absurd (omega arith)
differ-le (suc (suc x)) (suc y) p q = absurd (omega arith)

pub xor-lt : (k a b : ℕ) → a < 2 ^ k → b < 2 ^ k → bit_xor a b < 2 ^ k
xor-lt zero zero zero p q = omega arith
xor-lt zero zero (suc b) p q = absurd (omega arith)
xor-lt zero (suc a) b p q = absurd (omega arith)
xor-lt (suc k) a b p q = omega (
  arith,
  xor_digit a b,
  pow-suc 2 k,
  differ-le (a % 2) (b % 2) (omega arith) (omega arith),
  xor-lt k (a / 2) (b / 2) (omega (arith, pow-suc 2 k)) (omega (arith, pow-suc 2 k)),
)
