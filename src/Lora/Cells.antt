-- ===== src/Lora/Cells.antt =====
-- The cells of truncated coordinates.
use meshtastic_go.Common.{
  ℕ, zero, suc, ◌+◌, ◌-◌, ◌*◌, ◌/◌, ◌%◌, ◌^◌, ◌≤◌, ◌<◌, bit_and, ◌≡◌, refl, sym, ap, ◌∙◌, inl, inr,
  Bool, true, false, ◌&&◌, ◌||◌, arith, leb, ◌==◌, if◌then◌else◌, ==_iff, Bool-cases,
}
use meshtastic_go.Common.Bits.{and_low, and_shifted}
use meshtastic_go.Lora.{cell_mask, truncate_coordinate}
use native.Mathlib.Nat.{
  one-le-pow, mul-le-mul_right, add-mul, one-mul, mod-eq_of_lt, mul-add-div_right, div-eq_of_lt,
  div-lt_iff_lt-mul,
}

-- A test on every number below a bound.
abbrev all_below : ℕ → (ℕ → Bool) → Bool
all_below zero p = true
all_below (suc n) p = all_below n p && p n

below-holds : (n : ℕ) (p : ℕ → Bool) (k : ℕ) → all_below n p ≡ true → k < n → p k ≡ true
below-holds zero p k h l = absurd (omega arith)
below-holds (suc n) p k h l =
    let last : p n ≡ true = ground arith in
    elim (Bool-cases (k == n)) [
      | inl e ↦ ap p ((==_iff k n).0 e) ∙ last
      | inr e ↦ below-holds n p k (ground arith) (ground arith)
    ]

abbrev mask_test : ℕ → Bool
mask_test p = cell_mask p == (2 ^ p - 1) * 2 ^ (32 - p)

cell_mask-ones : (p : ℕ) → p < 32 → cell_mask p ≡ (2 ^ p - 1) * 2 ^ (32 - p)
cell_mask-ones p h = let t = below-holds 32 mask_test p refl h in ground arith

abbrev power_test : ℕ → Bool
power_test p = 2 ^ p * 2 ^ (32 - p) == 2 ^ 32 && (p == 0 || 2 ^ (32 - p) == 2 * 2 ^ (31 - p))

cell_powers :
    (p : ℕ) → 0 < p → p < 32 → (2 ^ p * 2 ^ (32 - p) ≡ 2 ^ 32) × (2 ^ (32 - p) ≡ 2 * 2 ^ (31 - p))
cell_powers p h l = let t = below-holds 32 power_test p refl l in ground arith

-- The truncated coordinate is the centre of its cell, for any way to write a word as cells.
centre :
    (x p k half : ℕ)
    → 0 < half
    → k ≡ 2 * half
    → x / k < p
    → ((x / k * k + half) % (p * k) ≡ x / k * k + half) × ((x / k * k + half) / k ≡ x / k)
centre x p k half h e l =
    let q = x / k in
    let pos : 0 < k = omega arith in
    let below : half < k = omega arith in
    let last : (q + 1) * k ≤ p * k = mul-le-mul_right k (omega arith) in
    let split : (q + 1) * k ≡ q * k + 1 * k = add-mul q 1 k in
    (
      mod-eq_of_lt (omega (arith, last, split, one-mul k)),
      mul-add-div_right pos q half ∙ (ap (λ n. q + n) (div-eq_of_lt below) ∙ omega arith),
    )

if_false : (x y : ℕ) {b : Bool} → b ≡ false → (if b then x else y) ≡ y
if_false x y e = rw e refl

-- With 1 to 31 significant bits, a coordinate is replaced by the centre of its cell: the cells are the
-- numbers that agree in those bits, so nothing but those bits can be read from the result, and they
-- are kept.
pub truncate_coordinate-centre :
    (x p : ℕ)
    → 0 < p
    → p < 32
    → x < 2 ^ 32
    → (truncate_coordinate x p ≡ x / 2 ^ (32 - p) * 2 ^ (32 - p) + 2 ^ (31 - p))
      × (truncate_coordinate x p / 2 ^ (32 - p) ≡ x / 2 ^ (32 - p))
unfolding truncate_coordinate
truncate_coordinate-centre x p h l w =
    let (whole, twice) = cell_powers p h l in
    let k = 2 ^ (32 - p) in
    let half = 2 ^ (31 - p) in
    let q = x / k in
    let guard : (p == 0 || leb 32 p) ≡ false = ground arith in
    let pos : 0 < half = one-le-pow (31 - p) 2 (omega arith) in
    let few : q < 2 ^ p =
      (div-lt_iff_lt-mul (one-le-pow (32 - p) 2 (omega arith))).1 (rw whole w) in
    let masked : bit_and x (cell_mask p) ≡ q * k =
      ap (bit_and x) (cell_mask-ones p l)
      ∙ (and_shifted (32 - p) x (2 ^ p - 1) ∙ ap (λ n. n * k) (and_low p q ∙ mod-eq_of_lt few)) in
    let (exact, same) = centre x (2 ^ p) k half pos twice few in
    let word : (q * k + half) % 2 ^ 32 ≡ q * k + half =
      ap (λ n. (q * k + half) % n) (sym whole) ∙ exact in
    let result : truncate_coordinate x p ≡ q * k + half =
      if_false _ _ guard ∙ (ap (λ n. (n + half) % 2 ^ 32) masked ∙ word) in
    (result, ap (λ n. n / k) result ∙ same)
