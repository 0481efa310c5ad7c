-- ===== src/PacketId/Sequence.antt =====
-- The lower ten bits of successive packet ids count up; the ids of a run of 1024 differ.
use meshtastic_go.Common.{
  ℕ, ◌+◌, ◌*◌, ◌%◌, ◌^◌, ◌≤◌, ◌<◌, bit_and, bit_or, ◌≡◌, refl, ap, ◌≢◌, ◌↔◌, List, [], ◌∷◌, arith,
  length, All,
}
use meshtastic_go.Common.Bits.{and_low, fields_or}
use meshtastic_go.PacketId.{PacketIdGenerator, next}

id_fields :
    (x high : ℕ)
    → bit_or (bit_and x 0x3FF) (high * 2 ^ 10 % 2 ^ 32) ≡ high % 2 ^ 22 * 2 ^ 10 + x % 2 ^ 10
id_fields x high =
    ground (arith, and_low 10 x, fields_or 10 (high % 2 ^ 22) (x % 2 ^ 10) (omega arith))

next_value :
    (seed high c : ℕ)
    → c ≢ 0
    → (next seed high (record { counter = c })).1 ≡ high % 2 ^ 22 * 2 ^ 10 + (c + 1) % 2 ^ 10
unfolding next
next_value seed high c h = ground (arith, id_fields ((c + 1) % 2 ^ 32) high)

-- Every id fits 32 bits.
pub next-lt : (seed high : ℕ) (g : PacketIdGenerator) → (next seed high g).1 < 2 ^ 32
unfolding next
next-lt seed high g =
    ground (arith, id_fields ((seed + 1) % 2 ^ 32) high, id_fields ((g.counter + 1) % 2 ^ 32) high)

-- A generator that has been seeded gives the id 0 exactly when its counter ends in 1023 and the
-- low 22 bits of the draw are 0.
next-eq-zero :
    (seed high c : ℕ)
    → c ≢ 0
    → ((next seed high (record { counter = c })).1 ≡ 0) ↔ ((c % 1024 ≡ 1023) × (high % 2 ^ 22 ≡ 0))
next-eq-zero seed high c h =
    (λ e. omega (arith, next_value seed high c h), λ e. omega (arith, next_value seed high c h))

-- The ids of a run of sends, each with its two draws.
unfoldable pub ids : List (ℕ × ℕ) → PacketIdGenerator → List ℕ
ids [] g = []
ids ((seed, high) ∷ draws) g = let (g', id) = next seed high g in id ∷ ids draws g'

-- The ids of the list are `n + 1`, `n + 2`, … in their low ten bits.
abbrev pub CountsFrom : ℕ → List ℕ → Type 0
CountsFrom n [] = Unit
CountsFrom n (i ∷ is) = (i % 1024 ≡ (n + 1) % 1024) × CountsFrom (n + 1) is

counts_from :
    (draws : List (ℕ × ℕ)) (c n : ℕ)
    → c % 1024 ≡ n % 1024
    → All (λ i. i ≢ 0) (c ∷ ids draws (record { counter = c }))
    → CountsFrom n (ids draws (record { counter = c }))
unfolding ids next
counts_from [] c n e h = tt
counts_from ((seed, high) ∷ draws) c n e (h, hs) =
    let id = (next seed high (record { counter = c })).1 in
    let low : id % 1024 ≡ (n + 1) % 1024 = omega (arith, next_value seed high c h) in
    (low, counts_from draws id (n + 1) low hs)

abbrev pub Distinct : List ℕ → Type 0
Distinct [] = Unit
Distinct (i ∷ is) = All (λ j. i ≢ j) is × Distinct is

ne_later :
    (is : List ℕ) (i n k : ℕ)
    → i % 1024 ≡ (n + 1) % 1024
    → CountsFrom (n + 1 + k) is
    → k + length is < 1024
    → All (λ j. i ≢ j) is
ne_later [] i n k e c h = tt
ne_later (j ∷ is) i n k e (cj, c) h = (
  (λ p. absurd (omega (arith, ap (λ (t : ℕ). t % 1024) p))),
  ne_later is i n (k + 1) e (let q : n + 1 + k + 1 ≡ n + 1 + (k + 1) = omega arith in rw q at c)
      (omega arith),
)

CountsFrom-Distinct : (is : List ℕ) (n : ℕ) → CountsFrom n is → length is ≤ 1024 → Distinct is
CountsFrom-Distinct [] n c h = tt
CountsFrom-Distinct (i ∷ is) n (ci, c) h = (
  ne_later is i n 0 ci (let q : n + 1 ≡ n + 1 + 0 = omega arith in rw q at c) (omega arith),
  CountsFrom-Distinct is (n + 1) c (omega arith),
)

-- The ids of at most 1024 successive packets all differ, and their low ten bits count up by one
-- from the counter, provided that neither the counter before them nor one of the ids is 0.
pub ids-Distinct :
    (draws : List (ℕ × ℕ)) (c : ℕ)
    → All (λ i. i ≢ 0) (c ∷ ids draws (record { counter = c }))
    → length (ids draws (record { counter = c })) ≤ 1024
    → Distinct (ids draws (record { counter = c }))
      × CountsFrom c (ids draws (record { counter = c }))
ids-Distinct draws c h le =
    let counts = counts_from draws c c refl h in
    (CountsFrom-Distinct (ids draws (record { counter = c })) c counts le, counts)
