-- ===== src/NodeId/Text/RoundTrip.antt =====
-- A printed node id is read back.
use meshtastic_go.Common.{
  ℕ, zero, suc, ◌+◌, ◌*◌, ◌/◌, ◌%◌, ◌^◌, ◌<◌, ◌≡◌, refl, ap, ◌∙◌, false, Option, none, some, [],
  ◌∷◌, ◌++◌, arith, drop, Bytes,
}
use native.Mathlib.Nat.{pow-suc}
use meshtastic_go.NodeId.Text.{
  hex_digit, hex, string, digit_value, shift_in, parse_digits, parse_uint, is_space, trim_left,
  reverse_onto, trim_space, parse_trimmed, parse_node_id,
}

digit_value-hex_digit : (d : ℕ) → d < 16 → digit_value 16 (hex_digit d) ≡ some d
digit_value-hex_digit d h = ground arith

parse_digits-append :
    (cs ds : Bytes) (o : Option ℕ)
    → parse_digits 16 (cs ++ ds) o ≡ parse_digits 16 ds (parse_digits 16 cs o)
parse_digits-append cs [] none = refl
parse_digits-append cs (d ∷ ds) none = refl
parse_digits-append [] ds (some n) = refl
parse_digits-append (x ∷ cs) ds (some n) =
    parse_digits-append cs ds (shift_in 16 (digit_value 16 x) n)

shifted : (acc k : ℕ) → acc * 16 ^ suc k ≡ 16 * (acc * 16 ^ k)
shifted acc k = omega (arith, ap (λ (t : ℕ). acc * t) (pow-suc 16 k))

last_digit :
    (acc d : ℕ)
    → d < 16
    → acc * 16 + d < 2 ^ 32
    → parse_digits 16 (hex_digit d ∷ []) (some acc) ≡ some (acc * 16 + d)
last_digit acc d h q =
    ap (λ o. parse_digits 16 [] (shift_in 16 o acc)) (digit_value-hex_digit d h) ∙ ground arith

-- Reading k printed digits shifts them into what was read before.
parse_digits-hex :
    (k n acc : ℕ)
    → n < 16 ^ k
    → acc * 16 ^ k + n < 2 ^ 32
    → parse_digits 16 (hex k n) (some acc) ≡ some (acc * 16 ^ k + n)
unfolding hex
parse_digits-hex zero n acc p q = ground arith
parse_digits-hex (suc k) n acc p q =
    let read : parse_digits 16 (hex k (n / 16)) (some acc) ≡ some (acc * 16 ^ k + n / 16) =
      parse_digits-hex k (n / 16) acc (omega (arith, pow-suc 16 k))
        (omega (arith, shifted acc k)) in
    parse_digits-append (hex k (n / 16)) (hex_digit (n % 16) ∷ []) (some acc)
    ∙ (ap (parse_digits 16 (hex_digit (n % 16) ∷ [])) read
        ∙ (last_digit (acc * 16 ^ k + n / 16) (n % 16) (omega arith) (omega (arith, shifted acc k))
            ∙ ap some (omega (arith, shifted acc k))))

visible-hex_digit : (d : ℕ) → d < 16 → is_space (hex_digit d) ≡ false
visible-hex_digit d h = ground arith

trim_left-visible : (ch : ℕ) (cs : Bytes) → is_space ch ≡ false → trim_left (ch ∷ cs) ≡ ch ∷ cs
trim_left-visible ch cs h = rw h refl

trim_space-string : (n : ℕ) → trim_space (string n) ≡ string n
unfolding trim_space string hex
trim_space-string n =
    ap (λ l. reverse_onto l [])
      (trim_left-visible (hex_digit (n % 16)) (drop 1 (reverse_onto (string n) []))
        (visible-hex_digit (n % 16) (omega arith)))

parse_trimmed-string : (n : ℕ) → n < 2 ^ 32 → parse_trimmed (string n) ≡ some n
unfolding parse_trimmed parse_uint string hex
parse_trimmed-string n h =
    parse_digits-hex 8 n 0 (omega arith) (omega arith) ∙ ap some (omega arith)

-- A node id that is printed and then parsed is the same node id.
pub parse_node_id-string : (n : ℕ) → n < 2 ^ 32 → parse_node_id (string n) ≡ some n
unfolding parse_node_id
parse_node_id-string n h = ap parse_trimmed (trim_space-string n) ∙ parse_trimmed-string n h
