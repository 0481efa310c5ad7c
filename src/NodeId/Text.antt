-- ===== src/NodeId/Text.antt =====
-- core/node_id.go: the printed forms of a node id, ParseNodeID and the hardware addresses.
pub mod RoundTrip
mod Examples
use meshtastic_go.Common.{
  ℕ, zero, suc, ◌+◌, ◌-◌, ◌*◌, ◌/◌, ◌%◌, ◌^◌, ◌≤◌, ◌<◌, bit_and, bit_or, bit_xor, ◌≡◌, refl, sym,
  ap, ◌∙◌, ◌≢◌, ◌↔◌, ◌⊎◌, inl, inr, Bool, true, false, not, ◌&&◌, ◌||◌, Option, none, some, List,
  [], ◌∷◌, ◌++◌, map, arith, ltb, leb, ◌==◌, if◌then◌else◌, bool_eq, ==_iff, ==_refl, Bool-cases,
  Option-cases, is_some, length, get_elem?, get_or, take, drop, replicate, select, find_first, All,
  length-append, Bytes, bytes_eq, bytes_eq_iff, bytes_eq_refl, text,
}

-- `%02x`, `%04x` and `%08x`: lower-case digits, the most significant first.
abbrev pub hex_digit : ℕ → ℕ
hex_digit d = if ltb d 10 then 48 + d else 87 + d

unfoldable pub hex : ℕ → ℕ → Bytes
hex zero n = []
hex (suc k) n = hex k (n / 16) ++ (hex_digit (n % 16) ∷ [])

unfoldable pub string : ℕ → Bytes
unfolding hex
string n = 33 ∷ hex 8 n

-- Bytes: big-endian.
unfoldable pub bytes : ℕ → Bytes
bytes n = n / 2 ^ 24 % 256 ∷ n / 2 ^ 16 % 256 ∷ n / 2 ^ 8 % 256 ∷ n % 256 ∷ []

unfoldable pub hex_bytes : Bytes → Bytes
unfolding hex
hex_bytes [] = []
hex_bytes (b ∷ bs) = hex 2 b ++ hex_bytes bs

unfoldable pub default_short_name : ℕ → Bytes
unfolding hex_bytes bytes
default_short_name n = hex_bytes (drop 2 (bytes n))

unfoldable pub default_long_name : ℕ → Bytes
unfolding hex_bytes bytes
default_long_name n = text "Meshtastic " ++ hex_bytes (drop 2 (bytes n))

unfoldable pub mac_bytes : ℕ → Bytes
unfolding bytes
mac_bytes n = 0x0A ∷ 0 ∷ bytes n

-- The digit of a character in a base up to 36, as strconv.ParseUint reads it.
abbrev pub digit_value : ℕ → ℕ → Option ℕ
digit_value base ch =
    let v =
      if leb 48 ch && leb ch 57
      then ch - 48
      else if leb 97 ch && leb ch 122
      then ch - 87
      else if leb 65 ch && leb ch 90
      then ch - 55
      else base in
    if ltb v base then some v else none

abbrev pub shift_in : ℕ → Option ℕ → ℕ → Option ℕ
shift_in base none acc = none
shift_in base (some v) acc = if leb (2 ^ 32) (acc * base + v) then none else some (acc * base + v)

abbrev pub parse_digits : ℕ → Bytes → Option ℕ → Option ℕ
parse_digits base cs none = none
parse_digits base [] (some acc) = some acc
parse_digits base (ch ∷ cs) (some acc) =
    parse_digits base cs (shift_in base (digit_value base ch) acc)

-- `strconv.ParseUint(s, base, 32)`
unfoldable pub parse_uint : Bytes → ℕ → Option ℕ
parse_uint [] base = none
parse_uint (ch ∷ cs) base = parse_digits base (ch ∷ cs) (some 0)

abbrev pub is_space : ℕ → Bool
is_space ch = (leb 9 ch && leb ch 13) || ch == 32

abbrev pub trim_left : Bytes → Bytes
trim_left [] = []
trim_left (ch ∷ cs) = let rest = trim_left cs in if is_space ch then rest else ch ∷ cs

abbrev pub reverse_onto : Bytes → Bytes → Bytes
reverse_onto [] acc = acc
reverse_onto (ch ∷ cs) acc = reverse_onto cs (ch ∷ acc)

-- `strings.TrimSpace` of ASCII text.
unfoldable pub trim_space : Bytes → Bytes
trim_space s = reverse_onto (trim_left (reverse_onto (trim_left s) [])) []

-- `strings.ContainsAny(strings.ToLower(s), "abcdef")`
abbrev pub has_hex_letter : Bytes → Bool
has_hex_letter [] = false
has_hex_letter (ch ∷ cs) =
    (leb 97 ch && leb ch 102) || (leb 65 ch && leb ch 70) || has_hex_letter cs

abbrev or_hex : Bytes → Option ℕ → Option ℕ
or_hex s (some n) = some n
or_hex s none = if length s == 8 then parse_uint s 16 else none

abbrev pub parse_bare : Bytes → Option ℕ
parse_bare s = if has_hex_letter s then parse_uint s 16 else or_hex s (parse_uint s 10)

abbrev pub second_is_x : Bytes → Bool
second_is_x [] = false
second_is_x (ch ∷ cs) = ch == 120 || ch == 88

-- The text after `strings.TrimSpace`.
unfoldable pub parse_trimmed : Bytes → Option ℕ
unfolding parse_uint
parse_trimmed [] = none
parse_trimmed (ch ∷ cs) =
    if ch == 33
    then parse_uint cs 16
    else if ch == 48 && second_is_x cs
    then parse_uint (drop 1 cs) 16
    else parse_bare (ch ∷ cs)

unfoldable pub parse_node_id : Bytes → Option ℕ
unfolding trim_space parse_trimmed
parse_node_id s = parse_trimmed (trim_space s)
