-- ===== src/Crypto/Keys.antt =====
-- core/crypto/keys.go: the family of channel keys and the channel hash.
pub mod Laws
mod Examples
use meshtastic_go.Common.{
  ℕ, zero, suc, ◌+◌, ◌-◌, ◌*◌, ◌/◌, ◌%◌, ◌^◌, ◌≤◌, ◌<◌, bit_and, bit_or, bit_xor, ◌≡◌, refl, sym,
  ap, ◌∙◌, ◌≢◌, ◌↔◌, ◌⊎◌, inl, inr, Bool, true, false, not, ◌&&◌, ◌||◌, Option, none, some, List,
  [], ◌∷◌, ◌++◌, map, arith, ltb, leb, ◌==◌, if◌then◌else◌, bool_eq, ==_iff, ==_refl, Bool-cases,
  Option-cases, is_some, length, get_elem?, get_or, take, drop, replicate, select, find_first, All,
  length-append, Bytes, bytes_eq, bytes_eq_iff, bytes_eq_refl, text,
}
use mathlib.Core.List.{foldl}

abbrev pub public_key_size : ℕ
public_key_size = 32

abbrev pub default_key : Bytes
default_key =
    0xd4 ∷ 0xf1 ∷ 0xbb ∷ 0x3a ∷ 0x20 ∷ 0x29 ∷ 0x07 ∷ 0x59 ∷ 0xf0 ∷ 0xbc ∷ 0xff ∷ 0xab ∷ 0xcf ∷ 0x4e
    ∷ 0x69 ∷ 0x01 ∷ []

-- `expanded` with its last byte moved by `index - 1`, in 8 bits
abbrev pub indexed_key : ℕ → Bytes
indexed_key index =
    take 15 default_key ++ (((get_or default_key 15 0 + (index + 256 - 1) % 256) % 256) ∷ [])

-- `make([]byte, n)` with a copy of `input` at its front
abbrev pub padded : ℕ → Bytes → Bytes
padded n input = take n (input ++ replicate n 0)

unfoldable pub expand_short_psk : Bytes → Bytes
expand_short_psk [] = default_key
expand_short_psk (index ∷ []) = if index == 0 then [] else indexed_key index
expand_short_psk (b ∷ c ∷ rest) =
    let input = b ∷ c ∷ rest in if leb 16 (length input) then input else padded 16 input

unfoldable pub try_compact_key : Bytes → Bytes
try_compact_key key =
    if not (length key == length default_key)
    then key
    else if not (bytes_eq (take 15 key) (take 15 default_key))
    then key
    else let diff = (get_or key 15 0 + 256 - get_or default_key 15 0) % 256 in
      ((diff + 1) % 256) ∷ []

unfoldable pub xor_hash : Bytes → ℕ
xor_hash p = foldl bit_xor 0 p

unfoldable pub channel_hash : Bytes → Bytes → ℕ
unfolding xor_hash
channel_hash channel_name channel_key = bit_xor (xor_hash channel_name) (xor_hash channel_key)

-- The three keys of index `i` in GenerateWeakKeys.
unfoldable pub weak_key_16 : ℕ → Bytes
weak_key_16 i = take 15 default_key ++ (((get_or default_key 15 0 + i + 256 - 1) % 256) ∷ [])

unfoldable pub weak_key_24 : ℕ → Bytes
weak_key_24 i = take 23 (padded 24 default_key) ++ ((i % 256) ∷ [])

unfoldable pub weak_key_32 : ℕ → Bytes
weak_key_32 i = take 31 (padded 32 default_key) ++ ((i % 256) ∷ [])

abbrev pub indices : ℕ → ℕ → List ℕ
indices zero i = []
indices (suc n) i = i ∷ indices n (i + 1)

unfoldable pub generate_weak_keys : List Bytes
unfolding weak_key_16 weak_key_24 weak_key_32
generate_weak_keys =
    map weak_key_16 (indices 256 0)
    ++ (map weak_key_24 (indices 256 0) ++ map weak_key_32 (indices 256 0))
