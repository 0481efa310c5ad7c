-- ===== src/NodeId.antt =====
-- core/node_id.go: node identifiers, as 32-bit numbers.
pub mod Text
use meshtastic_go.Common.{
  ℕ, zero, suc, ◌+◌, ◌-◌, ◌*◌, ◌/◌, ◌%◌, ◌^◌, ◌≤◌, ◌<◌, bit_and, bit_or, bit_xor, ◌≡◌, refl, sym,
  ap, ◌∙◌, ◌≢◌, ◌↔◌, ◌⊎◌, inl, inr, Bool, true, false, not, ◌&&◌, ◌||◌, Option, none, some, List,
  [], ◌∷◌, ◌++◌, map, arith, ltb, leb, ◌==◌, if◌then◌else◌, bool_eq, ==_iff, ==_refl, Bool-cases,
  Option-cases, is_some, length, get_elem?, get_or, take, drop, replicate, select, find_first, All,
  length-append, Bytes, bytes_eq, bytes_eq_iff, bytes_eq_refl, text,
}
use Prim.Native.Nat.{min}
use meshtastic_go.Common.Endian.{le_bytes}
use meshtastic_go.Crypto.Keys.{public_key_size}

abbrev pub broadcast_node_id : ℕ
broadcast_node_id = 0xFFFF_FFFF

abbrev pub broadcast_node_id_no_lora : ℕ
broadcast_node_id_no_lora = 1

abbrev pub reserved_node_id_threshold : ℕ
reserved_node_id_threshold = 4

unfoldable pub is_broadcast : ℕ → Bool
is_broadcast n = n == broadcast_node_id || n == broadcast_node_id_no_lora

unfoldable pub is_reserved_id : ℕ → Bool
unfolding is_broadcast
is_reserved_id n = ltb n reserved_node_id_threshold || is_broadcast n

-- hash/crc32 with the IEEE polynomial, bit by bit.
abbrev crc_bits : ℕ → ℕ → ℕ
crc_bits zero crc = crc
crc_bits (suc k) crc = crc_bits k (if crc % 2 == 1 then bit_xor (crc / 2) 0xEDB8_8320 else crc / 2)

abbrev crc_bytes : Bytes → ℕ → ℕ
crc_bytes [] crc = crc
crc_bytes (b ∷ bs) crc = crc_bytes bs (crc_bits 8 (bit_xor crc b))

unfoldable pub checksum_ieee : Bytes → ℕ
checksum_ieee bs = bit_xor (crc_bytes bs 0xFFFF_FFFF) 0xFFFF_FFFF

unfoldable pub node_id_from_public_key : Bytes → Option ℕ
unfolding checksum_ieee
node_id_from_public_key key =
    if not (length key == public_key_size) then none else some (checksum_ieee key)

abbrev is_id : Option ℕ → ℕ → Bool
is_id none n = false
is_id (some derived) n = derived == n

unfoldable pub matches_public_key : ℕ → Bytes → Bool
unfolding node_id_from_public_key
matches_public_key n key = is_id (node_id_from_public_key key) n

crc_check : checksum_ieee (text "123456789") ≡ 0xCBF4_3926
unfolding checksum_ieee
crc_check = refl
