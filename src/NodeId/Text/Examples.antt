-- ===== src/NodeId/Text/Examples.antt =====
-- Printed node ids.
use meshtastic_go.Common.{◌≡◌, refl, some, arith, text}
use meshtastic_go.NodeId.Text.{
  string, hex, parse_node_id, parse_trimmed, parse_uint, trim_space, default_long_name, hex_bytes,
  bytes,
}
use meshtastic_go.NodeId.Text.RoundTrip.{parse_node_id-string}

parse_node_id-string_example : parse_node_id (string 0xABCD_1234) ≡ some 0xABCD_1234
parse_node_id-string_example = parse_node_id-string 0xABCD_1234 (omega arith)

printed : string 0xABCD_1234 ≡ text "!abcd1234"
unfolding string hex
printed = refl

-- Eight decimal digits are read as a decimal number.
read_as_decimal : parse_node_id (text " 12345678") ≡ some 12_345_678
unfolding parse_node_id parse_trimmed parse_uint trim_space
read_as_decimal = refl

named : default_long_name 0xABCD_1234 ≡ text "Meshtastic 1234"
unfolding default_long_name hex_bytes bytes hex
named = refl
