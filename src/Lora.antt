-- ===== src/Lora.antt =====
-- core/lora/priority.go and core/lora/precision.go. A child is about core/lora/regions.go.
pub mod Regions
pub mod Cells
mod Examples
use meshtastic_go.Common.{
  ℕ, ◌+◌, ◌-◌, ◌*◌, ◌%◌, ◌^◌, bit_and, Bool, not, ◌||◌, Option, none, some, List, [], ◌∷◌, ltb, leb,
  get_or, ◌==◌, if◌then◌else◌,
}
use meshtastic_go.Proto.{Data, text_message_app, routing_app, admin_app}

-- Values of MeshPacket_Priority in core/proto/mesh.pb.go.
abbrev pub priority_unset : ℕ
priority_unset = 0

abbrev pub priority_background : ℕ
priority_background = 10

abbrev pub priority_default : ℕ
priority_default = 64

abbrev pub priority_reliable : ℕ
priority_reliable = 70

abbrev pub priority_response : ℕ
priority_response = 80

abbrev pub priority_high : ℕ
priority_high = 100

abbrev pub priority_ack : ℕ
priority_ack = 120

abbrev pub unanswered : Bool → ℕ
unanswered want_ack = if want_ack then priority_reliable else priority_default

unfoldable pub get_priority : Option Data → Bool → ℕ
get_priority none want_ack = unanswered want_ack
get_priority (some d) want_ack =
    if d.portnum == routing_app
    then priority_ack
    else if d.portnum == text_message_app || d.portnum == admin_app
    then priority_high
    else if not (d.request_id == 0)
    then priority_response
    else if d.want_response
    then priority_reliable
    else unanswered want_ack

-- `^uint32(0) << (32 - precision)`
abbrev pub cell_mask : ℕ → ℕ
cell_mask precision = 0xFFFF_FFFF * 2 ^ (32 - precision) % 2 ^ 32

-- A coordinate is the 32-bit pattern of an int32.
unfoldable pub truncate_coordinate : ℕ → ℕ → ℕ
truncate_coordinate coordinate precision =
    if precision == 0 || leb 32 precision
    then coordinate
    else (bit_and coordinate (cell_mask precision) + 2 ^ (31 - precision)) % 2 ^ 32

-- PrecisionBitsToMeters: a table with an entry for each number of bits from 2 to 24, and 32.
abbrev bits_to_meters : List ℕ
bits_to_meters =
    5_976_446 ∷ 2_988_223 ∷ 1_494_111 ∷ 747_055 ∷ 373_527 ∷ 186_763 ∷ 93_381 ∷ 46_690 ∷ 23_345
    ∷ 11_672 ∷ 5_836 ∷ 2_918 ∷ 1_459 ∷ 729 ∷ 364 ∷ 182 ∷ 91 ∷ 45 ∷ 22 ∷ 11 ∷ 5 ∷ 2 ∷ 1 ∷ []

unfoldable pub precision_bits_to_meters : ℕ → ℕ
precision_bits_to_meters bits = if ltb bits 2 then 0 else get_or bits_to_meters (bits - 2) 0

-- The thresholds of MetersToPrecisionBits, in whole metres, as the table has them.
abbrev meters_to_thresholds : List (ℕ × ℕ)
meters_to_thresholds =
    (23_300, 10)
    ∷ (11_700, 11)
    ∷ (5_800, 12)
    ∷ (2_900, 13)
    ∷ (1_500, 14)
    ∷ (729, 15)
    ∷ (364, 16)
    ∷ (182, 17)
    ∷ (91, 18)
    ∷ (45, 19)
    ∷ []

abbrev first_covered : ℕ → List (ℕ × ℕ) → ℕ
first_covered meters [] = 20
first_covered meters ((threshold, bits) ∷ l) =
    let rest = first_covered meters l in if leb threshold meters then bits else rest

-- For a whole number of metres, which is not negative.
unfoldable pub meters_to_precision_bits : ℕ → ℕ
meters_to_precision_bits meters = first_covered meters meters_to_thresholds
