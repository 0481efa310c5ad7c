-- ===== src/Beacon.antt =====
-- core/beacon.go and the limits of core/constants.go that it uses. A nil beacon is `none`.
pub mod Limits
mod Examples
use meshtastic_go.Common.{
  ℕ, zero, suc, ◌+◌, ◌-◌, ◌*◌, ◌/◌, ◌%◌, ◌^◌, ◌≤◌, ◌<◌, bit_and, bit_or, bit_xor, ◌≡◌, refl, sym,
  ap, ◌∙◌, ◌≢◌, ◌↔◌, ◌⊎◌, inl, inr, Bool, true, false, not, ◌&&◌, ◌||◌, Option, none, some, List,
  [], ◌∷◌, ◌++◌, map, arith, ltb, leb, ◌==◌, if◌then◌else◌, bool_eq, ==_iff, ==_refl, Bool-cases,
  Option-cases, is_some, length, get_elem?, get_or, take, drop, replicate, select, find_first, All,
  length-append, Bytes, bytes_eq, bytes_eq_iff, bytes_eq_refl, text,
}
use meshtastic_go.Proto.{MeshBeacon, ChannelSettings}

abbrev pub max_mesh_beacon_message : ℕ
max_mesh_beacon_message = 100

abbrev pub max_channel_name : ℕ
max_channel_name = 11

abbrev pub max_channel_psk : ℕ
max_channel_psk = 32

unfoldable pub mesh_beacon_has_offer : Option MeshBeacon → Bool
mesh_beacon_has_offer none = false
mesh_beacon_has_offer (some b) =
    is_some b.offer_channel || not (b.offer_region == 0) || is_some b.offer_preset

abbrev pub offer_fits : Option ChannelSettings → Bool
offer_fits none = true
offer_fits (some ch) =
    if ltb max_channel_name (length ch.name)
    then false
    else if ltb max_channel_psk (length ch.psk)
    then false
    else true

-- `true` is a nil error.
unfoldable pub validate_mesh_beacon : Option MeshBeacon → Bool
unfolding mesh_beacon_has_offer
validate_mesh_beacon none = false
validate_mesh_beacon (some b) =
    if ltb max_mesh_beacon_message (length b.message)
    then false
    else if not (offer_fits b.offer_channel)
    then false
    else if length b.message == 0 && not (mesh_beacon_has_offer (some b))
    then false
    else true
