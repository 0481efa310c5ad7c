-- ===== src/Beacon/Limits.antt =====
-- What a beacon that passes validation has.
use meshtastic_go.Common.{◌≤◌, ◌<◌, ◌≡◌, ◌⊎◌, true, Option, none, some, arith, length}
use meshtastic_go.Beacon.{
  mesh_beacon_has_offer, offer_fits, validate_mesh_beacon, max_mesh_beacon_message,
  max_channel_name, max_channel_psk,
}
use meshtastic_go.Proto.{MeshBeacon, ChannelSettings}

-- The limits of the fixed-size buffers that a receiver decodes into.
abbrev pub Fits : Option ChannelSettings → Type 0
Fits none = Unit
Fits (some ch) = (length ch.name ≤ max_channel_name) × (length ch.psk ≤ max_channel_psk)

offer-Fits : (o : Option ChannelSettings) → offer_fits o ≡ true → Fits o
offer-Fits none h = tt
offer-Fits (some ch) h = (ground arith, ground arith)

-- A beacon that passes validation fits a receiver's buffers, and has a message or an offer.
validate-Fits :
    (b : MeshBeacon)
    → validate_mesh_beacon (some b) ≡ true
    → (length b.message ≤ max_mesh_beacon_message)
      × Fits b.offer_channel
      × ((0 < length b.message) ⊎ (mesh_beacon_has_offer (some b) ≡ true))
unfolding validate_mesh_beacon
validate-Fits b h = (ground arith, offer-Fits b.offer_channel (ground arith), ground arith)
