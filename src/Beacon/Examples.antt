-- ===== src/Beacon/Examples.antt =====
-- A beacon at the limit of its message.
use meshtastic_go.Common.{◌≡◌, refl, true, none, some, [], ◌∷◌, replicate, text}
use meshtastic_go.Beacon.{validate_mesh_beacon}
use meshtastic_go.Proto.{MeshBeacon, ChannelSettings}

abbrev offered : ChannelSettings
offered = record { name = text "LongFast"; psk = 1 ∷ []; position_precision = 0 }

abbrev beacon : MeshBeacon
beacon = record {
  message = replicate 100 65;
  offer_channel = some offered;
  offer_region = 0;
  offer_preset = none;
}

beacon_is_valid : validate_mesh_beacon (some beacon) ≡ true
unfolding validate_mesh_beacon
beacon_is_valid = refl
