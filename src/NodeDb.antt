-- ===== src/NodeDb.antt =====
-- device/nodedb/nodedb.go: NodeDB. A clone of a message is the same value. `now` is the clock in
-- Unix seconds.
pub mod Updates
use meshtastic_go.Common.{
  ℕ, zero, suc, ◌+◌, ◌-◌, ◌*◌, ◌/◌, ◌%◌, ◌^◌, ◌≤◌, ◌<◌, bit_and, bit_or, bit_xor, ◌≡◌, refl, sym,
  ap, ◌∙◌, ◌≢◌, ◌↔◌, ◌⊎◌, inl, inr, Bool, true, false, not, ◌&&◌, ◌||◌, Option, none, some, List,
  [], ◌∷◌, ◌++◌, map, arith, ltb, leb, ◌==◌, if◌then◌else◌, bool_eq, ==_iff, ==_refl, Bool-cases,
  Option-cases, is_some, length, get_elem?, get_or, take, drop, replicate, select, find_first, All,
  length-append, Bytes, bytes_eq, bytes_eq_iff, bytes_eq_refl, text,
}
use meshtastic_go.Common.Dict.{Dict, nat_eq, lookup, insert, delete}
use meshtastic_go.Proto.{
  NodeInfo, new_node_info, Data, MeshPacket, Payload, decoded, encrypted, unset, Telemetry,
  TelemetryVariant, device_metrics, DeviceMetrics, ProtoCodec, Ciphers, nodeinfo_app, position_app,
  telemetry_app, empty_user, User,
}
use meshtastic_go.Channel.{ChannelDef}
use meshtastic_go.Crypto.Packet.{Outcome, ok, xor}

pub record NodeDb : Type 0 where
  pub self_node : ℕ
  pub long_name : Bytes
  pub short_name : Bytes
  pub nodes : Dict ℕ NodeInfo
  pub channels : Dict ℕ ChannelDef

unfoldable pub set_channel : ℕ → Option ChannelDef → NodeDb → NodeDb
set_channel node_id none db = record db { channels = delete node_id db.channels }
set_channel node_id (some ch) db = record db { channels = insert node_id ch db.channels }

unfoldable pub channel_of : ℕ → NodeDb → Option ChannelDef
channel_of node_id db = lookup node_id db.channels

abbrev pub or_new : ℕ → Option NodeInfo → NodeInfo
or_new node_id none = new_node_info node_id
or_new node_id (some info) = info

unfoldable pub update : ℕ → ℕ → (NodeInfo → NodeInfo) → NodeDb → NodeDb
update now node_id fn db =
    let info = fn (or_new node_id (lookup node_id db.nodes)) in
    record db { nodes = insert node_id (record info { last_heard = now % 2 ^ 32 }) db.nodes }

unfoldable pub get : ℕ → NodeDb → Option NodeInfo
get node_id db = lookup node_id db.nodes

unfoldable pub all_nodes : NodeDb → List NodeInfo
all_nodes db = map (λ e. e.1) db.nodes

-- `n.String()` is an argument.
unfoldable pub self_info : (ℕ → Bytes) → NodeDb → NodeInfo
self_info node_string db = record (new_node_info db.self_node) {
  user = some (record empty_user {
    id = node_string db.self_node;
    long_name = db.long_name;
    short_name = db.short_name;
  });
}

-- `tel.GetDeviceMetrics()`
abbrev pub get_device_metrics : TelemetryVariant → Option DeviceMetrics
get_device_metrics (device_metrics m) = some m
get_device_metrics _ = none

module _ (codec : ProtoCodec) (c : Ciphers) where
  -- The switch of ProcessPacket on the port.
  unfoldable pub process_data : ℕ → ℕ → Data → NodeDb → NodeDb × Bool
  process_data now from d db =
      if d.portnum == nodeinfo_app
      then elim (codec.unmarshal_user d.payload) [
        | none ↦ (db, false)
        | some user ↦ (update now from (λ info. record info { user = some user }) db, true)
      ]
      else if d.portnum == position_app
      then elim (codec.unmarshal_position d.payload) [
        | none ↦ (db, false)
        | some pos ↦ (update now from (λ info. record info { position = some pos }) db, true)
      ]
      else if d.portnum == telemetry_app
      then elim (codec.unmarshal_telemetry d.payload) [
        | none ↦ (db, false)
        | some tel ↦ elim (get_device_metrics tel.variant) [
          | none ↦ (db, false)
          | some m ↦ (update now from (λ info. record info { device_metrics = some m }) db, true)
        ]
      ]
      else (db, false)

  process_plain : ℕ → ℕ → Outcome Bytes → NodeDb → NodeDb × Bool
  unfolding process_data
  process_plain now from (ok plain) db = elim (codec.unmarshal_data plain) [
    | none ↦ (db, false)
    | some d ↦ process_data now from d db
  ]
  process_plain now from _ db = (db, false)

  process_payload : ℕ → Payload → MeshPacket → Bytes → NodeDb → NodeDb × Bool
  unfolding process_plain xor
  process_payload now (decoded d) pkt psk db = process_data now pkt.from d db
  process_payload now (encrypted b) pkt psk db =
      process_plain now pkt.from (xor c b psk pkt.id pkt.from) db
  process_payload now unset pkt psk db = (db, false)

  unfoldable pub process_packet : ℕ → MeshPacket → Bytes → NodeDb → NodeDb × Bool
  unfolding process_payload
  process_packet now pkt psk db = process_payload now pkt.payload_variant pkt psk db
