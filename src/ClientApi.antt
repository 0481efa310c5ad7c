-- ===== src/ClientApi.antt =====
-- device/clientapi: the server of a node's clients. What goes to the connection of a client is
-- recorded, oldest first; `true` is a write without an error. The reader and the writer of a
-- connection are separate.
pub mod Table
pub mod Subscribers
mod Examples
use meshtastic_go.Common.{
  ℕ, zero, suc, ◌+◌, ◌-◌, ◌*◌, ◌/◌, ◌%◌, ◌^◌, ◌≤◌, ◌<◌, bit_and, bit_or, bit_xor, ◌≡◌, refl, sym,
  ap, ◌∙◌, ◌≢◌, ◌↔◌, ◌⊎◌, inl, inr, Bool, true, false, not, ◌&&◌, ◌||◌, Option, none, some, List,
  [], ◌∷◌, ◌++◌, map, arith, ltb, leb, ◌==◌, if◌then◌else◌, bool_eq, ==_iff, ==_refl, Bool-cases,
  Option-cases, is_some, length, get_elem?, get_or, take, drop, replicate, select, find_first, All,
  length-append, Bytes, bytes_eq, bytes_eq_iff, bytes_eq_refl, text,
}
use meshtastic_go.Channel.{
  ChannelDef, same_channel, lookup_hash, channel_from_settings, channel_def,
}
use meshtastic_go.Device.Base.{Env, BaseState, send_packet_on, send_packet}
use meshtastic_go.Device.Config.{BaseConfig}
use meshtastic_go.Device.Node.{private_hw, settings_def}
use meshtastic_go.Lora.Regions.{regions, region_preset_map}
use meshtastic_go.NodeDb.{NodeDb, channel_of, all_nodes, self_info}
use meshtastic_go.NodeId.Text.{string}
use meshtastic_go.PacketId.{next}
use meshtastic_go.Proto.{
  ChannelSettings, NodeInfo, Data, empty_data, MeshPacket, empty_packet, decoded, get_decoded,
  ProtoCodec, Ciphers, admin_app, PresetGroup, RegionPresets, MyNodeInfo, DeviceMetadata,
  ChannelSlot, role_disabled, role_primary, role_secondary, device_config, FromRadio, radio_my_info,
  radio_metadata, radio_region_presets, radio_node_info, radio_channel, radio_config,
  radio_config_complete_id, radio_packet, ToRadio, to_radio_packet, to_radio_want_config_id,
  to_radio_disconnect, to_radio_other,
}

abbrev pub min_app_version : ℕ
min_app_version = 30_200

abbrev pub subscriber_buffer_size : ℕ
subscriber_buffer_size = 16

abbrev pub max_channels : ℕ
max_channels = 8

-- The Config of the server. Its node database and its packet ids are the node's.
pub record ServerConfig : Type 0 where
  pub node_id : ℕ
  pub channels : List ChannelSettings
  pub node_info_broadcast_secs : ℕ

-- The loop of channelIndexFor from an index on.
unfoldable pub index_from : ChannelDef → ℕ → List ChannelSettings → ℕ
unfolding same_channel channel_from_settings channel_def
index_from ch i [] = 0
index_from ch i (settings ∷ l) =
    let rest = index_from ch (suc i) l in
    if leb max_channels i
    then 0
    else if same_channel (settings_def settings) (some ch)
    then i
    else rest

abbrev pub index_of : Option ChannelDef → List ChannelSettings → ℕ
index_of none l = 0
index_of (some ch) l = index_from ch 0 l

unfoldable pub channel_index_for : ServerConfig → NodeDb → ℕ → ℕ
unfolding channel_of index_from
channel_index_for cfg db id = index_of (channel_of id db) cfg.channels

abbrev empty_settings : ChannelSettings
empty_settings = record { name = []; psk = []; position_precision = 0 }

abbrev pub slot : ℕ → Option ChannelSettings → ChannelSlot
slot i none = record { index = i; settings = some empty_settings; role = role_disabled }
slot i (some settings) = record {
  index = i;
  settings = some settings;
  role = (if i == 0 then role_primary else role_secondary);
}

-- The slots from an index on, as many as asked for.
unfoldable pub slots_from : ℕ → ℕ → List ChannelSettings → List ChannelSlot
slots_from i zero l = []
slots_from i (suc n) l = slot i (get_elem? l i) ∷ slots_from (suc i) n l

unfoldable pub channel_table : ServerConfig → List ChannelSlot
unfolding slots_from
channel_table cfg = slots_from 0 max_channels cfg.channels

abbrev pub my_info : ServerConfig → MyNodeInfo
my_info cfg = record {
  my_node_num = cfg.node_id;
  reboot_count = 0;
  min_app_version = min_app_version;
}

abbrev pub server_metadata : DeviceMetadata
server_metadata = record {
  firmware_version = text "2.2.19-emulated";
  device_state_version = 22;
  can_shutdown = true;
  has_wifi = true;
  has_bluetooth = true;
  hw_model = private_hw;
}

abbrev pub indexed : ServerConfig → NodeDb → NodeInfo → NodeInfo
indexed cfg db info = record info { channel = channel_index_for cfg db info.num }

-- The messages of handleHandshake, in their order: what comes before the known nodes, these, the
-- channel table, and the end.
abbrev pub greeting : List PresetGroup → List RegionPresets → ServerConfig → NodeDb → List FromRadio
greeting groups region_groups cfg db =
    radio_my_info (my_info cfg)
    ∷ radio_metadata server_metadata
    ∷ radio_region_presets groups region_groups
    ∷ radio_node_info (self_info string db)
    ∷ []

abbrev pub known_nodes : ServerConfig → NodeDb → List FromRadio
known_nodes cfg db = map (λ info. radio_node_info (indexed cfg db info)) (all_nodes db)

abbrev pub ending : ServerConfig → ℕ → List FromRadio
ending cfg config_id =
    radio_config (device_config true cfg.node_info_broadcast_secs)
    ∷ radio_config_complete_id config_id
    ∷ []

abbrev pub handshake_with :
    List PresetGroup → List RegionPresets → ServerConfig → NodeDb → ℕ → List FromRadio
handshake_with groups region_groups cfg db config_id =
    greeting groups region_groups cfg db
    ++ (known_nodes cfg db ++ (map radio_channel (channel_table cfg) ++ ending cfg config_id))

unfoldable pub handshake : ServerConfig → NodeDb → ℕ → List FromRadio
unfolding channel_table channel_index_for self_info all_nodes region_preset_map string
handshake cfg db config_id =
    handshake_with (region_preset_map regions).groups (region_preset_map regions).region_groups cfg
      db config_id

-- Writes until one fails.
unfoldable pub write_each : (FromRadio → Bool) → List FromRadio → List FromRadio × Bool
write_each writes [] = ([], true)
write_each writes (msg ∷ l) =
    let (rest, sent) = write_each writes l in if writes msg then (msg ∷ rest, sent) else ([], false)

-- What goes on after a message of the client: the next one, or the end, without or with an error.
pub data Turn : Type 0 where
  goes_on closes fails : Turn

pub record Session : Type 0 where
  pub base : BaseState
  pub written : List FromRadio

abbrev append_written : List FromRadio × Bool → Session → Session × Turn
append_written (msgs, sent) s =
    (record s { written = s.written ++ msgs }, if sent then goes_on else fails)

pub data AdminRequest : Type 0 where
  get_channel_request other_request : AdminRequest

-- The part of google.golang.org/protobuf for admin messages: the request in a payload, and the
-- payload of a response about a channel.
pub record AdminCodec : Type 0 where
  pub unmarshal_admin : Bytes → Option AdminRequest
  pub marshal_channel_response : ChannelSlot → Option Bytes

module _ (admin : AdminCodec) (cfg : ServerConfig) where
  abbrev admin_response : ℕ → ℕ → Bytes → MeshPacket
  admin_response id request_id payload = record empty_packet {
    id = id;
    from = cfg.node_id;
    to = cfg.node_id;
    payload_variant =
        decoded
          (record empty_data { portnum = admin_app; payload = payload; request_id = request_id });
  }

  abbrev answer_admin : (FromRadio → Bool) → Env → ℕ → Option Bytes → Session → Session × Turn
  answer_admin writes env request_id none s = (s, fails)
  answer_admin writes env request_id (some payload) s =
      let (ids, id) = next env.seed env.high s.base.packet_ids in
      append_written (write_each writes (radio_packet (admin_response id request_id payload) ∷ []))
        (record s { base = record s.base { packet_ids = ids } })

  abbrev admin_turn : (FromRadio → Bool) → Env → ℕ → Option AdminRequest → Session → Session × Turn
  admin_turn writes env request_id none s = (s, fails)
  admin_turn writes env request_id (some other_request) s = (s, goes_on)
  admin_turn writes env request_id (some get_channel_request) s =
      answer_admin writes env request_id (admin.marshal_channel_response (slot 0 none)) s

  unfoldable pub handle_admin_message :
      (FromRadio → Bool) → Env → ℕ → Data → Session → Session × Turn
  unfolding next write_each
  handle_admin_message writes env request_id d s =
      admin_turn writes env request_id (admin.unmarshal_admin d.payload) s

  abbrev admin_data : Option Data → Option Data
  admin_data none = none
  admin_data (some d) = if d.portnum == admin_app then some d else none

  -- OnOutboundPacket of a Node, from device/node/node.go.
  unfoldable pub on_outbound_packet :
      ProtoCodec → Ciphers → BaseConfig → Env → MeshPacket → BaseState → BaseState
  unfolding lookup_hash send_packet_on send_packet
  on_outbound_packet codec c b env pkt st = elim (lookup_hash pkt.channel st.channels) [
    | none ↦ (send_packet codec c b env pkt [] st).0
    | some ch ↦ (send_packet_on codec c b env pkt ch st).0
  ]

  abbrev forward_or_admin :
      ProtoCodec
      → Ciphers
      → BaseConfig
      → (FromRadio → Bool)
      → Env
      → MeshPacket
      → Option Data
      → Session
      → Session × Turn
  forward_or_admin codec c b writes env pkt none s =
      (record s { base = on_outbound_packet codec c b env pkt s.base }, goes_on)
  forward_or_admin codec c b writes env pkt (some d) s = handle_admin_message writes env pkt.id d s

  -- One turn of the reader of a connection.
  unfoldable pub handle_to_radio :
      ProtoCodec
      → Ciphers
      → BaseConfig
      → (FromRadio → Bool)
      → Env
      → ToRadio
      → Session
      → Session × Turn
  unfolding handshake write_each handle_admin_message on_outbound_packet
  handle_to_radio codec c b writes env to_radio_disconnect s = (s, closes)
  handle_to_radio codec c b writes env (to_radio_want_config_id config_id) s =
      append_written (write_each writes (handshake cfg s.base.db config_id)) s
  handle_to_radio codec c b writes env (to_radio_packet pkt) s =
      forward_or_admin codec c b writes env pkt (admin_data (get_decoded pkt.payload_variant)) s
  handle_to_radio codec c b writes env (to_radio_other bs) s = (s, goes_on)
