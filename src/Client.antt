-- ===== src/Client.antt =====
-- transport/client/state.go and transport.go: a client of a device. What the handlers of the application
-- are given is recorded, newest first.
pub mod Reconnect
pub mod Handshake
mod Examples
use meshtastic_go.Common.{
  ℕ, zero, suc, ◌+◌, ◌-◌, ◌*◌, ◌/◌, ◌%◌, ◌^◌, ◌≤◌, ◌<◌, bit_and, bit_or, bit_xor, ◌≡◌, refl, sym,
  ap, ◌∙◌, ◌≢◌, ◌↔◌, ◌⊎◌, inl, inr, Bool, true, false, not, ◌&&◌, ◌||◌, Option, none, some, List,
  [], ◌∷◌, ◌++◌, map, arith, ltb, leb, ◌==◌, if◌then◌else◌, bool_eq, ==_iff, ==_refl, Bool-cases,
  Option-cases, is_some, length, get_elem?, get_or, take, drop, replicate, select, find_first, All,
  length-append, Bytes, bytes_eq, bytes_eq_iff, bytes_eq_refl, text,
}
use meshtastic_go.Proto.{
  NodeInfo, MeshPacket, MyNodeInfo, DeviceMetadata, ChannelSlot, DeviceConfig, FromRadio,
  radio_my_info, radio_metadata, radio_region_presets, radio_node_info, radio_channel, radio_config,
  radio_module_config, radio_config_complete_id, radio_log_record, radio_mqtt_proxy,
  radio_queue_status, radio_xmodem, radio_rebooted, radio_packet,
}
use meshtastic_go.Transport.{ListenerEvent, connected, disconnected}

pub record DeviceState : Type 0 where
  pub complete : Bool
  pub config_id : ℕ
  pub node_info : Option MyNodeInfo
  pub device_metadata : Option DeviceMetadata
  pub nodes : List NodeInfo
  pub channels : List ChannelSlot
  pub configs : List DeviceConfig
  pub modules : List Bytes

-- The zero DeviceState, which Reset restores.
abbrev pub empty_state : DeviceState
empty_state = record {
  complete = false;
  config_id = 0;
  node_info = none;
  device_metadata = none;
  nodes = [];
  channels = [];
  configs = [];
  modules = [];
}

-- Transport of transport/client. `signalled` tells whether the channel of the running Connect has been
-- closed, and the two flags which handlers are installed.
pub record ClientTransport : Type 0 where
  pub state : DeviceState
  pub connected_flag : Bool
  pub signalled : Bool
  pub packet_handler : Bool
  pub state_handler : Bool
  pub handled : List FromRadio
  pub received : List MeshPacket
  pub told : List ListenerEvent

-- sendGetConfig, and the new channel of Connect. `r` is `rand.Uint32()`.
unfoldable pub request_config : ℕ → ClientTransport → ClientTransport
request_config r t = record t { state = record t.state { config_id = r }; signalled = false }

-- What a message of the handshake stores, by its kind: SetNodeInfo, SetDeviceMetadata, AddNode,
-- AddChannel, AddConfig and AddModule.
unfoldable pub store : FromRadio → DeviceState → DeviceState
store (radio_my_info info) s = record s { node_info = some info }
store (radio_metadata m) s = record s { device_metadata = some m }
store (radio_node_info node) s = record s { nodes = s.nodes ++ (node ∷ []) }
store (radio_channel ch) s = record s { channels = s.channels ++ (ch ∷ []) }
store (radio_config cfg) s = record s { configs = s.configs ++ (cfg ∷ []) }
store (radio_module_config cfg) s = record s { modules = s.modules ++ (cfg ∷ []) }
store (radio_config_complete_id id) s = record s { complete = true }
store (radio_region_presets groups rs) s = s
store (radio_log_record bs) s = s
store (radio_mqtt_proxy bs) s = s
store (radio_queue_status bs) s = s
store (radio_xmodem bs) s = s
store (radio_rebooted b) s = s
store (radio_packet p) s = s

-- Whether the message has a variant that goes to the registered handlers.
abbrev pub has_variant : FromRadio → Bool
has_variant (radio_config_complete_id id) = false
has_variant (radio_region_presets groups rs) = false
has_variant (radio_rebooted b) = false
has_variant _ = true

abbrev pub is_complete_id : FromRadio → Bool
is_complete_id (radio_config_complete_id id) = true
is_complete_id _ = false

abbrev pub take_packet : FromRadio → ClientTransport → ClientTransport
take_packet (radio_packet p) t =
    if t.packet_handler then record t { received = p ∷ t.received } else t
take_packet _ t = t

-- `if !t.state.Complete() { continue }` and HandleMessage
abbrev pub pass_on : Bool → FromRadio → ClientTransport → ClientTransport
pass_on true msg t = record t { handled = msg ∷ t.handled }
pass_on false msg t = t

-- One turn of readLoop. The channel is closed once, by the message that makes the state complete.
unfoldable pub read_message : FromRadio → ClientTransport → ClientTransport
unfolding store
read_message msg t =
    let t' = take_packet msg (record t {
      state = store msg t.state;
      signalled = is_complete_id msg && not t.state.complete || t.signalled;
    }) in
    pass_on (has_variant msg && t.state.complete) msg t'

unfoldable pub read_messages : List FromRadio → ClientTransport → ClientTransport
unfolding read_message
read_messages [] t = t
read_messages (msg ∷ l) t = read_messages l (read_message msg t)

abbrev tell : ListenerEvent → ClientTransport → ClientTransport
tell event t = if t.state_handler then record t { told = event ∷ t.told } else t

-- The end of Connect, if the channel is closed; otherwise it waits for its context.
unfoldable pub finish_connect : ClientTransport → ClientTransport
finish_connect t = if t.signalled then tell connected (record t { connected_flag = true }) else t

-- A read that fails ends readLoop.
unfoldable pub read_fails : ClientTransport → ClientTransport
read_fails t = tell disconnected t

-- Whether SendToRadio writes.
abbrev pub may_send : ClientTransport → Bool
may_send t = t.connected_flag

unfoldable pub stop : ClientTransport → ClientTransport
stop t = record t { connected_flag = false }
