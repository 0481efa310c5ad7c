-- ===== src/Device/Handlers.antt =====
-- device/node/node.go and bridge.go: the events that handlers get, and the steps of processDecoded
-- and handleIncomingPacket that a Node and a BridgeNode share. What handlers are given is recorded,
-- newest first.
use meshtastic_go.Common.{
  ℕ, Bool, true, false, not, ◌&&◌, Option, none, some, List, [], ◌∷◌, ltb, ◌==◌, if◌then◌else◌,
  length, Bytes,
}
use meshtastic_go.Beacon.{mesh_beacon_has_offer}
use meshtastic_go.Channel.{ChannelDef}
use meshtastic_go.Crypto.Packet.{Outcome, ok, err, panic, try_decode}
use meshtastic_go.Dedupe.{PacketDeduplicator, seen_at}
use meshtastic_go.Device.Base.{Env, BaseState}
use meshtastic_go.Device.Signing.{or_empty_user}
use meshtastic_go.NodeDb.{NodeDb, update, set_channel, get_device_metrics}
use meshtastic_go.Proto.{
  Data, MeshPacket, User, Position, DeviceMetrics, empty_position, Telemetry, Waypoint, MeshBeacon,
  NeighborInfo, MapReport, RouteDiscovery, Routing, NodeInfo, ProtoCodec, Ciphers, unknown_app,
}

-- The event that handlers get, by its type.
pub data EventBody : Type 0 where
  node_info_updated : User → EventBody
  position_updated : Position → EventBody
  telemetry_updated : Telemetry → EventBody
  -- message, IsDM, ReplyID and Emoji
  text_message : Bytes → Bool → ℕ → ℕ → EventBody
  waypoint_received : Waypoint → Bool → EventBody
  mesh_beacon_received : MeshBeacon → Bool → EventBody
  neighbor_info_received : NeighborInfo → EventBody
  map_report_received : MapReport → EventBody
  -- IsRequest and OriginalPacketID
  traceroute_received : RouteDiscovery → Bool → ℕ → EventBody
  routing_received : ℕ → ℕ → EventBody
  packet_received : EventBody

-- event.Event. The timestamp is in Unix seconds.
pub record Event : Type 0 where
  pub channel_name : Bytes
  pub channel : Option ChannelDef
  pub from : ℕ
  pub to : ℕ
  pub timestamp : ℕ
  pub packet_id : ℕ
  pub portnum : ℕ
  pub is_pki : Bool
  pub is_signed : Bool
  pub raw_data : Data
  pub channel_key : Option Bytes
  pub via : ℕ
  pub managed_node_id : ℕ
  pub want_ack : Bool
  pub want_response : Bool
  pub is_neighbor : Bool
  pub body : EventBody

-- A BridgeNode has no clients, and dispatches nothing.
pub record NodeState : Type 0 where
  pub base : BaseState
  pub events : List Event
  pub dispatched : List MeshPacket

-- How a packet was read: its channel, that channel's name, and whether PKI opened it.
pub record Via : Type 0 where
  pub channel : Option ChannelDef
  pub name : Bytes
  pub is_pki : Bool

abbrev pub with_db : NodeState → NodeDb → NodeState
with_db s db = record s { base = record s.base { db = db } }

abbrev event_time : ℕ → Option ℕ → ℕ
event_time unix none = unix
event_time unix (some t) = if ltb 0 t then t else unix

-- The event of a Node, which leaves the fields that only a bridge sets at zero.
abbrev pub event_of : ℕ → Via → MeshPacket → Data → Bool → EventBody → Event
event_of unix via pkt d signed body = record {
  channel_name = via.name;
  channel = via.channel;
  from = pkt.from;
  to = pkt.to;
  timestamp = event_time unix pkt.rx_time;
  packet_id = pkt.id;
  portnum = d.portnum;
  is_pki = via.is_pki;
  is_signed = signed;
  raw_data = d;
  channel_key = none;
  via = 0;
  managed_node_id = 0;
  want_ack = false;
  want_response = false;
  is_neighbor = false;
  body = body;
}

abbrev pub emit_event : Event → NodeState → NodeState
emit_event e s = record s { events = e ∷ s.events }

abbrev or_empty_position : Option Position → Position
or_empty_position none = empty_position
or_empty_position (some p) = p

abbrev pub report_position : MapReport → Position → Position
report_position mr p = record p {
  latitude_i = some mr.latitude_i;
  longitude_i = some mr.longitude_i;
  altitude = (if mr.altitude == 0 then p.altitude else some mr.altitude);
}

abbrev pub report_user : MapReport → User → User
report_user mr u = record u {
  long_name = (if length mr.long_name == 0 then u.long_name else mr.long_name);
  short_name = (if length mr.short_name == 0 then u.short_name else mr.short_name);
  hw_model = mr.hw_model;
  role = mr.role;
}

-- The update that a map report makes.
abbrev pub apply_report : MapReport → NodeInfo → NodeInfo
apply_report mr info = record info {
  position = some (report_position mr (or_empty_position info.position));
  user = some (report_user mr (or_empty_user info.user));
}

abbrev pub remember_channel : ℕ → Option ChannelDef → NodeDb → NodeDb
remember_channel from none db = db
remember_channel from (some ch) db = set_channel from (some ch) db

-- What a NodeInfo stores and reports, by the answer of pinIdentity.
unfoldable pub store_node_info :
    Env → (EventBody → Event) → ℕ → Option ChannelDef → User × Bool → NodeState → NodeState
unfolding update set_channel
store_node_info env evt from ch (user, false) s = s
store_node_info env evt from ch (user, true) s =
    let db = update env.unix from (λ info. record info { user = some user }) s.base.db in
    emit_event (evt (node_info_updated user)) (with_db s (remember_channel from ch db))

abbrev pub store_metrics : Env → ℕ → Option DeviceMetrics → NodeState → NodeState
store_metrics env from none s = s
store_metrics env from (some m) s =
    with_db s (update env.unix from (λ info. record info { device_metrics = some m }) s.base.db)

abbrev pub on_telemetry :
    Env → MeshPacket → (EventBody → Event) → Option Telemetry → NodeState → NodeState
on_telemetry env pkt evt none s = s
on_telemetry env pkt evt (some tel) s =
    emit_event (evt (telemetry_updated tel))
      (store_metrics env pkt.from (get_device_metrics tel.variant) s)

abbrev pub on_waypoint : Env → (EventBody → Event) → Option Waypoint → NodeState → NodeState
on_waypoint env evt none s = s
on_waypoint env evt (some wp) s =
    emit_event (evt (waypoint_received wp (ltb 0 wp.expire && ltb wp.expire env.unix))) s

abbrev pub on_mesh_beacon : (EventBody → Event) → Option MeshBeacon → NodeState → NodeState
on_mesh_beacon evt none s = s
on_mesh_beacon evt (some beacon) s =
    if length beacon.message == 0 && not (mesh_beacon_has_offer (some beacon))
    then s
    else emit_event (evt (mesh_beacon_received beacon (mesh_beacon_has_offer (some beacon)))) s

abbrev pub on_neighbor_info : (EventBody → Event) → Option NeighborInfo → NodeState → NodeState
on_neighbor_info evt none s = s
on_neighbor_info evt (some ni) s = emit_event (evt (neighbor_info_received ni)) s

abbrev pub on_map_report :
    Env → MeshPacket → (EventBody → Event) → Option MapReport → NodeState → NodeState
on_map_report env pkt evt none s = s
on_map_report env pkt evt (some mr) s =
    emit_event (evt (map_report_received mr))
      (with_db s (update env.unix pkt.from (apply_report mr) s.base.db))

abbrev pub on_traceroute :
    Data → (EventBody → Event) → Option RouteDiscovery → NodeState → NodeState
on_traceroute d evt none s = s
on_traceroute d evt (some rd) s = emit_event (evt (traceroute_received rd d.want_response 0)) s

abbrev pub on_routing : Data → (EventBody → Event) → Option Routing → NodeState → NodeState
on_routing d evt none s = s
on_routing d evt (some routing) s =
    emit_event (evt (routing_received routing.error_reason d.request_id)) s

abbrev pub is_duplicate : Bool → ℕ → MeshPacket → PacketDeduplicator → PacketDeduplicator × Bool
is_duplicate purge clock pkt p =
    if pkt.id == 0 then (p, false) else seen_at purge clock pkt.from pkt.id p

module _ (codec : ProtoCodec) (c : Ciphers) where
  abbrev pub or_next :
      ChannelDef
      → Outcome (Option (ChannelDef × Data))
      → Outcome Data
      → Outcome (Option (ChannelDef × Data))
  or_next ch rest (ok d) = if d.portnum == unknown_app then rest else ok (some (ch, d))
  or_next ch rest err = rest
  or_next ch rest panic = panic

  -- The loop over the candidate channels: the first whose key yields a plausible Data.
  unfoldable pub first_readable :
      MeshPacket → List ChannelDef → Outcome (Option (ChannelDef × Data))
  unfolding try_decode
  first_readable pkt [] = ok none
  first_readable pkt (ch ∷ l) =
      or_next ch (first_readable pkt l) (try_decode codec c pkt ch.key_bytes)
