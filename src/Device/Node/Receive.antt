-- ===== src/Device/Node/Receive.antt =====
-- device/node/node.go: handleIncomingPacket and processDecoded, with the receiving half of pki.go.
-- What handlers and clients are given is recorded, newest first.
pub mod Pipeline
pub mod Evidence
pub mod Fallback
pub mod Safe
use meshtastic_go.Common.{
  ℕ, zero, suc, ◌+◌, ◌-◌, ◌*◌, ◌/◌, ◌%◌, ◌^◌, ◌≤◌, ◌<◌, bit_and, bit_or, bit_xor, ◌≡◌, refl, sym,
  ap, ◌∙◌, ◌≢◌, ◌↔◌, ◌⊎◌, inl, inr, Bool, true, false, not, ◌&&◌, ◌||◌, Option, none, some, List,
  [], ◌∷◌, ◌++◌, map, arith, ltb, leb, ◌==◌, if◌then◌else◌, bool_eq, ==_iff, ==_refl, Bool-cases,
  Option-cases, is_some, length, get_elem?, get_or, take, drop, replicate, select, find_first, All,
  length-append, Bytes, bytes_eq, bytes_eq_iff, bytes_eq_refl, text,
}
use meshtastic_go.Beacon.{mesh_beacon_has_offer}
use meshtastic_go.Channel.{ChannelDef, lookup_all}
use meshtastic_go.Crypto.Packet.{Outcome, ok, err, panic, ◌>>=◌, try_decode, try_decode_pki}
use meshtastic_go.Dedupe.{PacketDeduplicator, seen_at}
use meshtastic_go.Device.Base.{Env, BaseState, decoded_channel}
use meshtastic_go.Device.Config.{BaseConfig}
use meshtastic_go.Device.Node.{Config, lookup_public_key}
use meshtastic_go.Device.Node.Send.{has_pki, respond_node_info, respond_position}
use meshtastic_go.Device.Signing.{Verdict, check_signature_policy, pin_identity, or_empty_user}
use meshtastic_go.NodeDb.{NodeDb, update, set_channel, get_device_metrics}
use meshtastic_go.NodeId.{is_broadcast}
use meshtastic_go.Proto.{
  Data, MeshPacket, Payload, decoded, encrypted, unset, User, Position, DeviceMetrics,
  empty_position, Telemetry, Waypoint, MeshBeacon, NeighborInfo, MapReport, RouteDiscovery, Routing,
  NodeInfo, ProtoCodec, Ciphers, unknown_app, text_message_app, position_app, nodeinfo_app,
  routing_app, waypoint_app, mesh_beacon_app, telemetry_app, traceroute_app, neighborinfo_app,
  map_report_app,
}
use meshtastic_go.Throttle.{can_respond}
use meshtastic_go.Device.Handlers.{
  EventBody, node_info_updated, position_updated, telemetry_updated, text_message,
  waypoint_received, mesh_beacon_received, neighbor_info_received, map_report_received,
  traceroute_received, routing_received, packet_received, Event, NodeState, Via, with_db, event_of,
  emit_event, apply_report, store_node_info, store_metrics, on_telemetry, on_waypoint,
  on_mesh_beacon, on_neighbor_info, on_map_report, on_traceroute, on_routing, first_readable,
  is_duplicate,
}

-- A response to a packet that asks for one, unless the throttle holds it back.
unfoldable pub respond :
    Env → ℕ → MeshPacket → Data → (BaseState → BaseState) → NodeState → NodeState
unfolding can_respond
respond env portnum pkt d reply s =
    if not d.want_response
    then s
    else let (throttle, allowed) =
        can_respond env.clock env.clock pkt.from portnum s.base.throttle in
      let base = record s.base { throttle = throttle } in
      record s { base = (if allowed then reply base else base) }

module _ (codec : ProtoCodec) (c : Ciphers) (b : BaseConfig) (cfg : Config) where
  -- The cases of the switch of processDecoded on the port, for an accepted packet.
  abbrev pub on_node_info :
      Env
      → Via
      → MeshPacket
      → Data
      → Bool
      → (EventBody → Event)
      → Option User
      → NodeState
      → NodeState
  on_node_info env via pkt d signed evt none s = s
  on_node_info env via pkt d signed evt (some user) s =
      respond env nodeinfo_app pkt d (respond_node_info codec c b cfg env pkt.from pkt.id) (
        store_node_info env evt pkt.from via.channel
          (pin_identity codec c b pkt.from user signed s.base.db) s)

  abbrev pub on_position :
      Env → MeshPacket → Data → (EventBody → Event) → Option Position → NodeState → NodeState
  on_position env pkt d evt none s = s
  on_position env pkt d evt (some pos) s =
      respond env position_app pkt d (respond_position codec c b cfg env pkt.from pkt.id) (
        emit_event (evt (position_updated pos)) (
          with_db s
            (update env.unix pkt.from (λ info. record info { position = some pos }) s.base.db)))

  -- The switch itself.
  unfoldable pub dispatch_port : Env → Via → MeshPacket → Data → Bool → NodeState → NodeState
  unfolding store_node_info pin_identity respond respond_node_info respond_position is_broadcast
      mesh_beacon_has_offer
  dispatch_port env via pkt d signed s =
      let evt = event_of env.unix via pkt d signed in
      if d.portnum == nodeinfo_app
      then on_node_info env via pkt d signed evt (codec.unmarshal_user d.payload) s
      else if d.portnum == position_app
      then on_position env pkt d evt (codec.unmarshal_position d.payload) s
      else if d.portnum == telemetry_app
      then on_telemetry env pkt evt (codec.unmarshal_telemetry d.payload) s
      else if d.portnum == text_message_app
      then emit_event (evt (text_message d.payload (not (is_broadcast pkt.to)) d.reply_id d.emoji))
          s
      else if d.portnum == waypoint_app
      then on_waypoint env evt (codec.unmarshal_waypoint d.payload) s
      else if d.portnum == mesh_beacon_app
      then on_mesh_beacon evt (codec.unmarshal_mesh_beacon d.payload) s
      else if d.portnum == neighborinfo_app
      then on_neighbor_info evt (codec.unmarshal_neighbor_info d.payload) s
      else if d.portnum == map_report_app
      then on_map_report env pkt evt (codec.unmarshal_map_report d.payload) s
      else if d.portnum == traceroute_app
      then on_traceroute d evt (codec.unmarshal_route_discovery d.payload) s
      else if d.portnum == routing_app
      then on_routing d evt (codec.unmarshal_routing d.payload) s
      else emit_event (evt packet_received) s

  abbrev pub process_accepted : Env → Via → Data → Verdict → NodeState → NodeState
  process_accepted env via d v s =
      if not v.accept
      then with_db s v.db
      else dispatch_port env via v.packet d v.signed (with_db s v.db)

  unfoldable pub process_decoded : Env → Via → MeshPacket → Data → NodeState → NodeState
  unfolding check_signature_policy dispatch_port
  process_decoded env via pkt d s =
      process_accepted env via d
        (check_signature_policy codec c b env.unix pkt d via.is_pki s.base.db) s

  abbrev pub is_encrypted : Payload → Bool
  is_encrypted (encrypted bs) = true
  is_encrypted _ = false

  unfoldable pub should_try_pki : MeshPacket → Bool
  unfolding is_broadcast
  should_try_pki pkt =
      has_pki cfg
      && is_encrypted pkt.payload_variant
      && pkt.channel == 0
      && ltb 0 pkt.to
      && not (is_broadcast pkt.to)
      && pkt.to == cfg.node_id

  abbrev pub try_with_key : MeshPacket → Option Bytes → MeshPacket × Outcome Data
  try_with_key pkt none = (pkt, err)
  try_with_key pkt (some key) = try_decode_pki codec c pkt key cfg.private_key

  -- The packet comes back as TryDecodePKI leaves it.
  unfoldable pub try_decrypt_pki : MeshPacket → NodeDb → MeshPacket × Outcome Data
  unfolding lookup_public_key try_decode_pki
  try_decrypt_pki pkt db = try_with_key pkt (lookup_public_key db pkt.from)

  abbrev pub process_found : Env → MeshPacket → NodeState → Option (ChannelDef × Data) → NodeState
  process_found env pkt s none = s
  process_found env pkt s (some (ch, d)) =
      process_decoded env (record { channel = some ch; name = ch.name; is_pki = false }) pkt d s

  -- Step 6: PSK decryption with the channels that share the hash.
  unfoldable pub process_psk : Env → MeshPacket → NodeState → Outcome NodeState
  unfolding first_readable lookup_all process_decoded
  process_psk env pkt s = do
    found ← first_readable codec c pkt (lookup_all pkt.channel s.base.channels)
    ok (process_found env pkt s found)

  abbrev pub process_pki : Env → MeshPacket × Outcome Data → NodeState → Outcome NodeState
  process_pki env (pkt, ok d) s =
      ok (process_decoded env (record { channel = none; name = text "PKI"; is_pki = true }) pkt d s)
  process_pki env (pkt, err) s = process_psk env pkt s
  process_pki env (pkt, panic) s = panic

  -- Steps 4 to 6.
  unfoldable pub open_packet : Env → Bytes → Payload → MeshPacket → NodeState → Outcome NodeState
  unfolding decoded_channel process_decoded should_try_pki try_decrypt_pki process_psk
  open_packet env topic (decoded d) pkt s =
      let (ch, name) = decoded_channel topic pkt.channel s.base.channels in
      ok (process_decoded env (record { channel = ch; name = name; is_pki = false }) pkt d s)
  open_packet env topic payload pkt s =
      if should_try_pki pkt
      then process_pki env (try_decrypt_pki pkt s.base.db) s
      else process_psk env pkt s

  -- `topic` is the channel name that the transport gives, and `purge` the random choice of the
  -- deduplicator to drop its old entries.
  unfoldable pub handle_incoming_packet :
      Env → Bool → Bytes → MeshPacket → NodeState → Outcome NodeState
  unfolding seen_at open_packet
  handle_incoming_packet env purge topic pkt s =
      let (dedup, duplicate) = is_duplicate purge env.clock pkt s.base.dedup in
      let s' = record s { base = record s.base { dedup = dedup } } in
      if duplicate
      then ok s'
      else if pkt.from == cfg.node_id
      then ok s'
      else open_packet env topic pkt.payload_variant pkt
          (record s' { dispatched = pkt ∷ s'.dispatched })
