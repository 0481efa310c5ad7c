-- ===== src/Device/Bridge/Receive.antt =====
-- device/node/bridge.go: handleIncomingPacket and processDecoded of a BridgeNode. What it shares with
-- a Node is taken from Device.Handlers.
pub mod Echo
pub mod Quiet
pub mod Safe
use meshtastic_go.Device.Bridge.Context.{gateway_node, bridge_event, context_of}
use meshtastic_go.Common.{
  ℕ, zero, suc, ◌+◌, ◌-◌, ◌*◌, ◌/◌, ◌%◌, ◌^◌, ◌≤◌, ◌<◌, bit_and, bit_or, bit_xor, ◌≡◌, refl, sym,
  ap, ◌∙◌, ◌≢◌, ◌↔◌, ◌⊎◌, inl, inr, Bool, true, false, not, ◌&&◌, ◌||◌, Option, none, some, List,
  [], ◌∷◌, ◌++◌, map, arith, ltb, leb, ◌==◌, if◌then◌else◌, bool_eq, ==_iff, ==_refl, Bool-cases,
  Option-cases, is_some, length, get_elem?, get_or, take, drop, replicate, select, find_first, All,
  length-append, Bytes, bytes_eq, bytes_eq_iff, bytes_eq_refl, text,
}
use meshtastic_go.Channel.{ChannelDef, lookup_all}
use meshtastic_go.Crypto.Packet.{Outcome, ok, err, panic, ◌>>=◌, try_decode_pki}
use meshtastic_go.Dedupe.{seen_at}
use meshtastic_go.Device.Base.{Env, BaseState, decoded_channel}
use meshtastic_go.Device.Bridge.{BridgeConfig, BridgeEnv, is_managed, ask_key}
use meshtastic_go.Device.Bridge.Respond.{
  respond_telemetry, respond_neighbor_info, respond_node_info_for_managed,
  handle_traceroute_request,
}
use meshtastic_go.Device.Bridge.Route.{EventContext, returned_route}
use meshtastic_go.Device.Config.{BaseConfig}
use meshtastic_go.Device.Handlers.{
  EventBody, position_updated, text_message, traceroute_received, packet_received, Event, NodeState,
  Via, with_db, event_of, emit_event, store_node_info, on_telemetry, on_waypoint, on_mesh_beacon,
  on_neighbor_info, on_map_report, on_routing, first_readable, is_duplicate,
}
use meshtastic_go.Device.Signing.{Verdict, check_signature_policy, pin_identity}
use meshtastic_go.Transport.{NetworkPacket, is_mqtt}
use meshtastic_go.Beacon.{mesh_beacon_has_offer}
use meshtastic_go.NodeDb.{update, set_channel}
use meshtastic_go.NodeId.{is_broadcast}
use meshtastic_go.NodeId.Text.{parse_node_id}
use meshtastic_go.Proto.{
  Data, MeshPacket, Payload, decoded, encrypted, unset, User, Position, Telemetry, NeighborInfo,
  RouteDiscovery, ProtoCodec, Ciphers, text_message_app, position_app, nodeinfo_app, routing_app,
  waypoint_app, mesh_beacon_app, telemetry_app, traceroute_app, neighborinfo_app, map_report_app,
}

abbrev pub with_base : (BaseState → BaseState) → NodeState → NodeState
with_base f s = record s { base = f s.base }

abbrev pub when : Bool → (BaseState → BaseState) → NodeState → NodeState
when true reply s = with_base reply s
when false reply s = s

abbrev on_bridge_position :
    Env → MeshPacket → (EventBody → Event) → Option Position → NodeState → NodeState
on_bridge_position env pkt evt none s = s
on_bridge_position env pkt evt (some pos) s =
    emit_event (evt (position_updated pos))
      (with_db s (update env.unix pkt.from (λ info. record info { position = some pos }) s.base.db))

-- `quarters` is `int32(snr * 4)` on a float32.
module _ (codec : ProtoCodec) (c : Ciphers) (b : BaseConfig) (cfg : BridgeConfig)
    (quarters : ℕ → ℕ) where
  abbrev on_bridge_node_info :
      BridgeEnv
      → Via
      → MeshPacket
      → Data
      → Bool
      → (EventBody → Event)
      → Option User
      → NodeState
      → NodeState
  on_bridge_node_info w via pkt d signed evt none s = s
  on_bridge_node_info w via pkt d signed evt (some user) s =
      when d.want_response (respond_node_info_for_managed codec c b cfg w pkt.from pkt.to pkt.id) (
        store_node_info w.first evt pkt.from via.channel
          (pin_identity codec c b pkt.from user signed s.base.db) s)

  abbrev asks_one : Data → MeshPacket → Bool
  asks_one d pkt = d.want_response && not (is_broadcast pkt.to)

  abbrev answer_telemetry :
      BridgeEnv → EventContext → Bool → Option Telemetry → NodeState → NodeState
  answer_telemetry w ctx asks none s = s
  answer_telemetry w ctx asks (some tel) s = when asks (respond_telemetry codec c b cfg w ctx tel) s

  abbrev answer_neighbor_info :
      BridgeEnv → EventContext → Bool → Option NeighborInfo → NodeState → NodeState
  answer_neighbor_info w ctx asks none s = s
  answer_neighbor_info w ctx asks (some ni) s =
      when asks (respond_neighbor_info codec c b cfg w ctx ni) s

  -- handleTracerouteResponse leaves a route that is for no managed node alone.
  abbrev passed_route : EventContext → RouteDiscovery → RouteDiscovery
  passed_route ctx rd =
      if not (is_managed cfg.is_managed_node ctx.to)
      then rd
      else returned_route quarters cfg.node_id ctx rd

  abbrev on_bridge_traceroute :
      BridgeEnv
      → EventContext
      → Data
      → (EventBody → Event)
      → Option RouteDiscovery
      → NodeState
      → NodeState
  on_bridge_traceroute w ctx d evt none s = s
  on_bridge_traceroute w ctx d evt (some rd) s =
      if not (d.request_id == 0)
      then emit_event (evt (traceroute_received (passed_route ctx rd) false d.request_id)) s
      else with_base (handle_traceroute_request codec c b cfg quarters w ctx rd) s

  -- The switch of processDecoded.
  unfoldable pub dispatch_bridge :
      BridgeEnv → NetworkPacket → Via → ℕ → Data → Bool → NodeState → NodeState
  unfolding bridge_event gateway_node store_node_info pin_identity respond_node_info_for_managed
      respond_telemetry respond_neighbor_info returned_route handle_traceroute_request is_broadcast
      mesh_beacon_has_offer update
  dispatch_bridge w net via managed d signed s =
      let pkt = net.packet in
      let evt = bridge_event w.first.unix net via managed d signed in
      let ctx = context_of net via in
      if d.portnum == nodeinfo_app
      then on_bridge_node_info w via pkt d signed evt (codec.unmarshal_user d.payload) s
      else if d.portnum == position_app
      then on_bridge_position w.first pkt evt (codec.unmarshal_position d.payload) s
      else if d.portnum == telemetry_app
      then answer_telemetry w ctx (asks_one d pkt) (codec.unmarshal_telemetry d.payload)
          (on_telemetry w.first pkt evt (codec.unmarshal_telemetry d.payload) s)
      else if d.portnum == text_message_app
      then emit_event (evt (text_message d.payload (not (is_broadcast pkt.to)) d.reply_id d.emoji))
          s
      else if d.portnum == waypoint_app
      then on_waypoint w.first evt (codec.unmarshal_waypoint d.payload) s
      else if d.portnum == mesh_beacon_app
      then on_mesh_beacon evt (codec.unmarshal_mesh_beacon d.payload) s
      else if d.portnum == neighborinfo_app
      then answer_neighbor_info w ctx (asks_one d pkt) (codec.unmarshal_neighbor_info d.payload)
          (on_neighbor_info evt (codec.unmarshal_neighbor_info d.payload) s)
      else if d.portnum == map_report_app
      then on_map_report w.first pkt evt (codec.unmarshal_map_report d.payload) s
      else if d.portnum == traceroute_app
      then on_bridge_traceroute w ctx d evt (codec.unmarshal_route_discovery d.payload) s
      else if d.portnum == routing_app
      then on_routing d evt (codec.unmarshal_routing d.payload) s
      else emit_event (evt packet_received) s

  abbrev pub dispatch_accepted :
      BridgeEnv → NetworkPacket → Via → ℕ → Data → Verdict → NodeState → NodeState
  dispatch_accepted w net via managed d v s =
      if not v.accept
      then with_db s v.db
      else dispatch_bridge w (record net { packet = v.packet }) via managed d v.signed
          (with_db s v.db)

  unfoldable pub bridge_decoded : BridgeEnv → NetworkPacket → Via → ℕ → Data → NodeState → NodeState
  unfolding check_signature_policy dispatch_bridge
  bridge_decoded w net via managed d s =
      dispatch_accepted w net via managed d
        (check_signature_policy codec c b w.first.unix net.packet d via.is_pki s.base.db) s

  abbrev is_cipher : Payload → Bool
  is_cipher (encrypted bs) = true
  is_cipher (decoded d) = false
  is_cipher unset = false

  unfoldable pub bridge_tries_pki : MeshPacket → Bool
  unfolding is_broadcast
  bridge_tries_pki pkt =
      is_cipher pkt.payload_variant
      && pkt.channel == 0
      && ltb 0 pkt.to
      && not (is_broadcast pkt.to)
      && is_managed cfg.is_managed_node pkt.to

  abbrev pub try_with_keys : MeshPacket → Option Bytes → Option Bytes → MeshPacket × Outcome Data
  try_with_keys pkt (some priv) (some pk) = try_decode_pki codec c pkt pk priv
  try_with_keys pkt none pk = (pkt, err)
  try_with_keys pkt (some priv) none = (pkt, err)

  -- tryDecryptPKI, with the packet as TryDecodePKI leaves it.
  unfoldable pub bridge_decrypt_pki : MeshPacket → MeshPacket × Outcome Data
  unfolding try_decode_pki
  bridge_decrypt_pki pkt =
      try_with_keys pkt (ask_key cfg.private_key_for_node pkt.to)
        (ask_key cfg.public_key_for_node pkt.from)

  abbrev bridge_found :
      BridgeEnv → NetworkPacket → NodeState → Option (ChannelDef × Data) → NodeState
  bridge_found w net s none = s
  bridge_found w net s (some (ch, d)) =
      bridge_decoded w net (record { channel = some ch; name = ch.name; is_pki = false }) 0 d s

  unfoldable pub bridge_psk : BridgeEnv → NetworkPacket → NodeState → Outcome NodeState
  unfolding first_readable lookup_all bridge_decoded
  bridge_psk w net s = do
    found ← first_readable codec c net.packet (lookup_all net.packet.channel s.base.channels)
    ok (bridge_found w net s found)

  abbrev pub bridge_pki :
      BridgeEnv → NetworkPacket → MeshPacket × Outcome Data → NodeState → Outcome NodeState
  bridge_pki w net (pkt, ok d) s = ok (
      bridge_decoded w (record net { packet = pkt })
        (record { channel = none; name = text "PKI"; is_pki = true }) pkt.to d s)
  bridge_pki w net (pkt, err) s = bridge_psk w (record net { packet = pkt }) s
  bridge_pki w net (pkt, panic) s = panic

  unfoldable pub open_for_bridge :
      BridgeEnv → NetworkPacket → Payload → NodeState → Outcome NodeState
  unfolding decoded_channel bridge_decoded bridge_tries_pki bridge_decrypt_pki bridge_psk
  open_for_bridge w net (decoded d) s =
      let (ch, name) = decoded_channel net.channel net.packet.channel s.base.channels in
      ok (bridge_decoded w net (record { channel = ch; name = name; is_pki = false }) 0 d s)
  open_for_bridge w net payload s =
      if bridge_tries_pki net.packet
      then bridge_pki w net (bridge_decrypt_pki net.packet) s
      else bridge_psk w net s

  abbrev pub is_own : ℕ → Bool
  is_own from = from == cfg.node_id || is_managed cfg.is_managed_node from

  -- `purge` is the random choice of the deduplicator to drop its old entries.
  unfoldable pub bridge_incoming_packet :
      BridgeEnv → Bool → NetworkPacket → NodeState → Outcome NodeState
  unfolding seen_at open_for_bridge
  bridge_incoming_packet w purge net s =
      let pkt = net.packet in
      let (dedup, duplicate) = is_duplicate purge w.first.clock pkt s.base.dedup in
      let s' = record s { base = record s.base { dedup = dedup } } in
      if duplicate
      then ok s'
      else if is_own pkt.from
      then ok s'
      else open_for_bridge w net pkt.payload_variant s'
