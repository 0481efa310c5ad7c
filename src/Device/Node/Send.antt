-- ===== src/Device/Node/Send.antt =====
-- device/node/send.go, the sending half of pki.go, and the broadcasts and responses of node.go.
-- A send that may draw two packet ids takes two Envs.
use meshtastic_go.Device.Node.Options.{
  max_data_payload, max_neighbors_per_packet, SendOptions, SendOption, apply_send_options,
}
use meshtastic_go.Common.{
  ℕ, ◌%◌, ◌^◌, Bool, true, false, not, ◌&&◌, Option, none, some, List, [], ◌∷◌, ltb, ◌==◌,
  if◌then◌else◌, length, take, Bytes,
}
use meshtastic_go.Beacon.{validate_mesh_beacon}
use meshtastic_go.Crypto.Packet.{Outcome, ok, err, panic, encrypt_curve25519}
use meshtastic_go.Device.Base.{
  Env, BaseState, transmit, apply_packet_defaults, send_packet_on, send_packet,
}
use meshtastic_go.Device.Config.{BaseConfig}
use meshtastic_go.Device.Node.{Config, lookup_public_key}
use meshtastic_go.Lora.{priority_background, priority_ack}
use meshtastic_go.NodeId.{broadcast_node_id}
use meshtastic_go.NodeId.Text.{string}
use meshtastic_go.PacketId.{next}
use meshtastic_go.Proto.{
  Data, empty_data, MeshPacket, empty_packet, decoded, encrypted, User, empty_user, Position,
  empty_position, empty_map_report, Waypoint, MeshBeacon, ProtoCodec, Ciphers, text_message_app,
  position_app, nodeinfo_app, routing_app, waypoint_app, mesh_beacon_app, traceroute_app,
  neighborinfo_app, map_report_app,
}

-- The neighbours that are neither the node itself nor a reserved id.
unfoldable pub other_neighbors : ℕ → List (ℕ × ℕ) → List (ℕ × ℕ)
other_neighbors self [] = []
other_neighbors self (nb ∷ l) =
    let rest = other_neighbors self l in
    if not (nb.0 == self) && ltb 1 nb.0 then nb ∷ rest else rest

abbrev pub or_fallback : (BaseState → BaseState × Bool) → BaseState × Bool → BaseState × Bool
or_fallback psk (s, true) = (s, true)
or_fallback psk (s, false) = psk s

module _ (codec : ProtoCodec) (c : Ciphers) (b : BaseConfig) where
  unfoldable pub send_packet_with : Env → MeshPacket → SendOptions → BaseState → BaseState × Bool
  unfolding send_packet_on send_packet
  send_packet_with env packet o s = elim o.channel_def [
    | some ch ↦ send_packet_on codec c b env packet ch s
    | none ↦ send_packet codec c b env packet o.channel s
  ]

abbrev pub has_pki : Config → Bool
has_pki cfg = ltb 0 (length cfg.private_key) && ltb 0 (length cfg.public_key)

-- A decoded packet of this node, with every other field unset.
abbrev pub outgoing : Config → ℕ → Data → MeshPacket
outgoing cfg to d = record empty_packet { from = cfg.node_id; to = to; payload_variant = decoded d }

abbrev pub node_user : Config → User
node_user cfg = record empty_user {
  id = string cfg.node_id;
  long_name = cfg.long_name;
  short_name = cfg.short_name;
  hw_model = cfg.hw_model;
  public_key = cfg.public_key;
}

abbrev pub node_position : Config → ℕ → Position
node_position cfg unix = record empty_position {
  latitude_i = some cfg.position_latitude_i;
  longitude_i = some cfg.position_longitude_i;
  altitude = some cfg.position_altitude;
  time = unix % 2 ^ 32;
}

module _ (codec : ProtoCodec) (c : Ciphers) (b : BaseConfig) (cfg : Config) where
  abbrev pub pki_packet : ℕ → ℕ → Bytes → MeshPacket
  pki_packet packet_id to cipher = record empty_packet {
    id = packet_id;
    from = cfg.node_id;
    to = to;
    pki_encrypted = true;
    payload_variant = encrypted cipher;
  }

  abbrev pub transmit_pki : Env → ℕ → ℕ → Outcome Bytes → BaseState → BaseState × Bool
  transmit_pki env packet_id to (ok cipher) s =
      transmit env b.primary.name
        (apply_packet_defaults b env.unix (pki_packet packet_id to cipher)) s
  transmit_pki env packet_id to err s = (s, false)
  transmit_pki env packet_id to panic s = (s, false)

  abbrev pub pki_to : Env → ℕ → ℕ → Bytes → Option Bytes → BaseState → BaseState × Bool
  pki_to env draw to key none s = (s, false)
  pki_to env draw to key (some plaintext) s =
      let (ids, id) = next env.seed env.high s.packet_ids in
      transmit_pki env id to
        (encrypt_curve25519 c plaintext cfg.private_key key id cfg.node_id draw)
        (record s { packet_ids = ids })

  -- `draw` is the extra nonce that EncryptCurve25519 draws.
  unfoldable pub send_pki_packet : Env → ℕ → ℕ → Data → BaseState → BaseState × Bool
  unfolding lookup_public_key next encrypt_curve25519 apply_packet_defaults transmit
  send_pki_packet env draw to d s =
      if not (has_pki cfg) then (s, false) else elim (lookup_public_key s.db to) [
        | none ↦ (s, false)
        | some key ↦ pki_to env draw to key (codec.marshal_data d) s
      ]

  unfoldable pub send_data : Env → Env → ℕ → ℕ → Data → Bool → BaseState → BaseState × Bool
  unfolding send_pki_packet send_packet
  send_data pki_env env draw to d use_pki s =
      let psk = send_packet codec c b env (outgoing cfg to d) [] in
      if use_pki then or_fallback psk (send_pki_packet pki_env draw to d s) else psk s

  unfoldable pub send_text :
      Env → Env → ℕ → ℕ → Bytes → List SendOption → BaseState → BaseState × Bool
  unfolding send_data send_packet_with
  send_text pki_env env draw to message opts s =
      let o = apply_send_options opts in
      let d = record empty_data {
        portnum = text_message_app;
        payload = message;
        reply_id = o.reply_id;
        emoji = o.emoji;
      } in
      if ltb max_data_payload (length message)
      then (s, false)
      else if o.use_pki
      then send_data pki_env env draw to d true s
      else send_packet_with codec c b env (record (outgoing cfg to d) { want_ack = o.want_ack }) o s

  abbrev pub send_marshalled :
      (Bytes → BaseState → BaseState × Bool) → Option Bytes → BaseState → BaseState × Bool
  send_marshalled send none s = (s, false)
  send_marshalled send (some payload) s = send payload s

  unfoldable pub send_routing_response : Env → ℕ → ℕ → ℕ → BaseState → BaseState × Bool
  unfolding send_packet
  send_routing_response env to packet_id err_reason =
      send_marshalled
        (λ payload.
          send_packet codec c b env
            (record (outgoing cfg to (record empty_data {
              portnum = routing_app;
              payload = payload;
              request_id = packet_id;
            })) { priority = priority_ack })
            [])
        (codec.marshal_routing (record { error_reason = err_reason }))

  -- the reason Routing_NONE
  unfoldable pub send_ack : Env → ℕ → ℕ → BaseState → BaseState × Bool
  unfolding send_routing_response
  send_ack env to packet_id = send_routing_response env to packet_id 0

  -- the reason Routing_GOT_NAK
  unfoldable pub send_nack : Env → ℕ → ℕ → BaseState → BaseState × Bool
  unfolding send_routing_response
  send_nack env to packet_id = send_routing_response env to packet_id 2

  unfoldable pub send_waypoint : Env → ℕ → Waypoint → List SendOption → BaseState → BaseState × Bool
  unfolding send_packet_with
  send_waypoint env to waypoint opts =
      let o = apply_send_options opts in
      send_marshalled
        (λ payload s.
          if ltb max_data_payload (length payload)
          then (s, false)
          else send_packet_with codec c b env
              (record (outgoing cfg to
                (record empty_data { portnum = waypoint_app; payload = payload })) {
                  want_ack = o.want_ack;
                })
              o s)
        (codec.marshal_waypoint waypoint)

  unfoldable pub send_mesh_beacon :
      Env → MeshBeacon → List SendOption → BaseState → BaseState × Bool
  unfolding send_packet_with validate_mesh_beacon
  send_mesh_beacon env beacon opts s =
      let o = apply_send_options opts in
      if not (validate_mesh_beacon (some beacon))
      then (s, false)
      else send_marshalled
          (λ payload.
            send_packet_with codec c b env
              (record (outgoing cfg broadcast_node_id
                (record empty_data { portnum = mesh_beacon_app; payload = payload })) {
                  want_ack = o.want_ack;
                })
              o)
          (codec.marshal_mesh_beacon beacon) s

  -- A background broadcast of a payload, on the primary channel.
  abbrev pub broadcast_background : Env → ℕ → Bytes → BaseState → BaseState × Bool
  broadcast_background env portnum payload =
      send_packet codec c b env
        (record (outgoing cfg broadcast_node_id
          (record empty_data { portnum = portnum; payload = payload })) {
            priority = priority_background;
          })
        []

  unfoldable pub send_neighbor_info : Env → List (ℕ × ℕ) → BaseState → BaseState × Bool
  unfolding send_packet other_neighbors
  send_neighbor_info env neighbors = send_marshalled (broadcast_background env neighborinfo_app) (
      codec.marshal_neighbor_info (record {
        node_id = cfg.node_id;
        neighbors = take max_neighbors_per_packet (other_neighbors cfg.node_id neighbors);
        last_sent_by_id = cfg.node_id;
        node_broadcast_interval_secs = 0;
      }))

  unfoldable pub request_traceroute : Env → ℕ → BaseState → BaseState × Bool
  unfolding send_packet
  request_traceroute env to =
      send_marshalled
        (λ payload.
          send_packet codec c b env
            (outgoing cfg to (record empty_data {
              portnum = traceroute_app;
              payload = payload;
              want_response = true;
            }))
            [])
        (codec.marshal_route_discovery
          (record { route = []; snr_towards = []; route_back = []; snr_back = [] }))

  -- The role is CLIENT_MUTE.
  unfoldable pub send_map_report : Env → BaseState → BaseState × Bool
  unfolding send_packet
  send_map_report env = send_marshalled (broadcast_background env map_report_app) (
      codec.marshal_map_report (record empty_map_report {
        long_name = cfg.long_name;
        short_name = cfg.short_name;
        role = 1;
        hw_model = cfg.hw_model;
        latitude_i = cfg.position_latitude_i;
        longitude_i = cfg.position_longitude_i;
        altitude = cfg.position_altitude;
      }))

  abbrev pub info_data : ℕ → Bytes → Data
  info_data request_id payload = record empty_data {
    portnum = nodeinfo_app;
    payload = payload;
    request_id = request_id;
  }

  unfoldable pub build_node_info_data : ℕ → Option Data
  unfolding string
  build_node_info_data request_id = elim (codec.marshal_user (node_user cfg)) [
    | none ↦ none
    | some payload ↦ some (info_data request_id payload)
  ]

  unfoldable pub broadcast_node_info : Env → BaseState → BaseState × Bool
  unfolding build_node_info_data send_packet
  broadcast_node_info env s = elim (build_node_info_data 0) [
    | none ↦ (s, false)
    | some d ↦
        send_packet codec c b env
          (record (outgoing cfg broadcast_node_id d) { priority = priority_background }) [] s
  ]

  unfoldable pub broadcast_position : Env → BaseState → BaseState × Bool
  unfolding send_packet
  broadcast_position env =
      send_marshalled (broadcast_background env position_app)
        (codec.marshal_position (node_position cfg env.unix))

  unfoldable pub respond_node_info : Env → ℕ → ℕ → BaseState → BaseState
  unfolding build_node_info_data send_packet
  respond_node_info env to request_id s = elim (build_node_info_data request_id) [
    | none ↦ s
    | some d ↦ (send_packet codec c b env (outgoing cfg to d) [] s).0
  ]

  unfoldable pub respond_position : Env → ℕ → ℕ → BaseState → BaseState
  unfolding send_packet
  respond_position env to request_id s =
      (send_marshalled
        (λ payload.
          send_packet codec c b env
            (outgoing cfg to (record empty_data {
              portnum = position_app;
              payload = payload;
              request_id = request_id;
            }))
            [])
        (codec.marshal_position (node_position cfg env.unix)) s).0
