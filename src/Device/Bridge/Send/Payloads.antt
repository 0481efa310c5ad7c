-- ===== src/Device/Bridge/Send/Payloads.antt =====
-- device/node/bridge_send.go and bridge.go: the sends that marshal a payload and hand it to sendAs.
use meshtastic_go.Common.{
  ℕ, ◌+◌, ◌-◌, ◌%◌, ◌^◌, Bool, true, false, not, ◌&&◌, ◌||◌, Option, none, some, List, [], ◌∷◌, ltb,
  ◌==◌, if◌then◌else◌, is_some, length, take, Bytes,
}
use meshtastic_go.Beacon.{validate_mesh_beacon}
use meshtastic_go.Device.Base.{Env, BaseState}
use meshtastic_go.Device.Bridge.{BridgeConfig}
use meshtastic_go.Device.Bridge.Request.{BridgeSend, plain_send, encrypt_none, encrypt_psk}
use meshtastic_go.Device.Bridge.Send.{send_as}
use meshtastic_go.Device.Bridge.Send.NodeInfo.{enc_mode_for}
use meshtastic_go.Device.Config.{BaseConfig}
use meshtastic_go.Device.Node.Options.{
  SendOptions, SendOption, apply_send_options, max_data_payload, max_neighbors_per_packet,
}
use meshtastic_go.NodeId.{broadcast_node_id, broadcast_node_id_no_lora, reserved_node_id_threshold}
use meshtastic_go.Proto.{
  empty_position, Telemetry, device_metrics, Waypoint, MeshBeacon, NeighborInfo, MapReport,
  RouteDiscovery, ProtoCodec, Ciphers, text_message_app, position_app, routing_app, waypoint_app,
  mesh_beacon_app, telemetry_app, traceroute_app, neighborinfo_app, map_report_app,
}

-- The bridgeSend of a payload with the options' encryption and channel.
abbrev pub optioned : ℕ → ℕ → ℕ → Bytes → SendOptions → BridgeSend
optioned from to portnum payload o =
    record (plain_send from to portnum payload (enc_mode_for o.use_pki)) {
      channel = o.channel;
      channel_def = o.channel_def;
    }

-- The absolute time since the start.
abbrev uptime : ℕ → ℕ → ℕ
uptime unix start = ((unix - start) + (start - unix)) % 2 ^ 32

-- The float32 5.0 by its bits.
abbrev five_volts : ℕ
five_volts = 0x40A0_0000

unfoldable pub build_device_metrics : BridgeConfig → ℕ → Telemetry
build_device_metrics cfg unix = record {
  time = unix % 2 ^ 32;
  variant = device_metrics (record {
    battery_level = some 101;
    voltage = some five_volts;
    uptime_seconds = some (uptime unix cfg.start_time);
    others = [];
  });
}

-- The neighbours with an id above the threshold that are not the sender.
unfoldable pub kept_neighbors : ℕ → List ℕ → List (ℕ × ℕ)
kept_neighbors from [] = []
kept_neighbors from (id ∷ l) =
    let rest = kept_neighbors from l in
    if not (id == from) && ltb reserved_node_id_threshold id then (id, 0) ∷ rest else rest

unfoldable pub build_neighbor_info : ℕ → List ℕ → ℕ → NeighborInfo
unfolding kept_neighbors
build_neighbor_info from ids interval = record {
  node_id = from;
  neighbors = take max_neighbors_per_packet (kept_neighbors from ids);
  last_sent_by_id = from;
  node_broadcast_interval_secs = interval;
}

abbrev pub first_hops : BridgeConfig → ℕ → RouteDiscovery
first_hops cfg from = record {
  route = (if from == cfg.node_id then [] else cfg.node_id ∷ []);
  snr_towards = (if from == cfg.node_id then [] else 0 ∷ []);
  route_back = [];
  snr_back = [];
}

abbrev or_flat : Option ℕ → ℕ
or_flat none = 0
or_flat (some altitude) = altitude

abbrev or_no_preset : Option ℕ → ℕ
or_no_preset none = 0
or_no_preset (some preset) = preset

-- The position fix that SendPositionAs is given.
pub record Fix : Type 0 where
  pub latitude_i : ℕ
  pub longitude_i : ℕ
  pub altitude : Option ℕ
  pub precision_bits : ℕ
  pub timestamp : ℕ

-- The arguments of SendMapReportAs.
pub record MapEntry : Type 0 where
  pub long_name : Bytes
  pub short_name : Bytes
  pub latitude_i : ℕ
  pub longitude_i : ℕ
  pub altitude : Option ℕ
  pub precision_bits : ℕ
  pub num_nodes : ℕ

-- `preset` is the modem preset that the primary channel's name stands for, if any.
unfoldable pub map_report_of : BridgeConfig → ℕ → MapEntry → Option ℕ → MapReport
map_report_of cfg from e preset = record {
  long_name = e.long_name;
  short_name = e.short_name;
  role = (if from == cfg.node_id then 12 else 1);
  hw_model = cfg.hw_model;
  region = 1;
  modem_preset = or_no_preset preset;
  has_default_channel = is_some preset;
  latitude_i = e.latitude_i;
  longitude_i = e.longitude_i;
  altitude = or_flat e.altitude;
  position_precision = e.precision_bits;
  num_online_local_nodes = e.num_nodes;
}

module _ (codec : ProtoCodec) (c : Ciphers) (b : BaseConfig) (cfg : BridgeConfig) where
  abbrev pub send_payload :
      Env → ℕ → (Bytes → BridgeSend) → Option Bytes → BaseState → BaseState × (ℕ × Bool)
  send_payload env draw build none st = (st, (0, false))
  send_payload env draw build (some payload) st = send_as codec c b cfg env draw (build payload) st

  -- The channel definition of the options is not passed on.
  unfoldable pub send_text_as :
      Env → ℕ → ℕ → ℕ → Bytes → List SendOption → BaseState → BaseState × (ℕ × Bool)
  unfolding send_as
  send_text_as env draw from to message opts st =
      let o = apply_send_options opts in
      send_as codec c b cfg env draw
        (record (plain_send from to text_message_app message (enc_mode_for o.use_pki)) {
          channel = o.channel;
          reply_id = o.reply_id;
          emoji = o.emoji;
          want_ack = o.want_ack;
        })
        st

  unfoldable pub send_position_as :
      Env → ℕ → ℕ → ℕ → Fix → List SendOption → BaseState → BaseState × (ℕ × Bool)
  unfolding send_as
  send_position_as env draw from to fix opts =
      let o = apply_send_options opts in
      send_payload env draw
        (λ payload. record (optioned from to position_app payload o) {
          want_response = o.want_response;
        })
        (codec.marshal_position (record empty_position {
          time = env.unix % 2 ^ 32;
          timestamp = fix.timestamp % 2 ^ 32;
          latitude_i = some fix.latitude_i;
          longitude_i = some fix.longitude_i;
          precision_bits = fix.precision_bits;
          altitude = fix.altitude;
        }))

  unfoldable pub send_telemetry_as :
      Env → ℕ → ℕ → ℕ → Telemetry → List SendOption → BaseState → BaseState × (ℕ × Bool)
  unfolding send_as
  send_telemetry_as env draw from to tel opts =
      let o = apply_send_options opts in
      send_payload env draw
        (λ payload. record (optioned from to telemetry_app payload o) { request_id = o.request_id })
        (codec.marshal_telemetry tel)

  unfoldable pub send_device_telemetry_as :
      Env → ℕ → ℕ → ℕ → List SendOption → BaseState → BaseState × (ℕ × Bool)
  unfolding send_telemetry_as build_device_metrics
  send_device_telemetry_as env draw from to =
      send_telemetry_as env draw from to (build_device_metrics cfg env.unix)

  abbrev send_metrics :
      Env → ℕ → ℕ → ℕ → List SendOption → Option Telemetry → BaseState → BaseState × (ℕ × Bool)
  send_metrics env draw from to opts none st = (st, (0, false))
  send_metrics env draw from to opts (some tel) st = send_telemetry_as env draw from to tel opts st

  abbrev ask_metrics : Option (ℕ → Option Telemetry) → ℕ → Option Telemetry
  ask_metrics none unix = none
  ask_metrics (some f) unix = f unix

  unfoldable pub send_host_metrics_as :
      Env → ℕ → ℕ → ℕ → List SendOption → BaseState → BaseState × (ℕ × Bool)
  unfolding send_telemetry_as
  send_host_metrics_as env draw from to opts =
      send_metrics env draw from to opts (ask_metrics cfg.host_metrics_provider env.unix)

  unfoldable pub send_reaction_as :
      Env → ℕ → ℕ → ℕ → ℕ → Bytes → List SendOption → BaseState → BaseState × (ℕ × Bool)
  unfolding send_as
  send_reaction_as env draw from to target emoji opts =
      send_as codec c b cfg env draw
        (record (optioned from to text_message_app emoji (apply_send_options opts)) {
          reply_id = target;
          emoji = 1;
        })

  unfoldable pub send_waypoint_as :
      Env → ℕ → ℕ → ℕ → Waypoint → List SendOption → BaseState → BaseState × (ℕ × Bool)
  unfolding send_as
  send_waypoint_as env draw from to waypoint opts st =
      let o = apply_send_options opts in
      elim (codec.marshal_waypoint waypoint) [
        | none ↦ (st, (0, false))
        | some payload ↦
            if ltb max_data_payload (length payload)
            then (st, (0, false))
            else send_as codec c b cfg env draw
                (record (optioned from to waypoint_app payload o) { want_ack = o.want_ack }) st
      ]

  unfoldable pub send_mesh_beacon_as :
      Env → ℕ → ℕ → MeshBeacon → List SendOption → BaseState → BaseState × (ℕ × Bool)
  unfolding send_as validate_mesh_beacon
  send_mesh_beacon_as env draw from beacon opts st =
      let o = apply_send_options opts in
      if not (validate_mesh_beacon (some beacon))
      then (st, (0, false))
      else send_payload env draw
          (λ payload. record (optioned from broadcast_node_id mesh_beacon_app payload o) {
            want_ack = o.want_ack;
          })
          (codec.marshal_mesh_beacon beacon) st

  -- The reason is Routing_GOT_NAK.
  unfoldable pub send_nack_as : Env → ℕ → ℕ → ℕ → ℕ → BaseState → BaseState × Bool
  unfolding send_as
  send_nack_as env draw from to packet_id st =
      let (st', result) =
        send_payload env draw
          (λ payload. record (plain_send from to routing_app payload encrypt_psk) {
            request_id = packet_id;
          })
          (codec.marshal_routing (record { error_reason = 2 })) st in
      (st', result.1)

  unfoldable pub request_traceroute_as :
      Env → ℕ → ℕ → ℕ → List SendOption → BaseState → BaseState × (ℕ × Bool)
  unfolding send_as
  request_traceroute_as env draw from to opts =
      let o = apply_send_options opts in
      send_payload env draw
        (λ payload. record (optioned from to traceroute_app payload o) { want_response = true })
        (codec.marshal_route_discovery (first_hops cfg from))

  unfoldable pub send_map_report_as :
      Env → ℕ → ℕ → MapEntry → Option ℕ → BaseState → BaseState × (ℕ × Bool)
  unfolding send_as map_report_of
  send_map_report_as env draw from e preset st =
      if e.latitude_i == 0 || e.longitude_i == 0
      then (st, (0, false))
      else send_payload env draw
          (λ payload. plain_send from broadcast_node_id map_report_app payload encrypt_none)
          (codec.marshal_map_report (map_report_of cfg from e preset)) st

  unfoldable pub send_neighbor_info_as :
      Env → ℕ → ℕ → List ℕ → ℕ → BaseState → BaseState × (ℕ × Bool)
  unfolding send_as build_neighbor_info
  send_neighbor_info_as env draw from ids interval =
      send_payload env draw
        (λ payload. plain_send from broadcast_node_id_no_lora neighborinfo_app payload encrypt_psk)
        (codec.marshal_neighbor_info (build_neighbor_info from ids interval))

  unfoldable pub send_neighbor_info_response_as :
      Env → ℕ → ℕ → ℕ → List ℕ → ℕ → ℕ → List SendOption → BaseState → BaseState × (ℕ × Bool)
  unfolding send_as build_neighbor_info
  send_neighbor_info_response_as env draw from to ids interval request_id opts =
      let o = apply_send_options opts in
      send_payload env draw
        (λ payload. record (optioned from to neighborinfo_app payload o) {
          request_id = request_id;
        })
        (codec.marshal_neighbor_info (build_neighbor_info from ids interval))
