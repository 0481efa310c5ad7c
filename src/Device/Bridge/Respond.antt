-- ===== src/Device/Bridge/Respond.antt =====
-- device/node/bridge_responders.go and bridge.go: the responses that the bridge gives for its
-- identities. A call that sends one packet reads the first Env.
use meshtastic_go.Common.{
  ℕ, ◌%◌, ◌^◌, Bool, false, not, ◌&&◌, Option, none, some, List, [], ◌∷◌, ◌==◌, if◌then◌else◌,
  Bytes, bytes_eq, text,
}
use meshtastic_go.Channel.{ChannelDef}
use meshtastic_go.Device.Base.{Env, BaseState}
use meshtastic_go.Device.Bridge.{BridgeConfig, BridgeEnv, is_managed}
use meshtastic_go.Device.Bridge.Route.{EventContext, answered_route}
use meshtastic_go.Device.Bridge.Request.{EncryptionMode, encrypt_psk, encrypt_pki, plain_send}
use meshtastic_go.Device.Bridge.Send.{send_as, send_ack_as}
use meshtastic_go.Device.Bridge.Send.NodeInfo.{send_node_info_response}
use meshtastic_go.Device.Bridge.Send.Payloads.{
  build_device_metrics, send_telemetry_as, send_host_metrics_as, send_neighbor_info_response_as,
}
use meshtastic_go.Device.Config.{BaseConfig}
use meshtastic_go.Device.Node.Options.{
  SendOption, with_channel, with_channel_def, with_pki, with_request_id,
}
use meshtastic_go.NodeId.{is_broadcast}
use meshtastic_go.Proto.{
  Telemetry, TelemetryVariant, device_metrics, host_metrics, other_metrics, no_metrics,
  NeighborInfo, RouteDiscovery, ProtoCodec, Ciphers, nodeinfo_app, telemetry_app, traceroute_app,
  neighborinfo_app,
}
use meshtastic_go.Throttle.{can_respond}

abbrev pub came_by_pki : EventContext → Bool
came_by_pki evt = bytes_eq evt.channel_name (text "PKI")

-- responseEncryption
unfoldable pub response_encryption : EventContext → EncryptionMode × (Option ChannelDef × Bytes)
response_encryption evt =
    if came_by_pki evt
    then (encrypt_pki, (none, []))
    else (encrypt_psk, (evt.channel, evt.channel_name))

unfoldable pub channel_option : Option ChannelDef → Bytes → SendOption
channel_option none name = with_channel name
channel_option (some ch) name = with_channel_def ch

abbrev pki_options : EncryptionMode → List SendOption
pki_options encrypt_pki = with_pki ∷ []
pki_options _ = []

-- A dummy probe has one neighbour with id and SNR 0; the SNR is a float32 by its bits.
abbrev is_dummy : List (ℕ × ℕ) → Bool
is_dummy [] = false
is_dummy (nb ∷ []) = nb.0 == 0 && nb.1 % 2 ^ 31 == 0
is_dummy (nb ∷ other ∷ l) = false

abbrev ask_neighbors : Option (ℕ → List ℕ) → ℕ → List ℕ
ask_neighbors none id = []
ask_neighbors (some f) id = f id

-- A reply of the identity `id`, unless its throttle holds it back.
unfoldable pub throttled : Env → ℕ → ℕ → (BaseState → BaseState) → BaseState → BaseState
unfolding can_respond
throttled env id portnum reply st =
    let (throttle, allowed) = can_respond env.clock env.clock id portnum st.throttle in
    let st' = record st { throttle = throttle } in if allowed then reply st' else st'

module _ (codec : ProtoCodec) (c : Ciphers) (b : BaseConfig) (cfg : BridgeConfig) where
  abbrev reply_metrics :
      Env → ℕ → EventContext → List SendOption → TelemetryVariant → BaseState → BaseState
  reply_metrics env draw evt opts (host_metrics m) st =
      (send_host_metrics_as codec c b cfg env draw evt.to evt.from opts st).0
  reply_metrics env draw evt opts (device_metrics m) st =
      (send_telemetry_as codec c b cfg env draw evt.to evt.from (build_device_metrics cfg env.unix)
        opts st).0
  reply_metrics env draw evt opts (other_metrics m) st =
      (send_telemetry_as codec c b cfg env draw evt.to evt.from (build_device_metrics cfg env.unix)
        opts st).0
  reply_metrics env draw evt opts no_metrics st =
      (send_telemetry_as codec c b cfg env draw evt.to evt.from (build_device_metrics cfg env.unix)
        opts st).0

  unfoldable pub respond_telemetry : BridgeEnv → EventContext → Telemetry → BaseState → BaseState
  unfolding throttled response_encryption channel_option send_host_metrics_as send_telemetry_as
      build_device_metrics
  respond_telemetry w evt tel st =
      let (enc, (ch, name)) = response_encryption evt in
      let opts = channel_option ch name ∷ with_request_id evt.packet_id ∷ pki_options enc in
      if not (is_managed cfg.is_managed_node evt.to)
      then st
      else throttled w.first evt.to telemetry_app
          (reply_metrics w.first w.draw evt opts tel.variant) st

  unfoldable pub respond_neighbor_info :
      BridgeEnv → EventContext → NeighborInfo → BaseState → BaseState
  unfolding throttled response_encryption channel_option send_neighbor_info_response_as
  respond_neighbor_info w evt ni st =
      let (enc, (ch, name)) = response_encryption evt in
      let opts = channel_option ch name ∷ pki_options enc in
      if not (is_managed cfg.is_managed_node evt.to)
      then st
      else if is_dummy ni.neighbors
      then st
      else throttled w.first evt.to neighborinfo_app
          (λ st.
            (send_neighbor_info_response_as codec c b cfg w.first w.draw evt.to evt.from
              (ask_neighbors cfg.neighbor_provider evt.to) cfg.neighbor_broadcast_interval
              evt.packet_id opts st).0)
          st

  -- The bridge answers, and so does the managed node that the request is for, each within its own
  -- throttle.
  unfoldable pub respond_node_info_for_managed : BridgeEnv → ℕ → ℕ → ℕ → BaseState → BaseState
  unfolding throttled send_node_info_response is_broadcast
  respond_node_info_for_managed w from to packet_id st =
      let st' =
        throttled w.first cfg.node_id nodeinfo_app
          (send_node_info_response codec c b cfg w.first cfg.node_id from packet_id) st in
      if not (is_broadcast to) && not (to == cfg.node_id) && is_managed cfg.is_managed_node to
      then throttled w.second to nodeinfo_app
          (send_node_info_response codec c b cfg w.second to from packet_id) st'
      else st'

  abbrev reply_route : BridgeEnv → EventContext → Option Bytes → BaseState → BaseState
  reply_route w evt none st = st
  reply_route w evt (some payload) st =
      let (enc, (ch, name)) = response_encryption evt in
      (send_as codec c b cfg w.second w.draw
        (record (plain_send evt.to evt.from traceroute_app payload enc) {
          channel = name;
          channel_def = ch;
          request_id = evt.packet_id;
        })
        st).0

  abbrev ack_if_asked : Env → EventContext → BaseState → BaseState
  ack_if_asked env evt st =
      if evt.want_ack
      then (send_ack_as codec c b cfg env evt.to evt.from evt.packet_id st).0
      else st

  -- `quarters` is `int32(snr * 4)` on a float32.
  unfoldable pub handle_traceroute_request :
      (ℕ → ℕ) → BridgeEnv → EventContext → RouteDiscovery → BaseState → BaseState
  unfolding answered_route response_encryption send_as send_ack_as
  handle_traceroute_request quarters w evt disco st =
      if not (is_managed cfg.is_managed_node evt.to)
      then st
      else reply_route w evt
          (codec.marshal_route_discovery (answered_route quarters cfg.node_id evt disco))
          (ack_if_asked w.first evt st)
