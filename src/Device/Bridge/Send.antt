-- ===== src/Device/Bridge/Send.antt =====
-- device/node/bridge_send.go and the sending half of bridge.go: sendAs, adjustHopForRelay and the
-- packets that are built by hand. A send returns the packet id and whether the error is nil.
pub mod Payloads
pub mod NodeInfo
pub mod Safe
use meshtastic_go.Device.Bridge.Request.{
  EncryptionMode, is_pki_mode, BridgeSend, asks_response, send_data_of, asks_ack, apply_hop_limits,
  adjust_hop_for_relay, send_channel, encrypt_none, encrypt_psk, encrypt_pki,
}
use meshtastic_go.Common.{
  ℕ, zero, suc, ◌+◌, ◌-◌, ◌*◌, ◌/◌, ◌%◌, ◌^◌, ◌≤◌, ◌<◌, bit_and, bit_or, bit_xor, ◌≡◌, refl, sym,
  ap, ◌∙◌, ◌≢◌, ◌↔◌, ◌⊎◌, inl, inr, Bool, true, false, not, ◌&&◌, ◌||◌, Option, none, some, List,
  [], ◌∷◌, ◌++◌, map, arith, ltb, leb, ◌==◌, if◌then◌else◌, bool_eq, ==_iff, ==_refl, Bool-cases,
  Option-cases, is_some, length, get_elem?, get_or, take, drop, replicate, select, find_first, All,
  length-append, Bytes, bytes_eq, bytes_eq_iff, bytes_eq_refl, text,
}
use meshtastic_go.Channel.{
  ChannelDef, ChannelRegistry, Resolved, found, not_found, ambiguous, resolve_by_name,
}
use meshtastic_go.Crypto.Packet.{Outcome, ok, err, panic, encrypt_curve25519}
use meshtastic_go.Device.Base.{
  Env, BaseState, transmit, apply_packet_defaults, channel_for_destination, encrypt_decoded, seal,
  send_packet,
}
use meshtastic_go.Device.Bridge.{BridgeConfig, BridgeEnv, is_managed, ask_key}
use meshtastic_go.Device.Config.{BaseConfig}
use meshtastic_go.Device.Node.{max_hops}
use meshtastic_go.Device.Node.Options.{max_data_payload}
use meshtastic_go.Device.Signing.{sign_outbound}
use meshtastic_go.Lora.{priority_ack, get_priority}
use meshtastic_go.NodeId.{is_broadcast}
use meshtastic_go.PacketId.{next}
use meshtastic_go.Proto.{
  Data, empty_data, MeshPacket, empty_packet, decoded, encrypted, Routing, ProtoCodec, Ciphers,
  position_app, nodeinfo_app, routing_app, traceroute_app,
}

module _ (codec : ProtoCodec) (c : Ciphers) (b : BaseConfig) (cfg : BridgeConfig) where
  abbrev pub encrypt_between :
      ℕ → MeshPacket → Option Bytes → Option Bytes → Option Bytes → Option MeshPacket
  encrypt_between draw pkt (some priv) (some pk) (some raw) =
      seal (record pkt { channel = 0; pki_encrypted = true })
        (encrypt_curve25519 c raw priv pk pkt.id pkt.from draw)
  encrypt_between draw pkt none pk raw = none
  encrypt_between draw pkt (some priv) none raw = none
  encrypt_between draw pkt (some priv) (some pk) none = none

  -- The switch of sendAs on the mode.
  unfoldable pub protect : EncryptionMode → ℕ → MeshPacket → Data → ChannelDef → Option MeshPacket
  unfolding encrypt_decoded encrypt_curve25519
  protect encrypt_none draw pkt d ch =
      some (record pkt { channel = 0; payload_variant = decoded d })
  protect encrypt_psk draw pkt d ch =
      encrypt_decoded codec c (record pkt { channel = ch.hash }) d ch.key_bytes
  protect encrypt_pki draw pkt d ch =
      encrypt_between draw pkt (ask_key cfg.private_key_for_node pkt.from)
        (ask_key cfg.public_key_for_node pkt.to) (codec.marshal_data d)

  -- The packet of sendAs before its payload is in it.
  unfoldable pub bare_packet : ℕ → ℕ → BridgeSend → MeshPacket
  unfolding get_priority apply_hop_limits asks_response
  bare_packet unix id s = apply_hop_limits b s.from (record empty_packet {
    id = id;
    from = s.from;
    to = s.to;
    want_ack = asks_ack s;
    rx_time = some (unix % 2 ^ 32);
    priority = get_priority (some (send_data_of s)) (asks_ack s);
    relay_node = bit_and b.node_id 0xFF;
  })

  abbrev pub build_on : ℕ → ℕ → ℕ → BridgeSend → ChannelDef → Option MeshPacket
  build_on unix draw id s ch =
      protect s.enc draw (bare_packet unix id s)
        (sign_outbound codec c b (send_data_of s) s.from id s.to (is_pki_mode s.enc)) ch

  abbrev pub finish : Env → ℕ → Bytes → Option MeshPacket → BaseState → BaseState × (ℕ × Bool)
  finish env id topic none st = (st, (0, false))
  finish env id topic (some pkt) st =
      let (st', sent) = transmit env topic pkt st in (st', (id, sent))

  abbrev pub send_on :
      Env → ℕ → ℕ → BridgeSend → Option ChannelDef → BaseState → BaseState × (ℕ × Bool)
  send_on env draw id s none st = (st, (0, false))
  send_on env draw id s (some ch) st = finish env id ch.name (build_on env.unix draw id s ch) st

  unfoldable pub send_as : Env → ℕ → BridgeSend → BaseState → BaseState × (ℕ × Bool)
  unfolding next send_channel bare_packet protect sign_outbound asks_response transmit
  send_as env draw s st =
      if not (is_managed cfg.is_managed_node s.from)
      then (st, (0, false))
      else if ltb max_data_payload (length s.payload)
      then (st, (0, false))
      else let (ids, id) = next env.seed env.high st.packet_ids in
        let st' = record st { packet_ids = ids } in send_on env draw id s (send_channel b s st') st'

  abbrev managed_packet : ℕ → ℕ → Data → MeshPacket
  managed_packet from to d = record empty_packet {
    from = from;
    to = to;
    payload_variant = decoded d;
  }

  -- sendPKIPacketAs
  abbrev pub relay_pki : Env → ℕ → ℕ → ℕ → ℕ → Outcome Bytes → BaseState → BaseState × Bool
  relay_pki env draw id from to (ok cipher) st =
      transmit env b.primary.name
        (adjust_hop_for_relay b from (
          apply_packet_defaults b env.unix (record empty_packet {
            id = id;
            from = from;
            to = to;
            pki_encrypted = true;
            payload_variant = encrypted cipher;
          })))
        st
  relay_pki env draw id from to err st = (st, false)
  relay_pki env draw id from to panic st = (st, false)

  abbrev pub pki_between :
      Env → ℕ → ℕ → ℕ → Option Bytes → Option Bytes → Option Bytes → BaseState → BaseState × Bool
  pki_between env draw from to (some priv) (some pk) (some plaintext) st =
      let (ids, id) = next env.seed env.high st.packet_ids in
      relay_pki env draw id from to (encrypt_curve25519 c plaintext priv pk id from draw)
        (record st { packet_ids = ids })
  pki_between env draw from to none pk plaintext st = (st, false)
  pki_between env draw from to (some priv) none plaintext st = (st, false)
  pki_between env draw from to (some priv) (some pk) none st = (st, false)

  unfoldable pub send_pki_packet_as : Env → ℕ → ℕ → ℕ → Data → BaseState → BaseState × Bool
  unfolding next encrypt_curve25519 apply_packet_defaults adjust_hop_for_relay transmit
  send_pki_packet_as env draw from to d st =
      pki_between env draw from to (ask_key cfg.private_key_for_node from)
        (ask_key cfg.public_key_for_node to) (codec.marshal_data d) st

  -- A packet that the bridge hands to sendPacket for one of its identities.
  unfoldable pub relay_packet : Env → ℕ → MeshPacket → BaseState → BaseState × Bool
  unfolding adjust_hop_for_relay send_packet
  relay_packet env from pkt st = send_packet codec c b env (adjust_hop_for_relay b from pkt) [] st

  abbrev pub fall_back : (BaseState → BaseState × Bool) → BaseState × Bool → BaseState × Bool
  fall_back psk (st, true) = (st, true)
  fall_back psk (st, false) = psk st

  unfoldable pub send_data_as : BridgeEnv → ℕ → ℕ → Data → Bool → BaseState → BaseState × Bool
  unfolding send_pki_packet_as relay_packet
  send_data_as w from to d use_pki st =
      let psk = relay_packet w.second from (managed_packet from to d) in
      if not (is_managed cfg.is_managed_node from)
      then (st, false)
      else if use_pki
      then fall_back psk (send_pki_packet_as w.first w.draw from to d st)
      else psk st

  abbrev pub relay_marshalled :
      (Bytes → BaseState → BaseState × Bool) → Option Bytes → BaseState → BaseState × Bool
  relay_marshalled send none st = (st, false)
  relay_marshalled send (some payload) st = send payload st

  abbrev pub ack_packet : ℕ → ℕ → ℕ → Bytes → MeshPacket
  ack_packet from to packet_id payload =
      record (managed_packet from to
        (record empty_data { portnum = routing_app; payload = payload; request_id = packet_id })) {
          priority = priority_ack;
        }

  unfoldable pub send_ack_as : Env → ℕ → ℕ → ℕ → BaseState → BaseState × Bool
  unfolding relay_packet
  send_ack_as env from to packet_id st =
      if not (is_managed cfg.is_managed_node from)
      then (st, false)
      else relay_marshalled
          (λ payload. relay_packet env from (ack_packet from to packet_id payload))
          (codec.marshal_routing (record { error_reason = 0 })) st
