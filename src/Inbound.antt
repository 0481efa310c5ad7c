-- ===== src/Inbound.antt =====
-- transport/udp/udp.go and transport/mqtt/mqtt.go: sanitizeInbound, the gates on a packet from a
-- socket or a broker. `none` is an error, and the packet that is let through is returned.
pub mod Gates
mod Examples
use meshtastic_go.Common.{
  ℕ, zero, suc, ◌+◌, ◌-◌, ◌*◌, ◌/◌, ◌%◌, ◌^◌, ◌≤◌, ◌<◌, bit_and, bit_or, bit_xor, ◌≡◌, refl, sym,
  ap, ◌∙◌, ◌≢◌, ◌↔◌, ◌⊎◌, inl, inr, Bool, true, false, not, ◌&&◌, ◌||◌, Option, none, some, List,
  [], ◌∷◌, ◌++◌, map, arith, ltb, leb, ◌==◌, if◌then◌else◌, bool_eq, ==_iff, ==_refl, Bool-cases,
  Option-cases, is_some, length, get_elem?, get_or, take, drop, replicate, select, find_first, All,
  length-append, Bytes, bytes_eq, bytes_eq_iff, bytes_eq_refl, text,
}
use meshtastic_go.Device.Node.{max_hops}
use meshtastic_go.NodeId.{is_reserved_id}
use meshtastic_go.NodeId.Text.{string}
use meshtastic_go.Proto.{
  Data, Payload, decoded, encrypted, unset, MeshPacket, empty_packet, admin_app,
}

abbrev pub is_encrypted : Payload → Bool
is_encrypted (encrypted bs) = true
is_encrypted (decoded d) = false
is_encrypted unset = false

abbrev pub is_set : Payload → Bool
is_set (encrypted bs) = true
is_set (decoded d) = true
is_set unset = false

-- `in.GetDecoded().GetPortnum()`
abbrev pub plain_portnum : Payload → ℕ
plain_portnum (decoded d) = d.portnum
plain_portnum (encrypted bs) = 0
plain_portnum unset = 0

-- Values of MeshPacket_TransportMechanism.
abbrev pub transport_mqtt : ℕ
transport_mqtt = 5

abbrev pub transport_multicast_udp : ℕ
transport_multicast_udp = 6

-- sanitizeInbound of transport/udp
unfoldable pub sanitize_udp : MeshPacket → Option MeshPacket
sanitize_udp msg =
    if not (is_encrypted msg.payload_variant)
    then none
    else if msg.from == 0
    then none
    else if ltb max_hops msg.hop_limit || ltb max_hops msg.hop_start
    then none
    else some (record msg {
      transport_mechanism = transport_multicast_udp;
      pki_encrypted = false;
      public_key = [];
      xeddsa_signed = false;
      rx_snr = 0;
      rx_rssi = none;
    })

-- The fields that onReceiveProto copies.
abbrev pub copied : MeshPacket → MeshPacket
copied pkt = record empty_packet {
  from = pkt.from;
  to = pkt.to;
  id = pkt.id;
  channel = pkt.channel;
  hop_limit = pkt.hop_limit;
  hop_start = pkt.hop_start;
  want_ack = pkt.want_ack;
  payload_variant = pkt.payload_variant;
  via_mqtt = true;
  transport_mechanism = transport_mqtt;
}

abbrev pub sanitize_packet : MeshPacket → Option MeshPacket
sanitize_packet pkt =
    if is_reserved_id pkt.from
    then none
    else if ltb max_hops pkt.hop_limit || ltb max_hops pkt.hop_start
    then none
    else if not (is_set pkt.payload_variant)
    then none
    else if plain_portnum pkt.payload_variant == admin_app
    then none
    else some (copied pkt)

-- `pb.ServiceEnvelope`
pub record ServiceEnvelope : Type 0 where
  pub channel_id : Bytes
  pub gateway_id : Bytes
  pub packet : Option MeshPacket

abbrev pub sanitize_other : ℕ → Bytes → Option MeshPacket → Option MeshPacket
sanitize_other node_id gateway_id none = none
sanitize_other node_id gateway_id (some pkt) =
    if bytes_eq gateway_id (string node_id) then none else sanitize_packet pkt

-- sanitizeInbound of transport/mqtt, for the node id of the transport's configuration.
unfoldable pub sanitize_mqtt : ℕ → ServiceEnvelope → Option MeshPacket
unfolding is_reserved_id string
sanitize_mqtt node_id se =
    if length se.channel_id == 0 || length se.gateway_id == 0
    then none
    else sanitize_other node_id se.gateway_id se.packet
