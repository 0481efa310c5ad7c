-- ===== src/Inbound/Gates.antt =====
-- What a packet from outside can no longer claim.
use meshtastic_go.Common.{
  ℕ, ◌≤◌, ◌≡◌, refl, ◌≢◌, Bool, true, false, not, ◌||◌, Option, none, some, [], arith, ltb, ◌==◌,
  if◌then◌else◌, length, Bytes, bytes_eq,
}
use meshtastic_go.Device.Node.{max_hops}
use meshtastic_go.Inbound.{
  is_encrypted, is_set, plain_portnum, sanitize_udp, sanitize_packet, ServiceEnvelope,
  sanitize_other, sanitize_mqtt,
}
use meshtastic_go.NodeId.{is_reserved_id}
use meshtastic_go.NodeId.Text.{string}
use meshtastic_go.Proto.{MeshPacket, admin_app}

-- A packet without a mark of trust or a local measurement, within the hop limits.
abbrev pub IsPlain : MeshPacket → Type 0
IsPlain pkt =
    (pkt.pki_encrypted ≡ false)
    × (pkt.public_key ≡ [])
    × (pkt.xeddsa_signed ≡ false)
    × (pkt.rx_snr ≡ 0)
    × (pkt.rx_rssi ≡ none)
    × (pkt.hop_limit ≤ max_hops)
    × (pkt.hop_start ≤ max_hops)

abbrev pub IfPlain : (MeshPacket → Type 0) → Option MeshPacket → Type 0
IfPlain P none = Unit
IfPlain P (some pkt) = IsPlain pkt × P pkt

if-IfPlain :
    (P : MeshPacket → Type 0) (t : Bool) (x : Option MeshPacket)
    → (t ≡ false → IfPlain P x)
    → IfPlain P (if t then none else x)
if-IfPlain P true x h = tt
if-IfPlain P false x h = h refl

abbrev pub FromUdp : MeshPacket → Type 0
FromUdp pkt = (is_encrypted pkt.payload_variant ≡ true) × (pkt.from ≢ 0)

-- A packet that UDP lets through has no mark of trust, at most seven hops, an encrypted payload and
-- a sender.
sanitize_udp-IfPlain : (pkt : MeshPacket) → IfPlain FromUdp (sanitize_udp pkt)
unfolding sanitize_udp
sanitize_udp-IfPlain pkt = if-IfPlain FromUdp (not (is_encrypted pkt.payload_variant)) _ (λ cipher.
    if-IfPlain FromUdp (pkt.from == 0) _ (λ sender.
      if-IfPlain FromUdp (ltb max_hops pkt.hop_limit || ltb max_hops pkt.hop_start) _ (λ hops. (
        (refl, refl, refl, refl, refl, ground arith, ground arith),
        (ground arith, ground arith),
      ))))

abbrev pub FromMqtt : MeshPacket → Type 0
FromMqtt pkt =
    (is_reserved_id pkt.from ≡ false)
    × (is_set pkt.payload_variant ≡ true)
    × (plain_portnum pkt.payload_variant ≢ admin_app)

sanitize_packet-IfPlain : (pkt : MeshPacket) → IfPlain FromMqtt (sanitize_packet pkt)
sanitize_packet-IfPlain pkt = if-IfPlain FromMqtt (is_reserved_id pkt.from) _ (λ node.
    if-IfPlain FromMqtt (ltb max_hops pkt.hop_limit || ltb max_hops pkt.hop_start) _ (λ hops.
      if-IfPlain FromMqtt (not (is_set pkt.payload_variant)) _ (λ set.
        if-IfPlain FromMqtt (plain_portnum pkt.payload_variant == admin_app) _ (λ other. (
          (refl, refl, refl, refl, refl, ground arith, ground arith),
          (node, ground arith, ground arith),
        )))))

sanitize_other-IfPlain :
    (node_id : ℕ) (gateway_id : Bytes) (o : Option MeshPacket)
    → IfPlain FromMqtt (sanitize_other node_id gateway_id o)
sanitize_other-IfPlain node_id gateway_id none = tt
sanitize_other-IfPlain node_id gateway_id (some pkt) =
    if-IfPlain FromMqtt (bytes_eq gateway_id (string node_id)) (sanitize_packet pkt)
      (λ other. sanitize_packet-IfPlain pkt)

-- A packet that MQTT lets through has no mark of trust, at most seven hops, a sender that is not a
-- reserved id, a payload, and is no administration message in the clear.
pub sanitize_mqtt-IfPlain :
    (node_id : ℕ) (se : ServiceEnvelope) → IfPlain FromMqtt (sanitize_mqtt node_id se)
unfolding sanitize_mqtt
sanitize_mqtt-IfPlain node_id se =
    if-IfPlain FromMqtt (length se.channel_id == 0 || length se.gateway_id == 0)
      (sanitize_other node_id se.gateway_id se.packet)
      (λ e. sanitize_other-IfPlain node_id se.gateway_id se.packet)
