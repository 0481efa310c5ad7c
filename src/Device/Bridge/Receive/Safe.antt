-- ===== src/Device/Bridge/Receive/Safe.antt =====
-- An incoming packet does not make the bridge panic.
use meshtastic_go.Common.{
  ℕ, ◌≡◌, refl, ap, ◌∙◌, Bool, true, false, Option, none, some, if◌then◌else◌, Bytes,
}
use meshtastic_go.Channel.{lookup_all}
use meshtastic_go.Crypto.Packet.{
  Outcome, ok, err, panic, try_decode_payload, try_decode, try_decode_pki, mark_pki_payload,
}
use meshtastic_go.Device.Bridge.{BridgeConfig, BridgeEnv, ask_key}
use meshtastic_go.Device.Bridge.Receive.{
  bridge_tries_pki, try_with_keys, bridge_decrypt_pki, bridge_found, bridge_psk, bridge_pki,
  open_for_bridge, is_own, bridge_incoming_packet,
}
use meshtastic_go.Transport.{NetworkPacket}
use meshtastic_go.Device.Config.{BaseConfig}
use meshtastic_go.Device.Handlers.{NodeState, first_readable, is_duplicate}
use meshtastic_go.Device.Node.Receive.Safe.{
  is_safe, is_panic, bind-panic, if-panic, payload-panic, first_readable-panic, marked-safe,
  marked_payload,
}
use meshtastic_go.Proto.{Data, MeshPacket, Payload, decoded, encrypted, unset, ProtoCodec, Ciphers}

module _ (codec : ProtoCodec) (c : Ciphers) (b : BaseConfig) (cfg : BridgeConfig)
    (quarters : ℕ → ℕ) where
  bridge_psk-panic :
      (w : BridgeEnv) (net : NetworkPacket) (s : NodeState)
      → is_safe net.packet net.packet.payload_variant ≡ true
      → is_panic (bridge_psk codec c b cfg quarters w net s) ≡ false
  unfolding bridge_psk
  bridge_psk-panic w net s h =
      let candidates = lookup_all net.packet.channel s.base.channels in
      bind-panic (first_readable codec c net.packet candidates)
        (λ found. ok (bridge_found codec c b cfg quarters w net s found))
        (first_readable-panic codec c net.packet candidates h) (λ found. refl)

  bridge_pki-panic :
      (w : BridgeEnv) (net : NetworkPacket) (pkt : MeshPacket) (o : Outcome Data) (s : NodeState)
      → is_safe pkt pkt.payload_variant ≡ true
      → is_panic o ≡ false
      → is_panic (bridge_pki codec c b cfg quarters w net (pkt, o) s) ≡ false
  bridge_pki-panic w net pkt (ok d) s h p = refl
  bridge_pki-panic w net pkt err s h p = bridge_psk-panic w (record net { packet = pkt }) s h
  bridge_pki-panic w net pkt panic s h p = p

  tried-panic :
      (w : BridgeEnv) (net : NetworkPacket) (pkt : MeshPacket) (priv pk : Option Bytes)
      (s : NodeState)
      → is_safe pkt pkt.payload_variant ≡ true
      → is_panic (
          bridge_pki codec c b cfg quarters w net
            (try_with_keys codec c b cfg quarters pkt priv pk)
            s)
        ≡ false
  unfolding try_decode_pki try_decode
  tried-panic w net pkt none pk s h = bridge_psk-panic w (record net { packet = pkt }) s h
  tried-panic w net pkt (some priv) none s h = bridge_psk-panic w (record net { packet = pkt }) s h
  tried-panic w net pkt (some priv) (some pk) s h =
      let p = mark_pki_payload pkt.payload_variant pk pkt in
      let safe : is_safe p p.payload_variant ≡ true =
        ap (is_safe p) (marked_payload pkt.payload_variant pkt pk)
        ∙ marked-safe pkt.payload_variant pkt pk h in
      bridge_pki-panic w net p (try_decode_payload codec c p.payload_variant p priv) s safe
        (payload-panic codec c p.payload_variant p priv safe)

  open_cipher-panic :
      (w : BridgeEnv) (net : NetworkPacket) (s : NodeState)
      → is_safe net.packet net.packet.payload_variant ≡ true
      → is_panic (
          if bridge_tries_pki codec c b cfg quarters net.packet
          then bridge_pki codec c b cfg quarters w net
              (bridge_decrypt_pki codec c b cfg quarters net.packet)
              s
          else bridge_psk codec c b cfg quarters w net s)
        ≡ false
  unfolding bridge_decrypt_pki
  open_cipher-panic w net s h =
      let pkt = net.packet in
      if-panic (bridge_tries_pki codec c b cfg quarters pkt) _ _
        (λ e.
          tried-panic w net pkt (ask_key cfg.private_key_for_node pkt.to)
            (ask_key cfg.public_key_for_node pkt.from) s h)
        (λ e. bridge_psk-panic w net s h)

  open_for_bridge-panic :
      (w : BridgeEnv) (net : NetworkPacket) (v : Payload) (s : NodeState)
      → is_safe net.packet net.packet.payload_variant ≡ true
      → is_panic (open_for_bridge codec c b cfg quarters w net v s) ≡ false
  unfolding open_for_bridge
  open_for_bridge-panic w net (decoded d) s h = refl
  open_for_bridge-panic w net (encrypted bs) s h = open_cipher-panic w net s h
  open_for_bridge-panic w net unset s h = open_cipher-panic w net s h

  -- A packet that does not claim PKI when it arrives, or whose payload is not encrypted or has at
  -- least four encrypted bytes, does not make the bridge panic.
  pub bridge-panic :
      (w : BridgeEnv) (purge : Bool) (net : NetworkPacket) (s : NodeState)
      → is_safe net.packet net.packet.payload_variant ≡ true
      → is_panic (bridge_incoming_packet codec c b cfg quarters w purge net s) ≡ false
  unfolding bridge_incoming_packet
  bridge-panic w purge net s h =
      let (dedup, duplicate) = is_duplicate purge w.first.clock net.packet s.base.dedup in
      if-panic duplicate _ _ (λ e. refl)
        (λ e.
          if-panic (is_own codec c b cfg quarters net.packet.from) _ _ (λ e. refl)
            (λ e. open_for_bridge-panic w net net.packet.payload_variant _ h))
