-- ===== src/Device/Base.antt =====
-- device/node/base.go: the state that Node and BridgeNode share, and the path of an outgoing packet.
-- A call takes what it reads of the world as an Env. Times in nanoseconds start at the first clock
-- reading; a sleep is taken to last as long as it was asked to.
pub mod Pacing
pub mod Defaults
pub mod Sealed
mod Examples
use meshtastic_go.Common.{
  ℕ, zero, suc, ◌+◌, ◌-◌, ◌*◌, ◌/◌, ◌%◌, ◌^◌, ◌≤◌, ◌<◌, bit_and, bit_or, bit_xor, ◌≡◌, refl, sym,
  ap, ◌∙◌, ◌≢◌, ◌↔◌, ◌⊎◌, inl, inr, Bool, true, false, not, ◌&&◌, ◌||◌, Option, none, some, List,
  [], ◌∷◌, ◌++◌, map, arith, ltb, leb, ◌==◌, if◌then◌else◌, bool_eq, ==_iff, ==_refl, Bool-cases,
  Option-cases, is_some, length, get_elem?, get_or, take, drop, replicate, select, find_first, All,
  length-append, Bytes, bytes_eq, bytes_eq_iff, bytes_eq_refl, text,
}
use meshtastic_go.Channel.{
  ChannelDef, ChannelRegistry, Resolved, found, not_found, ambiguous, resolve_by_name, lookup_name,
  lookup_by_name,
}
use meshtastic_go.Crypto.Packet.{Outcome, ok, err, panic, xor}
use meshtastic_go.Dedupe.{PacketDeduplicator}
use meshtastic_go.Device.Config.{BaseConfig}
use meshtastic_go.Device.Signing.{sign_outbound}
use meshtastic_go.Lora.{priority_unset, get_priority}
use meshtastic_go.NodeDb.{NodeDb, channel_of}
use meshtastic_go.NodeId.{is_broadcast}
use meshtastic_go.PacketId.{PacketIdGenerator, next}
use meshtastic_go.Proto.{
  Data, MeshPacket, Payload, decoded, encrypted, unset, get_decoded, ProtoCodec, Ciphers,
}
use meshtastic_go.Throttle.{RequestThrottle}

abbrev pub send_delay : ℕ
send_delay = 200_000_000

-- What a call reads: the clock in Unix seconds and in nanoseconds, the words that the packet id
-- generator draws, and whether the transport's SendPacket succeeds.
pub record Env : Type 0 where
  pub unix : ℕ
  pub clock : ℕ
  pub seed : ℕ
  pub high : ℕ
  pub transmits : Bytes → MeshPacket → Bool

-- A call of SendPacket: the topic, the time and the packet.
pub record Sent : Type 0 where
  pub topic : Bytes
  pub at : ℕ
  pub packet : MeshPacket

-- `sent` has the newest call first.
pub record BaseState : Type 0 where
  pub channels : ChannelRegistry
  pub dedup : PacketDeduplicator
  pub packet_ids : PacketIdGenerator
  pub throttle : RequestThrottle
  pub db : NodeDb
  pub last_send : Option ℕ
  pub sent : List Sent

-- The time at which the next packet goes out.
unfoldable pub pace : ℕ → Option ℕ → ℕ
pace clock none = clock
pace clock (some last) =
    if ltb (clock - last) send_delay then clock + (send_delay - (clock - last)) else clock

-- The end of sendPacketOn and of sendPKIPacket: pacing and the transport.
unfoldable pub transmit : Env → Bytes → MeshPacket → BaseState → BaseState × Bool
unfolding pace
transmit env topic packet s =
    let at = pace env.clock s.last_send in
    let call : Sent = record { topic = topic; at = at; packet = packet } in
    (record s { last_send = some at; sent = call ∷ s.sent }, env.transmits topic packet)

abbrev pub or_now : ℕ → Option ℕ → Option ℕ
or_now unix none = some (unix % 2 ^ 32)
or_now unix (some t) = some t

unfoldable pub apply_packet_defaults : BaseConfig → ℕ → MeshPacket → MeshPacket
unfolding get_priority
apply_packet_defaults b unix pkt =
    let hop_limit = if pkt.hop_limit == 0 then b.hop_limit else pkt.hop_limit in
    record pkt {
      hop_limit = hop_limit;
      hop_start = (if pkt.hop_start == 0 then hop_limit else pkt.hop_start);
      priority =
          (if pkt.priority == priority_unset
            then get_priority (get_decoded pkt.payload_variant) pkt.want_ack
            else pkt.priority);
      rx_time = or_now unix pkt.rx_time;
      relay_node = (if pkt.relay_node == 0 then bit_and b.node_id 0xFF else pkt.relay_node);
    }

-- `decoded.GetBitfield()`
abbrev pub get_bitfield : Option ℕ → ℕ
get_bitfield none = 0
get_bitfield (some bits) = bits

unfoldable pub allow_mqtt : BaseConfig → Data → Data
allow_mqtt b d =
    if b.ok_to_mqtt then record d { bitfield = some (bit_or (get_bitfield d.bitfield) 1) } else d

unfoldable pub channel_for_destination : BaseConfig → ℕ → Bool → NodeDb → ChannelDef
unfolding is_broadcast channel_of
channel_for_destination b to pki db =
    if pki || to == 0 || is_broadcast to || not b.has_db
    then b.primary
    else elim (channel_of to db) [ none ↦ b.primary | some ch ↦ ch ]

unfoldable pub decoded_channel : Bytes → ℕ → ChannelRegistry → Option ChannelDef × Bytes
unfolding lookup_name lookup_by_name
decoded_channel topic index r =
    let name = if length topic == 0 then lookup_name index r else topic in
    (lookup_by_name name r, name)

abbrev pub seal : MeshPacket → Outcome Bytes → Option MeshPacket
seal pkt (ok bs) = some (record pkt { payload_variant = encrypted bs })
seal pkt err = none
seal pkt panic = none

module _ (codec : ProtoCodec) (c : Ciphers) where
  abbrev pub encrypt_plain : MeshPacket → Bytes → Option Bytes → Option MeshPacket
  encrypt_plain pkt key none = none
  encrypt_plain pkt key (some plain) = seal pkt (xor c plain key pkt.id pkt.from)

  unfoldable pub encrypt_decoded : MeshPacket → Data → Bytes → Option MeshPacket
  unfolding xor
  encrypt_decoded pkt d key = encrypt_plain pkt key (codec.marshal_data d)

module _ (codec : ProtoCodec) (c : Ciphers) (b : BaseConfig) where
  -- The bitfield, the signature and the encryption of an outgoing packet.
  unfoldable pub prepare_payload : Payload → MeshPacket → Bytes → Option MeshPacket
  unfolding allow_mqtt sign_outbound encrypt_decoded
  prepare_payload (decoded d) pkt key =
      let d' = sign_outbound codec c b (allow_mqtt b d) pkt.from pkt.id pkt.to pkt.pki_encrypted in
      if pkt.pki_encrypted
      then some (record pkt { payload_variant = decoded d' })
      else encrypt_decoded codec c pkt d' key
  prepare_payload (encrypted bs) pkt key = some pkt
  prepare_payload unset pkt key = some pkt

  -- The packet with its id, its channel and its defaults.
  abbrev pub stamped : ℕ → ℕ → MeshPacket → ChannelDef → MeshPacket
  stamped unix id packet ch =
      let channel =
        if not packet.pki_encrypted && packet.channel == 0 then ch.hash else packet.channel in
      apply_packet_defaults b unix (record packet { id = id; channel = channel })

  -- The packet that sendPacketOn hands to the transport.
  unfoldable pub prepare : ℕ → ℕ → MeshPacket → ChannelDef → Option MeshPacket
  unfolding apply_packet_defaults prepare_payload
  prepare unix id packet ch =
      let pkt = stamped unix id packet ch in prepare_payload pkt.payload_variant pkt ch.key_bytes

  abbrev pub hand_over : Env → Bytes → Option MeshPacket → BaseState → BaseState × Bool
  hand_over env topic none s = (s, false)
  hand_over env topic (some pkt) s = transmit env topic pkt s

  -- `true` is a nil error.
  unfoldable pub send_packet_on : Env → MeshPacket → ChannelDef → BaseState → BaseState × Bool
  unfolding next prepare transmit
  send_packet_on env packet ch s =
      let (ids, id) = next env.seed env.high s.packet_ids in
      hand_over env ch.name (prepare env.unix id packet ch) (record s { packet_ids = ids })

  abbrev pub send_resolved : Env → MeshPacket → Resolved → BaseState → BaseState × Bool
  send_resolved env packet (found ch) s = send_packet_on env packet ch s
  send_resolved env packet not_found s = (s, false)
  send_resolved env packet ambiguous s = (s, false)

  unfoldable pub send_packet : Env → MeshPacket → Bytes → BaseState → BaseState × Bool
  unfolding send_packet_on channel_for_destination resolve_by_name
  send_packet env packet channel_name s =
      if not (length channel_name == 0)
      then send_resolved env packet (resolve_by_name channel_name s.channels) s
      else send_packet_on env packet (channel_for_destination b packet.to packet.pki_encrypted s.db)
          s
