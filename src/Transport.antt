-- ===== src/Transport.antt =====
-- transport/interfaces.go: the packets and the state events that the transports hand on.
pub mod Multi
use meshtastic_go.Common.{Bool, true, false, Bytes}
use meshtastic_go.Proto.{MeshPacket}

pub data ListenerEvent : Type 0 where
  connected disconnected reconnecting failed : ListenerEvent

pub data PacketSource : Type 0 where
  from_radio from_mqtt from_udp : PacketSource

abbrev pub is_mqtt : PacketSource → Bool
is_mqtt from_mqtt = true
is_mqtt from_radio = false
is_mqtt from_udp = false

pub record NetworkPacket : Type 0 where
  pub packet : MeshPacket
  pub channel : Bytes
  pub source : PacketSource
  pub gateway_id : Bytes
