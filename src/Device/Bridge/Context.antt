-- ===== src/Device/Bridge/Context.antt =====
-- device/node/bridge.go: what processDecoded tells of a packet, to the handlers and to the responders.
use meshtastic_go.Common.{
  ℕ, bit_and, Bool, not, ◌&&◌, Option, none, some, ◌==◌, if◌then◌else◌, length, Bytes,
}
use meshtastic_go.Channel.{ChannelDef}
use meshtastic_go.Device.Bridge.Route.{EventContext}
use meshtastic_go.Device.Handlers.{EventBody, Event, Via, event_of}
use meshtastic_go.Transport.{NetworkPacket, is_mqtt}
use meshtastic_go.NodeId.Text.{parse_node_id}
use meshtastic_go.Proto.{Data, MeshPacket}

abbrev or_relay : Option ℕ → MeshPacket → ℕ
or_relay (some id) p = id
or_relay none p =
    if p.hop_start == p.hop_limit && p.relay_node == bit_and p.from 0xFF
    then p.from
    else p.relay_node

unfoldable pub gateway_node : NetworkPacket → ℕ
unfolding parse_node_id
gateway_node net =
    or_relay (if length net.gateway_id == 0 then none else parse_node_id net.gateway_id) net.packet

abbrev key_string : Option ChannelDef → Option Bytes
key_string none = none
key_string (some ch) = some ch.key_string

-- `managed` is the managed node that a PKI packet is for, and 0 for other packets.
unfoldable pub bridge_event : ℕ → NetworkPacket → Via → ℕ → Data → Bool → EventBody → Event
unfolding gateway_node
bridge_event unix net via managed d signed body =
    let pkt = net.packet in
    record (event_of unix via pkt d signed body) {
      channel_key = key_string via.channel;
      via = gateway_node net;
      managed_node_id = managed;
      want_ack = pkt.want_ack;
      want_response = d.want_response;
      is_neighbor = not (is_mqtt net.source) && pkt.hop_start == pkt.hop_limit && not pkt.via_mqtt;
    }

abbrev pub context_of : NetworkPacket → Via → EventContext
context_of net via =
    let pkt = net.packet in
    record {
      from = pkt.from;
      to = pkt.to;
      via = gateway_node net;
      packet_id = pkt.id;
      channel_name = via.name;
      channel = via.channel;
      want_ack = pkt.want_ack;
      hop_start = pkt.hop_start;
      hop_limit = pkt.hop_limit;
      rx_snr = pkt.rx_snr;
    }
