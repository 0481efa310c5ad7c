-- ===== src/Device/Bridge/Request.antt =====
-- device/node/bridge_send.go: what sendAs is asked for, and the data, the hops and the channel of the
-- packet.
use meshtastic_go.Common.{
  ℕ, ◌+◌, ◌%◌, ◌^◌, bit_or, Bool, true, false, not, ◌&&◌, ◌||◌, Option, none, some, [], ltb, ◌==◌,
  if◌then◌else◌, length, Bytes,
}
use meshtastic_go.Channel.{ChannelDef, Resolved, found, not_found, ambiguous, resolve_by_name}
use meshtastic_go.Device.Base.{BaseState, channel_for_destination}
use meshtastic_go.Device.Config.{BaseConfig}
use meshtastic_go.Device.Node.{max_hops}
use meshtastic_go.NodeId.{is_broadcast}
use meshtastic_go.Proto.{Data, empty_data, MeshPacket, position_app, nodeinfo_app, traceroute_app}

pub data EncryptionMode : Type 0 where
  encrypt_none encrypt_psk encrypt_pki : EncryptionMode

abbrev pub is_pki_mode : EncryptionMode → Bool
is_pki_mode encrypt_none = false
is_pki_mode encrypt_psk = false
is_pki_mode encrypt_pki = true

pub record BridgeSend : Type 0 where
  pub from : ℕ
  pub to : ℕ
  pub portnum : ℕ
  pub payload : Bytes
  pub enc : EncryptionMode
  pub channel : Bytes
  pub channel_def : Option ChannelDef
  pub reply_id : ℕ
  pub request_id : ℕ
  pub emoji : ℕ
  pub want_response : Bool
  pub want_ack : Bool

-- A bridgeSend with its other fields unset.
abbrev pub plain_send : ℕ → ℕ → ℕ → Bytes → EncryptionMode → BridgeSend
plain_send from to portnum payload enc = record {
  from = from;
  to = to;
  portnum = portnum;
  payload = payload;
  enc = enc;
  channel = [];
  channel_def = none;
  reply_id = 0;
  request_id = 0;
  emoji = 0;
  want_response = false;
  want_ack = false;
}

-- Whether the packet asks for a response: only a unicast on one of three ports does.
unfoldable pub asks_response : BridgeSend → Bool
unfolding is_broadcast
asks_response s =
    s.want_response
    && not (is_broadcast s.to)
    && (s.portnum == nodeinfo_app || s.portnum == position_app || s.portnum == traceroute_app)

abbrev pub bitfield_ok_to_mqtt : ℕ
bitfield_ok_to_mqtt = 1

abbrev pub bitfield_want_response : ℕ
bitfield_want_response = 2

abbrev pub send_data_of : BridgeSend → Data
send_data_of s =
    let asks = asks_response s in
    record empty_data {
      portnum = s.portnum;
      payload = s.payload;
      bitfield =
          some (
            if asks
            then bit_or bitfield_ok_to_mqtt bitfield_want_response
            else bitfield_ok_to_mqtt);
      request_id = s.request_id;
      reply_id = s.reply_id;
      emoji = s.emoji;
      want_response = asks;
    }

abbrev pub asks_ack : BridgeSend → Bool
asks_ack s = s.want_ack || s.portnum == traceroute_app && s.want_response

-- `x++` on a uint32, then the clamp.
abbrev pub one_more_hop : ℕ → ℕ
one_more_hop hops = let more = (hops + 1) % 2 ^ 32 in if ltb max_hops more then max_hops else more

unfoldable pub apply_hop_limits : BaseConfig → ℕ → MeshPacket → MeshPacket
apply_hop_limits b from pkt =
    let hops = if from == b.node_id then b.hop_limit else one_more_hop b.hop_limit in
    record pkt { hop_limit = hops; hop_start = hops }

abbrev or_default : ℕ → ℕ → ℕ
or_default hops default = if hops == 0 then default else hops

unfoldable pub adjust_hop_for_relay : BaseConfig → ℕ → MeshPacket → MeshPacket
adjust_hop_for_relay b from pkt =
    let hop_limit = or_default pkt.hop_limit b.hop_limit in
    let hop_start = or_default pkt.hop_start hop_limit in
    if from == b.node_id
    then pkt
    else record pkt { hop_limit = one_more_hop hop_limit; hop_start = one_more_hop hop_start }

abbrev pub resolved_channel : Resolved → Option ChannelDef
resolved_channel (found ch) = some ch
resolved_channel not_found = none
resolved_channel ambiguous = none

abbrev pub named_channel :
    BaseConfig → BridgeSend → BaseState → Option ChannelDef → Option ChannelDef
named_channel b s st (some ch) = some ch
named_channel b s st none =
    if not (length s.channel == 0)
    then resolved_channel (resolve_by_name s.channel st.channels)
    else some (channel_for_destination b s.to (is_pki_mode s.enc) st.db)

-- The channel that sendAs uses; `none` is an error.
unfoldable pub send_channel : BaseConfig → BridgeSend → BaseState → Option ChannelDef
unfolding resolve_by_name channel_for_destination
send_channel b s st = named_channel b s st s.channel_def
