-- ===== src/Proto/Messages.antt =====
-- The messages of core/proto/mesh.pb.go and its neighbours, with the fields that the library uses.
use meshtastic_go.Common.{ℕ, Bool, false, Option, none, some, List, [], Bytes}

pub record ChannelSettings : Type 0 where
  pub name : Bytes
  pub psk : Bytes
  -- settings.GetModuleSettings().GetPositionPrecision()
  pub position_precision : ℕ

-- `Data`: the decoded payload of a packet.
pub record Data : Type 0 where
  pub portnum : ℕ
  pub payload : Bytes
  pub want_response : Bool
  pub request_id : ℕ
  pub reply_id : ℕ
  pub emoji : ℕ
  pub bitfield : Option ℕ
  pub xeddsa_signature : Bytes

abbrev pub empty_data : Data
empty_data = record {
  portnum = 0;
  payload = [];
  want_response = false;
  request_id = 0;
  reply_id = 0;
  emoji = 0;
  bitfield = none;
  xeddsa_signature = [];
}

pub data Payload : Type 0 where
  decoded : Data → Payload
  encrypted : Bytes → Payload
  unset : Payload

pub record MeshPacket : Type 0 where
  pub from : ℕ
  pub to : ℕ
  pub channel : ℕ
  pub payload_variant : Payload
  pub id : ℕ
  pub rx_time : Option ℕ
  pub rx_snr : ℕ
  pub rx_rssi : Option ℕ
  pub hop_limit : ℕ
  pub hop_start : ℕ
  pub want_ack : Bool
  pub priority : ℕ
  pub via_mqtt : Bool
  pub public_key : Bytes
  pub pki_encrypted : Bool
  pub relay_node : ℕ
  pub transport_mechanism : ℕ
  pub xeddsa_signed : Bool

-- `&pb.MeshPacket{}`
abbrev pub empty_packet : MeshPacket
empty_packet = record {
  from = 0;
  to = 0;
  channel = 0;
  payload_variant = unset;
  id = 0;
  rx_time = none;
  rx_snr = 0;
  rx_rssi = none;
  hop_limit = 0;
  hop_start = 0;
  want_ack = false;
  priority = 0;
  via_mqtt = false;
  public_key = [];
  pki_encrypted = false;
  relay_node = 0;
  transport_mechanism = 0;
  xeddsa_signed = false;
}

-- `pkt.GetDecoded()`
abbrev pub get_decoded : Payload → Option Data
get_decoded (decoded d) = some d
get_decoded (encrypted b) = none
get_decoded unset = none

pub record User : Type 0 where
  pub id : Bytes
  pub long_name : Bytes
  pub short_name : Bytes
  pub macaddr : Bytes
  pub hw_model : ℕ
  pub role : ℕ
  pub public_key : Bytes
  pub is_unmessagable : Option Bool

abbrev pub empty_user : User
empty_user = record {
  id = [];
  long_name = [];
  short_name = [];
  macaddr = [];
  hw_model = 0;
  role = 0;
  public_key = [];
  is_unmessagable = none;
}

-- Coordinates are 32-bit patterns; `others` stands for the fields that the library never reads.
pub record Position : Type 0 where
  pub latitude_i : Option ℕ
  pub longitude_i : Option ℕ
  pub altitude : Option ℕ
  pub time : ℕ
  pub timestamp : ℕ
  pub precision_bits : ℕ
  pub others : Bytes

abbrev pub empty_position : Position
empty_position = record {
  latitude_i = none;
  longitude_i = none;
  altitude = none;
  time = 0;
  timestamp = 0;
  precision_bits = 0;
  others = [];
}

pub record DeviceMetrics : Type 0 where
  pub battery_level : Option ℕ
  pub voltage : Option ℕ
  pub uptime_seconds : Option ℕ
  pub others : Bytes

pub data TelemetryVariant : Type 0 where
  device_metrics : DeviceMetrics → TelemetryVariant
  host_metrics other_metrics : Bytes → TelemetryVariant
  no_metrics : TelemetryVariant

pub record Telemetry : Type 0 where
  pub time : ℕ
  pub variant : TelemetryVariant

pub record Waypoint : Type 0 where
  pub id : ℕ
  pub expire : ℕ
  pub others : Bytes

pub record MeshBeacon : Type 0 where
  pub message : Bytes
  pub offer_channel : Option ChannelSettings
  pub offer_region : ℕ
  pub offer_preset : Option ℕ

pub record NeighborInfo : Type 0 where
  pub node_id : ℕ
  pub neighbors : List (ℕ × ℕ)
  pub last_sent_by_id : ℕ
  pub node_broadcast_interval_secs : ℕ

pub record MapReport : Type 0 where
  pub long_name : Bytes
  pub short_name : Bytes
  pub role : ℕ
  pub hw_model : ℕ
  pub region : ℕ
  pub modem_preset : ℕ
  pub has_default_channel : Bool
  pub latitude_i : ℕ
  pub longitude_i : ℕ
  pub altitude : ℕ
  pub position_precision : ℕ
  pub num_online_local_nodes : ℕ

abbrev pub empty_map_report : MapReport
empty_map_report = record {
  long_name = [];
  short_name = [];
  role = 0;
  hw_model = 0;
  region = 0;
  modem_preset = 0;
  has_default_channel = false;
  latitude_i = 0;
  longitude_i = 0;
  altitude = 0;
  position_precision = 0;
  num_online_local_nodes = 0;
}

-- SNR values are 32-bit patterns.
pub record RouteDiscovery : Type 0 where
  pub route : List ℕ
  pub snr_towards : List ℕ
  pub route_back : List ℕ
  pub snr_back : List ℕ

-- `GetErrorReason`: 0 is NONE.
pub record Routing : Type 0 where
  pub error_reason : ℕ

pub record NodeInfo : Type 0 where
  pub num : ℕ
  pub user : Option User
  pub position : Option Position
  pub last_heard : ℕ
  pub device_metrics : Option DeviceMetrics
  pub channel : ℕ
  pub has_xeddsa_signed : Bool

abbrev pub new_node_info : ℕ → NodeInfo
new_node_info num = record {
  num = num;
  user = none;
  position = none;
  last_heard = 0;
  device_metrics = none;
  channel = 0;
  has_xeddsa_signed = false;
}

pub data SignaturePolicy : Type 0 where
  compatible balanced strict : SignaturePolicy
