-- ===== src/Proto.antt =====
-- core/proto: the messages and enumeration values that the library reads and writes. The files
-- there are generated; a message is a record of the fields in use, and a missing pointer is `none`.
mod Ports
mod Messages
mod Codec
mod Radio
pub use Radio.*
pub use Ports.*
pub use Messages.{
  ChannelSettings, Data, empty_data, Payload, MeshPacket, empty_packet, get_decoded, User,
  empty_user, Position, empty_position, DeviceMetrics, TelemetryVariant, Telemetry, Waypoint,
  MeshBeacon, NeighborInfo, MapReport, empty_map_report, RouteDiscovery, Routing, NodeInfo,
  new_node_info, SignaturePolicy, decoded, encrypted, unset, device_metrics, host_metrics,
  other_metrics, no_metrics, compatible, balanced, strict,
}
pub use Codec.{ProtoCodec, Ciphers}
