-- ===== src/Proto/Codec.antt =====
-- The third-party serialisation and cryptography that the library calls, as parameters.
use meshtastic_go.Common.{ℕ, Bool, Option, Bytes}
use meshtastic_go.Proto.Messages.{
  Data, User, Position, Telemetry, Waypoint, MeshBeacon, NeighborInfo, MapReport, RouteDiscovery,
  Routing,
}

-- google.golang.org/protobuf: `none` is an error of Marshal or Unmarshal.
pub record ProtoCodec : Type 0 where
  pub marshal_data : Data → Option Bytes
  pub unmarshal_data : Bytes → Option Data
  pub size_data : Data → ℕ
  pub marshal_user : User → Option Bytes
  pub unmarshal_user : Bytes → Option User
  pub marshal_position : Position → Option Bytes
  pub unmarshal_position : Bytes → Option Position
  pub marshal_telemetry : Telemetry → Option Bytes
  pub unmarshal_telemetry : Bytes → Option Telemetry
  pub unmarshal_waypoint : Bytes → Option Waypoint
  pub unmarshal_mesh_beacon : Bytes → Option MeshBeacon
  pub unmarshal_neighbor_info : Bytes → Option NeighborInfo
  pub unmarshal_map_report : Bytes → Option MapReport
  pub unmarshal_route_discovery : Bytes → Option RouteDiscovery
  pub unmarshal_routing : Bytes → Option Routing
  pub marshal_waypoint : Waypoint → Option Bytes
  pub marshal_mesh_beacon : MeshBeacon → Option Bytes
  pub marshal_neighbor_info : NeighborInfo → Option Bytes
  pub marshal_map_report : MapReport → Option Bytes
  pub marshal_route_discovery : RouteDiscovery → Option Bytes
  pub marshal_routing : Routing → Option Bytes
  -- The size of the payload of a typed port once unknown fields are dropped, by port number.
  pub canonical_size : ℕ → Bytes → Option ℕ

-- The ciphers and curves of crypto/*, golang.org/x/crypto, pion/dtls and filippo.io/edwards25519.
pub record Ciphers : Type 0 where
  -- AES-CTR by key, iv and text; the key has one of the lengths that AES takes
  pub ctr : Bytes → Bytes → Bytes → Bytes
  -- X25519 by private and public key
  pub x25519 : Bytes → Bytes → Option Bytes
  pub sha256 : Bytes → Bytes
  -- AES-CCM by key, nonce and text
  pub ccm_seal : Bytes → Bytes → Bytes → Bytes
  pub ccm_open : Bytes → Bytes → Bytes → Option Bytes
  -- XEdDSA by a 32-byte key: private key, message; public key, message, 64-byte signature
  pub sign : Bytes → Bytes → Option Bytes
  pub verify : Bytes → Bytes → Bytes → Bool
