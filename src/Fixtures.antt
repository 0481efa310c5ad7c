-- ===== src/Fixtures.antt =====
-- A small serialisation and toy ciphers, to run the definitions at concrete inputs.
use meshtastic_go.Common.{
  ◌+◌, ◌-◌, true, false, Option, none, some, [], ◌∷◌, ◌++◌, map, length, take, replicate, Bytes,
  bytes_eq, text,
}
use meshtastic_go.Proto.{
  Data, empty_data, MeshPacket, empty_packet, decoded, empty_user, empty_position, no_metrics,
  ProtoCodec, Ciphers, strict,
}
use meshtastic_go.NodeDb.{NodeDb}
use meshtastic_go.Device.Config.{BaseConfig}

-- A port and a payload as one byte string.
abbrev parse_data : Bytes → Option Data
parse_data [] = none
parse_data (p ∷ rest) = some (record empty_data { portnum = p; payload = rest })

abbrev pub test_codec : ProtoCodec
test_codec = record {
  marshal_data = λ d. some (d.portnum ∷ d.payload);
  unmarshal_data = parse_data;
  size_data = λ d. length d.payload + length d.xeddsa_signature;
  marshal_user = λ u. some u.public_key;
  unmarshal_user = λ bs. some (record empty_user { public_key = bs });
  marshal_position = λ p. some p.others;
  unmarshal_position = λ bs. some (record empty_position { others = bs });
  marshal_telemetry = λ t. some [];
  unmarshal_telemetry = λ bs. some (record { time = 0; variant = no_metrics });
  unmarshal_waypoint = λ bs. some (record { id = 1; expire = 0; others = bs });
  unmarshal_mesh_beacon = λ bs.
      some (record { message = bs; offer_channel = none; offer_region = 0; offer_preset = none });
  unmarshal_neighbor_info = λ bs. none;
  unmarshal_map_report = λ bs. none;
  unmarshal_route_discovery =
      λ bs. some (record { route = bs; snr_towards = []; route_back = []; snr_back = [] });
  unmarshal_routing = λ bs. some (record { error_reason = 0 });
  marshal_waypoint = λ w. some w.others;
  marshal_mesh_beacon = λ b. some b.message;
  marshal_neighbor_info = λ n. some (map (λ p. p.0) n.neighbors);
  marshal_map_report = λ m. some m.long_name;
  marshal_route_discovery = λ r. some r.route;
  marshal_routing = λ r. some (r.error_reason ∷ []);
  canonical_size = λ portnum bs. some (length bs);
}

-- Ciphers that do not hide anything; every signature of 64 zeros verifies.
abbrev pub test_ciphers : Ciphers
test_ciphers = record {
  ctr = λ key iv plain. plain;
  x25519 = λ private public. some (replicate 32 0);
  sha256 = λ bs. replicate 32 0;
  ccm_seal = λ key nonce plain. plain ++ replicate 8 0;
  ccm_open = λ key nonce cipher. some (take (length cipher - 8) cipher);
  sign = λ key message. some (replicate 64 0);
  verify = λ key message signature. bytes_eq signature (replicate 64 0);
}

abbrev pub test_key : Bytes
test_key = replicate 32 5

-- A node with id 9 that knows one key for every node.
abbrev pub test_base : BaseConfig
test_base = record {
  node_id = 9;
  ok_to_mqtt = true;
  hop_limit = 3;
  primary = record { name = text "Main"; key_string = []; key_bytes = replicate 16 1; hash = 8 };
  has_db = true;
  signature_policy = strict;
  licensed = false;
  private_key_for = some (λ id. some test_key);
  public_key_for = some (λ db id. some test_key);
}

abbrev pub test_db : NodeDb
test_db = record { self_node = 9; long_name = []; short_name = []; nodes = []; channels = [] }

abbrev pub signed_data : Data
signed_data = record empty_data {
  portnum = 1;
  payload = text "hi";
  xeddsa_signature = replicate 64 0;
}

abbrev pub signed_packet : MeshPacket
signed_packet = record empty_packet {
  from = 7;
  to = 0xFFFF_FFFF;
  id = 12;
  payload_variant = decoded signed_data;
}
