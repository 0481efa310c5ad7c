-- ===== src/Device/Bridge/Examples.antt =====
-- A bridge at concrete inputs.
use meshtastic_go.Common.{
  ℕ, List, ◌++◌, replicate, ◌≤◌, ◌≡◌, refl, true, false, ◌&&◌, ◌||◌, none, some, [], ◌∷◌, arith,
  ltb, leb, ◌==◌, length, text,
}
use meshtastic_go.Common.Dict.{lookup}
use meshtastic_go.Crypto.Packet.{ok}
use meshtastic_go.Dedupe.{new_deduplicator}
use meshtastic_go.Device.Base.{Env, BaseState}
use meshtastic_go.Device.Base.Pacing.{IsPaced}
use meshtastic_go.Device.Bridge.{BridgeConfig, BridgeEnv}
use meshtastic_go.Device.Bridge.Receive.{bridge_incoming_packet, dispatch_bridge}
use meshtastic_go.Device.Bridge.Receive.Echo.{ignored, echo-ignored}
use meshtastic_go.Device.Bridge.Receive.Quiet.{OnlyDb, dispatch-OnlyDb}
use meshtastic_go.Device.Bridge.Receive.Safe.{bridge-panic}
use meshtastic_go.Device.Bridge.Route.{EventContext, contains, answered_route, returned_route}
use meshtastic_go.Device.Bridge.Route.Recorded.{
  Starts, hops_taken, answered_route-Recorded, returned_route-Recorded,
}
use meshtastic_go.Device.Bridge.Request.{BridgeSend, plain_send, encrypt_psk}
use meshtastic_go.Device.Bridge.Send.{send_as}
use meshtastic_go.Device.Bridge.Send.NodeInfo.{send_node_info_as}
use meshtastic_go.Device.Bridge.Send.Safe.{Adds, send_as-IsPaced}
use meshtastic_go.Device.Node.Options.{apply_from}
use meshtastic_go.Device.Handlers.{NodeState, Via}
use meshtastic_go.Device.Node.Receive.Safe.{is_panic}
use meshtastic_go.Fixtures.{test_codec, test_ciphers, test_base, test_db, signed_packet}
use meshtastic_go.Proto.{Data, empty_data, RouteDiscovery, compatible, telemetry_app}
use meshtastic_go.Throttle.{new_request_throttle}
use meshtastic_go.Transport.{from_udp, NetworkPacket}

-- A bridge with id 9 that manages itself and the nodes from 100 to 199.
abbrev config : BridgeConfig
config = record {
  has_transport = true;
  node_id = 9;
  long_name = text "Bridge";
  short_name = text "B";
  hw_model = 255;
  channels = some (record { name = text "Main"; psk = 1 ∷ []; position_precision = 0 } ∷ []);
  default_hop_limit = 3;
  ok_to_mqtt = true;
  is_managed_node = some (λ id. id == 9 || leb 100 id && ltb id 200);
  private_key_for_node = none;
  public_key_for_node = none;
  signature_policy = compatible;
  licensed = false;
  node_info_for_node =
      some (λ id. some (record { long_name = text "N"; short_name = []; public_key = [] }));
  neighbor_provider = none;
  neighbor_broadcast_interval = 0;
  host_metrics_provider = none;
  start_time = 0;
}

abbrev env : Env
env = record { unix = 1000; clock = 500; seed = 3; high = 5; transmits = λ topic p. true }

abbrev world : BridgeEnv
world = record { first = env; second = env; draw = 4 }

abbrev base : BaseState
base = record {
  channels = record { order = []; by_hash = []; by_name = [] };
  dedup = new_deduplicator 7;
  packet_ids = record { counter = 0 };
  throttle = new_request_throttle;
  db = test_db;
  last_send = none;
  sent = [];
}

abbrev state : NodeState
state = record { base = base; events = []; dispatched = [] }

abbrev call : BridgeSend
call = plain_send 100 7 1 (text "hi") encrypt_psk

-- A bridge that has sent two packets, the last of them 100 ms ago.
abbrev busy : BaseState
busy = record base {
  last_send = some 400_000_000;
  sent =
      record { topic = text "Main"; at = 400_000_000; packet = signed_packet }
      ∷ record { topic = text "Main"; at = 100_000_000; packet = signed_packet }
      ∷ [];
}

send_as-IsPaced_example :
    IsPaced
      (send_as test_codec test_ciphers test_base config
        (record env { clock = 500_000_000 })
        4
        call
        busy).0
send_as-IsPaced_example =
    send_as-IsPaced test_codec test_ciphers test_base config (record env { clock = 500_000_000 }) 4
      call busy (omega arith) (refl, omega arith, refl)

echo-ignored_example :
    Adds test_codec test_ciphers test_base config
      (λ p.
        let net : NetworkPacket = record {
          packet = p;
          channel = [];
          source = from_udp;
          gateway_id = [];
        } in
        bridge_incoming_packet test_codec test_ciphers test_base config
          (λ snr. 0)
          world
          false
          net
          state
        ≡ ok (ignored test_codec test_ciphers test_base config (λ snr. 0) false world net state))
      []
      (send_as test_codec test_ciphers test_base config env 4 call base).0.sent
echo-ignored_example =
    echo-ignored test_codec test_ciphers test_base config (λ snr. 0) env 4 call base world false []
      [] from_udp state (omega arith)

abbrev net : NetworkPacket
net = record {
  packet = record signed_packet { to = 50 };
  channel = [];
  source = from_udp;
  gateway_id = [];
}

abbrev via : Via
via = record { channel = none; name = text "Main"; is_pki = false }

abbrev request : Data
request = record empty_data { portnum = telemetry_app; want_response = true }

dispatch-OnlyDb_example : OnlyDb state (
    dispatch_bridge test_codec test_ciphers test_base config
      (λ snr. 0)
      world
      net
      via
      0
      request
      true
      state)
dispatch-OnlyDb_example =
    dispatch-OnlyDb test_codec test_ciphers test_base config (λ snr. 0) world net via 0 request true
      state refl refl

bridge-panic_example :
    is_panic (
      bridge_incoming_packet test_codec test_ciphers test_base config
        (λ snr. 0)
        world
        false
        net
        state)
    ≡ false
bridge-panic_example =
    bridge-panic test_codec test_ciphers test_base config (λ snr. 0) world false net state refl

-- A bridge with a key for the node whose id it derives.
abbrev keyed : BridgeConfig
keyed = record config {
  is_managed_node = some (λ id. id == 2_748_851_403);
  node_info_for_node =
      some (λ id.
        some (record { long_name = text "N"; short_name = []; public_key = replicate 32 7 }));
}

announced :
    let sent =
      send_node_info_as test_codec test_ciphers test_base keyed env 4 2_748_851_403 7 [] base in
    length sent.0.sent ≡ 1
unfolding send_node_info_as apply_from lookup
announced = refl

-- A request from node 5 for the managed node 100, three hops away, that gateway 6 delivered.
abbrev heard : EventContext
heard = record {
  from = 5;
  to = 100;
  via = 6;
  packet_id = 1;
  channel_name = text "Main";
  channel = none;
  want_ack = false;
  hop_start = 5;
  hop_limit = 2;
  rx_snr = 0;
}

abbrev recorded : RouteDiscovery
recorded = record { route = 7 ∷ []; snr_towards = 20 ∷ []; route_back = []; snr_back = [] }

answered_route-Recorded_example :
    let answer = answered_route (λ snr. 0) 9 heard recorded in
    Starts recorded.route answer.route
    × Starts recorded.route_back answer.route_back
    × Starts recorded.snr_back answer.snr_back
    × ((measured : List ℕ) × Starts recorded.snr_towards measured
        × (length measured ≡ length answer.route)
        × (answer.snr_towards ≡ measured ++ (0 ∷ [])))
    × (length answer.snr_back ≡ length answer.route_back)
    × (hops_taken heard ≤ length answer.route)
    × ((heard.via == 0 || heard.via == heard.from) || contains heard.via answer.route ≡ true)
    × (heard.to == 9 || contains 9 answer.route ≡ true)
    × (heard.to == 9 || contains 9 answer.route_back ≡ true)
answered_route-Recorded_example = answered_route-Recorded (λ snr. 0) 9 heard recorded refl refl

returned_route-Recorded_example :
    let passed = returned_route (λ snr. 0) 9 heard recorded in
    (passed.route ≡ recorded.route)
    × (passed.snr_towards ≡ recorded.snr_towards)
    × Starts recorded.route_back passed.route_back
    × ((measured : List ℕ) × Starts recorded.snr_back measured
        × (length measured ≡ length passed.route_back)
        × (passed.snr_back ≡ measured ++ (0 ∷ [])))
    × (hops_taken heard ≤ length passed.route_back)
    × ((heard.via == 0 || heard.via == heard.from) || contains heard.via passed.route_back ≡ true)
    × (heard.to == 9 || contains 9 passed.route_back ≡ true)
returned_route-Recorded_example = returned_route-Recorded (λ snr. 0) 9 heard recorded refl

-- The route of the answer: the recorded node, two silent hops, the gateway and the bridge.
full_route :
    (answered_route (λ snr. 0) 9 heard recorded).route ≡ 7 ∷ 0xFFFF_FFFF ∷ 0xFFFF_FFFF ∷ 6 ∷ 9 ∷ []
unfolding answered_route
full_route = refl
