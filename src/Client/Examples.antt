-- ===== src/Client/Examples.antt =====
-- A client at concrete inputs.
use meshtastic_go.Common.{◌≡◌, refl, true, false, List, [], ◌∷◌, text}
use meshtastic_go.Client.{
  empty_state, ClientTransport, request_config, read_messages, finish_connect,
}
use meshtastic_go.Client.Reconnect.{read_messages-waits}
use meshtastic_go.Client.Handshake.{served, finish_connect-served}
use meshtastic_go.ClientApi.{ServerConfig, handshake}
use meshtastic_go.Fixtures.{test_db}
use meshtastic_go.NodeDb.{NodeDb}
use meshtastic_go.Proto.{new_node_info, FromRadio, radio_config_complete_id, radio_rebooted}

abbrev fresh : ClientTransport
fresh = record {
  state = empty_state;
  connected_flag = false;
  signalled = false;
  packet_handler = true;
  state_handler = true;
  handled = [];
  received = [];
  told = [];
}

abbrev server : ServerConfig
server = record {
  node_id = 9;
  channels = record { name = text "Main"; psk = 1 ∷ []; position_precision = 0 } ∷ [];
  node_info_broadcast_secs = 900;
}

abbrev known : NodeDb
known = record test_db { nodes = (7, new_node_info 7) ∷ [] }

finish_connect-served_example :
    let t' = finish_connect (read_messages (handshake server known 42) (request_config 42 fresh)) in
    (t'.connected_flag ≡ true)
    × (t'.state ≡ served server known 42)
    × (t'.handled ≡ fresh.handled)
    × (t'.received ≡ fresh.received)
finish_connect-served_example = finish_connect-served server known 42 fresh refl

abbrev used : ClientTransport
used = record fresh { state = record empty_state { complete = true } }

abbrev messages : List FromRadio
messages = radio_rebooted true ∷ radio_config_complete_id 5 ∷ []

read_messages-waits_example :
    finish_connect (read_messages messages (request_config 5 used))
    ≡ read_messages messages (request_config 5 used)
read_messages-waits_example = read_messages-waits 5 messages used refl
