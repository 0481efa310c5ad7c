-- ===== src/Transport/Multi/Examples.antt =====
-- MultiTransport at concrete inputs.
use meshtastic_go.Common.{ℕ, ◌+◌, ◌≡◌, refl, true, false, none, List, [], ◌∷◌, arith}
use meshtastic_go.Common.Dict.{lookup}
use meshtastic_go.Dedupe.{new_deduplicator, packet_key}
use meshtastic_go.Dedupe.Window.{entry}
use meshtastic_go.Fixtures.{signed_packet}
use meshtastic_go.Transport.{connected, from_udp, NetworkPacket}
use meshtastic_go.Transport.Multi.{
  Child, MultiTransport, new_multi_transport, set_packet_handler, set_state_handler, is_connected,
  start_all, send_packet_to_all, handle_child_state,
}
use meshtastic_go.Transport.Multi.Aggregate.{
  Move, comes_up, goes_down, retries, rebinds, errs, put, run_moves, Agrees, Reports,
  run_moves-Agrees, lost_connected,
}
use meshtastic_go.Transport.Multi.Delivery.{Arrival, receive_all, times_delivered, receive_all-once}

abbrev child : Child
child = record { is_up = false; starts = true; stops = true; sends = λ topic p. true }

abbrev multi : MultiTransport
unfolding new_multi_transport
multi = set_state_handler (set_packet_handler (new_multi_transport (child ∷ child ∷ [])))

abbrev moves : List Move
moves = comes_up 0 ∷ comes_up 1 ∷ goes_down 0 ∷ errs 1 ∷ rebinds 1 ∷ retries 1 ∷ []

run_moves-Agrees_example : Agrees true (run_moves moves multi) × Reports 1 (run_moves moves multi)
unfolding new_multi_transport is_connected
run_moves-Agrees_example =
    run_moves-Agrees moves multi false 1
      (omega arith, (omega arith, (omega arith, (omega arith, (omega arith, (omega arith, tt))))))
      (refl, refl)

lost_connected_example :
    let both = put 1 true (put 0 true multi) in
    let reported = handle_child_state 1 connected (handle_child_state 0 connected both) in
    (reported ≡ both) × (is_connected reported ≡ true)
unfolding new_multi_transport
lost_connected_example = lost_connected 0 1 multi (omega arith) (omega arith) (omega arith)

abbrev heard : NetworkPacket
heard = record { packet = signed_packet; channel = []; source = from_udp; gateway_id = [] }

abbrev at : ℕ → Arrival
at clock = record { purge = false; clock = clock; packet = heard }

recorded_none : entry multi.dedup (packet_key 7 12) ≡ none
unfolding new_multi_transport new_deduplicator lookup
recorded_none = refl

receive_all-once_example :
    times_delivered 7 12 (receive_all (at 5 ∷ at 6 ∷ at 7 ∷ []) multi)
    ≡ times_delivered 7 12 multi + 1
unfolding new_multi_transport
receive_all-once_example =
    receive_all-once (at 5) (at 6 ∷ at 7 ∷ []) multi (omega arith) refl recorded_none
      (omega arith, (omega arith, tt))

-- One child that cannot start leaves the transport started; without children there is no error
-- either.
start_one :
    start_all (record multi { transports = record child { starts = false } ∷ child ∷ [] }) ≡ true
unfolding start_all new_multi_transport
start_one = refl

start_empty : start_all (record multi { transports = [] }) ≡ true
unfolding start_all new_multi_transport
start_empty = refl

send_down : send_packet_to_all [] signed_packet multi ≡ false
unfolding send_packet_to_all new_multi_transport
send_down = refl
