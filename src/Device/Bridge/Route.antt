-- ===== src/Device/Bridge/Route.antt =====
-- device/node/bridge_responders.go: the route of a traceroute that the bridge answers or passes on.
pub mod Recorded
use meshtastic_go.Common.{
  ℕ, zero, suc, ◌+◌, ◌-◌, ◌*◌, ◌/◌, ◌%◌, ◌^◌, ◌≤◌, ◌<◌, bit_and, bit_or, bit_xor, ◌≡◌, refl, sym,
  ap, ◌∙◌, ◌≢◌, ◌↔◌, ◌⊎◌, inl, inr, Bool, true, false, not, ◌&&◌, ◌||◌, Option, none, some, List,
  [], ◌∷◌, ◌++◌, map, arith, ltb, leb, ◌==◌, if◌then◌else◌, bool_eq, ==_iff, ==_refl, Bool-cases,
  Option-cases, is_some, length, get_elem?, get_or, take, drop, replicate, select, find_first, All,
  length-append, Bytes, bytes_eq, bytes_eq_iff, bytes_eq_refl, text,
}
use meshtastic_go.Channel.{ChannelDef}
use meshtastic_go.NodeId.{broadcast_node_id}
use meshtastic_go.Proto.{RouteDiscovery}

-- eventContext. `rx_snr` is the float32 by its bits.
pub record EventContext : Type 0 where
  pub from : ℕ
  pub to : ℕ
  pub via : ℕ
  pub packet_id : ℕ
  pub channel_name : Bytes
  pub channel : Option ChannelDef
  pub want_ack : Bool
  pub hop_start : ℕ
  pub hop_limit : ℕ
  pub rx_snr : ℕ

-- `math.MinInt8` as a 32-bit pattern.
abbrev pub unknown_snr : ℕ
unknown_snr = 2 ^ 32 - 128

-- `slices.Contains`
abbrev pub contains : ℕ → List ℕ → Bool
contains id [] = false
contains id (x ∷ l) = x == id || contains id l

-- One direction of a route: the nodes and their SNR.
pub record Leg : Type 0 where
  pub route : List ℕ
  pub snr : List ℕ

-- `forward` is `true` for the route towards the destination.
abbrev pub leg : Bool → RouteDiscovery → Leg
leg true disco = record { route = disco.route; snr = disco.snr_towards }
leg false disco = record { route = disco.route_back; snr = disco.snr_back }

abbrev pub with_leg : Bool → Leg → RouteDiscovery → RouteDiscovery
with_leg true l disco = record disco { route = l.route; snr_towards = l.snr }
with_leg false l disco = record disco { route_back = l.route; snr_back = l.snr }

-- A loop that appends `x` `n` times.
unfoldable pub append_times : ℕ → ℕ → List ℕ → List ℕ
append_times zero x l = l
append_times (suc n) x l = append_times n x (l ++ (x ∷ []))

-- The two loops: they run until the lists have the length of the hops taken and of the route.
unfoldable pub pad_leg : ℕ → Leg → Leg
unfolding append_times
pad_leg hops_taken l =
    let route = append_times (hops_taken - length l.route) broadcast_node_id l.route in
    record { route = route; snr = append_times (length route - length l.snr) unknown_snr l.snr }

unfoldable pub insert_in : EventContext → Leg → Leg
unfolding pad_leg
insert_in evt l =
    if evt.hop_start == 0 || ltb evt.hop_start evt.hop_limit
    then l
    else pad_leg (evt.hop_start - evt.hop_limit) l

unfoldable pub add_node : ℕ → ℕ → Leg → Leg
add_node id snr l =
    if contains id l.route
    then l
    else record { route = l.route ++ (id ∷ []); snr = l.snr ++ (snr ∷ []) }

abbrev pub insert_unknown_hops : EventContext → Bool → RouteDiscovery → RouteDiscovery
insert_unknown_hops evt forward disco = with_leg forward (insert_in evt (leg forward disco)) disco

abbrev pub add_node_to_route_if_missing : ℕ → ℕ → Bool → RouteDiscovery → RouteDiscovery
add_node_to_route_if_missing id snr forward disco =
    with_leg forward (add_node id snr (leg forward disco)) disco

-- The bridge stands before a destination other than itself.
unfoldable pub add_bridge : ℕ → EventContext → Leg → Leg
unfolding add_node
add_bridge bridge evt l = if evt.to == bridge then l else add_node bridge 0 l

abbrev add_bridge_to_route : ℕ → EventContext → Bool → RouteDiscovery → RouteDiscovery
add_bridge_to_route bridge evt forward disco =
    with_leg forward (add_bridge bridge evt (leg forward disco)) disco

-- `quarters` is the conversion of a float32 in dB to quarters of a dB, `int32(snr * 4)`.
module _ (quarters : ℕ → ℕ) where
  unfoldable pub add_gateway : EventContext → Leg → Leg
  unfolding add_node
  add_gateway evt l =
      if evt.via == 0 || evt.via == evt.from then l else add_node evt.via (quarters evt.rx_snr) l

  abbrev pub add_gateway_to_route : EventContext → Bool → RouteDiscovery → RouteDiscovery
  add_gateway_to_route evt forward disco =
      with_leg forward (add_gateway evt (leg forward disco)) disco

  -- handleTracerouteRequest: the route that goes into the answer. `bridge` is the bridge's own id.
  unfoldable pub answered_route : ℕ → EventContext → RouteDiscovery → RouteDiscovery
  unfolding insert_in add_gateway add_bridge
  answered_route bridge evt disco =
      let filled = add_gateway_to_route evt true (insert_unknown_hops evt true disco) in
      let relayed =
        add_bridge_to_route bridge evt false (add_bridge_to_route bridge evt true filled) in
      record relayed { snr_towards = relayed.snr_towards ++ (0 ∷ []) }

  -- handleTracerouteResponse for a managed node.
  unfoldable pub returned_route : ℕ → EventContext → RouteDiscovery → RouteDiscovery
  unfolding insert_in add_gateway add_bridge
  returned_route bridge evt disco =
      let filled = add_gateway_to_route evt false (insert_unknown_hops evt false disco) in
      let relayed = add_bridge_to_route bridge evt false filled in
      record relayed { snr_back = relayed.snr_back ++ (0 ∷ []) }
