-- ===== src/Device/Node/Receive/Pipeline.antt =====
-- The events that an accepted packet gives.
use meshtastic_go.Common.{
  ℕ, ◌≡◌, refl, ap, ◌⊎◌, inl, inr, Bool, true, false, not, ◌&&◌, Option, none, some, List, ◌∷◌,
  ◌==◌, Bool-cases, length,
}
use meshtastic_go.Beacon.{mesh_beacon_has_offer}
use meshtastic_go.Device.Base.{Env, BaseState}
use meshtastic_go.Device.Config.{BaseConfig}
use meshtastic_go.Device.Node.{Config}
use meshtastic_go.Device.Handlers.{
  EventBody, telemetry_updated, Event, NodeState, Via, event_of, store_node_info, store_metrics,
  on_telemetry, on_waypoint, on_mesh_beacon, on_neighbor_info, on_map_report, on_traceroute,
  on_routing,
}
use meshtastic_go.Device.Node.Receive.{respond, dispatch_port, on_node_info, on_position}
use meshtastic_go.NodeDb.{get_device_metrics}
use meshtastic_go.Proto.{
  Data, MeshPacket, Position, DeviceMetrics, Telemetry, Waypoint, MeshBeacon, NeighborInfo,
  MapReport, RouteDiscovery, Routing, User, ProtoCodec, Ciphers, text_message_app, position_app,
  nodeinfo_app, routing_app, waypoint_app, mesh_beacon_app, telemetry_app, traceroute_app,
  neighborinfo_app, map_report_app,
}

respond-events :
    (env : Env) (portnum : ℕ) (pkt : MeshPacket) (d : Data) (reply : BaseState → BaseState)
    (s : NodeState)
    → (respond env portnum pkt d reply s).events ≡ s.events
unfolding respond
respond-events env portnum pkt d reply s = elim (Bool-cases d.want_response) [
  | inl e ↦ rw e refl
  | inr e ↦ rw e refl
]

-- The events after a step: those before it, or one more, with a property.
abbrev pub AtMostOne : (Event → Type 0) → List Event → List Event → Type 0
AtMostOne P before after = (after ≡ before) ⊎ ((e : Event) × P e × (after ≡ e ∷ before))

pub AtMostOne-map :
    (P Q : Event → Type 0) (before after : List Event)
    → ((e : Event) → P e → Q e)
    → AtMostOne P before after
    → AtMostOne Q before after
AtMostOne-map P Q before after f (inl same) = inl same
AtMostOne-map P Q before after f (inr (e, p, more)) = inr (e, f e p, more)

-- The marks, the data and the sender of an event.
abbrev pub HasMarks : Bool → Bool → ℕ → Data → Event → Type 0
HasMarks signed is_pki from d e =
    (e.is_signed ≡ signed) × (e.is_pki ≡ is_pki) × (e.from ≡ from) × (e.raw_data ≡ d)

module _ (codec : ProtoCodec) (c : Ciphers) (b : BaseConfig) (cfg : Config) where
  respond-AtMostOne :
      (env : Env) (portnum : ℕ) (pkt : MeshPacket) (d : Data) (reply : BaseState → BaseState)
      (s t : NodeState) (P : Event → Type 0)
      → AtMostOne P s.events t.events
      → AtMostOne P s.events (respond env portnum pkt d reply t).events
  respond-AtMostOne env portnum pkt d reply s t P h =
      rw (respond-events env portnum pkt d reply t) h

  store-AtMostOne :
      (env : Env) (via : Via) (pkt : MeshPacket) (d : Data) (signed : Bool) (r : User × Bool)
      (s : NodeState)
      → AtMostOne
          (HasMarks signed via.is_pki pkt.from d)
          s.events
          (store_node_info env (event_of env.unix via pkt d signed) pkt.from via.channel r s).events
  unfolding store_node_info
  store-AtMostOne env via pkt d signed (user, false) s = inl refl
  store-AtMostOne env via pkt d signed (user, true) s = inr (_, (refl, refl, refl, refl), refl)

  -- The events of each case of the switch.
  module _ (env : Env) (via : Via) (pkt : MeshPacket) (d : Data) (signed : Bool)
      (s : NodeState) where
    abbrev evt : EventBody → Event
    evt body = event_of env.unix via pkt d signed body

    abbrev One : NodeState → Type 0
    One t = AtMostOne (HasMarks signed via.is_pki pkt.from d) s.events t.events

    on_node_info-One :
        (o : Option User) → One (on_node_info codec c b cfg env via pkt d signed evt o s)
    on_node_info-One none = inl refl
    on_node_info-One (some user) =
        respond-AtMostOne env nodeinfo_app pkt d _ s _ _ (store-AtMostOne env via pkt d signed _ s)

    on_position-One : (o : Option Position) → One (on_position codec c b cfg env pkt d evt o s)
    on_position-One none = inl refl
    on_position-One (some pos) =
        respond-AtMostOne env position_app pkt d _ s _ _ (inr (_, (refl, refl, refl, refl), refl))

    store_metrics-events :
        (o : Option DeviceMetrics) → (store_metrics env pkt.from o s).events ≡ s.events
    store_metrics-events none = refl
    store_metrics-events (some m) = refl

    on_telemetry-One : (o : Option Telemetry) → One (on_telemetry env pkt evt o s)
    on_telemetry-One none = inl refl
    on_telemetry-One (some tel) =
        let e : Event = evt (telemetry_updated tel) in
        inr (
          e,
          (refl, refl, refl, refl),
          ap (λ l. e ∷ l) (store_metrics-events (get_device_metrics tel.variant)),
        )

    on_waypoint-One : (o : Option Waypoint) → One (on_waypoint env evt o s)
    on_waypoint-One none = inl refl
    on_waypoint-One (some wp) = inr (_, (refl, refl, refl, refl), refl)

    on_mesh_beacon-One : (o : Option MeshBeacon) → One (on_mesh_beacon evt o s)
    on_mesh_beacon-One none = inl refl
    on_mesh_beacon-One (some beacon) =
        elim (Bool-cases
          (length beacon.message == 0 && not (mesh_beacon_has_offer (some beacon)))) [
            | inl e ↦ rw e (inl refl)
            | inr e ↦ rw e (inr (_, (refl, refl, refl, refl), refl))
          ]

    on_neighbor_info-One : (o : Option NeighborInfo) → One (on_neighbor_info evt o s)
    on_neighbor_info-One none = inl refl
    on_neighbor_info-One (some ni) = inr (_, (refl, refl, refl, refl), refl)

    on_map_report-One : (o : Option MapReport) → One (on_map_report env pkt evt o s)
    on_map_report-One none = inl refl
    on_map_report-One (some mr) = inr (_, (refl, refl, refl, refl), refl)

    on_traceroute-One : (o : Option RouteDiscovery) → One (on_traceroute d evt o s)
    on_traceroute-One none = inl refl
    on_traceroute-One (some rd) = inr (_, (refl, refl, refl, refl), refl)

    on_routing-One : (o : Option Routing) → One (on_routing d evt o s)
    on_routing-One none = inl refl
    on_routing-One (some routing) = inr (_, (refl, refl, refl, refl), refl)

    pub dispatch_port-One : One (dispatch_port codec c b cfg env via pkt d signed s)
    unfolding dispatch_port
    dispatch_port-One = elim (Bool-cases (d.portnum == nodeinfo_app)) [
      | inl e ↦ rw e (on_node_info-One (codec.unmarshal_user d.payload))
      | inr e ↦ rw e (elim (Bool-cases (d.portnum == position_app)) [
        | inl e ↦ rw e (on_position-One (codec.unmarshal_position d.payload))
        | inr e ↦ rw e (elim (Bool-cases (d.portnum == telemetry_app)) [
          | inl e ↦ rw e (on_telemetry-One (codec.unmarshal_telemetry d.payload))
          | inr e ↦ rw e (elim (Bool-cases (d.portnum == text_message_app)) [
            | inl e ↦ rw e (inr (_, (refl, refl, refl, refl), refl))
            | inr e ↦ rw e (elim (Bool-cases (d.portnum == waypoint_app)) [
              | inl e ↦ rw e (on_waypoint-One (codec.unmarshal_waypoint d.payload))
              | inr e ↦ rw e (elim (Bool-cases (d.portnum == mesh_beacon_app)) [
                | inl e ↦ rw e (on_mesh_beacon-One (codec.unmarshal_mesh_beacon d.payload))
                | inr e ↦ rw e (elim (Bool-cases (d.portnum == neighborinfo_app)) [
                  | inl e ↦ rw e (on_neighbor_info-One (codec.unmarshal_neighbor_info d.payload))
                  | inr e ↦ rw e (elim (Bool-cases (d.portnum == map_report_app)) [
                    | inl e ↦ rw e (on_map_report-One (codec.unmarshal_map_report d.payload))
                    | inr e ↦ rw e (elim (Bool-cases (d.portnum == traceroute_app)) [
                      | inl e ↦ rw e (on_traceroute-One (codec.unmarshal_route_discovery d.payload))
                      | inr e ↦ rw e (elim (Bool-cases (d.portnum == routing_app)) [
                        | inl e ↦ rw e (on_routing-One (codec.unmarshal_routing d.payload))
                        | inr e ↦ rw e (inr (_, (refl, refl, refl, refl), refl))
                      ])
                    ])
                  ])
                ])
              ])
            ])
          ])
        ])
      ])
    ]
